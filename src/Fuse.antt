-- ===== src/Fuse.antt =====
-- The FUSE front end: the handlers of fuse.cc over the operations of yfs_client.cc. A request gets a
-- list of replies. What fuse_add_dirent writes for a name and a number is a parameter.
pub mod Replies
use frangipani_yfs.Prelude.{
  ℕ, ◌+◌, ◌-◌, Bool, true, false, not, [], ◌∷◌, ◌++◌, List, Bytes, ltb, ◌==◌, if◌then◌else◌, Option,
  none, some, length, drop, take,
}
use frangipani_yfs.Extent.Protocol.{Status, ok, noent, ioerr, Attr}
use frangipani_yfs.Extent.Client.{is_ok}
use frangipani_yfs.Yfs.Directory.{Dirent}
use frangipani_yfs.Yfs.Client.{
  Store, isfile, isdir, getfile, ilookup, add_entry_to_filesystem, readdir, setsize, write, read,
  unlink,
}

-- struct stat, after bzero: the mode and the link count follow from `is_dir`.
pub record Stat : Type 0 where
  pub st_ino : ℕ
  pub is_dir : Bool
  pub st_atime : ℕ
  pub st_mtime : ℕ
  pub st_ctime : ℕ
  pub st_size : ℕ

pub data Error : Type 0 where
  none_err enoent enosys enotdir : Error

pub data Reply : Type 0 where
  error : Error → Reply
  attr : Stat → Reply
  -- a buffer, and the number of bytes that the kernel takes from it
  buf : Bytes → ℕ → Reply
  written : ℕ → Reply
  entry create : ℕ → Stat → Reply
  opened : Reply

-- The information that getattr copies; the size of a directory stays 0.
unfoldable pub stat_of : ℕ → Attr → Stat
unfolding isfile
stat_of i a = record {
  st_ino = i;
  is_dir = not (isfile i);
  st_atime = a.atime;
  st_mtime = a.mtime;
  st_ctime = a.ctime;
  st_size = if isfile i then a.size else 0;
}

-- reply_buf_limited
unfoldable pub limited : Bytes → ℕ → ℕ → Reply
limited b off maxsize =
    if ltb off (length b)
    then buf (drop off b) (if ltb (length b - off) maxsize then length b - off else maxsize)
    else buf [] 0

unfoldable pub dirbuf : (Bytes → ℕ → Bytes) → List Dirent → Bytes
dirbuf pack [] = []
dirbuf pack (e ∷ es) = pack e.name e.inum ++ dirbuf pack es

module _ (w : Store) where
  unfoldable pub with_stat : ℕ → Status × Option Attr × w.State → Option Stat × w.State
  unfolding stat_of
  with_stat i (st, none, s) = (none, s)
  with_stat i (st, some a, s) = (some (stat_of i a), s)

  -- getattr
  unfoldable pub getattr : ℕ → w.State → Option Stat × w.State
  unfolding with_stat
  getattr i s = with_stat i (getfile w i s)

  abbrev pub Replies : Type 0
  Replies = List Reply × w.State

  unfoldable pub or_enoent : (Stat → Reply) → Option Stat × w.State → Replies
  or_enoent f (none, s) = (error enoent ∷ [], s)
  or_enoent f (some st, s) = (f st ∷ [], s)

  unfoldable pub fuseserver_getattr : ℕ → w.State → Replies
  unfolding getattr or_enoent
  fuseserver_getattr i s = or_enoent attr (getattr i s)

  unfoldable pub sized : ℕ → Status × w.State → Replies
  unfolding getattr or_enoent
  sized i (st, s) = if is_ok st then or_enoent attr (getattr i s) else (error enoent ∷ [], s)

  -- `size` is there when FUSE_SET_ATTR_SIZE is set.
  unfoldable pub fuseserver_setattr : ℕ → Option ℕ → w.State → Replies
  unfolding sized
  fuseserver_setattr i none s = (error enosys ∷ [], s)
  fuseserver_setattr i (some size) s = sized i (setsize w i size s)

  unfoldable pub data_of : ℕ → Status × Bytes × w.State → Replies
  data_of size (st, b, s) = if is_ok st then (buf b size ∷ [], s) else (error enoent ∷ [], s)

  unfoldable pub fuseserver_read : ℕ → ℕ → ℕ → w.State → Replies
  unfolding data_of
  fuseserver_read i size off s = data_of size (read w i size off s)

  unfoldable pub count_of : ℕ → Status × w.State → Replies
  count_of size (st, s) = if is_ok st then (written size ∷ [], s) else (error enoent ∷ [], s)

  unfoldable pub fuseserver_write : ℕ → Bytes → ℕ → w.State → Replies
  unfolding count_of
  fuseserver_write i b off s = count_of (length b) (write w i b off s)

  -- fuseserver_createhelper: the entry that it fills in. The outer option is the choice of a number.
  abbrev pub Made : Type 0
  Made = Option (ℕ × Stat) × w.State

  unfoldable pub filled : ℕ → Option Stat × w.State → Made
  filled i (none, s) = (none, s)
  filled i (some st, s) = (some (i, st), s)

  unfoldable pub after_create : Option (Status × ℕ × w.State) → Option Made
  unfolding filled getattr
  after_create none = none
  after_create (some (st, i, s)) =
      if is_ok st then some (filled i (getattr i s)) else some (none, s)

  unfoldable pub looked_up : (ℕ → ℕ) → ℕ → ℕ → Bytes → ℕ × w.State → Option Made
  unfolding filled getattr after_create
  looked_up draw f parent name (i, s) =
      if i == 0
      then after_create (add_entry_to_filesystem w draw f parent 0 name true s)
      else some (filled i (getattr i s))

  unfoldable pub in_directory :
      (ℕ → ℕ) → ℕ → ℕ → Bytes → Status × Option Attr × w.State → Option Made
  unfolding looked_up
  in_directory draw f parent name (st, a, s) =
      if is_ok st then looked_up draw f parent name (ilookup w parent name s) else some (none, s)

  unfoldable pub createhelper : (ℕ → ℕ) → ℕ → ℕ → Bytes → w.State → Option Made
  unfolding in_directory
  createhelper draw f parent name s =
      if isdir parent then in_directory draw f parent name (getfile w parent s) else some (none, s)

  unfoldable pub made_reply : (ℕ → Stat → Reply) → Option Made → Option Replies
  made_reply f none = none
  made_reply f (some (none, s)) = some (error enoent ∷ [], s)
  made_reply f (some (some (i, st), s)) = some (f i st ∷ [], s)

  unfoldable pub fuseserver_create : (ℕ → ℕ) → ℕ → ℕ → Bytes → w.State → Option Replies
  unfolding createhelper made_reply
  fuseserver_create draw f parent name s = made_reply create (createhelper draw f parent name s)

  unfoldable pub fuseserver_mknod : (ℕ → ℕ) → ℕ → ℕ → Bytes → w.State → Option Replies
  unfolding createhelper made_reply
  fuseserver_mknod draw f parent name s = made_reply entry (createhelper draw f parent name s)

  unfoldable pub entry_of : ℕ × w.State → Replies
  unfolding getattr or_enoent
  entry_of (i, s) = if i == 0 then (error enoent ∷ [], s) else or_enoent (entry i) (getattr i s)

  unfoldable pub fuseserver_lookup : ℕ → Bytes → w.State → Replies
  unfolding entry_of
  fuseserver_lookup parent name s = entry_of (ilookup w parent name s)

  unfoldable pub listing : (Bytes → ℕ → Bytes) → ℕ → ℕ → Status × List Dirent × w.State → Replies
  unfolding limited dirbuf
  listing pack size off (st, es, s) = (limited (dirbuf pack es) off size ∷ [], s)

  -- `unset` is the number that a name which is not one is read as.
  unfoldable pub fuseserver_readdir : (Bytes → ℕ → Bytes) → ℕ → ℕ → ℕ → ℕ → w.State → Replies
  unfolding listing
  fuseserver_readdir pack unset i size off s =
      if isdir i then listing pack size off (readdir w i unset s) else (error enotdir ∷ [], s)

  unfoldable pub open_of : Status × Option Attr × w.State → Replies
  open_of (st, a, s) = if is_ok st then (opened ∷ [], s) else (error enoent ∷ [], s)

  unfoldable pub fuseserver_open : ℕ → w.State → Replies
  unfolding open_of
  fuseserver_open i s = open_of (getfile w i s)

  -- mkdir: a failed makedir is answered, and the handler goes on; a name that exists is not answered.
  unfoldable pub also : Bool → Replies → Replies
  also failed (rs, s) = (if failed then error enoent ∷ rs else rs, s)

  unfoldable pub after_makedir : Option (Status × ℕ × w.State) → Option Replies
  unfolding also getattr or_enoent
  after_makedir none = none
  after_makedir (some (st, i, s)) = some (also (not (is_ok st)) (or_enoent (entry i) (getattr i s)))

  unfoldable pub mkdir_named : (ℕ → ℕ) → ℕ → ℕ → ℕ → Bytes → ℕ × w.State → Option Replies
  unfolding after_makedir
  mkdir_named draw f unset parent name (i, s) =
      if i == 0
      then after_makedir (add_entry_to_filesystem w draw f parent unset name false s)
      else some ([], s)

  unfoldable pub mkdir_in :
      (ℕ → ℕ) → ℕ → ℕ → ℕ → Bytes → Status × Option Attr × w.State → Option Replies
  unfolding mkdir_named
  mkdir_in draw f unset parent name (st, a, s) =
      if is_ok st
      then mkdir_named draw f unset parent name (ilookup w parent name s)
      else some (error enoent ∷ [], s)

  unfoldable pub fuseserver_mkdir : (ℕ → ℕ) → ℕ → ℕ → ℕ → Bytes → w.State → Option Replies
  unfolding mkdir_in
  fuseserver_mkdir draw f unset parent name s =
      if isdir parent
      then mkdir_in draw f unset parent name (getfile w parent s)
      else some (error enoent ∷ [], s)

  unfoldable pub unlink_of : Status × w.State → Replies
  unlink_of (st, s) = if is_ok st then (error none_err ∷ [], s) else (error enoent ∷ [], s)

  unfoldable pub unlink_named : ℕ → ℕ → ℕ → Bytes → ℕ × w.State → Replies
  unfolding unlink_of
  unlink_named finum unset parent name (i, s) =
      if i == 0 then (error enoent ∷ [], s) else unlink_of (unlink w finum unset parent name s)

  unfoldable pub fuseserver_unlink : ℕ → ℕ → ℕ → Bytes → w.State → Replies
  unfolding unlink_named
  fuseserver_unlink finum unset parent name s =
      unlink_named finum unset parent name (ilookup w parent name s)
