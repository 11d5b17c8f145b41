-- ===== src/Yfs/Client.antt =====
-- The operations of yfs_client.cc, over the extent client and the lock client that it owns, given by
-- an interface. The creation of random inode numbers is a parameter: `draw` is the n-th number that
-- the generator gives, and a retry takes the next.
use frangipani_yfs.Prelude.{
  ℕ, zero, suc, ◌+◌, ◌/◌, ◌%◌, ◌^◌, Bool, not, [], ◌++◌, List, ◌==◌, if◌then◌else◌, Option, none,
  some, get_or, Bytes,
}
use frangipani_yfs.Extent.Protocol.{Status, ok, noent, ioerr, Attr}
use frangipani_yfs.Extent.Client.{is_ok}
use frangipani_yfs.Yfs.Directory.{Dirent, entry, rows, dirents, kept, removed, lookup, n2i, fuel}
use frangipani_yfs.Yfs.Contents.{sized, written, read_part}

-- What the client calls: the operations of `ec` and `lc` on their common state.
pub record Store : Type 1 where
  pub State : Type 0
  pub acquire : ℕ → State → State
  pub release : ℕ → State → State
  pub get : ℕ → State → Status × Bytes × State
  pub put : ℕ → Bytes → State → Status × State
  pub getattr : ℕ → State → Status × Attr × State
  pub remove : ℕ → State → Status × State

-- `inum & 0x80000000`
unfoldable pub isfile : ℕ → Bool
isfile i = i / 2 ^ 31 % 2 == 1

unfoldable pub isdir : ℕ → Bool
unfolding isfile
isdir i = not (isfile i)

module _ (w : Store) where
  -- The constructor's creation of the root directory.
  unfoldable pub make_root : Status × Bytes × w.State → w.State
  make_root (noent, b, s) = w.release 1 ((w.put 1 [] s).1)
  make_root (_, b, s) = w.release 1 s

  unfoldable pub start : w.State → w.State
  unfolding make_root
  start s = make_root (w.get 1 (w.acquire 1 s))

  -- getfile, and getdir, which leaves the size out.
  unfoldable pub info_of : ℕ → Status × Attr × w.State → Status × Option Attr × w.State
  info_of i (ok, a, s) = (ok, some a, w.release i s)
  info_of i (_, a, s) = (ioerr, none, w.release i s)

  unfoldable pub getfile : ℕ → w.State → Status × Option Attr × w.State
  unfolding info_of
  getfile i s = info_of i (w.getattr i (w.acquire i s))

  unfoldable pub looked_up : ℕ → Bytes → Status × Bytes × w.State → ℕ × w.State
  looked_up di name (ok, buf, s) = (lookup (fuel buf) name buf, w.release di s)
  looked_up di name (_, buf, s) = (0, w.release di s)

  unfoldable pub ilookup : ℕ → Bytes → w.State → ℕ × w.State
  unfolding isdir looked_up
  ilookup di name s =
      let t = w.acquire di s in
      if isdir di then looked_up di name (w.get di t) else (0, w.release di t)

  -- generate_unique_inum, with as many retries as the fuel: none when each number is in use.
  unfoldable pub unique : (ℕ → ℕ) → ℕ → ℕ → Bool → w.State → Option (ℕ × w.State)
  unique draw zero n file s = none
  unique draw (suc f) n file s =
      let i = if file then 2 ^ 31 + draw n else draw n in
      let r = w.get i s in
      let again = unique draw f (suc n) file (r.2) in if is_ok (r.0) then again else some (i, r.2)

  -- add_entry_to_filesystem, after its second put, its first one, the choice of the number, and the
  -- get of the parent.
  unfoldable pub let_go : ℕ → ℕ → Status × w.State → Status × ℕ × w.State
  let_go parent i (st, s) = (st, i, w.release parent (w.release i s))

  unfoldable pub linked : ℕ → ℕ → Status × w.State → Status × ℕ × w.State
  unfolding let_go
  linked parent i (ok, s) = let_go parent i (w.put i [] s)
  linked parent i (st, s) = let_go parent i (st, s)

  unfoldable pub numbered : ℕ → Bytes → Bytes → Option (ℕ × w.State) → Option (Status × ℕ × w.State)
  unfolding linked
  numbered parent name buf none = none
  numbered parent name buf (some (i, s)) =
      some (linked parent i (w.put parent (buf ++ entry i name) (w.acquire i s)))

  unfoldable pub added :
      (ℕ → ℕ) → ℕ → ℕ → ℕ → Bytes → Bool → Status × Bytes × w.State → Option (Status × ℕ × w.State)
  unfolding unique numbered
  added draw f parent old name file (ok, buf, s) = numbered parent name buf (unique draw f 0 file s)
  added draw f parent old name file (st, buf, s) = some (st, old, w.release parent s)

  unfoldable pub add_entry_to_filesystem :
      (ℕ → ℕ) → ℕ → ℕ → ℕ → Bytes → Bool → w.State → Option (Status × ℕ × w.State)
  unfolding added
  add_entry_to_filesystem draw f parent old name file s =
      added draw f parent old name file (w.get parent (w.acquire parent s))

  unfoldable pub entries_of : ℕ → ℕ → Status × Bytes × w.State → Status × List Dirent × w.State
  entries_of dir finum (ok, buf, s) = (ok, dirents finum (rows (fuel buf) buf), w.release dir s)
  entries_of dir finum (st, buf, s) = (st, [], w.release dir s)

  unfoldable pub readdir : ℕ → ℕ → w.State → Status × List Dirent × w.State
  unfolding entries_of
  readdir dir finum s = entries_of dir finum (w.get dir (w.acquire dir s))

  -- setsize and write change the content in their own way and put it back.
  unfoldable pub put_back : ℕ → Status × w.State → Status × w.State
  put_back i (st, s) = (st, w.release i s)

  unfoldable pub changed : ℕ → (Bytes → Bytes) → Status × Bytes × w.State → Status × w.State
  unfolding put_back
  changed i f (ok, buf, s) = put_back i (w.put i (f buf) s)
  changed i f (st, buf, s) = (st, w.release i s)

  unfoldable pub setsize : ℕ → ℕ → w.State → Status × w.State
  unfolding changed
  setsize i size s = changed i (sized size) (w.get i (w.acquire i s))

  unfoldable pub write : ℕ → Bytes → ℕ → w.State → Status × w.State
  unfolding changed
  write i buf off s = changed i (written off buf) (w.get i (w.acquire i s))

  unfoldable pub part_of : ℕ → ℕ → ℕ → Status × Bytes × w.State → Status × Bytes × w.State
  part_of i size off (ok, buf, s) = (ok, read_part size off buf, w.release i s)
  part_of i size off (st, buf, s) = (st, buf, w.release i s)

  unfoldable pub read : ℕ → ℕ → ℕ → w.State → Status × Bytes × w.State
  unfolding part_of
  read i size off s = part_of i size off (w.get i (w.acquire i s))

  -- unlink, after its put and after its get. The number of a missing name is read from an empty text,
  -- so it is what the variable held, `finum`; the removal goes on all the same. When the get fails,
  -- the lock that is released is that of an unset variable, `unset`.
  unfoldable pub let_two_go : ℕ → ℕ → Status × w.State → Status × w.State
  let_two_go parent i (st, s) = (st, w.release parent (w.release i s))

  unfoldable pub unlinked : ℕ → ℕ → Status × w.State → Status × w.State
  unfolding let_two_go
  unlinked parent i (ok, s) = let_two_go parent i (w.remove i s)
  unlinked parent i (st, s) = let_two_go parent i (st, s)

  unfoldable pub without : ℕ → ℕ → ℕ → Bytes → Status × Bytes × w.State → Status × w.State
  unfolding unlinked let_two_go n2i
  without finum unset parent name (ok, buf, s) =
      let rs = rows (fuel buf) buf in
      let i = n2i finum (get_or (removed name none rs) []) in
      unlinked parent i (w.put parent (kept name rs) (w.acquire i s))
  without finum unset parent name (st, buf, s) = let_two_go parent unset (st, s)

  unfoldable pub unlink : ℕ → ℕ → ℕ → Bytes → w.State → Status × w.State
  unfolding without
  unlink finum unset parent name s =
      without finum unset parent name (w.get parent (w.acquire parent s))
