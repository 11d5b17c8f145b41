-- ===== src/Fuse/Replies.antt =====
-- How many replies the handlers of fuse.cc send, and what a read replies.
use frangipani_yfs.Prelude.{
  ℕ, suc, ◌+◌, ◌-◌, ◌≤◌, ◌<◌, ◌≡◌, ◌≢◌, refl, ap, ◌∙◌, Bool, true, false, [], ◌∷◌, List, Bytes,
  ◌==◌, Option, none, some, length, arith, if_cases, if_true, if_false, drop, length-drop,
  length-take_le, subst,
}
use frangipani_yfs.Extent.Protocol.{Status, ok, Attr}
use frangipani_yfs.Extent.Client.{is_ok}
use frangipani_yfs.Yfs.Directory.{Dirent}
use frangipani_yfs.Yfs.Contents.{read_part}
use frangipani_yfs.Yfs.Client.{
  Store, isdir, getfile, ilookup, add_entry_to_filesystem, readdir, setsize, read,
}
use frangipani_yfs.Yfs.Files.{Keeps, read-content}
use frangipani_yfs.Fuse.{
  Stat, Reply, attr, buf, entry, create, getattr, Replies, or_enoent, fuseserver_getattr, sized,
  fuseserver_setattr, data_of, fuseserver_read, count_of, fuseserver_write, Made, made_reply,
  fuseserver_create, fuseserver_mknod, entry_of, fuseserver_lookup, listing, fuseserver_readdir,
  open_of, fuseserver_open, also, after_makedir, mkdir_named, mkdir_in, fuseserver_mkdir, unlink_of,
  unlink_named, fuseserver_unlink,
}

-- The requests.
pub data Request : Type 0 where
  getattrs opens : ℕ → Request
  setattrs : ℕ → Option ℕ → Request
  reads readdirs : ℕ → ℕ → ℕ → Request
  writes : ℕ → Bytes → ℕ → Request
  creates mknods lookups mkdirs unlinks : ℕ → Bytes → Request

unfoldable pub is_mkdir : Request → Bool
is_mkdir (mkdirs p n) = true
is_mkdir r = false

module _ (w : Store) (draw : ℕ → ℕ) (f unset : ℕ) (pack : Bytes → ℕ → Bytes) where
  unfoldable pub serve : Request → w.State → Option (Replies w)
  unfolding fuseserver_getattr fuseserver_setattr fuseserver_read fuseserver_write fuseserver_create
      fuseserver_mknod fuseserver_lookup fuseserver_readdir fuseserver_open fuseserver_mkdir
      fuseserver_unlink
  serve (getattrs i) s = some (fuseserver_getattr w i s)
  serve (opens i) s = some (fuseserver_open w i s)
  serve (setattrs i size) s = some (fuseserver_setattr w i size s)
  serve (reads i size off) s = some (fuseserver_read w i size off s)
  serve (readdirs i size off) s = some (fuseserver_readdir w pack unset i size off s)
  serve (writes i b off) s = some (fuseserver_write w i b off s)
  serve (creates p n) s = fuseserver_create w draw f p n s
  serve (mknods p n) s = fuseserver_mknod w draw f p n s
  serve (lookups p n) s = some (fuseserver_lookup w p n s)
  serve (mkdirs p n) s = fuseserver_mkdir w draw f unset p n s
  serve (unlinks p n) s = some (fuseserver_unlink w unset unset p n s)

module _ (w : Store) where
  -- Just one reply.
  abbrev One : Replies w → Type 0
  One (rs, s) = length rs ≡ 1

  or_enoent-One : (f : Stat → Reply) (o : Option Stat × w.State) → One (or_enoent w f o)
  unfolding or_enoent
  or_enoent-One f (none, s) = refl
  or_enoent-One f (some st, s) = refl

  setattr-One : (i : ℕ) (size : Option ℕ) (s : w.State) → One (fuseserver_setattr w i size s)
  unfolding fuseserver_setattr sized
  setattr-One i none s = refl
  setattr-One i (some size) s =
      if_cases One (is_ok ((setsize w i size s).0)) (λ t. or_enoent-One attr _) (λ n. refl)

  read-One : (size : ℕ) (a : Status × Bytes × w.State) → One (data_of w size a)
  unfolding data_of
  read-One size (st, b, s) = if_cases One (is_ok st) (λ t. refl) (λ n. refl)

  write-One : (size : ℕ) (a : Status × w.State) → One (count_of w size a)
  unfolding count_of
  write-One size (st, s) = if_cases One (is_ok st) (λ t. refl) (λ n. refl)

  lookup-One : (a : ℕ × w.State) → One (entry_of w a)
  unfolding entry_of
  lookup-One (i, s) = if_cases One (i == 0) (λ t. refl) (λ n. or_enoent-One (entry i) _)

  open-One : (a : Status × Option Attr × w.State) → One (open_of w a)
  unfolding open_of
  open-One (st, a, s) = if_cases One (is_ok st) (λ t. refl) (λ n. refl)

  listing-One :
      (pack : Bytes → ℕ → Bytes) (size off : ℕ) (a : Status × List Dirent × w.State)
      → One (listing w pack size off a)
  unfolding listing
  listing-One pack size off (st, es, s) = refl

  unlink_of-One : (a : Status × w.State) → One (unlink_of w a)
  unfolding unlink_of
  unlink_of-One (st, s) = if_cases One (is_ok st) (λ t. refl) (λ n. refl)

  unlink-One :
      (finum unset parent : ℕ) (name : Bytes) (a : ℕ × w.State)
      → One (unlink_named w finum unset parent name a)
  unfolding unlink_named
  unlink-One finum unset parent name (i, s) =
      if_cases One (i == 0) (λ t. refl) (λ n. unlink_of-One _)

  abbrev OneIf : Option (Replies w) → Type 0
  OneIf none = Unit
  OneIf (some r) = One r

  made-One : (f : ℕ → Stat → Reply) (o : Option (Made w)) → OneIf (made_reply w f o)
  unfolding made_reply
  made-One f none = tt
  made-One f (some (none, s)) = refl
  made-One f (some (some (i, st), s)) = refl

module _ (w : Store) (draw : ℕ → ℕ) (f unset : ℕ) (pack : Bytes → ℕ → Bytes) where
  serve-OneIf :
      (r : Request) (s : w.State) → is_mkdir r ≡ false → OneIf w (serve w draw f unset pack r s)
  unfolding serve is_mkdir fuseserver_getattr fuseserver_read fuseserver_write fuseserver_create
      fuseserver_mknod fuseserver_lookup fuseserver_readdir fuseserver_open fuseserver_unlink
  serve-OneIf (getattrs i) s m = or_enoent-One w attr _
  serve-OneIf (opens i) s m = open-One w (getfile w i s)
  serve-OneIf (setattrs i size) s m = setattr-One w i size s
  serve-OneIf (reads i size off) s m = read-One w size _
  serve-OneIf (readdirs i size off) s m =
      if_cases (One w) (isdir i) (λ t. listing-One w pack size off (readdir w i unset s))
        (λ n. refl)
  serve-OneIf (writes i b off) s m = write-One w (length b) _
  serve-OneIf (creates p n) s m = made-One w create _
  serve-OneIf (mknods p n) s m = made-One w entry _
  serve-OneIf (lookups p n) s m = lookup-One w _
  serve-OneIf (mkdirs p n) s m = cc
  serve-OneIf (unlinks p n) s m = unlink-One w unset unset p n _

  -- Each request but mkdir gets one reply: whatever the extent and lock clients answer, a handler that
  -- comes to its end has sent just one reply.
  pub serve-one_reply :
      (r : Request) (s t : w.State) (rs : List Reply)
      → is_mkdir r ≡ false
      → serve w draw f unset pack r s ≡ some (rs, t)
      → length rs ≡ 1
  serve-one_reply r s t rs m e = subst (OneIf w) e (serve-OneIf r s m)

  mkdir_in-ok :
      (parent : ℕ) (name : Bytes) (g : Status × Option Attr × w.State)
      → g.0 ≡ ok
      → mkdir_in w draw f unset parent name g
        ≡ mkdir_named w draw f unset parent name (ilookup w parent name (g.2))
  unfolding mkdir_in
  mkdir_in-ok parent name (st, a, s) e = rw e refl

  found :
      (parent : ℕ) (name : Bytes) (l : ℕ × w.State)
      → l.0 ≢ 0
      → mkdir_named w draw f unset parent name l ≡ some ([], l.1)
  unfolding mkdir_named
  found parent name (i, s) n = if_false (i == 0) _ _ (ground arith)

  not_found :
      (parent : ℕ) (name : Bytes) (l : ℕ × w.State)
      → l.0 ≡ 0
      → mkdir_named w draw f unset parent name l
        ≡ after_makedir w (add_entry_to_filesystem w draw f parent unset name false (l.1))
  unfolding mkdir_named
  not_found parent name (i, s) e = if_true (i == 0) _ _ (ground arith)

  two_replies : (r : Replies w) → length (r.0) ≡ 1 → length ((also w true r).0) ≡ 2
  unfolding also
  two_replies (rs, s) h = ap suc h

  failed_twice :
      (st : Status) (i : ℕ) (u : w.State)
      → is_ok st ≡ false
      → (rs : List Reply) × (t : w.State) × (after_makedir w (some (st, i, u)) ≡ some (rs, t))
        × (length rs ≡ 2)
  unfolding after_makedir
  failed_twice st i u n =
      let r = also w true (or_enoent w (entry i) (getattr w i u)) in
      (
        r.0,
        r.1,
        rw n refl,
        two_replies (or_enoent w (entry i) (getattr w i u))
            (or_enoent-One w (entry i) (getattr w i u)),
      )

  -- mkdir of a name that is there already, in a directory that exists: the request gets no reply.
  pub mkdir-silent :
      (parent : ℕ) (name : Bytes) (s : w.State)
      → isdir parent ≡ true
      → (getfile w parent s).0 ≡ ok
      → let l = ilookup w parent name ((getfile w parent s).2) in
        l.0 ≢ 0 → serve w draw f unset pack (mkdirs parent name) s ≡ some ([], l.1)
  unfolding serve fuseserver_mkdir
  mkdir-silent parent name s d g n =
      if_true (isdir parent) _ _ d
      ∙ mkdir_in-ok parent name (getfile w parent s) g
      ∙ found parent name (ilookup w parent name ((getfile w parent s).2)) n

  -- mkdir of a new name in a directory that exists: when the new directory cannot be made, the request
  -- gets two replies.
  pub mkdir-twice :
      (parent i : ℕ) (name : Bytes) (s u : w.State) (st : Status)
      → isdir parent ≡ true
      → (getfile w parent s).0 ≡ ok
      → let l = ilookup w parent name ((getfile w parent s).2) in
        l.0 ≡ 0
        → add_entry_to_filesystem w draw f parent unset name false (l.1) ≡ some (st, i, u)
        → is_ok st ≡ false
        → (rs : List Reply) × (t : w.State) × (serve w draw f unset pack (mkdirs parent name) s
            ≡ some (rs, t))
          × (length rs ≡ 2)
  unfolding serve fuseserver_mkdir
  mkdir-twice parent i name s u st d g z a n =
      let (rs, t, q, l) = failed_twice st i u n in
      (
        rs,
        t,
        if_true (isdir parent) _ _ d
            ∙ mkdir_in-ok parent name (getfile w parent s) g
            ∙ not_found parent name (ilookup w parent name ((getfile w parent s).2)) z
            ∙ ap (after_makedir w) a
            ∙ q,
        l,
      )

read_part-short :
    (size off : ℕ) (b : Bytes)
    → 1 ≤ size
    → length b < off + size
    → length (read_part size off b) < size
unfolding read_part
read_part-short size off b p h =
    ground (arith, length-take_le (length b - off) (drop off b) (omega (arith, length-drop off b)))

-- A read near the end of a file replies more bytes than it has: over a store that keeps the contents,
-- a read that goes beyond the end is answered with the part of the file that is there, which is shorter
-- than the number of bytes that the kernel is told to take from it.
pub read-overrun :
    (w : Store) (k : Keeps w) (i size off : ℕ) (b : Bytes) (s : w.State)
    → k.content s i ≡ some b
    → 1 ≤ size
    → length b < off + size
    → ((fuseserver_read w i size off s).0 ≡ buf (read_part size off b) size ∷ [])
      × (length (read_part size off b) < size)
unfolding fuseserver_read
read-overrun w k i size off b s h p short =
    let (e, q) = read-content w k i size off b s h in
    (
      replied size (read w i size off s) (read_part size off b) e q,
      read_part-short size off b p short,
    )
  where
    replied :
        (size : ℕ) (a : Status × Bytes × w.State) (c : Bytes)
        → a.0 ≡ ok
        → a.1 ≡ c
        → (data_of w size a).0 ≡ buf c size ∷ []
    replied size (st, x, t) c e q = unfold data_of in rw (e, q) refl
