-- ===== src/Tests/YfsRuns.antt =====
-- The file system client at concrete inputs.
use frangipani_yfs.Prelude.{
  ℕ, ◌≡◌, ◌<◌, ◌+◌, ◌^◌, refl, true, false, [], ◌∷◌, List, Bytes, Option, none, some, update,
  length, arith, All,
}
use frangipani_yfs.Text.{read_num}
use frangipani_yfs.Text.Words.{is_word}
use frangipani_yfs.Extent.Protocol.{Status, ok, noent, ioerr}
use frangipani_yfs.Extent.Client.{no_attr}
use frangipani_yfs.Yfs.Directory.{Dirent, entry, rows, kept, removed, lookup, fuel}
use frangipani_yfs.Yfs.Entries.{text, Proper, find, filter, last, lookup-text, unlink-text}
use frangipani_yfs.Yfs.Contents.{read_part}
use frangipani_yfs.Yfs.Client.{Store, isdir, getfile, ilookup, add_entry_to_filesystem}
use frangipani_yfs.Fuse.{Reply, buf, create, stat_of, fuseserver_read}
use frangipani_yfs.Fuse.Replies.{
  creates, mkdirs, is_mkdir, serve, serve-one_reply, mkdir-twice, read-overrun,
}
use frangipani_yfs.Yfs.Files.{Keeps}

abbrev a : Bytes
a = 97 ∷ []

abbrev b : Bytes
b = 98 ∷ []

abbrev both : List Dirent
both = record { inum = 12; name = a } ∷ record { inum = 7; name = b } ∷ []

words : All (λ e. is_word e.name ≡ true) both
unfolding is_word
words = (refl, (refl, tt))

proper : All Proper both
unfolding is_word
proper = ((refl, omega arith), ((refl, omega arith), tt))

lookup-text_example : lookup (fuel (text both)) b (text both) ≡ find b both
lookup-text_example = lookup-text b both proper

unlink-text_example :
    (kept a (rows (fuel (text both)) (text both)) ≡ text (filter a both))
    × (removed a none (rows (fuel (text both)) (text both)) ≡ last a none both)
unlink-text_example = unlink-text a both words

-- A store that is a map.
abbrev found : (ℕ → Option Bytes) → Option Bytes → Status × Bytes × (ℕ → Option Bytes)
found s none = (noent, [], s)
found s (some x) = (ok, x, s)

abbrev plain : Store
plain = record {
  State = ℕ → Option Bytes;
  acquire = λ i s. s;
  release = λ i s. s;
  get = λ i s. found s (s i);
  put = λ i x s. (ok, update s i (some x));
  getattr = λ i s. (ok, no_attr, s);
  remove = λ i s. (ok, update s i none);
}

abbrev keeps : Keeps plain
keeps = record {
  content = λ s. s;
  acquired = λ i j s. refl;
  released = λ i j s. refl;
  got = λ i x s h. (s, rw h refl, λ j. refl);
  did_put = λ i x s. (update s i (some x), refl, λ j. refl);
}

-- A root directory without entries.
abbrev root : ℕ → Option Bytes
root = update (λ _. none) 1 (some [])

abbrev pack : Bytes → ℕ → Bytes
pack name inum = name

abbrev after_create : ℕ → Option Bytes
after_create = update (update root 1 (some (entry (2 ^ 31 + 5) a))) (2 ^ 31 + 5) (some [])

abbrev created : List Reply
created = create (2 ^ 31 + 5) (stat_of (2 ^ 31 + 5) no_attr) ∷ []

creates_a : serve plain (λ n. 5) 3 0 pack (creates 1 a) root ≡ some (created, after_create)
unfolding serve isdir getfile ilookup lookup read_num add_entry_to_filesystem
creates_a = refl

not_mkdir : is_mkdir (creates 1 a) ≡ false
unfolding is_mkdir
not_mkdir = refl

root_isdir : isdir 1 ≡ true
unfolding isdir
root_isdir = refl

getfile-root : (getfile plain 1 root).0 ≡ ok
unfolding getfile
getfile-root = refl

serve-one_reply_example : length created ≡ 1
serve-one_reply_example =
    serve-one_reply plain (λ n. 5) 3 0 pack (creates 1 a) root after_create created not_mkdir
      creates_a

-- A store that takes no put.
abbrev full : Store
full = record {
  State = ℕ → Option Bytes;
  acquire = λ i s. s;
  release = λ i s. s;
  get = λ i s. found s (s i);
  put = λ i x s. (ioerr, s);
  getattr = λ i s. (ok, no_attr, s);
  remove = λ i s. (ok, update s i none);
}

getfile-full : (getfile full 1 root).0 ≡ ok
unfolding getfile
getfile-full = refl

a_missing : (ilookup full 1 a ((getfile full 1 root).2)).0 ≡ 0
unfolding ilookup getfile isdir lookup read_num
a_missing = refl

abbrev refused : Status
refused = ioerr

not_made :
    add_entry_to_filesystem full
      (λ n. 5)
      3
      1
      0
      a
      false
      ((ilookup full 1 a ((getfile full 1 root).2)).1)
    ≡ some (refused, 5, root)
unfolding ilookup getfile isdir lookup read_num add_entry_to_filesystem
not_made = refl

mkdir-twice_example :
    (rs : List Reply) × (t : full.State) × (serve full (λ n. 5) 3 0 pack (mkdirs 1 a) root
      ≡ some (rs, t))
    × (length rs ≡ 2)
mkdir-twice_example =
    mkdir-twice full (λ n. 5) 3 0 pack 1 5 a root root refused root_isdir getfile-full a_missing
      not_made refl

read-overrun_example :
    ((fuseserver_read plain 4 9 1 (λ i. some (7 ∷ 8 ∷ []))).0
      ≡ buf (read_part 9 1 (7 ∷ 8 ∷ [])) 9 ∷ [])
    × (length (read_part 9 1 (7 ∷ 8 ∷ [])) < 9)
read-overrun_example =
    read-overrun plain keeps 4 9 1 (7 ∷ 8 ∷ []) (λ i. some (7 ∷ 8 ∷ [])) refl (omega arith)
      (omega arith)
