-- ===== src/Yfs/Entries.antt =====
-- The text of a directory, entry by entry (yfs_client.cc): what a lookup and a removal find in it.
use frangipani_yfs.Prelude.{
  ℕ, zero, suc, ◌≤◌, ◌<◌, ◌≡◌, refl, ap, ◌∙◌, true, [], ◌∷◌, ◌++◌, List, if◌then◌else◌, Option,
  none, some, Bytes, str_eq, str_eq_refl, length, All, arith, length-append,
}
use frangipani_yfs.Text.{read_word, read_num, decimal, newline, space, max_u64, is_space, is_digit}
use frangipani_yfs.Text.Words.{is_word, read_word-append, read_word-skip}
use frangipani_yfs.Text.Numbers.{read_num-decimal, read_num-skip, is_word-decimal}
use frangipani_yfs.Yfs.Directory.{
  Dirent, entry, kept_entry, first, row, rows, kept, removed, first_num, match_name, lookup, fuel,
}

-- The text that the entries leave.
unfoldable pub text : List Dirent → Bytes
text [] = []
text (e ∷ es) = decimal e.inum ++ space ∷ (e.name ++ newline ∷ text es)

-- The names are words and the numbers have 64 bits.
abbrev pub Proper : Dirent → Type 0
Proper e = (is_word e.name ≡ true) × (e.inum ≤ max_u64)

-- What the loops mean: the first number with the name, or 0; the entries without the name.
unfoldable pub find : Bytes → List Dirent → ℕ
find name [] = 0
find name (e ∷ es) = if str_eq e.name name then e.inum else find name es

unfoldable pub filter : Bytes → List Dirent → List Dirent
filter name [] = []
filter name (e ∷ es) = let rest = filter name es in if str_eq e.name name then rest else e ∷ rest

unfoldable pub last : Bytes → Option Bytes → List Dirent → Option Bytes
last name found [] = found
last name found (e ∷ es) =
    let rest = last name (some (decimal e.inum)) es in
    let same = last name found es in if str_eq e.name name then rest else same

-- The text of the rows that are read.
unfoldable pub as_rows : List Dirent → List (Bytes × Bytes)
as_rows [] = []
as_rows (e ∷ es) = (decimal e.inum, e.name) ∷ as_rows es

first-entry :
    (e : Dirent) (rest : Bytes)
    → is_word e.name ≡ true
    → first (read_word [] (some (decimal e.inum ++ space ∷ (e.name ++ newline ∷ rest))))
      ≡ some (decimal e.inum, e.name, newline ∷ rest)
unfolding first is_space
first-entry e rest h =
    rw
      (
        read_word-append [] (decimal e.inum) space (e.name ++ newline ∷ rest)
            (is_word-decimal e.inum) refl,
        read_word-skip [] (e.name ++ newline ∷ rest) space refl,
        read_word-append [] e.name newline rest h refl,
      )
      refl

first_num-entry :
    (e : Dirent) (rest : Bytes)
    → Proper e
    → first_num (read_num max_u64 0 (some (decimal e.inum ++ space ∷ (e.name ++ newline ∷ rest))))
      ≡ some (e.inum, e.name, newline ∷ rest)
unfolding first_num is_space is_digit
first_num-entry e rest h =
    rw
      (
        read_num-decimal max_u64 0 e.inum space (e.name ++ newline ∷ rest) (h.1) refl,
        read_word-skip [] (e.name ++ newline ∷ rest) space refl,
        read_word-append [] e.name newline rest (h.0) refl,
      )
      refl

first-empty : first (read_word [] (some [])) ≡ none
unfolding first read_word
first-empty = refl

first_num-empty : first_num (read_num max_u64 0 (some [])) ≡ none
unfolding first_num read_num
first_num-empty = refl

-- The newline of the entry before is skipped.
rows-newline : (f : ℕ) (s : Bytes) → rows f (newline ∷ s) ≡ rows f s
unfolding rows is_space
rows-newline zero s = refl
rows-newline (suc f) s = ap (λ p. row (rows f) (first p)) (read_word-skip [] s newline refl)

lookup-newline : (f : ℕ) (name s : Bytes) → lookup f name (newline ∷ s) ≡ lookup f name s
unfolding lookup is_space
lookup-newline zero name s = refl
lookup-newline (suc f) name s =
    ap (λ p. match_name name (lookup f name) (first_num p)) (read_num-skip max_u64 0 newline s refl)

rows-enough :
    (f : ℕ) (es : List Dirent)
    → All (λ e. is_word e.name ≡ true) es
    → length es < f
    → rows f (text es) ≡ as_rows es
unfolding rows row text as_rows
rows-enough zero es a h = absurd (omega arith)
rows-enough (suc f) [] a h = ap (row (rows f)) first-empty
rows-enough (suc f) (e ∷ es) a h =
    ap (row (rows f)) (first-entry e (text es) (a.0))
    ∙ ap (◌∷◌ (decimal e.inum, e.name))
        (rows-newline f (text es) ∙ rows-enough f es (a.1) (omega arith))

lookup-enough :
    (f : ℕ) (name : Bytes) (es : List Dirent)
    → All Proper es
    → length es < f
    → lookup f name (text es) ≡ find name es
unfolding lookup match_name text find
lookup-enough zero name es a h = absurd (omega arith)
lookup-enough (suc f) name [] a h = ap (match_name name (lookup f name)) first_num-empty
lookup-enough (suc f) name (e ∷ es) a h =
    ap (match_name name (lookup f name)) (first_num-entry e (text es) (a.0))
    ∙ ap (λ n. if str_eq e.name name then e.inum else n)
        (lookup-newline f name (text es) ∙ lookup-enough f name es (a.1) (omega arith))

length-text : (es : List Dirent) → length es ≤ length (text es)
unfolding text
length-text [] = omega arith
length-text (e ∷ es) = omega (
  arith,
  length-append (decimal e.inum) (space ∷ (e.name ++ newline ∷ text es)),
  length-append e.name (newline ∷ text es),
  length-text es,
)

-- A lookup in the text of proper entries gives the number of the first entry with the name, and 0 when
-- no entry has it; the loop's fuel is enough.
pub lookup-text :
    (name : Bytes) (es : List Dirent)
    → All Proper es
    → lookup (fuel (text es)) name (text es) ≡ find name es
lookup-text name es a = lookup-enough (fuel (text es)) name es a (omega (arith, length-text es))

rows-text :
    (es : List Dirent)
    → All (λ e. is_word e.name ≡ true) es
    → rows (fuel (text es)) (text es) ≡ as_rows es
rows-text es a = rows-enough (fuel (text es)) es a (omega (arith, length-text es))

assoc : (x y z : Bytes) → (x ++ y) ++ z ≡ x ++ (y ++ z)
assoc [] y z = refl
assoc (a ∷ x) y z = ap (◌∷◌ a) (assoc x y z)

kept-line : (i n t : Bytes) → kept_entry i n ++ t ≡ i ++ (space ∷ (n ++ (newline ∷ t)))
kept-line i n t =
    assoc i (space ∷ (n ++ (newline ∷ []))) t
    ∙ ap (λ z. i ++ (space ∷ z)) (assoc n (newline ∷ []) t)

kept-filter : (name : Bytes) (es : List Dirent) → kept name (as_rows es) ≡ text (filter name es)
unfolding kept as_rows text filter
kept-filter name [] = refl
kept-filter name (e ∷ es) =
    ground (arith, kept-filter name es, kept-line (decimal e.inum) e.name (text (filter name es)))

removed-last :
    (name : Bytes) (o : Option Bytes) (es : List Dirent)
    → removed name o (as_rows es) ≡ last name o es
unfolding removed as_rows last
removed-last name o [] = refl
removed-last name o (e ∷ es) =
    rw (removed-last name (some (decimal e.inum)) es, removed-last name o es) refl

-- The text that unlink puts back, from the text of entries whose names are words, is that of the
-- entries with another name, and the number it removes is that of the last entry with the name.
pub unlink-text :
    (name : Bytes) (es : List Dirent)
    → All (λ e. is_word e.name ≡ true) es
    → (kept name (rows (fuel (text es)) (text es)) ≡ text (filter name es))
      × (removed name none (rows (fuel (text es)) (text es)) ≡ last name none es)
unlink-text name es a = rw (rows-text es a) ((kept-filter name es, removed-last name none es))

text-append :
    (es : List Dirent) (i : ℕ) (n : Bytes)
    → text es ++ entry i n ≡ text (es ++ record { inum = i; name = n } ∷ [])
unfolding text
text-append [] i n = refl
text-append (e ∷ es) i n =
    assoc (decimal e.inum) (space ∷ (e.name ++ (newline ∷ text es))) (entry i n)
    ∙ ap (λ z. decimal e.inum ++ (space ∷ z))
        (assoc e.name (newline ∷ text es) (entry i n)
          ∙ ap (λ z. e.name ++ (newline ∷ z)) (text-append es i n))

find-append :
    (name : Bytes) (es : List Dirent) (i : ℕ)
    → find name es ≡ 0
    → All (λ e. 1 ≤ e.inum) es
    → find name (es ++ record { inum = i; name = name } ∷ []) ≡ i
unfolding find
find-append name [] i h a = ground (arith, str_eq_refl name)
find-append name (e ∷ es) i h a = ground (arith, find-append name es i, a.0, a.1)

All-append : (es : List Dirent) (e : Dirent) → All Proper es → Proper e → All Proper (es ++ e ∷ [])
All-append [] e a p = (p, tt)
All-append (d ∷ es) e a p = (a.0, All-append es e (a.1) p)

-- What is created is found: when no entry of a directory has the name, the numbers are from 1 and the
-- entries proper, a lookup in the directory's text with the new entry at its end gives its number.
pub lookup-entry :
    (name : Bytes) (i : ℕ) (es : List Dirent)
    → All Proper es
    → All (λ e. 1 ≤ e.inum) es
    → is_word name ≡ true
    → i ≤ max_u64
    → find name es ≡ 0
    → lookup (fuel (text es ++ entry i name)) name (text es ++ entry i name) ≡ i
lookup-entry name i es a pos w m h = rw (text-append es i name) (
    lookup-text name (es ++ record { inum = i; name = name } ∷ [])
      (All-append es (record { inum = i; name = name }) a (w, m))
    ∙ find-append name es i h pos)
