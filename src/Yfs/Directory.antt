-- ===== src/Yfs/Directory.antt =====
-- The text of a directory (yfs_client.cc): its loops over `ist >> file_inum >> file_name`. The text
-- bounds the number of rounds: each reads a character at least.
use frangipani_yfs.Prelude.{
  ℕ, zero, suc, [], ◌∷◌, ◌++◌, List, if◌then◌else◌, Option, none, some, Bytes, str_eq, length,
}
use frangipani_yfs.Text.{Stream, read_word, read_num, decimal, newline, space, max_u64}

pub record Dirent : Type 0 where
  pub inum : ℕ
  pub name : Bytes

-- The line that add_entry_to_filesystem writes.
abbrev pub entry : ℕ → Bytes → Bytes
entry i name = decimal i ++ (space ∷ (name ++ (newline ∷ [])))

-- The line that unlink writes for one that it keeps.
abbrev pub kept_entry : Bytes → Bytes → Bytes
kept_entry i name = i ++ (space ∷ (name ++ (newline ∷ [])))

-- Two words in a row: none when one of the two reads fails.
abbrev pub second : Bytes → Bytes × Stream → Option (Bytes × Bytes × Bytes)
second a (b, none) = none
second a (b, some r) = some (a, b, r)

unfoldable pub first : Bytes × Stream → Option (Bytes × Bytes × Bytes)
first (a, none) = none
first (a, some s) = second a (read_word [] (some s))

-- A round of the loop, and the rows that `while (ist >> file_inum >> file_name)` reads, both as words.
unfoldable pub row :
    (Bytes → List (Bytes × Bytes)) → Option (Bytes × Bytes × Bytes) → List (Bytes × Bytes)
row next none = []
row next (some (a, b, r)) = (a, b) ∷ next r

unfoldable pub rows : ℕ → Bytes → List (Bytes × Bytes)
unfolding row first
rows zero s = []
rows (suc f) s = row (rows f) (first (read_word [] (some s)))

-- n2i: `finum` is what the variable holds, for a text with no character to read.
unfoldable pub n2i : ℕ → Bytes → ℕ
n2i finum n = (read_num max_u64 finum (some n)).0

unfoldable pub dirents : ℕ → List (Bytes × Bytes) → List Dirent
unfolding n2i
dirents finum [] = []
dirents finum ((a, b) ∷ rs) = record { inum = n2i finum a; name = b } ∷ dirents finum rs

unfoldable pub filename : ℕ → Bytes
filename i = decimal i

-- unlink's loop: the lines that are kept, and the last number that goes with the name.
unfoldable pub kept : Bytes → List (Bytes × Bytes) → Bytes
kept name [] = []
kept name ((a, b) ∷ rs) =
    let rest = kept name rs in if str_eq b name then rest else kept_entry a b ++ rest

unfoldable pub removed : Bytes → Option Bytes → List (Bytes × Bytes) → Option Bytes
removed name found [] = found
removed name found ((a, b) ∷ rs) =
    let rest = removed name (some a) rs in
    let same = removed name found rs in if str_eq b name then rest else same

-- ilookup's loop reads the first word as a number.
abbrev second_num : ℕ → Bytes × Stream → Option (ℕ × Bytes × Bytes)
second_num i (b, none) = none
second_num i (b, some r) = some (i, b, r)

unfoldable pub first_num : ℕ × Stream → Option (ℕ × Bytes × Bytes)
first_num (i, none) = none
first_num (i, some s) = second_num i (read_word [] (some s))

unfoldable pub match_name : Bytes → (Bytes → ℕ) → Option (ℕ × Bytes × Bytes) → ℕ
match_name name next none = 0
match_name name next (some (i, b, r)) = if str_eq b name then i else next r

unfoldable pub lookup : ℕ → Bytes → Bytes → ℕ
unfolding match_name first_num
lookup zero name s = 0
lookup (suc f) name s = match_name name (lookup f name) (first_num (read_num max_u64 0 (some s)))

abbrev pub fuel : Bytes → ℕ
fuel s = suc (length s)
