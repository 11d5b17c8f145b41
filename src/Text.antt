-- ===== src/Text.antt =====
-- What the program uses of iostreams: `>>` into a string and into an unsigned number, `get`,
-- `getline`, and `<<` of a number. A stream is the text that is left, or `none` once it has failed;
-- a failed read gives the variable's old value, as the standard says. A sign before a number is not
-- read: no text that the program writes holds one.
pub mod Words
pub mod Numbers
use frangipani_yfs.Prelude.{
  ℕ, zero, suc, ◌+◌, ◌-◌, ◌*◌, ◌/◌, ◌%◌, ◌^◌, ◌≡◌, refl, Bool, true, false, ◌&&◌, ◌||◌, Option,
  none, some, List, [], ◌∷◌, ◌++◌, ltb, leb, ◌==◌, if◌then◌else◌, Bytes, codes,
}

abbrev pub Stream : Type 0
Stream = Option Bytes

abbrev pub newline : ℕ
newline = 10

abbrev pub space : ℕ
space = 32

unfoldable pub is_space : ℕ → Bool
is_space c = c == space || (leb 9 c && leb c 13)

unfoldable pub is_digit : ℕ → Bool
is_digit c = leb b'0' c && leb c b'9'

unfoldable pub skip_ws : Bytes → Bytes
skip_ws [] = []
skip_ws (c ∷ s) = let rest = skip_ws s in if is_space c then rest else c ∷ s

unfoldable pub word : Bytes → Bytes
word [] = []
word (c ∷ s) = let rest = c ∷ word s in if is_space c then [] else rest

unfoldable pub after_word : Bytes → Bytes
after_word [] = []
after_word (c ∷ s) = let rest = after_word s in if is_space c then c ∷ s else rest

-- `s >> w` for a string.
unfoldable pub read_word : Bytes → Stream → Bytes × Stream
unfolding skip_ws word after_word is_space
read_word old none = (old, none)
read_word old (some s) = elim (skip_ws s) [
  | [] ↦ (old, none)
  | c ∷ r ↦ (word (c ∷ r), some (after_word (c ∷ r)))
]

-- The number that the leading digits spell behind `acc`, and what follows them.
unfoldable pub scan : ℕ → Bytes → ℕ
scan acc [] = acc
scan acc (c ∷ s) = let rest = scan (acc * 10 + (c - b'0')) s in if is_digit c then rest else acc

unfoldable pub after_digits : Bytes → Bytes
after_digits [] = []
after_digits (c ∷ s) = let rest = after_digits s in if is_digit c then rest else c ∷ s

-- `s >> n` for an unsigned type with the largest value `max`. A number out of range fails.
unfoldable pub read_num : ℕ → ℕ → Stream → ℕ × Stream
unfolding skip_ws scan after_digits is_digit is_space
read_num max old none = (old, none)
read_num max old (some s) = elim (skip_ws s) [
  | [] ↦ (old, none)
  | c ∷ r ↦
      let v = scan 0 (c ∷ r) in
      let rest = after_digits (c ∷ r) in
      if is_digit c then (if leb v max then (v, some rest) else (max, none)) else (0, none)
]

-- `s.get()`: one character is dropped.
unfoldable pub get_char : Stream → Stream
get_char none = none
get_char (some []) = none
get_char (some (c ∷ s)) = some s

unfoldable pub line : Bytes → Bytes
line [] = []
line (c ∷ s) = let rest = c ∷ line s in if c == newline then [] else rest

unfoldable pub after_line : Bytes → Bytes
after_line [] = []
after_line (c ∷ s) = let rest = after_line s in if c == newline then s else rest

-- `getline(s, v)` into a string that was empty.
unfoldable pub read_line : Stream → Bytes × Stream
unfolding line after_line
read_line none = ([], none)
read_line (some []) = ([], none)
read_line (some (c ∷ s)) = (line (c ∷ s), some (after_line (c ∷ s)))

digits : ℕ → ℕ → Bytes → Bytes
digits zero n out = out
digits (suc f) n out =
    let rest = digits f (n / 10) ((b'0' + n % 10) ∷ out) in if n == 0 then out else rest

-- `s << n` for an unsigned number. A number has at most `n` digits, the fuel of the loop.
unfoldable pub decimal : ℕ → Bytes
unfolding digits
decimal zero = b'0' ∷ []
decimal (suc k) = digits (suc k) (suc k) []

abbrev pub max_u32 : ℕ
max_u32 = 2 ^ 32 - 1

abbrev pub max_u64 : ℕ
max_u64 = 2 ^ 64 - 1

decimal_runs : decimal 40960 ≡ codes "40960"
unfolding decimal
decimal_runs = refl
