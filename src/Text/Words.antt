-- ===== src/Text/Words.antt =====
-- Reading back words and lines.
use frangipani_yfs.Prelude.{
  ℕ, suc, ◌≤◌, ◌≡◌, refl, Bool, true, false, some, [], ◌∷◌, ◌++◌, arith, ◌==◌, if◌then◌else◌, Bytes,
  length,
}
use frangipani_yfs.Text.{
  newline, is_space, skip_ws, word, after_word, read_word, line, after_line, read_line,
}

-- A word has no white space in it, and a line no line feed.
unfoldable pub no_space : Bytes → Bool
unfolding is_space
no_space [] = true
no_space (c ∷ s) = if is_space c then false else no_space s

-- What `>>` reads back as one word.
unfoldable pub is_word : Bytes → Bool
unfolding no_space
is_word [] = false
is_word (c ∷ s) = no_space (c ∷ s)

unfoldable pub is_line : Bytes → Bool
is_line [] = true
is_line (c ∷ s) = if c == newline then false else is_line s

word-append :
    (w : Bytes) (c : ℕ) (r : Bytes) → no_space w ≡ true → is_space c ≡ true → word (w ++ c ∷ r) ≡ w
unfolding word no_space
word-append [] c r h k = ground arith
word-append (x ∷ w) c r h k = ground (arith, word-append w c r)

after_word-append :
    (w : Bytes) (c : ℕ) (r : Bytes)
    → no_space w ≡ true
    → is_space c ≡ true
    → after_word (w ++ c ∷ r) ≡ c ∷ r
unfolding after_word no_space
after_word-append [] c r h k = ground arith
after_word-append (x ∷ w) c r h k = ground (arith, after_word-append w c r)

pub skip_ws-word : (w r : Bytes) → is_word w ≡ true → skip_ws (w ++ r) ≡ w ++ r
unfolding skip_ws is_word
skip_ws-word [] r h = cc
skip_ws-word (x ∷ w) r h = ground arith

-- A word that white space follows is read back, also behind one separator.
pub read_word-append :
    (old w : Bytes) (c : ℕ) (r : Bytes)
    → is_word w ≡ true
    → is_space c ≡ true
    → read_word old (some (w ++ c ∷ r)) ≡ (w, some (c ∷ r))
unfolding read_word is_word
read_word-append old [] c r h k = cc
read_word-append old (x ∷ w) c r h k =
    ground (arith, word-append (x ∷ w) c r, after_word-append (x ∷ w) c r)

pub read_word-skip :
    (old s : Bytes) (c : ℕ)
    → is_space c ≡ true
    → read_word old (some (c ∷ s)) ≡ read_word old (some s)
unfolding read_word
read_word-skip old s c h = ground arith

line-append : (l r : Bytes) → is_line l ≡ true → line (l ++ newline ∷ r) ≡ l
unfolding line is_line
line-append [] r h = refl
line-append (x ∷ l) r h = ground (arith, line-append l r)

after_line-append : (l r : Bytes) → is_line l ≡ true → after_line (l ++ newline ∷ r) ≡ r
unfolding after_line is_line
after_line-append [] r h = refl
after_line-append (x ∷ l) r h = ground (arith, after_line-append l r)

pub read_line-append :
    (l r : Bytes) → is_line l ≡ true → read_line (some (l ++ newline ∷ r)) ≡ (l, some r)
unfolding read_line
read_line-append [] r h = ground (arith, line-append [] r h, after_line-append [] r h)
read_line-append (x ∷ l) r h =
    ground (arith, line-append (x ∷ l) r h, after_line-append (x ∷ l) r h)

-- No read makes the text longer, and a word is at least one character.
pub length-skip_ws : (s : Bytes) → length (skip_ws s) ≤ length s
unfolding skip_ws
length-skip_ws [] = omega arith
length-skip_ws (c ∷ s) = ground (arith, length-skip_ws s)

length-after_word : (s : Bytes) → length (after_word s) ≤ length s
unfolding after_word
length-after_word [] = omega arith
length-after_word (c ∷ s) = ground (arith, length-after_word s)

skip_ws-head : (s : Bytes) (c : ℕ) (r : Bytes) → skip_ws s ≡ c ∷ r → is_space c ≡ false
unfolding skip_ws
skip_ws-head [] c r h = cc
skip_ws-head (x ∷ s) c r h = ground (arith, skip_ws-head s c r)

pub length-read_word :
    (old s : Bytes) (r : Bytes) → (read_word old (some s)).1 ≡ some r → suc (length r) ≤ length s
unfolding read_word
length-read_word old s r h = go (skip_ws s) refl h
  where
    go :
        (k : Bytes)
        → skip_ws s ≡ k
        → (read_word old (some s)).1 ≡ some r
        → suc (length r) ≤ length s
    go [] e q = ground arith
    go (c ∷ k) e q = ground (arith, skip_ws-head s c k, length-skip_ws s, length-after_word k)
