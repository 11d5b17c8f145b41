-- ===== src/Text/Numbers.antt =====
-- A printed number is read back.
use frangipani_yfs.Prelude.{
  ℕ, zero, suc, ◌+◌, ◌/◌, ◌%◌, ◌≤◌, ◌≡◌, refl, Bool, true, false, some, [], ◌∷◌, ◌++◌, arith, Bytes,
  append-nil, ◌∙◌,
}
use frangipani_yfs.Text.{is_space, is_digit, scan, after_digits, read_num, digits, decimal}
use frangipani_yfs.Text.Words.{no_space, is_word}

starts_digit : Bytes → Bool
starts_digit [] = false
starts_digit (c ∷ s) = is_digit c

digits-append : (f n : ℕ) (out r : Bytes) → digits f n out ++ r ≡ digits f n (out ++ r)
unfolding digits
digits-append zero n out r = refl
digits-append (suc f) n out r = ground (arith, digits-append f (n / 10) ((b'0' + n % 10) ∷ out) r)

scan-digit : (n : ℕ) (out : Bytes) → scan (n / 10) ((b'0' + n % 10) ∷ out) ≡ scan n out
unfolding scan is_digit
scan-digit n out = ground arith

scan-digits : (f n : ℕ) (out : Bytes) → n ≤ f → scan 0 (digits f n out) ≡ scan n out
unfolding digits
scan-digits zero n out h = ground arith
scan-digits (suc f) n out h =
    ground (arith, scan-digits f (n / 10) ((b'0' + n % 10) ∷ out), scan-digit n out)

after_digits-digits : (f n : ℕ) (out : Bytes) → after_digits (digits f n out) ≡ after_digits out
unfolding digits after_digits is_digit
after_digits-digits zero n out = refl
after_digits-digits (suc f) n out =
    ground (arith, after_digits-digits f (n / 10) ((b'0' + n % 10) ∷ out))

starts_digit-digits :
    (f n : ℕ) (out : Bytes) → starts_digit out ≡ true → starts_digit (digits f n out) ≡ true
unfolding digits starts_digit is_digit
starts_digit-digits zero n out h = h
starts_digit-digits (suc f) n out h =
    ground (arith, starts_digit-digits f (n / 10) ((b'0' + n % 10) ∷ out))

starts_digit-decimal : (n : ℕ) (r : Bytes) → starts_digit (decimal n ++ r) ≡ true
unfolding decimal starts_digit is_digit digits
starts_digit-decimal zero r = refl
starts_digit-decimal (suc k) r = ground (
  arith,
  digits-append (suc k) (suc k) [] r,
  starts_digit-digits k (suc k / 10) ((b'0' + suc k % 10) ∷ r),
)

scan-decimal : (n : ℕ) (c : ℕ) (r : Bytes) → is_digit c ≡ false → scan 0 (decimal n ++ c ∷ r) ≡ n
unfolding decimal scan is_digit
scan-decimal zero c r h = ground arith
scan-decimal (suc k) c r h =
    rw digits-append (scan-digits (suc k) (suc k) (c ∷ r) (omega arith) ∙ ground arith)

after_digits-decimal :
    (n : ℕ) (c : ℕ) (r : Bytes) → is_digit c ≡ false → after_digits (decimal n ++ c ∷ r) ≡ c ∷ r
unfolding decimal after_digits is_digit
after_digits-decimal zero c r h = ground arith
after_digits-decimal (suc k) c r h =
    rw digits-append (after_digits-digits (suc k) (suc k) (c ∷ r) ∙ ground arith)

read_num_at :
    (max old : ℕ) (s : Bytes)
    → starts_digit s ≡ true
    → scan 0 s ≤ max
    → read_num max old (some s) ≡ (scan 0 s, some (after_digits s))
unfolding read_num starts_digit
read_num_at max old [] h k = cc
read_num_at max old (c ∷ s) h k = ground arith

-- A number that a character other than a digit follows is read back, if its type can hold it.
pub read_num-decimal :
    (max old n c : ℕ) (r : Bytes)
    → n ≤ max
    → is_digit c ≡ false
    → read_num max old (some (decimal n ++ c ∷ r)) ≡ (n, some (c ∷ r))
read_num-decimal max old n c r h k =
    read_num_at max old (decimal n ++ c ∷ r) (starts_digit-decimal n (c ∷ r))
      (rw (scan-decimal n c r k) h)
    ∙ rw (scan-decimal n c r k, after_digits-decimal n c r k)

scan-decimal_end : (n : ℕ) → scan 0 (decimal n) ≡ n
unfolding decimal scan is_digit
scan-decimal_end zero = refl
scan-decimal_end (suc k) = scan-digits (suc k) (suc k) [] (omega arith)

after_digits-decimal_end : (n : ℕ) → after_digits (decimal n) ≡ []
unfolding decimal after_digits is_digit
after_digits-decimal_end zero = refl
after_digits-decimal_end (suc k) = after_digits-digits (suc k) (suc k) []

-- So is one that ends the text.
pub read_num-end : (max old n : ℕ) → n ≤ max → read_num max old (some (decimal n)) ≡ (n, some [])
read_num-end max old n h =
    read_num_at max old (decimal n) (rw append-nil at (starts_digit-decimal n []))
      (rw (scan-decimal_end n) h)
    ∙ rw (scan-decimal_end n, after_digits-decimal_end n) refl

pub read_num-skip :
    (max old c : ℕ) (s : Bytes)
    → is_space c ≡ true
    → read_num max old (some (c ∷ s)) ≡ read_num max old (some s)
unfolding read_num
read_num-skip max old c s h = ground arith

-- A printed number is one word.
no_space-digits : (f n : ℕ) (out : Bytes) → no_space out ≡ true → no_space (digits f n out) ≡ true
unfolding digits no_space is_space
no_space-digits zero n out h = h
no_space-digits (suc f) n out h = ground (arith, no_space-digits f (n / 10) ((b'0' + n % 10) ∷ out))

is_word_at : (s : Bytes) → starts_digit s ≡ true → no_space s ≡ true → is_word s ≡ true
unfolding starts_digit is_word
is_word_at [] h k = cc
is_word_at (c ∷ s) h k = k

no_space-decimal : (n : ℕ) → no_space (decimal n) ≡ true
unfolding decimal no_space is_space
no_space-decimal zero = refl
no_space-decimal (suc k) = no_space-digits (suc k) (suc k) [] refl

pub is_word-decimal : (n : ℕ) → is_word (decimal n) ≡ true
is_word-decimal n =
    is_word_at (decimal n) (rw append-nil at (starts_digit-decimal n [])) (no_space-decimal n)
