-- ===== src/Config/Members.antt =====
-- The text of a view is read back (config.cc).
use frangipani_yfs.Prelude.{
  ℕ, zero, suc, ◌≤◌, ◌≡◌, refl, ap, ◌∙◌, true, false, [], ◌∷◌, ◌++◌, List, Bytes, if◌then◌else◌,
  some, arith, length, All, length-append, str_eq, elem_str, str_eq_eq,
}
use frangipani_yfs.Text.{read_word, space, is_space, skip_ws}
use frangipani_yfs.Text.Words.{no_space, is_word, is_line, read_word-append, read_word-skip}
use frangipani_yfs.Config.{more_words, words_of, members, value, without}

words_of-end : (f : ℕ) (m : Bytes) → words_of f m (some []) ≡ []
unfolding words_of read_word more_words skip_ws
words_of-end zero m = refl
words_of-end (suc f) m = refl

words_of-skip : (f : ℕ) (m s : Bytes) → words_of f m (some (space ∷ s)) ≡ words_of f m (some s)
unfolding words_of is_space
words_of-skip zero m s = refl
words_of-skip (suc f) m s = rw (read_word-skip m s space refl) refl

words_of-word :
    (f : ℕ) (m x : Bytes) (ms : List Bytes)
    → is_word x ≡ true
    → words_of f x (some (space ∷ value ms)) ≡ ms
    → words_of (suc f) m (some (x ++ space ∷ value ms)) ≡ x ∷ ms
unfolding words_of more_words is_space
words_of-word f m x ms w h = rw (read_word-append m x space (value ms) w refl) (ap (◌∷◌ x) h)

words_of-value :
    (f : ℕ) (m : Bytes) (ms : List Bytes)
    → length ms ≤ f
    → All (λ w. is_word w ≡ true) ms
    → words_of f m (some (value ms)) ≡ ms
unfolding value
words_of-value f m [] h w = words_of-end f m
words_of-value zero m (x ∷ ms) h w = absurd (omega arith)
words_of-value (suc f) m (x ∷ ms) h (w, ws) =
    words_of-word f m x ms w (words_of-skip f x (value ms) ∙ words_of-value f x ms (omega arith) ws)

length-value : (ms : List Bytes) → length ms ≤ length (value ms)
unfolding value
length-value [] = omega arith
length-value (m ∷ ms) = omega (arith, length-append m (space ∷ value ms), length-value ms)

-- A view survives its text: members reads back the list that value wrote, if each member is a word,
-- that is not empty and without white space.
pub members-value : (ms : List Bytes) → All (λ w. is_word w ≡ true) ms → members (value ms) ≡ ms
unfolding members
members-value ms w =
    words_of-value (suc (length (value ms))) [] ms (omega (arith, length-value ms)) w

-- The text of a view is one line, as the log wants it.
is_line-word :
    (m r : Bytes) → no_space m ≡ true → is_line r ≡ true → is_line (m ++ space ∷ r) ≡ true
unfolding is_line no_space is_space
is_line-word [] r h k = ground arith
is_line-word (x ∷ m) r h k = ground (arith, is_line-word m r)

word-no_space : (m : Bytes) → is_word m ≡ true → no_space m ≡ true
unfolding is_word
word-no_space [] h = cc
word-no_space (x ∷ m) h = h

pub is_line-value : (ms : List Bytes) → All (λ w. is_word w ≡ true) ms → is_line (value ms) ≡ true
unfolding value is_line
is_line-value [] w = refl
is_line-value (m ∷ ms) (w, ws) = is_line-word m (value ms) (word-no_space m w) (is_line-value ms ws)

str_eq_sym : (s t : Bytes) → str_eq s t ≡ str_eq t s
unfolding str_eq
str_eq_sym [] [] = refl
str_eq_sym [] (y ∷ t) = refl
str_eq_sym (x ∷ s) [] = refl
str_eq_sym (x ∷ s) (y ∷ t) = ground (arith, str_eq_sym s t)

-- A member that is taken out is gone, and the others stay.
pub elem_str-without :
    (m x : Bytes) (ms : List Bytes)
    → elem_str x (without m ms) ≡ (if str_eq x m then false else elem_str x ms)
unfolding without elem_str
elem_str-without m x [] = ground arith
elem_str-without m x (y ∷ ms) = ground (arith, elem_str-without m x ms, other y, here y)
  where
    other : (y : Bytes) → str_eq y m ≡ true → str_eq y x ≡ str_eq x m
    other y e = rw (str_eq_eq y m e) (str_eq_sym m x)

    here : (y : Bytes) → str_eq x m ≡ true → str_eq y x ≡ str_eq y m
    here y e = rw (str_eq_eq x m e) refl
