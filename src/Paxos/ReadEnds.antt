-- ===== src/Paxos/ReadEnds.antt =====
-- `logread` (log.cc) ends on any file: each round of its loop takes at least one character.
use frangipani_yfs.Prelude.{
  ℕ, zero, suc, ◌≤◌, ◌<◌, ◌^◌, ◌-◌, ◌≡◌, ◌≢◌, refl, [], ◌∷◌, none, some, arith, Bytes, length,
  Option-cases, Bool-cases, str_eq, codes, inl, inr,
}
use frangipani_yfs.Text.{
  Stream, skip_ws, after_digits, read_word, read_num, get_char, after_line, read_line,
}
use frangipani_yfs.Text.Words.{length-skip_ws, length-read_word}
use frangipani_yfs.Paxos.Acceptor.{Acceptor}
use frangipani_yfs.Paxos.Log.{
  out_of_fuel, read_done, read_high, read_prop, loop, logread, round, Rounds,
}

abbrev left : Stream → ℕ
left none = 0
left (some s) = length s

left-read_word : (old : Bytes) (s : Stream) → left (read_word old s).1 ≤ left s
left-read_word old none = unfold read_word in omega arith
left-read_word old (some s) = elim (Option-cases (read_word old (some s)).1) [
  | inl e ↦ rw e (omega arith)
  | inr (r, e) ↦ rw e (omega (arith, length-read_word old s r e))
]

length-after_digits : (s : Bytes) → length (after_digits s) ≤ length s
unfolding after_digits
length-after_digits [] = omega arith
length-after_digits (c ∷ s) = ground (arith, length-after_digits s)

left-read_num : (max old : ℕ) (s : Stream) → left (read_num max old s).1 ≤ left s
unfolding read_num
left-read_num max old none = omega arith
left-read_num max old (some s) = go (skip_ws s) refl
  where
    go : (k : Bytes) → skip_ws s ≡ k → left (read_num max old (some s)).1 ≤ length s
    go [] e = ground arith
    go (c ∷ k) e = ground (arith, length-skip_ws s, length-after_digits (c ∷ k))

left-get_char : (s : Stream) → left (get_char s) ≤ left s
unfolding get_char
left-get_char none = omega arith
left-get_char (some []) = omega arith
left-get_char (some (c ∷ s)) = omega arith

length-after_line : (s : Bytes) → length (after_line s) ≤ length s
unfolding after_line
length-after_line [] = omega arith
length-after_line (c ∷ s) = ground (arith, length-after_line s)

left-read_line : (s : Stream) → left (read_line s).1 ≤ left s
unfolding read_line
left-read_line none = omega arith
left-read_line (some []) = omega arith
left-read_line (some (c ∷ s)) = length-after_line (c ∷ s)

left-read_done : (i : ℕ) (s : Stream) (a : Acceptor) → left (read_done i s a).2 ≤ left s
unfolding read_done
left-read_done i s a =
    let s1 = (read_num (2 ^ 32 - 1) i s).1 in
    omega (arith, left-read_num (2 ^ 32 - 1) i s, left-get_char s1, left-read_line (get_char s1))

left-read_high : (s : Stream) (a : Acceptor) → left (read_high s a).1 ≤ left s
unfolding read_high
left-read_high s a = omega (
  arith,
  left-read_num (2 ^ 32 - 1) a.n_h.n s,
  left-read_word a.n_h.m (read_num (2 ^ 32 - 1) a.n_h.n s).1,
)

left-read_prop : (s : Stream) (a : Acceptor) → left (read_prop s a).1 ≤ left s
unfolding read_prop
left-read_prop s a =
    let s1 = (read_num (2 ^ 32 - 1) a.n_a.n s).1 in
    let s2 = (read_word a.n_a.m s1).1 in
    omega (
      arith,
      left-read_num (2 ^ 32 - 1) a.n_a.n s,
      left-read_word a.n_a.m s1,
      left-get_char s2,
      left-read_line (get_char s2),
    )

-- A round ends if the rounds behind it end on every shorter text.
round_ends :
    (next : Rounds) (n i : ℕ) (p : Bytes × Stream) (a : Acceptor)
    → left p.1 ≤ n
    → ((i : ℕ) (t : Bytes) (s : Stream) (a : Acceptor) → left s ≤ n → next i t s a ≢ out_of_fuel)
    → round next i p a ≢ out_of_fuel
unfolding round
round_ends next n i (t, none) a h ih = λ e. cc
round_ends next n i (t, some s) a h ih = elim (Bool-cases (str_eq t (codes "done"))) [
  | inl e ↦ rw e (ih _ _ _ _ (omega (arith, h, left-read_done i (some s) a)))
  | inr d ↦ rw d (elim (Bool-cases (str_eq t (codes "high"))) [
    | inl e ↦ rw e (ih _ _ _ _ (omega (arith, h, left-read_high (some s) a)))
    | inr g ↦ rw g (elim (Bool-cases (str_eq t (codes "prop"))) [
      | inl e ↦ rw e (ih _ _ _ _ (omega (arith, h, left-read_prop (some s) a)))
      | inr q ↦ rw q (λ x. cc)
    ])
  ])
]

-- A word that was read took a character.
left-word : (t : Bytes) (s : Stream) → left (read_word t s).1 ≤ left s - 1
left-word t none = unfold read_word in omega arith
left-word t (some s) = elim (Option-cases (read_word t (some s)).1) [
  | inl e ↦ rw e (omega arith)
  | inr (r, e) ↦ rw e (omega (arith, length-read_word t s r e))
]

loop_ends :
    (f i : ℕ) (t : Bytes) (s : Stream) (a : Acceptor) → left s < f → loop f i t s a ≢ out_of_fuel
unfolding loop
loop_ends zero i t s a h = absurd (omega arith)
loop_ends (suc f) i t none a h = unfold read_word round in λ e. cc
loop_ends (suc zero) i t (some []) a h = unfold read_word round in λ e. cc
loop_ends (suc zero) i t (some (c ∷ s)) a h = absurd (omega arith)
loop_ends (suc (suc f)) i t (some s) a h =
    round_ends (loop (suc f)) f i (read_word t (some s)) a (omega (arith, left-word t (some s)))
      (λ j u z b q. loop_ends (suc f) j u z b (omega (arith, q)))

-- `logread` ends on every file, whatever it holds: at its end or at a record of unknown type.
pub logread-ends : (junk : ℕ) (a : Acceptor) → logread junk a ≢ out_of_fuel
unfolding logread
logread-ends junk a = loop_ends (suc (length a.file)) junk [] (some a.file) a (omega arith)
