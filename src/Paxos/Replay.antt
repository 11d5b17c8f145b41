-- ===== src/Paxos/Replay.antt =====
-- What `logread` (log.cc) does to a log that the writers wrote, record by record, and that it always
-- ends.
use frangipani_yfs.Prelude.{
  subst, ℕ, zero, suc, ◌≤◌, ◌<◌, ◌≡◌, refl, sym, ◌∙◌, Bool, true, false, [], ◌∷◌, ◌++◌, List, some,
  arith, Bytes, leb, leb→le, update, length, codes, if◌then◌else◌, length-append,
}
use frangipani_yfs.Text.{
  space, newline, read_word, read_num, get_char, max_u32, decimal, is_space, is_digit,
}
use frangipani_yfs.Text.Words.{is_word, read_word-append, read_word-skip, read_line-append}
use frangipani_yfs.Text.Numbers.{read_num-decimal, read_num-skip}
use frangipani_yfs.Paxos.Order.{PropT}
use frangipani_yfs.Paxos.Record.{LogRec, done, high, prop, line_of, text_of, is_clean}
use frangipani_yfs.Paxos.Acceptor.{Acceptor}
use frangipani_yfs.Paxos.Log.{read, read_done, read_high, read_prop, loop, logread, round, Rounds}

-- The change that one record makes to an acceptor.
unfoldable pub replay_rec : LogRec → Acceptor → Acceptor
replay_rec (done i v) a = record a {
  values = update a.values i v;
  instance_h = i;
  v_a = [];
  n_h = record { n = 0; m = a.n_h.m };
  n_a = record { n = 0; m = a.n_a.m };
}
replay_rec (high p) a = record a { n_h = p }
replay_rec (prop p v) a = record a { n_a = p; v_a = v }

unfoldable pub replay : List LogRec → Acceptor → Acceptor
replay [] a = a
replay (r ∷ rs) a = replay rs (replay_rec r a)

unfoldable pub clean : List LogRec → Bool
clean [] = true
clean (r ∷ rs) = if is_clean r then clean rs else false

-- The variables of the loop after a record.
next_instance : LogRec → ℕ → ℕ
next_instance (done i v) old = i
next_instance (high p) old = old
next_instance (prop p v) old = old

tag : LogRec → Bytes
tag (done i v) = codes "done"
tag (high p) = codes "high"
tag (prop p v) = codes "prop"

read_number :
    (old k : ℕ) (rest : Bytes)
    → leb k max_u32 ≡ true
    → read_num max_u32 old (some (space ∷ (decimal k ++ space ∷ rest))) ≡ (k, some (space ∷ rest))
unfolding is_space is_digit
read_number old k rest h =
    read_num-skip max_u32 old space _ refl
    ∙ read_num-decimal max_u32 old k space rest (leb→le _ _ h) refl

read_name :
    (old w : Bytes) (c : ℕ) (rest : Bytes)
    → is_word w ≡ true
    → is_space c ≡ true
    → read_word old (some (space ∷ (w ++ c ∷ rest))) ≡ (w, some (c ∷ rest))
unfolding is_space
read_name old w c rest h k = read_word-skip old _ space refl ∙ read_word-append old w c rest h k

read_done-line :
    (i k : ℕ) (v rest : Bytes) (a : Acceptor)
    → is_clean (done k v) ≡ true
    → read_done i (some (space ∷ (decimal k ++ space ∷ (v ++ newline ∷ rest)))) a
      ≡ (replay_rec (done k v) a, k, some rest)
unfolding read_done replay_rec is_clean get_char
read_done-line i k v rest a h =
    rw (read_number i k (v ++ newline ∷ rest) (ground arith))
      (rw (read_line-append v rest (ground arith)))

read_high-line :
    (p : PropT) (rest : Bytes) (a : Acceptor)
    → is_clean (high p) ≡ true
    → read_high (some (space ∷ (decimal p.n ++ space ∷ (p.m ++ newline ∷ rest)))) a
      ≡ (replay_rec (high p) a, some (newline ∷ rest))
unfolding read_high replay_rec is_clean is_space
read_high-line p rest a h =
    rw (read_number a.n_h.n p.n (p.m ++ newline ∷ rest) (ground arith))
      (rw (read_name a.n_h.m p.m newline rest (ground arith) refl))

read_prop-line :
    (p : PropT) (v rest : Bytes) (a : Acceptor)
    → is_clean (prop p v) ≡ true
    → read_prop (some (space ∷ (decimal p.n ++ space ∷ (p.m ++ space ∷ (v ++ newline ∷ rest))))) a
      ≡ (replay_rec (prop p v) a, some rest)
unfolding read_prop replay_rec is_clean is_space get_char
read_prop-line p v rest a h =
    rw (read_number a.n_a.n p.n (p.m ++ space ∷ (v ++ newline ∷ rest)) (ground arith)) (
      rw (read_name a.n_a.m p.m space (v ++ newline ∷ rest) (ground arith) refl)
        (rw (read_line-append v rest (ground arith))))

tag_of :
    (t w : Bytes) (rest : Bytes)
    → is_word w ≡ true
    → read_word t (some (w ++ space ∷ rest)) ≡ (w, some (space ∷ rest))
unfolding is_space
tag_of t w rest h = read_word-append t w space rest h refl

-- What is left after a record: `high` leaves the line feed, which the next read skips.
left_over : LogRec → Bytes → Bytes
left_over (done i v) rest = rest
left_over (high p) rest = newline ∷ rest
left_over (prop p v) rest = rest

tag-is_word : (r : LogRec) → is_word (tag r) ≡ true
unfolding tag is_word
tag-is_word (done i v) = refl
tag-is_word (high p) = refl
tag-is_word (prop p v) = refl

round_step :
    (next : Rounds) (i : ℕ) (t : Bytes) (r : LogRec) (rest : Bytes) (a : Acceptor)
    → is_clean r ≡ true
    → round next i (read_word t (some (line_of r rest))) a
      ≡ next (next_instance r i) (tag r) (some (left_over r rest)) (replay_rec r a)
unfolding round line_of tag next_instance left_over
round_step next i t (done k v) rest a h =
    rw
      (tag_of t (codes "done") (decimal k ++ space ∷ (v ++ newline ∷ rest))
        (tag-is_word (done k v)))
      (rw (read_done-line i k v rest a h))
round_step next i t (high p) rest a h =
    rw
      (tag_of t (codes "high") (decimal p.n ++ space ∷ (p.m ++ newline ∷ rest))
        (tag-is_word (high p)))
      (rw (read_high-line p rest a h))
round_step next i t (prop p v) rest a h =
    rw
      (tag_of t (codes "prop") (decimal p.n ++ space ∷ (p.m ++ space ∷ (v ++ newline ∷ rest)))
        (tag-is_word (prop p v)))
      (rw (read_prop-line p v rest a h))

loop_step :
    (f i : ℕ) (t : Bytes) (r : LogRec) (rest : Bytes) (a : Acceptor)
    → is_clean r ≡ true
    → loop (suc f) i t (some (line_of r rest)) a
      ≡ loop f (next_instance r i) (tag r) (some (left_over r rest)) (replay_rec r a)
unfolding loop
loop_step f i t r rest a h = round_step (loop f) i t r rest a h

loop-newline :
    (f i : ℕ) (t s : Bytes) (a : Acceptor)
    → loop f i t (some (newline ∷ s)) a ≡ loop f i t (some s) a
unfolding loop is_space read_word
loop-newline zero i t s a = refl
loop-newline (suc f) i t s a = rw (read_word-skip t s newline refl)

loop-left_over :
    (f i : ℕ) (t : Bytes) (r : LogRec) (s : Bytes) (a : Acceptor)
    → loop f i t (some (left_over r s)) a ≡ loop f i t (some s) a
unfolding left_over
loop-left_over f i t (done k v) s a = refl
loop-left_over f i t (high p) s a = loop-newline f i t s a
loop-left_over f i t (prop p v) s a = refl

loop-text_of :
    (f i : ℕ) (t : Bytes) (rs : List LogRec) (a : Acceptor)
    → clean rs ≡ true
    → length rs < f
    → loop f i t (some (text_of rs)) a ≡ read (replay rs a)
unfolding text_of replay clean read_word loop
loop-text_of zero i t rs a h lt = absurd (omega arith)
loop-text_of (suc f) i t [] a h lt = refl
loop-text_of (suc f) i t (r ∷ rs) a h lt =
    loop_step f i t r (text_of rs) a (ground arith)
    ∙ loop-left_over f (next_instance r i) (tag r) r (text_of rs) (replay_rec r a)
    ∙ loop-text_of f (next_instance r i) (tag r) rs (replay_rec r a) (ground arith) (omega arith)

-- A line has at least one character, so the fuel of `logread` covers every record.
length-line_of : (r : LogRec) (rest : Bytes) → length rest < length (line_of r rest)
unfolding line_of
length-line_of (done k v) rest = omega (
  arith,
  length-append (decimal k) (space ∷ (v ++ newline ∷ rest)),
  length-append v (newline ∷ rest),
)
length-line_of (high p) rest = omega (
  arith,
  length-append (decimal p.n) (space ∷ (p.m ++ newline ∷ rest)),
  length-append p.m (newline ∷ rest),
)
length-line_of (prop p v) rest = omega (
  arith,
  length-append (decimal p.n) (space ∷ (p.m ++ space ∷ (v ++ newline ∷ rest))),
  length-append p.m (space ∷ (v ++ newline ∷ rest)),
  length-append v (newline ∷ rest),
)

length-text_of : (rs : List LogRec) → length rs ≤ length (text_of rs)
unfolding text_of
length-text_of [] = omega arith
length-text_of (r ∷ rs) = omega (arith, length-text_of rs, length-line_of r (text_of rs))

-- Reading a log that holds the lines of `rs` replays `rs`, whatever the uninitialised variable holds.
pub logread-text_of :
    (junk : ℕ) (rs : List LogRec) (a : Acceptor)
    → clean rs ≡ true
    → a.file ≡ text_of rs
    → logread junk a ≡ read (replay rs a)
unfolding logread
logread-text_of junk rs a h e =
    subst (λ x. loop (suc (length x)) junk [] (some x) a ≡ read (replay rs a)) (sym e)
      (loop-text_of (suc (length (text_of rs))) junk [] rs a h (omega (arith, length-text_of rs)))
