-- ===== src/Paxos/Log.antt =====
-- log::logread, log::dump and log::restore, and the constructor of the acceptor, which reads the log.
use frangipani_yfs.Prelude.{
  ℕ, suc, [], Bool, ◌==◌, if◌then◌else◌, Bytes, update, ◌&&◌, str_eq, codes, none, some, zero,
  length,
}
use frangipani_yfs.Text.{Stream, read_word, read_num, get_char, read_line, max_u32}
use frangipani_yfs.Paxos.Acceptor.{Acceptor, loginstance}

-- How the loop of `logread` ends: at the end of the file, by `assert(0)`, or never.
pub data Outcome : Type 0 where
  read : Acceptor → Outcome
  aborted : Acceptor → Outcome
  out_of_fuel : Outcome

-- The body of the loop, by the type of the record; `i` is the variable `instance`, which keeps its
-- value from one round to the next.
unfoldable pub read_done : ℕ → Stream → Acceptor → Acceptor × ℕ × Stream
read_done i s a =
    let (i', s1) = read_num max_u32 i s in
    let (v, s2) = read_line (get_char s1) in
    (
      record a {
        values = update a.values i' v;
        instance_h = i';
        v_a = [];
        n_h = record { n = 0; m = a.n_h.m };
        n_a = record { n = 0; m = a.n_a.m };
      },
      i',
      s2,
    )

unfoldable pub read_high : Stream → Acceptor → Acceptor × Stream
read_high s a =
    let (k, s1) = read_num max_u32 a.n_h.n s in
    let (w, s2) = read_word a.n_h.m s1 in (record a { n_h = record { n = k; m = w } }, s2)

unfoldable pub read_prop : Stream → Acceptor → Acceptor × Stream
read_prop s a =
    let (k, s1) = read_num max_u32 a.n_a.n s in
    let (w, s2) = read_word a.n_a.m s1 in
    let (v, s3) = read_line (get_char s2) in
    (record a { n_a = record { n = k; m = w }; v_a = v }, s3)

-- The rest of a round behind `from >> type`, with the next rounds as `next`.
abbrev pub Rounds : Type 0
Rounds = ℕ → Bytes → Stream → Acceptor → Outcome

unfoldable pub after_done : Rounds → Bytes → Acceptor × ℕ × Stream → Outcome
after_done next t (a, i, s) = next i t s a

unfoldable pub after_other : Rounds → ℕ → Bytes → Acceptor × Stream → Outcome
after_other next i t (a, s) = next i t s a

unfoldable pub round : Rounds → ℕ → Bytes × Stream → Acceptor → Outcome
unfolding after_done after_other str_eq
round next i (t, none) a = read a
round next i (t, some s) a =
    if str_eq t (codes "done")
    then after_done next t (read_done i (some s) a)
    else if str_eq t (codes "high")
    then after_other next i t (read_high (some s) a)
    else if str_eq t (codes "prop")
    then after_other next i t (read_prop (some s) a)
    else aborted a

-- `while (from >> type)`. Each round takes at least one character, so one more round than the file
-- has characters is enough.
unfoldable pub loop : ℕ → ℕ → Bytes → Stream → Acceptor → Outcome
unfolding round read_done read_high read_prop
loop zero i type s a = out_of_fuel
loop (suc f) i type s a = round (loop f) i (read_word type s) a

-- `junk` is the uninitialised `instance`.
unfoldable pub logread : ℕ → Acceptor → Outcome
unfolding loop
logread junk a = loop (suc (length a.file)) junk [] (some a.file) a

-- acceptor::restore: log::restore truncates the file and writes `text`, then the log is read again.
unfoldable pub restore : ℕ → Bytes → Acceptor → Outcome
unfolding logread
restore junk text a = logread junk (record a { file = text })

-- The constructor: fields cleared, the log read, and on the first node view 1 logged.
unfoldable pub first_value : Bool → Bytes → Acceptor → Acceptor
unfolding loginstance
first_value first value a =
    if a.instance_h == 0 && first
    then (let t = loginstance 1 value (record a { values = update a.values 1 value }) in
        record t { instance_h = 1 })
    else a

unfoldable pub on_read : (Acceptor → Acceptor) → Outcome → Outcome
on_read f (read a) = read (f a)
on_read f (aborted a) = aborted a
on_read f out_of_fuel = out_of_fuel

unfoldable pub fresh : Bool → Bytes → Bytes → Acceptor
fresh has_cfg me file = record {
  has_cfg = has_cfg;
  me = me;
  n_h = record { n = 0; m = me };
  n_a = record { n = 0; m = me };
  v_a = [];
  instance_h = 0;
  values = λ _. [];
  file = file;
  upcalls = [];
}

unfoldable pub start : ℕ → Bool → Bool → Bytes → Bytes → Bytes → Outcome
unfolding fresh logread first_value on_read
start junk has_cfg first me value file =
    on_read (first_value first value) (logread junk (fresh has_cfg me file))
