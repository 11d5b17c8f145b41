-- ===== src/Paxos/Threads.antt =====
-- The threads of an acceptor (paxos.cc). Its three handlers run on the ten workers of an rpc server and
-- take no mutex, so they interleave at each access to the acceptor's fields and to the log; only
-- `commit` takes pxs_mutex. commit_wo gives the mutex up around paxos_commit whether it was held or not,
-- so that a decidereq leaves it locked.
use frangipani_yfs.Prelude.{
  ℕ, zero, suc, Bool, true, false, [], ◌∷◌, List, Bytes, leb, ltb, if◌then◌else◌, update,
}
use frangipani_yfs.Paxos.Order.{gt, ge}
use frangipani_yfs.Paxos.Acceptor.{
  Acceptor, PrepareArg, PrepareRes, AcceptArg, DecideArg, Message, prepares, accepts, decides,
  commits, loginstance, loghigh, logprop,
}

-- What a thread does next. The flag of commit_wo says that `commit` called it.
pub data Thread : Type 0 where
  prepare_tests : PrepareArg → Thread
  prepare_sets prepare_logs : PrepareArg → PrepareRes → Thread
  prepare_returns : PrepareRes → Thread
  accept_tests accept_sets_n_h accept_sets_n_a accept_sets_v_a accept_logs : AcceptArg → Thread
  accept_returns : ℕ → Thread
  decide_tests : DecideArg → Thread
  decide_returns : ℕ → Thread
  commit_locks : ℕ → Bytes → Thread
  wo_tests wo_sets_value wo_logs wo_sets_instance wo_sets_n_h wo_sets_n_a wo_clears_v_a wo_unlocks :
      Bool → ℕ → Bytes → Thread
  wo_tells : Bool → ℕ → Bytes → Thread
  wo_relocks : Bool → Thread
  wo_returns : Bool → Thread
  commit_returns : Thread

-- The acceptor, and whether pxs_mutex is locked.
pub record Shared : Type 0 where
  pub acceptor : Acceptor
  pub locked : Bool

abbrev with_acceptor : Acceptor → Shared → Shared
with_acceptor a s = record s { acceptor = a }

unfoldable pub prepare_test : PrepareArg → Acceptor → Thread
unfolding gt
prepare_test a s =
    if leb a.at s.instance_h
    then prepare_returns (record { oldinstance = 1; accept = 0; n_a = s.n_a; v_a = s.values a.at })
    else if gt a.n s.n_h
    then prepare_sets a (record { oldinstance = 0; accept = 1; n_a = s.n_a; v_a = s.v_a })
    else prepare_returns (record { oldinstance = 0; accept = 0; n_a = s.n_a; v_a = s.v_a })

unfoldable pub accept_test : AcceptArg → Acceptor → Thread
unfolding ge
accept_test a s =
    if leb a.at s.instance_h
    then accept_returns 0
    else if ge a.n s.n_h
    then accept_sets_n_h a
    else accept_returns 0

unfoldable pub decide_test : DecideArg → Acceptor → Thread
decide_test a s = if leb a.at s.instance_h then decide_returns 0 else wo_tests false a.at a.v

-- The next step of a thread. One that waits for the mutex stays where it is.
unfoldable pub advance : Thread → Shared → Thread × Shared
unfolding prepare_test accept_test decide_test loghigh logprop loginstance
advance (prepare_tests a) s = (prepare_test a s.acceptor, s)
advance (prepare_sets a r) s =
    (prepare_logs a r, with_acceptor (record (s.acceptor) { n_h = a.n }) s)
advance (prepare_logs a r) s =
    (prepare_returns r, with_acceptor (loghigh s.acceptor.n_h s.acceptor) s)
advance (prepare_returns r) s = (prepare_returns r, s)
advance (accept_tests a) s = (accept_test a s.acceptor, s)
advance (accept_sets_n_h a) s =
    (accept_sets_n_a a, with_acceptor (record (s.acceptor) { n_h = a.n }) s)
advance (accept_sets_n_a a) s =
    (accept_sets_v_a a, with_acceptor (record (s.acceptor) { n_a = a.n }) s)
advance (accept_sets_v_a a) s = (accept_logs a, with_acceptor (record (s.acceptor) { v_a = a.v }) s)
advance (accept_logs a) s =
    (accept_returns 1, with_acceptor (logprop s.acceptor.n_a s.acceptor.v_a s.acceptor) s)
advance (accept_returns r) s = (accept_returns r, s)
advance (decide_tests a) s = (decide_test a s.acceptor, s)
advance (decide_returns r) s = (decide_returns r, s)
advance (commit_locks i v) s =
    if s.locked then (commit_locks i v, s) else (wo_tests true i v, record s { locked = true })
advance (wo_tests c i v) s =
    if ltb s.acceptor.instance_h i then (wo_sets_value c i v, s) else (wo_returns c, s)
advance (wo_sets_value c i v) s =
    (wo_logs c i v, with_acceptor (record (s.acceptor) { values = update s.acceptor.values i v }) s)
advance (wo_logs c i v) s = (wo_sets_instance c i v, with_acceptor (loginstance i v s.acceptor) s)
advance (wo_sets_instance c i v) s =
    (wo_sets_n_h c i v, with_acceptor (record (s.acceptor) { instance_h = i }) s)
advance (wo_sets_n_h c i v) s = (
  wo_sets_n_a c i v,
  with_acceptor (record (s.acceptor) { n_h = record { n = 0; m = s.acceptor.me } }) s,
)
advance (wo_sets_n_a c i v) s = (
  wo_clears_v_a c i v,
  with_acceptor (record (s.acceptor) { n_a = record { n = 0; m = s.acceptor.me } }) s,
)
advance (wo_clears_v_a c i v) s = (
  if s.acceptor.has_cfg then wo_unlocks c i v else wo_returns c,
  with_acceptor (record (s.acceptor) { v_a = [] }) s,
)
advance (wo_unlocks c i v) s = (wo_tells c i v, record s { locked = false })
advance (wo_tells c i v) s =
    (wo_relocks c, with_acceptor (record (s.acceptor) { upcalls = (i, v) ∷ s.acceptor.upcalls }) s)
advance (wo_relocks c) s =
    if s.locked then (wo_relocks c, s) else (wo_returns c, record s { locked = true })
advance (wo_returns true) s = (commit_returns, record s { locked = false })
advance (wo_returns false) s = (decide_returns 1, s)
advance commit_returns s = (commit_returns, s)

unfoldable pub start_of : Message → Thread
start_of (prepares a) = prepare_tests a
start_of (accepts a) = accept_tests a
start_of (decides a) = decide_tests a
start_of (commits i v) = commit_locks i v

pub record World : Type 0 where
  pub shared : Shared
  pub threads : List Thread

unfoldable pub behind : Thread → World → World
behind t w = record w { threads = t ∷ w.threads }

-- A step of the thread at a position.
unfoldable pub act : ℕ → List Thread → Shared → World
unfolding advance behind
act k [] s = record { shared = s; threads = [] }
act zero (t ∷ ts) s = let (u, r) = advance t s in record { shared = r; threads = u ∷ ts }
act (suc k) (t ∷ ts) s = behind t (act k ts s)

-- A message arrives, or a thread takes a step.
pub data Event : Type 0 where
  arrives : Message → Event
  steps : ℕ → Event

unfoldable pub step : Event → World → World
unfolding act start_of
step (arrives m) w = record w { threads = start_of m ∷ w.threads }
step (steps k) w = act k w.threads w.shared

unfoldable pub run : List Event → World → World
unfolding step
run [] w = w
run (e ∷ es) w = run es (step e w)

-- A node without threads.
abbrev pub at_rest : Acceptor → World
at_rest a = record { shared = record { acceptor = a; locked = false }; threads = [] }
