-- ===== src/Paxos/Acceptor.antt =====
-- The acceptor of paxos.cc and the three log writers of log.cc. `values` is read and written by
-- `operator[]` only, so it is a total map with the empty string by default. A handler is a function here:
-- what it does when no other handler comes between its steps. Threads has the steps.
use frangipani_yfs.Prelude.{ℕ, ◌++◌, ◌∷◌, [], List, Bool, leb, ltb, if◌then◌else◌, Bytes, update}
use frangipani_yfs.Paxos.Order.{PropT, gt, ge}
use frangipani_yfs.Paxos.Record.{LogRec, done, high, prop, line_of}

pub record Acceptor : Type 0 where
  pub has_cfg : Bool
  pub me : Bytes
  pub n_h : PropT
  pub n_a : PropT
  pub v_a : Bytes
  pub instance_h : ℕ
  pub values : ℕ → Bytes
  -- the file paxos-<me>.log
  pub file : Bytes
  -- the calls of cfg->paxos_commit so far, the last one first
  pub upcalls : List (ℕ × Bytes)

pub record PrepareArg : Type 0 where
  pub at : ℕ
  pub n : PropT
  pub v : Bytes

pub record PrepareRes : Type 0 where
  pub oldinstance : ℕ
  pub accept : ℕ
  pub n_a : PropT
  pub v_a : Bytes

pub record AcceptArg : Type 0 where
  pub at : ℕ
  pub n : PropT
  pub v : Bytes

pub record DecideArg : Type 0 where
  pub at : ℕ
  pub v : Bytes

-- log::loginstance, log::loghigh and log::logprop: open for append, one line, close.
unfoldable pub append_rec : LogRec → Acceptor → Acceptor
unfolding line_of
append_rec r s = record s { file = s.file ++ line_of r [] }

unfoldable pub loginstance : ℕ → Bytes → Acceptor → Acceptor
unfolding append_rec
loginstance i v s = append_rec (done i v) s

unfoldable pub loghigh : PropT → Acceptor → Acceptor
unfolding append_rec
loghigh p s = append_rec (high p) s

unfoldable pub logprop : PropT → Bytes → Acceptor → Acceptor
unfolding append_rec
logprop p v s = append_rec (prop p v) s

-- acceptor::commit_wo and acceptor::commit, which takes the mutex around it
unfoldable pub commit : ℕ → Bytes → Acceptor → Acceptor
unfolding loginstance
commit i v s =
    if ltb s.instance_h i
    then (let t = loginstance i v (record s { values = update s.values i v }) in
        record t {
          instance_h = i;
          n_h = record { n = 0; m = s.me };
          n_a = record { n = 0; m = s.me };
          v_a = [];
          upcalls = if s.has_cfg then (i, v) ∷ s.upcalls else s.upcalls;
        })
    else s

unfoldable pub preparereq : PrepareArg → Acceptor → Acceptor × PrepareRes
unfolding loghigh gt
preparereq a s =
    if leb a.at s.instance_h
    then (s, record { oldinstance = 1; accept = 0; n_a = s.n_a; v_a = s.values a.at })
    else if gt a.n s.n_h
    then (
      loghigh a.n (record s { n_h = a.n }),
      record { oldinstance = 0; accept = 1; n_a = s.n_a; v_a = s.v_a },
    )
    else (s, record { oldinstance = 0; accept = 0; n_a = s.n_a; v_a = s.v_a })

unfoldable pub acceptreq : AcceptArg → Acceptor → Acceptor × ℕ
unfolding logprop ge
acceptreq a s =
    if leb a.at s.instance_h
    then (s, 0)
    else if ge a.n s.n_h
    then (logprop a.n a.v (record s { n_h = a.n; n_a = a.n; v_a = a.v }), 1)
    else (s, 0)

unfoldable pub decidereq : DecideArg → Acceptor → Acceptor × ℕ
unfolding commit
decidereq a s = if leb a.at s.instance_h then (s, 0) else (commit a.at a.v s, 1)

-- The messages that reach an acceptor, and `commit`, which the proposer of the same node calls.
pub data Message : Type 0 where
  prepares : PrepareArg → Message
  accepts : AcceptArg → Message
  decides : DecideArg → Message
  commits : ℕ → Bytes → Message

unfoldable pub handle : Message → Acceptor → Acceptor
unfolding preparereq acceptreq decidereq commit
handle (prepares a) s = (preparereq a s).0
handle (accepts a) s = (acceptreq a s).0
handle (decides a) s = (decidereq a s).0
handle (commits i v) s = commit i v s

unfoldable pub run : List Message → Acceptor → Acceptor
unfolding handle
run [] s = s
run (m ∷ ms) s = run ms (handle m s)
