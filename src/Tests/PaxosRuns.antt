-- ===== src/Tests/PaxosRuns.antt =====
-- Paxos at concrete inputs.
use frangipani_yfs.Prelude.{
  ℕ, ◌+◌, ◌^◌, ◌<◌, ◌≡◌, ◌≢◌, refl, true, false, [], ◌∷◌, List, map, Bytes, some, arith, elem_str,
  str_eq, All, ◌⊎◌,
}
use frangipani_yfs.Text.Words.{is_word, is_line}
use frangipani_yfs.Paxos.Order.{PropT, gt, ge}
use frangipani_yfs.Paxos.Record.{LogRec, done, high, prop, text_of, is_clean}
use frangipani_yfs.Paxos.Acceptor.{
  Acceptor, PrepareArg, PrepareRes, AcceptArg, DecideArg, Message, prepares, accepts, decides,
  preparereq, acceptreq,
}
use frangipani_yfs.Paxos.Acceptor
use frangipani_yfs.Paxos.Log.{logread, start, read, out_of_fuel, fresh, first_value}
use frangipani_yfs.Paxos.Safety.{Told}
use frangipani_yfs.Paxos.Threads.{
  World, Event, arrives, steps, run, at_rest, advance, prepare_sets, prepare_returns, accept_tests,
  accept_returns, decide_returns, commit_locks,
}
use frangipani_yfs.Paxos.Serial.{AllArrive, is_serial, is_quiet, others_quiet}
use frangipani_yfs.Paxos.Handlers.{
  thread_at, serial_promise, serial-Told, serial_restart, overlap_breaks_promise,
  decide_keeps_mutex,
}
use frangipani_yfs.Paxos.Replay.{replay, clean, logread-text_of}
use frangipani_yfs.Paxos.ReadEnds.{logread-ends}
use frangipani_yfs.Paxos.Recovery.{Agrees, IsClean}
use frangipani_yfs.Paxos.Restart.{boot, lost_promise}
use frangipani_yfs.Paxos.Proposer.{Proposer, Network, majority, prepare}
use frangipani_yfs.Paxos.Proposer
use frangipani_yfs.Paxos.Quorum.{majority-Common}
use frangipani_yfs.Paxos.Choice.{responses, Below, Reported, prepare-Chosen}
use frangipani_yfs.Paxos.Decision.{DecidedOrSilent, run-Decided}

abbrev ann : Bytes
ann = 97 ∷ []

abbrev bob : Bytes
bob = 98 ∷ []

abbrev pair : List Bytes
pair = ann ∷ bob ∷ []

abbrev at_number : ℕ → PropT
at_number k = record { n = k; m = ann }

-- A node that starts with an empty log.
abbrev node : Acceptor
node = fresh true ann []

abbrev asks : ℕ → PrepareArg
asks k = record { at = 1; n = at_number k; v = [] }

abbrev offers : ℕ → AcceptArg
offers k = record { at = 1; n = at_number k; v = bob }

-- A thread has found that it can promise number 5, and then a lower prepare request is refused.
abbrev asked : World
asked = run (arrives (prepares (asks 5)) ∷ steps 0 ∷ []) (at_rest node)

abbrev refusal : List Event
refusal = steps 0 ∷ steps 0 ∷ arrives (prepares (asks 3)) ∷ steps 0 ∷ []

abbrev promise : PrepareRes
promise = record { oldinstance = 0; accept = 1; n_a = node.n_a; v_a = node.v_a }

asked-promises :
    (thread_at 0 asked.threads ≡ some (prepare_sets (asks 5) promise))
    × (others_quiet 0 asked.threads ≡ true)
    × (is_serial refusal asked ≡ true)
    × (is_quiet (run refusal asked).threads ≡ true)
    × ((run refusal asked).shared.acceptor.instance_h ≡ asked.shared.acceptor.instance_h)
unfolding run thread_at others_quiet is_serial is_quiet fresh
asked-promises = (refl, refl, refl, refl, refl)

higher : gt (at_number 5) (at_number 4) ≡ true
unfolding gt
higher = refl

serial_promise_example :
    (advance (accept_tests (offers 4)) (run refusal asked).shared).0 ≡ accept_returns 0
serial_promise_example =
    serial_promise 0 (asks 5) promise (offers 4) refusal asked (asked-promises.0) (asked-promises.1)
      (asked-promises.2) (asked-promises.3) (asked-promises.4) higher

-- One thread decides instance 1, then another one instance 4.
abbrev deciding : List Event
deciding =
    arrives (decides (record { at = 1; v = bob }))
    ∷ steps 0
    ∷ steps 0
    ∷ steps 0
    ∷ steps 0
    ∷ steps 0
    ∷ steps 0
    ∷ steps 0
    ∷ steps 0
    ∷ steps 0
    ∷ steps 0
    ∷ steps 0
    ∷ steps 0
    ∷ arrives (decides (record { at = 4; v = ann }))
    ∷ steps 0
    ∷ steps 0
    ∷ steps 0
    ∷ steps 0
    ∷ steps 0
    ∷ steps 0
    ∷ steps 0
    ∷ steps 0
    ∷ steps 0
    ∷ steps 0
    ∷ steps 0
    ∷ steps 0
    ∷ []

deciding-serial : is_serial deciding (at_rest node) ≡ true
unfolding is_serial fresh
deciding-serial = refl

deciding-quiet : is_quiet (run deciding (at_rest node)).threads ≡ true
unfolding run is_quiet fresh
deciding-quiet = refl

nobody-quiet : is_quiet (at_rest node).threads ≡ true
unfolding is_quiet
nobody-quiet = refl

told : Told node
unfolding fresh
told = tt

serial-Told_example : Told (run deciding (at_rest node)).shared.acceptor
serial-Told_example =
    serial-Told deciding (at_rest node) deciding-serial nobody-quiet deciding-quiet told

at_one : gt (at_number 5) node.n_h ≡ true
unfolding gt fresh
at_one = refl

four_fits : ge (at_number 4) node.n_h ≡ true
unfolding ge fresh
four_fits = refl

undecided : node.instance_h < 1
unfolding fresh
undecided = omega arith

overlap_breaks_promise_example :
    let w =
      run
        (arrives (accepts (offers 4))
          ∷ steps 0
          ∷ arrives (prepares (asks 5))
          ∷ steps 0
          ∷ steps 0
          ∷ steps 0
          ∷ steps 1
          ∷ steps 1
          ∷ steps 1
          ∷ steps 1
          ∷ [])
        (at_rest node) in
    (w.threads ≡ prepare_returns promise ∷ accept_returns 1 ∷ [])
    × (w.shared.acceptor.n_h ≡ at_number 4)
overlap_breaks_promise_example =
    overlap_breaks_promise (asks 5) (offers 4) node undecided undecided four_fits higher at_one

has_config : node.has_cfg ≡ true
unfolding fresh
has_config = refl

decide_keeps_mutex_example :
    let w =
      run
        (arrives (decides (record { at = 1; v = bob }))
          ∷ steps 0
          ∷ steps 0
          ∷ steps 0
          ∷ steps 0
          ∷ steps 0
          ∷ steps 0
          ∷ steps 0
          ∷ steps 0
          ∷ steps 0
          ∷ steps 0
          ∷ steps 0
          ∷ steps 0
          ∷ [])
        (at_rest node) in
    (w.threads ≡ decide_returns 1 ∷ [])
    × (w.shared.locked ≡ true)
    × ((i : ℕ) (v : Bytes) → advance (commit_locks i v) w.shared ≡ (commit_locks i v, w.shared))
decide_keeps_mutex_example =
    decide_keeps_mutex (record { at = 1; v = bob }) node undecided has_config

abbrev records : List LogRec
records = high (at_number 3) ∷ prop (at_number 3) bob ∷ done 1 bob ∷ []

records-clean : clean records ≡ true
unfolding clean is_clean is_word is_line
records-clean = refl

logread-text_of_example :
    logread 0 (fresh true ann (text_of records))
    ≡ read (replay records (fresh true ann (text_of records)))
logread-text_of_example =
    logread-text_of 0 records (fresh true ann (text_of records)) records-clean
      (unfold fresh in refl)

logread-ends_example : logread 0 (fresh true ann (1 ∷ 2 ∷ [])) ≢ out_of_fuel
logread-ends_example = logread-ends 0 (fresh true ann (1 ∷ 2 ∷ []))

abbrev first_messages : List Message
first_messages = prepares (record { at = 2; n = at_number 3; v = [] }) ∷ []

bob_line : is_line bob ≡ true
unfolding is_line
bob_line = refl

first-IsClean : All IsClean first_messages
unfolding is_word
first-IsClean = ((omega arith, refl), tt)

abbrev first_steps : List Event
first_steps =
    arrives (prepares (record { at = 2; n = at_number 3; v = [] }))
    ∷ steps 0
    ∷ steps 0
    ∷ steps 0
    ∷ []

first_steps-IsClean :
    (AllArrive IsClean first_steps)
    × (is_serial first_steps (at_rest (boot true true ann bob)) ≡ true)
    × (is_quiet (run first_steps (at_rest (boot true true ann bob))).threads ≡ true)
unfolding is_word AllArrive is_serial is_quiet run boot fresh first_value
first_steps-IsClean = (((omega arith, refl), tt), refl, refl)

serial_restart_example :
    let s = (run first_steps (at_rest (boot true true ann bob))).shared.acceptor in
    (r : Acceptor) × (start 0 true true ann bob s.file ≡ read r) × Agrees s r
serial_restart_example =
    serial_restart 0 true true ann bob first_steps bob_line (first_steps-IsClean.0)
      (first_steps-IsClean.1) (first_steps-IsClean.2)

abbrev late : AcceptArg
late = record { at = 2; n = at_number 9; v = bob }

abbrev between : PrepareArg
between = record { at = 2; n = at_number 6; v = [] }

late-IsClean : IsClean (accepts late)
unfolding is_word is_line
late-IsClean = (omega arith, refl, refl)

late_taken :
    ((acceptreq late (Acceptor.run first_messages (boot true true ann bob))).1 ≡ 1)
    × ((Acceptor.run first_messages (boot true true ann bob)).instance_h < 2)
    × ((Acceptor.run first_messages (boot true true ann bob)).n_h.n < 6)
unfolding acceptreq Acceptor.run boot fresh first_value
late_taken = (refl, omega arith, omega arith)

nine_six : gt (at_number 9) (at_number 6) ≡ true
unfolding gt
nine_six = refl

lost_promise_example :
    let s = Acceptor.run first_messages (boot true true ann bob) in
    ((preparereq between (acceptreq late s).0).1.accept ≡ 0)
    × ((r : Acceptor) × (start 0 true true ann bob (acceptreq late s).0.file ≡ read r)
        × ((preparereq between r).1.accept ≡ 1))
lost_promise_example =
    lost_promise true true ann bob 0 first_messages late between bob_line first-IsClean late-IsClean
      (late_taken.0) (late_taken.1) nine_six (late_taken.2)

both_majority : majority pair pair ≡ true
unfolding majority elem_str str_eq
both_majority = refl

majority-Common_example :
    (x : Bytes) × (elem_str x pair ≡ true) × (elem_str x pair ≡ true) × (elem_str x pair ≡ true)
majority-Common_example = majority-Common pair pair pair both_majority both_majority

-- Each node answers with a value that it accepted under the number 4 and its own name.
abbrev answer : Bytes → PrepareRes
answer x = record { oldinstance = 0; accept = 1; n_a = record { n = 4; m = x }; v_a = x }

abbrev net : Network
net = record { ask_prepare = λ i x q. some (answer x); ask_accept = λ i x q. some 1 }

prepared : (prepare net (at_number 5) 1 pair []).result ≡ true
unfolding prepare
prepared = refl

prepare-Chosen_example :
    let q = prepare net (at_number 5) 1 pair [] in
    let rs = responses net (record { at = 1; n = at_number 5; v = [] }) 0 pair in
    (q.accepts ≡ map (λ x. x.0) rs)
    × Below q.highest_n rs
    × (((q.highest_n ≡ 0) × (q.v ≡ [])) ⊎ Reported q.highest_n q.v rs)
prepare-Chosen_example = prepare-Chosen net (at_number 5) 1 pair [] prepared

abbrev leader : Proposer
leader = record { me = ann; break1 = false; break2 = false; stable = true; my_n = at_number 0 }

run-Decided_example : DecidedOrSilent net 1 pair (Proposer.run net 1 pair bob leader node)
run-Decided_example = run-Decided net 1 pair bob leader node

node_number : node.n_h.n + 1 < 2 ^ 32
unfolding fresh
node_number = omega arith
