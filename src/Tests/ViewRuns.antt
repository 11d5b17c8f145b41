-- ===== src/Tests/ViewRuns.antt =====
-- The views, the primary and the handles at concrete inputs.
use frangipani_yfs.Prelude.{
  ◌⊎◌, elem, ℕ, ◌≡◌, refl, true, false, [], ◌∷◌, List, Bytes, some, arith, All, elem_str, str_eq,
  update,
}
use frangipani_yfs.Text.{decimal}
use frangipani_yfs.Text.Words.{is_line}
use frangipani_yfs.Paxos.Acceptor.{Acceptor, decides}
use frangipani_yfs.Paxos.Threads.{Event, arrives, steps, at_rest}
use frangipani_yfs.Paxos.Threads
use frangipani_yfs.Paxos.Serial.{AllArrive, is_serial, is_quiet}
use frangipani_yfs.Paxos.Log.{start, restore, read, fresh, first_value}
use frangipani_yfs.Paxos.Proposer.{Proposer}
use frangipani_yfs.Paxos.Recovery.{IsClean}
use frangipani_yfs.Paxos.Restart.{boot}
use frangipani_yfs.Config.{
  Config, new_config, failure, quiet, asks, beat, get_curview, get_prevview,
}
use frangipani_yfs.Config.Views.{committed, serial_view}
use frangipani_yfs.Config.Joining.{serial_join}
use frangipani_yfs.Config.Heartbeats.{Pings, Removal, beat-Removes}
use frangipani_yfs.Rsm.{Rsm, set_primary}
use frangipani_yfs.Rsm.Primary.{IsName, Chosen, set_primary-Chosen}
use frangipani_yfs.Handle.{Manager, Use, gets, dones, deletes, uses, give_back, no_handles}
use frangipani_yfs.Handle.Counts.{all_may, count_of, out_for, has_client, handles-Counted}

-- The names "1" and "2".
abbrev one : Bytes
one = 49 ∷ []

abbrev two : Bytes
two = 50 ∷ []

abbrev proposer : Proposer
proposer = record {
  me = one;
  break1 = false;
  break2 = false;
  stable = true;
  my_n = record { n = 0; m = one };
}

-- Node 1 begins, and view 2 is "1 2 ": one thread decides it, step by step.
abbrev joining : List Event
joining =
    arrives (decides (record { at = 2; v = 49 ∷ 32 ∷ 50 ∷ 32 ∷ [] }))
    ∷ steps 0
    ∷ steps 0
    ∷ steps 0
    ∷ steps 0
    ∷ steps 0
    ∷ steps 0
    ∷ steps 0
    ∷ steps 0
    ∷ steps 0
    ∷ steps 0
    ∷ steps 0
    ∷ steps 0
    ∷ []

one_line : is_line one ≡ true
unfolding is_line
one_line = refl

joining-IsClean : AllArrive IsClean joining
unfolding is_line AllArrive
joining-IsClean = ((omega arith, refl), tt)

joining-serial : is_serial joining (at_rest (boot true true one one)) ≡ true
unfolding is_serial boot fresh first_value
joining-serial = refl

joining-quiet : is_quiet (Threads.run joining (at_rest (boot true true one one))).threads ≡ true
unfolding Threads.run is_quiet boot fresh first_value
joining-quiet = refl

serial_view_example :
    let s = (Threads.run joining (at_rest (boot true true one one))).shared.acceptor in
    let c = committed s.upcalls (new_config one proposer (boot true true one one)) in
    (r : Acceptor) × (start 0 true true one one s.file ≡ read r)
    × ((new_config one proposer r).myvid ≡ c.myvid)
    × ((new_config one proposer r).mems ≡ c.mems)
serial_view_example =
    serial_view 0 true one one proposer proposer joining one_line joining-IsClean joining-serial
      joining-quiet

serial_join_example :
    let s = (Threads.run joining (at_rest (boot true true one one))).shared.acceptor in
    let c = committed s.upcalls (new_config one proposer (boot true true one one)) in
    (r : Acceptor) × (restore 0 s.file (fresh true two []) ≡ read r)
    × ((new_config two proposer r).myvid ≡ c.myvid)
    × ((new_config two proposer r).mems ≡ c.mems)
serial_join_example =
    serial_join 0 true one two one [] proposer proposer joining one_line joining-IsClean
      joining-serial joining-quiet

-- Views 1 and 2 of node 2: "1 2 " and, when node 1 was removed, "2 ".
abbrev views : ℕ → Bytes
views = update (λ _. 50 ∷ 32 ∷ []) 1 (49 ∷ 32 ∷ 50 ∷ 32 ∷ [])

abbrev node : Config
node = record {
  myvid = 2;
  me = two;
  mems = one ∷ two ∷ [];
  acc = record (fresh true two []) { values = views; instance_h = 2 };
  pro = proposer;
  deleted = [];
  changes = 0;
}

-- Nobody answers, and the view stays.
abbrev silent : Pings
silent i m = (failure, one ∷ two ∷ [])

beat-Removes_example :
    (beat 3 0 silent node ≡ quiet)
    ⊎ ((m : Bytes) × (beat 3 0 silent node ≡ asks m) × Removal 0 silent node m)
beat-Removes_example = beat-Removes 3 0 silent node (λ i x. refl) (omega arith)

abbrev replica : Rsm
replica = record {
  cfg = node;
  primary = one;
  inviewchange = false;
  partitioned = false;
  dopartition = false;
  break1 = false;
  break2 = false;
  reached = [];
  reachable = true;
}

named : All IsName (get_prevview node)
unfolding get_prevview decimal
named = ((1, refl, omega arith), ((2, refl, omega arith), tt))

was_there : elem_str (decimal 2) (get_prevview node) ≡ true
unfolding get_prevview decimal elem_str str_eq
was_there = refl

is_there : elem_str (decimal 2) (get_curview node) ≡ true
unfolding get_curview decimal elem_str str_eq
is_there = refl

set_primary-Chosen_example : (t : Rsm) × (set_primary 0 replica ≡ some t) × Chosen replica t
set_primary-Chosen_example = set_primary-Chosen 0 2 replica named (omega arith) was_there is_there

-- A node is dropped while its handle is out, and the handle is given back.
abbrev dropped : List Use
dropped =
    gets two true
    ∷ dones two
    ∷ deletes two
    ∷ gets one true
    ∷ gets one false
    ∷ deletes one
    ∷ dones one
    ∷ []

dropped-may : all_may dropped no_handles ≡ true
unfolding all_may str_eq give_back
dropped-may = refl

handles-Counted_example :
    (s : Manager) × (uses dropped no_handles ≡ some s)
    × ((m : Bytes) → count_of (s.hmap m) ≡ out_for m s.out)
    × All (λ (p : Bytes × ℕ). has_client (p.1) (s.hmap (p.0)) ≡ true) s.out
    × All (λ (p : Bytes × ℕ). elem (p.1) s.gone ≡ false) s.out
handles-Counted_example = handles-Counted dropped dropped-may
