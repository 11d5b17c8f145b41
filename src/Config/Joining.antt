-- ===== src/Config/Joining.antt =====
-- A node that joins restores the log of the primary (rsm::join, config::restore, acceptor::restore).
use frangipani_yfs.Prelude.{
  subst, ℕ, ◌≡◌, refl, ap, sym, ◌∙◌, Bool, true, [], List, Bytes, arith, All, inl,
}
use frangipani_yfs.Text.Words.{is_line}
use frangipani_yfs.Paxos.Acceptor.{Acceptor, Message, run}
use frangipani_yfs.Paxos.Threads.{Event, at_rest}
use frangipani_yfs.Paxos.Threads
use frangipani_yfs.Paxos.Serial.{AllArrive, is_serial, is_quiet, run-at_rest}
use frangipani_yfs.Paxos.Log.{read, fresh, restore}
use frangipani_yfs.Paxos.Proposer.{Proposer}
use frangipani_yfs.Paxos.Replay.{replay, logread-text_of}
use frangipani_yfs.Paxos.Recovery.{Agrees, IsClean, run-Logged}
use frangipani_yfs.Paxos.Restart.{boot, boot-Logged}
use frangipani_yfs.Config.{members, new_config}
use frangipani_yfs.Config.Views.{committed, boot-Told, run-Follows, view_of}

-- Another node that has decided nothing agrees with the first one's beginning.
other-Agrees : (me you file : Bytes) → Agrees (fresh true me []) (fresh true you file)
unfolding fresh
other-Agrees me you file = record {
  decided = λ i. refl;
  instance = refl;
  value = refl;
  number = refl;
  name = inl refl;
  promise = omega arith;
}

-- A node that joins gets the primary's view: after any messages whose numbers fit `unsigned` and whose
-- names and values are words and lines, a new node of any name that restores the primary's log reads
-- it to the end, and has the primary's view number and members.
pub join_view :
    (junk : ℕ) (first : Bool) (me you v old : Bytes) (pro pro' : Proposer) (ms : List Message)
    → is_line v ≡ true
    → All IsClean ms
    → let s = run ms (boot true first me v) in
      let c = committed s.upcalls (new_config me pro (boot true first me v)) in
      (r : Acceptor) × (restore junk s.file (fresh true you old) ≡ read r)
      × ((new_config you pro' r).myvid ≡ c.myvid)
      × ((new_config you pro' r).mems ≡ c.mems)
unfolding restore
join_view junk first me you v old pro pro' ms one clean =
    let a = boot true first me v in
    let s = run ms a in
    let ((i, m), h, z) = run-Follows ms a (new_config me pro a) (boot-Told first me v pro) in
    let (rs, e, k, back) =
      run-Logged (fresh true me []) ms a clean (boot-Logged true first me v one) in
    let b = fresh true you s.file in
    let g = back b (other-Agrees me you s.file) in
    let r = replay rs b in
    let (x, y) = view_of you pro' r (g.decided 0 ∙ z) in
    (
      r,
      unfold fresh in logread-text_of junk rs (fresh true you s.file) k e,
      x ∙ g.instance ∙ sym i,
      y ∙ ap members (g.decided r.instance_h ∙ ap s.values g.instance) ∙ sym m,
    )

-- A new node that joins gets the primary's view: if the messages of the primary's acceptor are clean
-- (names are words, values lines, numbers fit `unsigned`), none of its threads takes a step while
-- another handler is midway, and none is midway when the log is taken, then a node of any name that
-- has decided nothing and restores that log reads it to the end, and has the primary's view number and
-- members.
pub serial_join :
    (junk : ℕ) (first : Bool) (me you v old : Bytes) (pro pro' : Proposer) (es : List Event)
    → is_line v ≡ true
    → AllArrive IsClean es
    → is_serial es (at_rest (boot true first me v)) ≡ true
    → is_quiet (Threads.run es (at_rest (boot true first me v))).threads ≡ true
    → let s = (Threads.run es (at_rest (boot true first me v))).shared.acceptor in
      let c = committed s.upcalls (new_config me pro (boot true first me v)) in
      (r : Acceptor) × (restore junk s.file (fresh true you old) ≡ read r)
      × ((new_config you pro' r).myvid ≡ c.myvid)
      × ((new_config you pro' r).mems ≡ c.mems)
serial_join junk first me you v old pro pro' es one clean serial quiet =
    let (ms, ps, e) = run-at_rest IsClean es (boot true first me v) serial clean quiet in
    subst
      (λ s.
        let c = committed s.upcalls (new_config me pro (boot true first me v)) in
        (r : Acceptor) × (restore junk s.file (fresh true you old) ≡ read r)
        × ((new_config you pro' r).myvid ≡ c.myvid)
        × ((new_config you pro' r).mems ≡ c.mems))
      (sym e) (join_view junk first me you v old pro pro' ms one ps)
