-- ===== src/Paxos/Recovery.antt =====
-- A restart: what the log (log.cc) of an acceptor (paxos.cc) brings back.
use frangipani_yfs.Prelude.{
  ℕ, ◌≤◌, ◌<◌, ◌≡◌, refl, sym, ap, ◌∙◌, true, false, ◌&&◌, [], ◌∷◌, ◌++◌, List, arith, Bytes, leb,
  ltb, append_assoc, ltb→lt, Bool-cases, inl, inr, ◌⊎◌, All, subst,
}
use frangipani_yfs.Text.{max_u32}
use frangipani_yfs.Text.Words.{is_line, is_word}
use frangipani_yfs.Paxos.Order.{gt, ge}
use frangipani_yfs.Paxos.Record.{LogRec, done, high, prop, line_of, text_of, is_clean}
use frangipani_yfs.Paxos.Acceptor.{
  Acceptor, PrepareArg, AcceptArg, DecideArg, Message, prepares, accepts, decides, commits,
  preparereq, acceptreq, decidereq, commit, handle, run,
}
use frangipani_yfs.Paxos.Replay.{replay_rec, replay, clean}

line_of-append : (r : LogRec) (x y : Bytes) → line_of r x ++ y ≡ line_of r (x ++ y)
unfolding line_of
line_of-append (done k v) x y = simp append_assoc
line_of-append (high p) x y = simp append_assoc
line_of-append (prop p v) x y = simp append_assoc

pub text_of-append :
    (rs : List LogRec) (r : LogRec) → text_of (rs ++ r ∷ []) ≡ text_of rs ++ line_of r []
unfolding text_of
text_of-append [] r = refl
text_of-append (q ∷ rs) r =
    ap (line_of q) (text_of-append rs r) ∙ sym (line_of-append q (text_of rs) (line_of r []))

pub replay-append :
    (rs : List LogRec) (r : LogRec) (a : Acceptor)
    → replay (rs ++ r ∷ []) a ≡ replay_rec r (replay rs a)
unfolding replay
replay-append [] r a = refl
replay-append (q ∷ rs) r a = replay-append rs r (replay_rec q a)

pub clean-append :
    (rs : List LogRec) (r : LogRec)
    → clean rs ≡ true
    → is_clean r ≡ true
    → clean (rs ++ r ∷ []) ≡ true
unfolding clean
clean-append [] r h k = ground arith
clean-append (q ∷ rs) r h k = ground (arith, clean-append rs r)

-- The state `r` read back from the log agrees with the state `s` that was lost. A `done` record
-- resets the numbers of the proposals and leaves their names, which matter only beside a number.
pub record Agrees (s r : Acceptor) : Type 0 where
  pub decided : (i : ℕ) → r.values i ≡ s.values i
  pub instance : r.instance_h ≡ s.instance_h
  pub value : r.v_a ≡ s.v_a
  pub number : r.n_a.n ≡ s.n_a.n
  pub name : (s.n_a.n ≡ 0) ⊎ (r.n_a.m ≡ s.n_a.m)
  pub promise : r.n_h.n ≤ s.n_h.n

-- What a message must be for its records to be read back.
abbrev pub IsClean : Message → Type 0
IsClean (prepares a) = (a.n.n ≤ max_u32) × (is_word a.n.m ≡ true)
IsClean (accepts a) = (a.n.n ≤ max_u32) × (is_word a.n.m ≡ true) × (is_line a.v ≡ true)
IsClean (decides a) = (a.at ≤ max_u32) × (is_line a.v ≡ true)
IsClean (commits i v) = (i ≤ max_u32) × (is_line v ≡ true)

Agrees-trans : (s r q : Acceptor) → Agrees s r → Agrees r q → Agrees s q
Agrees-trans s r q g h = record {
  decided = λ i. h.decided i ∙ g.decided i;
  instance = h.instance ∙ g.instance;
  value = h.value ∙ g.value;
  number = h.number ∙ g.number;
  name = ground (arith, g.name, h.name, g.number);
  promise = omega (arith, g.promise, h.promise);
}

-- Each kind of record, from a state that agrees to one that agrees.
done-Agrees :
    (i : ℕ) (v : Bytes) (s a : Acceptor)
    → s.instance_h < i
    → Agrees s a
    → Agrees (commit i v s) (replay_rec (done i v) a)
unfolding commit replay_rec
done-Agrees i v s a lt g = record {
  decided = λ j. ground (arith, g.decided j);
  instance = ground arith;
  value = ground arith;
  number = ground arith;
  name = ground arith;
  promise = ground arith;
}

high-Agrees :
    (b : PrepareArg) (s a : Acceptor)
    → Agrees s a
    → s.instance_h < b.at
    → gt b.n s.n_h ≡ true
    → Agrees (preparereq b s).0 (replay_rec (high b.n) a)
unfolding preparereq replay_rec
high-Agrees b s a g new y = record {
  decided = λ j. ground (arith, g.decided j);
  instance = ground (arith, g.instance);
  value = ground (arith, g.value);
  number = ground (arith, g.number);
  name = ground (arith, g.name);
  promise = ground arith;
}

prop-Agrees :
    (b : AcceptArg) (s a : Acceptor)
    → Agrees s a
    → s.instance_h < b.at
    → ge b.n s.n_h ≡ true
    → Agrees (acceptreq b s).0 (replay_rec (prop b.n b.v) a)
unfolding acceptreq replay_rec ge
prop-Agrees b s a g new y = record {
  decided = λ j. ground (arith, g.decided j);
  instance = ground (arith, g.instance);
  value = ground arith;
  number = ground arith;
  name = ground arith;
  promise = ground (arith, g.promise);
}

-- A refused message leaves the state as it was.
commit_old : (i : ℕ) (v : Bytes) (s : Acceptor) → ltb s.instance_h i ≡ false → commit i v s ≡ s
unfolding commit
commit_old i v s h = rw h

prepare_old :
    (b : PrepareArg) (s : Acceptor)
    → (ltb s.instance_h b.at && gt b.n s.n_h) ≡ false
    → (preparereq b s).0 ≡ s
unfolding preparereq
prepare_old b s h = ground arith

accept_old :
    (b : AcceptArg) (s : Acceptor)
    → (ltb s.instance_h b.at && ge b.n s.n_h) ≡ false
    → (acceptreq b s).0 ≡ s
unfolding acceptreq
accept_old b s h = ground arith

module _ (first_state : Acceptor) where
  -- The file holds the lines of clean records, and to read them gives the state back.
  abbrev pub Logged : Acceptor → Type 0
  Logged s =
      (rs : List LogRec) × (s.file ≡ text_of rs)
      × (clean rs ≡ true)
      × ((a : Acceptor) → Agrees first_state a → Agrees s (replay rs a))

  Logged-append :
      (s t : Acceptor) (r : LogRec)
      → is_clean r ≡ true
      → t.file ≡ s.file ++ line_of r []
      → ((a : Acceptor) → Agrees s a → Agrees t (replay_rec r a))
      → Logged s
      → Logged t
  Logged-append s t r c e step (rs, written, h, back) = (
    rs ++ r ∷ [],
    e ∙ ap (λ x. x ++ line_of r []) written ∙ sym (text_of-append rs r),
    clean-append rs r h c,
    λ a k. rw (replay-append rs r a) (step (replay rs a) (back a k)),
  )

  commit-Logged :
      (i : ℕ) (v : Bytes) (s : Acceptor)
      → i ≤ max_u32
      → is_line v ≡ true
      → Logged s
      → Logged (commit i v s)
  commit-Logged i v s small one h = elim (Bool-cases (ltb s.instance_h i)) [
    | inl new ↦
        Logged-append s (commit i v s) (done i v) (unfold is_clean in ground arith)
          (unfold commit in rw new) (λ a g. done-Agrees i v s a (ltb→lt _ _ new) g) h
    | inr old ↦ subst Logged (sym (commit_old i v s old)) h
  ]

  prepare-Logged :
      (b : PrepareArg) (s : Acceptor) → IsClean (prepares b) → Logged s → Logged (preparereq b s).0
  prepare-Logged b s c h = elim (Bool-cases (ltb s.instance_h b.at && gt b.n s.n_h)) [
    | inl new ↦
        Logged-append s (preparereq b s).0 (high b.n) (unfold is_clean in ground arith)
          (unfold preparereq in ground arith)
          (λ a g. high-Agrees b s a g (ground arith) (ground arith)) h
    | inr old ↦ subst Logged (sym (prepare_old b s old)) h
  ]

  accept-Logged :
      (b : AcceptArg) (s : Acceptor) → IsClean (accepts b) → Logged s → Logged (acceptreq b s).0
  accept-Logged b s c h = elim (Bool-cases (ltb s.instance_h b.at && ge b.n s.n_h)) [
    | inl new ↦
        Logged-append s (acceptreq b s).0 (prop b.n b.v) (unfold is_clean in ground arith)
          (unfold acceptreq in ground arith)
          (λ a g. prop-Agrees b s a g (ground arith) (ground arith)) h
    | inr old ↦ subst Logged (sym (accept_old b s old)) h
  ]

  decide-Logged :
      (b : DecideArg) (s : Acceptor) → IsClean (decides b) → Logged s → Logged (decidereq b s).0
  unfolding decidereq
  decide-Logged b s c h = elim (Bool-cases (leb b.at s.instance_h)) [
    | inl old ↦ rw old h
    | inr new ↦ rw new (commit-Logged b.at b.v s c.0 c.1 h)
  ]

  handle-Logged : (m : Message) (s : Acceptor) → IsClean m → Logged s → Logged (handle m s)
  unfolding handle
  handle-Logged (prepares b) s c h = prepare-Logged b s c h
  handle-Logged (accepts b) s c h = accept-Logged b s c h
  handle-Logged (decides b) s c h = decide-Logged b s c h
  handle-Logged (commits i v) s c h = commit-Logged i v s c.0 c.1 h

  pub run-Logged :
      (ms : List Message) (s : Acceptor) → All IsClean ms → Logged s → Logged (run ms s)
  unfolding run
  run-Logged [] s c h = h
  run-Logged (m ∷ ms) s (c, cs) h = run-Logged ms (handle m s) cs (handle-Logged m s c h)
