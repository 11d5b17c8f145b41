-- ===== src/Paxos/Safety.antt =====
-- What an acceptor (paxos.cc) never takes back, over any sequence of messages.
use frangipani_yfs.Prelude.{
  ℕ, ◌≤◌, ◌<◌, ◌≡◌, refl, sym, subst, ◌∙◌, suc, inl, inr, Bool-cases, Bool, true, false, [], ◌∷◌,
  List, arith, Bytes, leb, ltb, ltb→lt, update, if◌then◌else◌,
}
use frangipani_yfs.Paxos.Order.{PropT, gt, ge, ge_refl, gt-ge, ge_trans, ge-not-gt}
use frangipani_yfs.Paxos.Acceptor.{
  Acceptor, PrepareArg, AcceptArg, DecideArg, Message, prepares, accepts, decides, commits,
  preparereq, acceptreq, decidereq, commit, handle, run,
}

-- One message: the decided instances only grow, a decided value stays, and within an instance the
-- promise only rises.
pub record Grows (s t : Acceptor) : Type 0 where
  pub instances : s.instance_h ≤ t.instance_h
  pub decided : (i : ℕ) → i ≤ s.instance_h → t.values i ≡ s.values i
  pub promised : t.instance_h ≡ s.instance_h → ge t.n_h s.n_h ≡ true

Grows-refl : (s : Acceptor) → Grows s s
Grows-refl s = record {
  instances = omega arith;
  decided = λ i h. refl;
  promised = λ e. ge_refl s.n_h;
}

Grows-trans : (s t u : Acceptor) → Grows s t → Grows t u → Grows s u
Grows-trans s t u g h = record {
  instances = omega (arith, g.instances, h.instances);
  decided = λ i le. h.decided i (omega (arith, g.instances)) ∙ g.decided i le;
  promised = λ e.
      ge_trans u.n_h t.n_h s.n_h (h.promised (omega (arith, g.instances, h.instances)))
        (g.promised (omega (arith, g.instances, h.instances)));
}

commit-Grows : (i : ℕ) (v : Bytes) (s : Acceptor) → Grows s (commit i v s)
unfolding commit
commit-Grows i v s = record {
  instances = ground arith;
  decided = λ j le. ground arith;
  promised = λ e. ground (arith, ge_refl s.n_h);
}

handle-Grows : (m : Message) (s : Acceptor) → Grows s (handle m s)
unfolding handle preparereq acceptreq decidereq
handle-Grows (prepares a) s = record {
  instances = ground arith;
  decided = λ j le. ground arith;
  promised = λ e. ground (arith, ge_refl s.n_h, gt-ge a.n s.n_h);
}
handle-Grows (accepts a) s = record {
  instances = ground arith;
  decided = λ j le. ground arith;
  promised = λ e. ground (arith, ge_refl s.n_h);
}
handle-Grows (decides a) s =
    let g = commit-Grows a.at a.v s in
    record {
      instances = ground (arith, g.instances);
      decided = λ j le. ground (arith, g.decided j);
      promised = λ e. ground (arith, g.promised, ge_refl s.n_h);
    }
handle-Grows (commits i v) s = commit-Grows i v s

-- Over any sequence of messages the acceptor's decided instances only grow, the value of a decided
-- instance never changes, and while no instance is decided its promise never falls.
pub run-Grows : (ms : List Message) (s : Acceptor) → Grows s (run ms s)
unfolding run
run-Grows [] s = Grows-refl s
run-Grows (m ∷ ms) s =
    Grows-trans s (handle m s) (run ms (handle m s)) (handle-Grows m s) (run-Grows ms (handle m s))

prepare_promises :
    (a : PrepareArg) (s : Acceptor)
    → (preparereq a s).1.accept ≡ 1
    → ((preparereq a s).0.n_h ≡ a.n) × ((preparereq a s).0.instance_h ≡ s.instance_h)
unfolding preparereq
prepare_promises a s h = ground arith

refuses_lower : (b : AcceptArg) (t : Acceptor) → ge b.n t.n_h ≡ false → (acceptreq b t).1 ≡ 0
unfolding acceptreq
refuses_lower b t h = ground arith

-- A promise is kept: after a prepare request for `a.n` was accepted, and after any further messages
-- that decide no instance, an accept request with a lower number is refused.
pub promise_kept :
    (a : PrepareArg) (b : AcceptArg) (ms : List Message) (s : Acceptor)
    → (preparereq a s).1.accept ≡ 1
    → (run ms (preparereq a s).0).instance_h ≡ s.instance_h
    → gt a.n b.n ≡ true
    → (acceptreq b (run ms (preparereq a s).0)).1 ≡ 0
promise_kept a b ms s acc same lower =
    let t = (preparereq a s).0 in
    let u = run ms t in
    let (e, k) = prepare_promises a s acc in
    let risen = (run-Grows ms t).promised (same ∙ sym k) in
    refuses_lower b u (elim (Bool-cases (ge b.n u.n_h)) [
      | inl high ↦ absurd (
          lower_than a.n b.n lower
            (subst (λ x. ge b.n x ≡ true) e (ge_trans b.n u.n_h t.n_h high risen)))
      | inr low ↦ low
    ])
  where
    lower_than : (x y : PropT) → gt x y ≡ true → ge y x ≡ true → ⊥
    lower_than x y h k = ground (arith, ge-not-gt y x)

-- What the upper layer has been told: instances in increasing order, all below the bound, each with
-- the value that `value(instance)` returns.
abbrev pub IsTold : (ℕ → Bytes) → ℕ → List (ℕ × Bytes) → Type 0
IsTold values bound [] = Unit
IsTold values bound ((i, v) ∷ us) = (i < bound) × (values i ≡ v) × IsTold values i us

IsTold-mono :
    (vs ws : ℕ → Bytes) (b c : ℕ) (us : List (ℕ × Bytes))
    → b ≤ c
    → ((i : ℕ) → i < b → ws i ≡ vs i)
    → IsTold vs b us
    → IsTold ws c us
IsTold-mono vs ws b c [] le same h = tt
IsTold-mono vs ws b c ((i, v) ∷ us) le same (lt, e, h) = (
  omega arith,
  same i lt ∙ e,
  IsTold-mono vs ws i i us (omega arith) (λ j q. same j (omega arith)) h,
)

abbrev pub Told : Acceptor → Type 0
Told s = IsTold s.values (suc s.instance_h) s.upcalls

upcall-IsTold :
    (vs : ℕ → Bytes) (h i : ℕ) (v : Bytes) (us : List (ℕ × Bytes)) (cfg : Bool)
    → h < i
    → IsTold vs (suc h) us
    → IsTold (update vs i v) (suc i) (if cfg then (i, v) ∷ us else us)
upcall-IsTold vs h i v us true lt t = (
  omega arith,
  ground arith,
  IsTold-mono vs (update vs i v) (suc h) i us lt (λ j q. ground arith) t,
)
upcall-IsTold vs h i v us false lt t =
    IsTold-mono vs (update vs i v) (suc h) (suc i) us (omega arith) (λ j q. ground arith) t

commit-Told : (i : ℕ) (v : Bytes) (s : Acceptor) → Told s → Told (commit i v s)
unfolding commit
commit-Told i v s h = elim (Bool-cases (ltb s.instance_h i)) [
  | inl new ↦
      rw new (upcall-IsTold s.values s.instance_h i v s.upcalls s.has_cfg (ltb→lt _ _ new) h)
  | inr old ↦ rw old h
]

-- The requests that do not decide change neither the values nor what has been told.
prepare-Told : (a : PrepareArg) (s : Acceptor) → Told s → Told (preparereq a s).0
unfolding preparereq
prepare-Told a s h = elim (Bool-cases (leb a.at s.instance_h)) [
  | inl old ↦ rw old h
  | inr new ↦ rw new (elim (Bool-cases (gt a.n s.n_h)) [ inl y ↦ rw y h | inr n ↦ rw n h ])
]

accept-Told : (a : AcceptArg) (s : Acceptor) → Told s → Told (acceptreq a s).0
unfolding acceptreq
accept-Told a s h = elim (Bool-cases (leb a.at s.instance_h)) [
  | inl old ↦ rw old h
  | inr new ↦ rw new (elim (Bool-cases (ge a.n s.n_h)) [ inl y ↦ rw y h | inr n ↦ rw n h ])
]

decide-Told : (a : DecideArg) (s : Acceptor) → Told s → Told (decidereq a s).0
unfolding decidereq
decide-Told a s h = elim (Bool-cases (leb a.at s.instance_h)) [
  | inl old ↦ rw old h
  | inr new ↦ rw new (commit-Told a.at a.v s h)
]

handle-Told : (m : Message) (s : Acceptor) → Told s → Told (handle m s)
unfolding handle
handle-Told (prepares a) s h = prepare-Told a s h
handle-Told (accepts a) s h = accept-Told a s h
handle-Told (decides a) s h = decide-Told a s h
handle-Told (commits i v) s h = commit-Told i v s h

-- Whatever messages arrive, the upper layer is told of decided instances in increasing order, each at
-- most once and none above `instance_h`, and each with the value that the acceptor still holds for it.
pub run-Told : (ms : List Message) (s : Acceptor) → Told s → Told (run ms s)
unfolding run
run-Told [] s h = h
run-Told (m ∷ ms) s h = run-Told ms (handle m s) (handle-Told m s h)
