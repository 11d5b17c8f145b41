-- ===== src/Paxos/Serial.antt =====
-- Threads of an acceptor that do not overlap: each handler then does what Paxos.Acceptor says of it.
use frangipani_yfs.Prelude.{
  ℕ, zero, suc, ◌≡◌, refl, sym, ap, subst, ◌∙◌, Bool, true, false, not, ◌&&◌, [], ◌∷◌, List, Bytes,
  leb, ltb, if◌then◌else◌, update, ◌⊎◌, inl, inr, All, both_true, if_cases, Bool-cases, arith,
}
use frangipani_yfs.Paxos.Order.{gt, ge}
use frangipani_yfs.Paxos.Acceptor.{
  Acceptor, PrepareArg, AcceptArg, DecideArg, Message, prepares, accepts, decides, commits,
  preparereq, acceptreq, decidereq, commit, handle, loginstance, loghigh, logprop,
}
use frangipani_yfs.Paxos.Acceptor
use frangipani_yfs.Paxos.Threads.{
  Thread, prepare_tests, prepare_sets, prepare_logs, prepare_returns, accept_tests, accept_sets_n_h,
  accept_sets_n_a, accept_sets_v_a, accept_logs, accept_returns, decide_tests, decide_returns,
  commit_locks, wo_tests, wo_sets_value, wo_logs, wo_sets_instance, wo_sets_n_h, wo_sets_n_a,
  wo_clears_v_a, wo_unlocks, wo_tells, wo_relocks, wo_returns, commit_returns, Shared, advance,
  prepare_test, accept_test, decide_test, start_of, World, behind, act, Event, arrives, steps, step,
  run, at_rest,
}

-- The thread is between its first test and its return.
unfoldable pub is_midway : Thread → Bool
is_midway (prepare_tests a) = false
is_midway (prepare_returns r) = false
is_midway (accept_tests a) = false
is_midway (accept_returns r) = false
is_midway (decide_tests a) = false
is_midway (decide_returns r) = false
is_midway (commit_locks i v) = false
is_midway commit_returns = false
is_midway _ = true

unfoldable pub is_quiet : List Thread → Bool
unfolding is_midway
is_quiet [] = true
is_quiet (t ∷ ts) = not (is_midway t) && is_quiet ts

-- No other thread than the one at this position is midway.
unfoldable pub others_quiet : ℕ → List Thread → Bool
unfolding is_quiet is_midway
others_quiet k [] = true
others_quiet zero (t ∷ ts) = is_quiet ts
others_quiet (suc k) (t ∷ ts) = not (is_midway t) && others_quiet k ts

-- No thread takes a step while another one is midway.
unfoldable pub is_serial : List Event → World → Bool
unfolding others_quiet step
is_serial [] w = true
is_serial (arrives m ∷ es) w = is_serial es (step (arrives m) w)
is_serial (steps k ∷ es) w = others_quiet k w.threads && is_serial es (step (steps k) w)

-- What the rest of a thread does to the acceptor when it goes on alone; nothing before its test.
abbrev tell : ℕ → Bytes → Acceptor → Acceptor
tell i v s = record s { upcalls = (i, v) ∷ s.upcalls }

abbrev clear_v_a : ℕ → Bytes → Acceptor → Acceptor
clear_v_a i v s = record s {
  v_a = [];
  upcalls = if s.has_cfg then (i, v) ∷ s.upcalls else s.upcalls;
}

abbrev reset_n_a : ℕ → Bytes → Acceptor → Acceptor
reset_n_a i v s = clear_v_a i v (record s { n_a = record { n = 0; m = s.me } })

abbrev reset_n_h : ℕ → Bytes → Acceptor → Acceptor
reset_n_h i v s = reset_n_a i v (record s { n_h = record { n = 0; m = s.me } })

abbrev set_instance : ℕ → Bytes → Acceptor → Acceptor
set_instance i v s = reset_n_h i v (record s { instance_h = i })

unfoldable pub rest : Thread → Acceptor → Acceptor
unfolding loghigh logprop loginstance commit
rest (prepare_sets a r) s = loghigh a.n (record s { n_h = a.n })
rest (prepare_logs a r) s = loghigh s.n_h s
rest (accept_sets_n_h a) s = logprop a.n a.v (record s { n_h = a.n; n_a = a.n; v_a = a.v })
rest (accept_sets_n_a a) s = logprop a.n a.v (record s { n_a = a.n; v_a = a.v })
rest (accept_sets_v_a a) s = logprop s.n_a a.v (record s { v_a = a.v })
rest (accept_logs a) s = logprop s.n_a s.v_a s
rest (wo_tests c i v) s = commit i v s
rest (wo_sets_value c i v) s =
    set_instance i v (loginstance i v (record s { values = update s.values i v }))
rest (wo_logs c i v) s = set_instance i v (loginstance i v s)
rest (wo_sets_instance c i v) s = set_instance i v s
rest (wo_sets_n_h c i v) s = reset_n_h i v s
rest (wo_sets_n_a c i v) s = reset_n_a i v s
rest (wo_clears_v_a c i v) s = clear_v_a i v s
rest (wo_unlocks c i v) s = tell i v s
rest (wo_tells c i v) s = tell i v s
rest _ s = s

-- The message that a thread which has not begun will handle, as a condition on it.
unfoldable pub Pending {ℓ} : (Message → Type ℓ) → Thread → Type ℓ
Pending P (prepare_tests a) = P (prepares a)
Pending P (accept_tests a) = P (accepts a)
Pending P (decide_tests a) = P (decides a)
Pending P (commit_locks i v) = P (commits i v)
Pending P _ = Unit

-- A step of a thread either goes on with its handler, or does the test of a message.
abbrev Advances : (Message → Type 0) → Acceptor → Thread × Shared → Type 0
Advances P a r =
    ((rest (r.0) (r.1).acceptor ≡ a)
      ⊎ ((m : Message) × P m × (rest (r.0) (r.1).acceptor ≡ handle m a)))
    × Pending P (r.0)

promised :
    (a : PrepareArg) (s : Acceptor)
    → leb a.at s.instance_h ≡ false
    → gt a.n s.n_h ≡ true
    → (preparereq a s).0 ≡ loghigh a.n (record s { n_h = a.n })
unfolding preparereq
promised a s new high = rw (new, high) refl

accepted :
    (a : AcceptArg) (s : Acceptor)
    → leb a.at s.instance_h ≡ false
    → ge a.n s.n_h ≡ true
    → (acceptreq a s).0 ≡ logprop a.n a.v (record s { n_h = a.n; n_a = a.n; v_a = a.v })
unfolding acceptreq
accepted a s new high = rw (new, high) refl

decided :
    (a : DecideArg) (s : Acceptor)
    → leb a.at s.instance_h ≡ false
    → (decidereq a s).0 ≡ commit a.at a.v s
unfolding decidereq
decided a s new = rw new refl

advance-Advances :
    (P : Message → Type 0) (t : Thread) (s : Shared)
    → Pending P t
    → Advances P (rest t s.acceptor) (advance t s)
unfolding advance rest Pending handle preparereq acceptreq decidereq commit prepare_test accept_test
    decide_test loghigh logprop loginstance
advance-Advances P (prepare_tests a) s p = elim (Bool-cases (leb a.at s.acceptor.instance_h)) [
  | inl old ↦ rw old ((inl refl, tt))
  | inr new ↦ elim (Bool-cases (gt a.n s.acceptor.n_h)) [
    | inl high ↦ rw (new, high) ((inr (prepares a, p, sym (promised a s.acceptor new high)), tt))
    | inr low ↦ rw (new, low) ((inl refl, tt))
  ]
]
advance-Advances P (prepare_sets a r) s p = (inl refl, tt)
advance-Advances P (prepare_logs a r) s p = (inl refl, tt)
advance-Advances P (prepare_returns r) s p = (inl refl, tt)
advance-Advances P (accept_tests a) s p = elim (Bool-cases (leb a.at s.acceptor.instance_h)) [
  | inl old ↦ rw old ((inl refl, tt))
  | inr new ↦ elim (Bool-cases (ge a.n s.acceptor.n_h)) [
    | inl high ↦ rw (new, high) ((inr (accepts a, p, sym (accepted a s.acceptor new high)), tt))
    | inr low ↦ rw (new, low) ((inl refl, tt))
  ]
]
advance-Advances P (accept_sets_n_h a) s p = (inl refl, tt)
advance-Advances P (accept_sets_n_a a) s p = (inl refl, tt)
advance-Advances P (accept_sets_v_a a) s p = (inl refl, tt)
advance-Advances P (accept_logs a) s p = (inl refl, tt)
advance-Advances P (accept_returns r) s p = (inl refl, tt)
advance-Advances P (decide_tests a) s p = elim (Bool-cases (leb a.at s.acceptor.instance_h)) [
  | inl old ↦ rw old ((inl refl, tt))
  | inr new ↦ rw new ((inr (decides a, p, sym (decided a s.acceptor new)), tt))
]
advance-Advances P (decide_returns r) s p = (inl refl, tt)
advance-Advances P (commit_locks i v) s p =
    if_cases (λ (r : Thread × Shared). Advances P s.acceptor r) s.locked (λ t. (inl refl, p))
      (λ f. (inr (commits i v, p, refl), tt))
advance-Advances P (wo_tests c i v) s p = elim (Bool-cases (ltb s.acceptor.instance_h i)) [
  | inl new ↦ rw new ((inl refl, tt))
  | inr old ↦ rw old ((inl refl, tt))
]
advance-Advances P (wo_sets_value c i v) s p = (inl refl, tt)
advance-Advances P (wo_logs c i v) s p = (inl refl, tt)
advance-Advances P (wo_sets_instance c i v) s p = (inl refl, tt)
advance-Advances P (wo_sets_n_h c i v) s p = (inl refl, tt)
advance-Advances P (wo_sets_n_a c i v) s p = (inl refl, tt)
advance-Advances P (wo_clears_v_a c i v) s p = elim (Bool-cases s.acceptor.has_cfg) [
  | inl told ↦ rw told ((inl refl, tt))
  | inr alone ↦ rw alone ((inl refl, tt))
]
advance-Advances P (wo_unlocks c i v) s p = (inl refl, tt)
advance-Advances P (wo_tells c i v) s p = (inl refl, tt)
advance-Advances P (wo_relocks c) s p =
    if_cases (λ (r : Thread × Shared). Advances P s.acceptor r) s.locked (λ t. (inl refl, tt))
      (λ f. (inl refl, tt))
advance-Advances P (wo_returns true) s p = (inl refl, tt)
advance-Advances P (wo_returns false) s p = (inl refl, tt)
advance-Advances P commit_returns s p = (inl refl, tt)

-- A thread that is not midway has nothing left to do.
pub rest-quiet : (t : Thread) (s : Acceptor) → is_midway t ≡ false → rest t s ≡ s
unfolding rest is_midway
rest-quiet (prepare_tests a) s q = refl
rest-quiet (prepare_returns r) s q = refl
rest-quiet (accept_tests a) s q = refl
rest-quiet (accept_returns r) s q = refl
rest-quiet (decide_tests a) s q = refl
rest-quiet (decide_returns r) s q = refl
rest-quiet (commit_locks i v) s q = refl
rest-quiet commit_returns s q = refl
rest-quiet (wo_relocks c) s q = refl
rest-quiet (wo_returns c) s q = refl
rest-quiet (prepare_sets a r) s q = cc
rest-quiet (prepare_logs a r) s q = cc
rest-quiet (accept_sets_n_h a) s q = cc
rest-quiet (accept_sets_n_a a) s q = cc
rest-quiet (accept_sets_v_a a) s q = cc
rest-quiet (accept_logs a) s q = cc
rest-quiet (wo_tests c i v) s q = cc
rest-quiet (wo_sets_value c i v) s q = cc
rest-quiet (wo_logs c i v) s q = cc
rest-quiet (wo_sets_instance c i v) s q = cc
rest-quiet (wo_sets_n_h c i v) s q = cc
rest-quiet (wo_sets_n_a c i v) s q = cc
rest-quiet (wo_clears_v_a c i v) s q = cc
rest-quiet (wo_unlocks c i v) s q = cc
rest-quiet (wo_tells c i v) s q = cc

-- The acceptor after the threads that are midway have gone on to their ends.
unfoldable pub settled : List Thread → Acceptor → Acceptor
unfolding rest
settled [] s = s
settled (t ∷ ts) s = settled ts (rest t s)

pub settled-quiet : (ts : List Thread) (s : Acceptor) → is_quiet ts ≡ true → settled ts s ≡ s
unfolding settled is_quiet
settled-quiet [] s q = refl
settled-quiet (t ∷ ts) s q =
    let (m, k) = both_true (not (is_midway t)) (is_quiet ts) q in
    ap (settled ts) (rest-quiet t s (ground arith)) ∙ settled-quiet ts s k

abbrev pub settled_in : World → Acceptor
settled_in w = settled w.threads w.shared.acceptor

abbrev pub AllPending : (Message → Type 0) → World → Type 0
AllPending P w = All (Pending P) w.threads

-- The world is settled as before, or a message has been handled.
abbrev Follows : (Message → Type 0) → Acceptor → World → Type 0
Follows P a w =
    ((settled_in w ≡ a) ⊎ ((m : Message) × P m × (settled_in w ≡ handle m a))) × AllPending P w

behind-Follows :
    (P : Message → Type 0) (a : Acceptor) (t : Thread) (w : World)
    → is_midway t ≡ false
    → Pending P t
    → Follows P a w
    → Follows P a (behind t w)
unfolding settled behind
behind-Follows P a t w q p (f, all) =
    let e = ap (settled w.threads) (rest-quiet t w.shared.acceptor q) in
    elim f [
      | inl same ↦ (inl (e ∙ same), (p, all))
      | inr (m, k, done) ↦ (inr (m, k, e ∙ done), (p, all))
    ]

act-Follows :
    (P : Message → Type 0) (k : ℕ) (ts : List Thread) (s : Shared)
    → others_quiet k ts ≡ true
    → All (Pending P) ts
    → Follows P (settled ts s.acceptor) (act k ts s)
unfolding act settled others_quiet
act-Follows P k [] s q p = (inl refl, tt)
act-Follows P zero (t ∷ ts) s q (p, ps) =
    let (f, z) = advance-Advances P t s p in
    let u = ((advance t s).1).acceptor in
    let new = settled-quiet ts (rest ((advance t s).0) u) q in
    let old = settled-quiet ts (rest t s.acceptor) q in
    elim f [
      | inl same ↦ (inl (new ∙ same ∙ sym old), (z, ps))
      | inr (m, k, done) ↦ (inr (m, k, new ∙ done ∙ ap (handle m) (sym old)), (z, ps))
    ]
act-Follows P (suc k) (t ∷ ts) s q (p, ps) =
    let (m, r) = both_true (not (is_midway t)) (others_quiet k ts) q in
    subst (λ a. Follows P (settled ts a) (behind t (act k ts s)))
      (sym (rest-quiet t s.acceptor (ground arith)))
      (behind-Follows P _ t (act k ts s) (ground arith) p (act-Follows P k ts s r ps))

-- Every message that arrives has the property.
unfoldable pub AllArrive : (Message → Type 0) → List Event → Type 0
AllArrive P [] = Unit
AllArrive P (arrives m ∷ es) = P m × AllArrive P es
AllArrive P (steps k ∷ es) = AllArrive P es

start_of-Pending : (P : Message → Type 0) (m : Message) → P m → Pending P (start_of m)
unfolding Pending start_of
start_of-Pending P (prepares a) p = p
start_of-Pending P (accepts a) p = p
start_of-Pending P (decides a) p = p
start_of-Pending P (commits i v) p = p

rest-start_of : (m : Message) (s : Acceptor) → rest (start_of m) s ≡ s
unfolding rest start_of
rest-start_of (prepares a) s = refl
rest-start_of (accepts a) s = refl
rest-start_of (decides a) s = refl
rest-start_of (commits i v) s = refl

-- Handlers that do not overlap: a serial run handles some of the messages, one after another.
pub run-Serial :
    (P : Message → Type 0) (es : List Event) (w : World)
    → is_serial es w ≡ true
    → AllArrive P es
    → AllPending P w
    → (ms : List Message) × All P ms × (settled_in (run es w) ≡ Acceptor.run ms (settled_in w))
unfolding run step is_serial AllArrive settled Acceptor.run
run-Serial P [] w q a p = ([], tt, refl)
run-Serial P (arrives m ∷ es) w q (b, a) p =
    let (ms, all, e) = run-Serial P es (step (arrives m) w) q a (start_of-Pending P m b, p) in
    (
      ms,
      all,
      e ∙ ap (λ z. Acceptor.run ms (settled w.threads z)) (rest-start_of m w.shared.acceptor),
    )
run-Serial P (steps k ∷ es) w q a p =
    let (others, r) = both_true (others_quiet k w.threads) _ q in
    let (f, z) = act-Follows P k w.threads w.shared others p in
    let (ms, all, e) = run-Serial P es (step (steps k) w) r a z in
    elim f [
      | inl same ↦ (ms, all, e ∙ ap (Acceptor.run ms) same)
      | inr (m, b, done) ↦ (m ∷ ms, (b, all), e ∙ ap (Acceptor.run ms) done)
    ]

-- The same from a node at rest to one where no handler is midway.
pub run-at_rest :
    (P : Message → Type 0) (es : List Event) (a : Acceptor)
    → is_serial es (at_rest a) ≡ true
    → AllArrive P es
    → is_quiet (run es (at_rest a)).threads ≡ true
    → (ms : List Message) × All P ms × ((run es (at_rest a)).shared.acceptor ≡ Acceptor.run ms a)
unfolding settled
run-at_rest P es a s all q =
    let (ms, ps, e) = run-Serial P es (at_rest a) s all tt in
    let w = run es (at_rest a) in (ms, ps, sym (settled-quiet w.threads w.shared.acceptor q) ∙ e)
