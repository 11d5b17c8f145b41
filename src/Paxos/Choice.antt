-- ===== src/Paxos/Choice.antt =====
-- What the proposer of paxos.cc proposes, and whom it tells.
use frangipani_yfs.Prelude.{
  ℕ, suc, ◌≤◌, ◌<◌, ◌≡◌, ◌≢◌, refl, sym, ◌∙◌, true, [], ◌∷◌, ◌++◌, List, Bytes, ◌==◌, Option, none,
  some, length, map, arith, Bool-cases, inl, inr, ◌⊎◌, append_assoc, append-nil,
}
use frangipani_yfs.Paxos.Order.{PropT}
use frangipani_yfs.Paxos.Acceptor.{PrepareArg, PrepareRes}
use frangipani_yfs.Paxos.Proposer.{
  Network, Prepared, take_accept, take_answer, prepare_loop, prepare,
}

-- The responses that reach the proposer, with the nodes that sent them.
keep_answer : Bytes → Option PrepareRes → List (Bytes × PrepareRes) → List (Bytes × PrepareRes)
keep_answer c none rest = rest
keep_answer c (some r) rest = (c, r) ∷ rest

pub responses : Network → PrepareArg → ℕ → List Bytes → List (Bytes × PrepareRes)
unfolding keep_answer
responses net a i [] = []
responses net a i (c ∷ nodes) =
    keep_answer c (net.ask_prepare i c a) (responses net a (suc i) nodes)

-- `v` is the value of a response with the number `n`.
abbrev pub Reported : ℕ → Bytes → List (Bytes × PrepareRes) → Type 0
Reported n v [] = ⊥
Reported n v ((c, r) ∷ rs) = ((r.n_a.n ≡ n) × (r.v_a ≡ v)) ⊎ Reported n v rs

-- Every response accepts, and reports no value above `n`.
abbrev pub Below : ℕ → List (Bytes × PrepareRes) → Type 0
Below n [] = Unit
Below n ((c, r) ∷ rs) =
    (r.accept ≡ 1) × (r.oldinstance ≢ 1) × ((r.v_a ≡ []) ⊎ (r.n_a.n ≤ n)) × Below n rs

-- The loop, from what it had gathered (`p`) to the end (`q`), over the responses.
pub record Chosen (p q : Prepared) (rs : List (Bytes × PrepareRes)) : Type 0 where
  pub rises : p.highest_n ≤ q.highest_n
  pub below : Below q.highest_n rs
  pub named : q.accepts ≡ p.accepts ++ map (λ x. x.0) rs
  pub chosen : ((q.highest_n ≡ p.highest_n) × (q.v ≡ p.v)) ⊎ Reported q.highest_n q.v rs

v_a-cases : (v : Bytes) → (v ≡ []) ⊎ (0 < length v)
v_a-cases [] = inl refl
v_a-cases (x ∷ v) = inr (omega arith)

take_accept_rises :
    (c : Bytes) (r : PrepareRes) (p : Prepared)
    → (p.highest_n ≤ (take_accept c r p).highest_n)
      × ((r.v_a ≡ []) ⊎ (r.n_a.n ≤ (take_accept c r p).highest_n))
      × ((take_accept c r p).accepts ≡ p.accepts ++ c ∷ [])
      × ((((take_accept c r p).highest_n ≡ p.highest_n) × ((take_accept c r p).v ≡ p.v))
          ⊎ (((take_accept c r p).highest_n ≡ r.n_a.n) × ((take_accept c r p).v ≡ r.v_a)))
unfolding take_accept
take_accept_rises c r p =
    let w = v_a-cases r.v_a in (ground arith, ground (arith, w), ground arith, ground arith)

-- From a round to the whole loop.
Chosen-step :
    (c : Bytes) (r : PrepareRes) (p q : Prepared) (rs : List (Bytes × PrepareRes))
    → r.oldinstance ≢ 1
    → r.accept ≡ 1
    → Chosen (take_accept c r p) q rs
    → Chosen p q ((c, r) ∷ rs)
Chosen-step c r p q rs old acc h =
    let (up, low, names, how) = take_accept_rises c r p in
    record {
      rises = omega (arith, up, h.rises);
      below = (acc, old, ground (arith, low, h.rises), h.below);
      named = h.named ∙ rw names (append_assoc p.accepts (c ∷ []) (map (λ x. x.0) rs));
      chosen = ground (arith, how, h.chosen);
    }

take_answer-Chosen :
    (next : Prepared → Prepared) (rs : List (Bytes × PrepareRes)) (c : Bytes)
    (o : Option PrepareRes) (p : Prepared)
    → ((p : Prepared) → (next p).result ≡ true → Chosen p (next p) rs)
    → (take_answer next c o p).result ≡ true
    → Chosen p (take_answer next c o p) (keep_answer c o rs)
unfolding take_answer keep_answer
take_answer-Chosen next rs c none p ih h = ih p h
take_answer-Chosen next rs c (some r) p ih h = elim (Bool-cases (r.oldinstance == 1)) [
  | inl old ↦ absurd (ground arith)
  | inr new ↦ elim (Bool-cases (r.accept == 1)) [
    | inl yes' ↦
        rw (new, yes')
          (Chosen-step c r p _ rs (ground arith) (ground arith)
            (ih (take_accept c r p) (ground arith)))
    | inr no' ↦ absurd (ground arith)
  ]
]

prepare_loop-Chosen :
    (net : Network) (a : PrepareArg) (i : ℕ) (nodes : List Bytes) (p : Prepared)
    → (prepare_loop net a i nodes p).result ≡ true
    → Chosen p (prepare_loop net a i nodes p) (responses net a i nodes)
unfolding prepare_loop responses
prepare_loop-Chosen net a i [] p h = record {
  rises = omega arith;
  below = tt;
  named = sym (append-nil p.accepts);
  chosen = inl (refl, refl);
}
prepare_loop-Chosen net a i (c ∷ nodes) p h =
    take_answer-Chosen (prepare_loop net a (suc i) nodes) (responses net a (suc i) nodes) c
      (net.ask_prepare i c a) p (prepare_loop-Chosen net a (suc i) nodes) h

-- If no node rejects the prepare request, then `accepts` lists the nodes that answered, in order, no
-- answer reports a value with a number above the one found, and the value proposed is either that of
-- an answer with this highest number or, when no answer reports a value, the caller's own.
pub prepare-Chosen :
    (net : Network) (n : PropT) (instance : ℕ) (nodes : List Bytes) (v : Bytes)
    → (prepare net n instance nodes v).result ≡ true
    → let q = prepare net n instance nodes v in
      let rs = responses net (record { at = instance; n = n; v = [] }) 0 nodes in
      (q.accepts ≡ map (λ x. x.0) rs)
      × Below q.highest_n rs
      × (((q.highest_n ≡ 0) × (q.v ≡ v)) ⊎ Reported q.highest_n q.v rs)
unfolding prepare
prepare-Chosen net n instance nodes v h =
    let c = prepare_loop-Chosen net (record { at = instance; n = n; v = [] }) 0 nodes _ h in
    (c.named, c.below, c.chosen)

-- The choice does not look at the names of proposals: of two accepting answers with equal numbers the
-- value of the first is proposed, whichever of the two proposals is the higher.
pub prepare_tie :
    (net : Network) (n : PropT) (instance : ℕ) (x y v : Bytes) (r s : PrepareRes)
    → net.ask_prepare 0 x (record { at = instance; n = n; v = [] }) ≡ some r
    → net.ask_prepare 1 y (record { at = instance; n = n; v = [] }) ≡ some s
    → r.oldinstance ≡ 0
    → s.oldinstance ≡ 0
    → r.accept ≡ 1
    → s.accept ≡ 1
    → 0 < r.n_a.n
    → 0 < length r.v_a
    → s.n_a.n ≡ r.n_a.n
    → let q = prepare net n instance (x ∷ y ∷ []) v in
      (q.result ≡ true) × (q.accepts ≡ x ∷ y ∷ []) × (q.v ≡ r.v_a)
unfolding prepare prepare_loop take_answer
prepare_tie net n instance x y v r s ex ey or os ar as' pos full same =
    rw (ex, ey) (ground arith, ground arith, ground arith)
