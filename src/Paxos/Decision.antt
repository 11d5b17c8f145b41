-- ===== src/Paxos/Decision.antt =====
-- Whom the proposer of paxos.cc tells, and with what number it proposes.
use frangipani_yfs.Prelude.{
  ℕ, suc, ◌+◌, ◌^◌, ◌<◌, ◌≡◌, ◌≢◌, refl, true, not, [], ◌∷◌, List, Bytes, ◌==◌, if◌then◌else◌,
  Option, none, some, length, elem_str, arith, if_cases, inl, inr, ◌⊎◌, str_eq_eq,
}
use frangipani_yfs.Paxos.Acceptor.{Acceptor, AcceptArg}
use frangipani_yfs.Paxos.Proposer.{
  Proposer, Network, Prepared, keep_vote, prepare, accept, decide, majority, setn, returned, Ran,
  run_accept, run,
}

-- A vote is an answer 1 to the accept request.
keep_vote-voted :
    (c x : Bytes) (o : Option ℕ) (rest : List Bytes)
    → elem_str x (keep_vote c o rest) ≡ true
    → ((x ≡ c) × (o ≡ some 1)) ⊎ (elem_str x rest ≡ true)
unfolding keep_vote elem_str
keep_vote-voted c x none rest h = inr h
keep_vote-voted c x (some r) rest h = ground (arith, str_eq_eq c x)

accept-voted :
    (net : Network) (a : AcceptArg) (i : ℕ) (nodes : List Bytes) (x : Bytes)
    → elem_str x (accept net a i nodes) ≡ true
    → (j : ℕ) × (net.ask_accept j x a ≡ some 1)
unfolding accept
accept-voted net a i [] x h = absurd (unfold elem_str in cc)
accept-voted net a i (c ∷ nodes) x h =
    elim (keep_vote-voted c x (net.ask_accept i c a) (accept net a (suc i) nodes) h) [
      | inl (e, v) ↦ (i, rw e v)
      | inr rest ↦ accept-voted net a (suc i) nodes x rest
    ]

-- The requests of a round that decides `v` under the number `n`: they go to a majority of the members,
-- each of which answered 1 to the accept request for `n` and `v`.
pub record Decided (net : Network) (instance : ℕ) (c_nodes : List Bytes) (r : Ran) : Type 0 where
  pub nodes : List Bytes
  pub v : Bytes
  pub told : r.decides ≡ decide (record { at = instance; v = v }) nodes
  pub quorum : majority c_nodes nodes ≡ true
  pub voted :
      (x : Bytes)
      → elem_str x nodes ≡ true
      → (j : ℕ) × (net.ask_accept j x (record { at = instance; n = r.proposer.my_n; v = v })
          ≡ some 1)
  pub stopped : r.proposer.stable ≡ true

abbrev pub Silent : Ran → Type 0
Silent r = (r.outcome ≢ returned true) × (r.decides ≡ [])

abbrev pub DecidedOrSilent : Network → ℕ → List Bytes → Ran → Type 0
DecidedOrSilent net instance c_nodes r = Decided net instance c_nodes r ⊎ Silent r

run_accept-Decided :
    (net : Network) (instance : ℕ) (c_nodes : List Bytes) (c_v : Bytes) (q : Prepared)
    (p : Proposer) (acc : Acceptor)
    → DecidedOrSilent net instance c_nodes (run_accept net instance c_nodes c_v q p acc)
unfolding run_accept
run_accept-Decided net instance c_nodes c_v q p acc =
    let v = (if length q.v == 0 then c_v else q.v) in
    let a : AcceptArg = record { at = instance; n = p.my_n; v = v } in
    let nodes = accept net a 0 q.accepts in
    if_cases (DecidedOrSilent net instance c_nodes) p.break1 (λ _. inr ((λ e. cc), refl))
      (λ _.
        if_cases (DecidedOrSilent net instance c_nodes) (majority c_nodes nodes)
          (λ won.
            if_cases (DecidedOrSilent net instance c_nodes) p.break2 (λ _. inr ((λ e. cc), refl))
              (λ _. inl (record {
                nodes = nodes;
                v = v;
                told = refl;
                quorum = won;
                voted = λ x m. accept-voted net a 0 q.accepts x m;
                stopped = refl;
              })))
          (λ _. inr ((λ e. cc), refl)))

-- A run of the proposer either decides, or it sends no decide request and does not return true. If
-- it decides, all requests carry one value and go to a majority of the members, each of which
-- answered 1 to the accept request with this value and the run's number; and it is no longer running.
pub run-Decided :
    (net : Network) (instance : ℕ) (c_nodes : List Bytes) (c_v : Bytes) (p : Proposer)
    (acc : Acceptor)
    → DecidedOrSilent net instance c_nodes (run net instance c_nodes c_v p acc)
unfolding run
run-Decided net instance c_nodes c_v p acc =
    let P = DecidedOrSilent net instance c_nodes in
    if_cases P (not p.stable) (λ _. inr ((λ e. cc), refl))
      (λ _.
        if_cases P (prepare net _ instance c_nodes c_v).result
          (λ _.
            if_cases P (majority c_nodes (prepare net _ instance c_nodes c_v).accepts)
              (λ _. run_accept-Decided net instance c_nodes c_v _ _ _) (λ _. inr ((λ e. cc), refl)))
          (λ _. inr ((λ e. cc), refl)))

-- A run that starts proposes under a number above every number that its own acceptor has promised and
-- above its last one, as long as `unsigned` does not wrap, and under its own name.
pub run-number :
    (net : Network) (instance : ℕ) (c_nodes : List Bytes) (c_v : Bytes) (p : Proposer)
    (acc : Acceptor)
    → p.stable ≡ true
    → acc.n_h.n + 1 < 2 ^ 32
    → p.my_n.n + 1 < 2 ^ 32
    → let r = run net instance c_nodes c_v p acc in
      (acc.n_h.n < r.proposer.my_n.n) × (p.my_n.n < r.proposer.my_n.n) × (r.proposer.my_n.m ≡ p.me)
unfolding run setn run_accept
run-number net instance c_nodes c_v p acc s h k = ground arith
