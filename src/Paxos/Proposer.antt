-- ===== src/Paxos/Proposer.antt =====
-- The proposer of paxos.cc. What a remote call gives is a parameter: `none` where there is no handle
-- or the call fails. The first argument of each is the position of the node in the loop, so that a
-- node that is listed twice may answer differently.
use frangipani_yfs.Prelude.{
  ℕ, suc, ◌+◌, ◌/◌, ◌%◌, ◌^◌, Bool, true, false, not, ◌&&◌, [], ◌∷◌, ◌++◌, List, Bytes, leb, ltb,
  ◌==◌, if◌then◌else◌, Option, none, some, length, elem_str,
}
use frangipani_yfs.Paxos.Order.{PropT}
use frangipani_yfs.Paxos.Acceptor.{Acceptor, PrepareArg, PrepareRes, AcceptArg, DecideArg, commit}

pub record Proposer : Type 0 where
  pub me : Bytes
  pub break1 : Bool
  pub break2 : Bool
  pub stable : Bool
  pub my_n : PropT

pub record Network : Type 0 where
  pub ask_prepare : ℕ → Bytes → PrepareArg → Option PrepareRes
  pub ask_accept : ℕ → Bytes → AcceptArg → Option ℕ

-- proposer::majority. The number of members of `l1` that stand in `l2`.
unfoldable pub votes : List Bytes → List Bytes → ℕ
votes [] l2 = 0
votes (x ∷ l1) l2 = (if elem_str x l2 then 1 else 0) + votes l1 l2

unfoldable pub majority : List Bytes → List Bytes → Bool
unfolding votes
majority l1 l2 = leb (length l1 / 2 + 1) (votes l1 l2)

unfoldable pub isrunning : Proposer → Bool
isrunning p = not p.stable

-- proposer::setn, in 32 bits.
unfoldable pub setn : Acceptor → Proposer → Proposer
setn acc p =
    let a = (acc.n_h.n + 1) % 2 ^ 32 in
    let b = (p.my_n.n + 1) % 2 ^ 32 in
    record p { my_n = record { n = (if ltb b a then a else b); m = p.my_n.m } }

-- What the loop of proposer::prepare has gathered, and the value of an old instance, which it commits.
pub record Prepared : Type 0 where
  pub accepts : List Bytes
  pub highest_n : ℕ
  pub v : Bytes
  pub result : Bool
  pub learned : Option Bytes

-- The branch for a response that accepts.
unfoldable pub take_accept : Bytes → PrepareRes → Prepared → Prepared
take_accept clt r p =
    if ltb p.highest_n r.n_a.n && ltb 0 (length r.v_a)
    then record p { accepts = p.accepts ++ clt ∷ []; highest_n = r.n_a.n; v = r.v_a }
    else record p { accepts = p.accepts ++ clt ∷ [] }

-- One round, with the rounds behind it as `next`.
unfoldable pub take_answer : (Prepared → Prepared) → Bytes → Option PrepareRes → Prepared → Prepared
unfolding take_accept
take_answer next clt none p = next p
take_answer next clt (some r) p =
    if r.oldinstance == 1
    then record p { result = false; learned = some r.v_a }
    else if r.accept == 1
    then next (take_accept clt r p)
    else record p { result = false }

unfoldable pub prepare_loop : Network → PrepareArg → ℕ → List Bytes → Prepared → Prepared
unfolding take_answer
prepare_loop net a i [] p = p
prepare_loop net a i (clt ∷ nodes) p =
    take_answer (prepare_loop net a (suc i) nodes) clt (net.ask_prepare i clt a) p

unfoldable pub prepare : Network → PropT → ℕ → List Bytes → Bytes → Prepared
unfolding prepare_loop
prepare net n instance nodes v =
    prepare_loop net (record { at = instance; n = n; v = [] }) 0 nodes
      (record { accepts = []; highest_n = 0; v = v; result = true; learned = none })

-- proposer::accept: the nodes that answered 1.
unfoldable pub keep_vote : Bytes → Option ℕ → List Bytes → List Bytes
keep_vote clt none rest = rest
keep_vote clt (some r) rest = if r == 1 then clt ∷ rest else rest

unfoldable pub accept : Network → AcceptArg → ℕ → List Bytes → List Bytes
unfolding keep_vote
accept net a i [] = []
accept net a i (clt ∷ nodes) = keep_vote clt (net.ask_accept i clt a) (accept net a (suc i) nodes)

-- proposer::decide: one request to each node; the answers are not used.
unfoldable pub decide : DecideArg → List Bytes → List (Bytes × DecideArg)
decide a [] = []
decide a (clt ∷ nodes) = (clt, a) ∷ decide a nodes

-- How `run` ends: it returns, or it dies at a breakpoint.
pub data RunResult : Type 0 where
  returned : Bool → RunResult
  died : RunResult

pub record Ran : Type 0 where
  pub proposer : Proposer
  pub acceptor : Acceptor
  pub decides : List (Bytes × DecideArg)
  pub outcome : RunResult

-- The second half of proposer::run, behind a majority of prepare responses.
unfoldable pub run_accept : Network → ℕ → List Bytes → Bytes → Prepared → Proposer → Acceptor → Ran
run_accept net instance c_nodes c_v q p acc =
    let v = (if length q.v == 0 then c_v else q.v) in
    let accepts = accept net (record { at = instance; n = p.my_n; v = v }) 0 q.accepts in
    if p.break1
    then record { proposer = p; acceptor = acc; decides = []; outcome = died }
    else if majority c_nodes accepts
    then if p.break2
      then record { proposer = p; acceptor = acc; decides = []; outcome = died }
      else record {
        proposer = record p { stable = true };
        acceptor = acc;
        decides = decide (record { at = instance; v = v }) accepts;
        outcome = returned true;
      }
    else record {
      proposer = record p { stable = true };
      acceptor = acc;
      decides = [];
      outcome = returned false;
    }

learn : ℕ → Option Bytes → Acceptor → Acceptor
learn instance none acc = acc
learn instance (some v) acc = commit instance v acc

-- proposer::run
unfoldable pub run : Network → ℕ → List Bytes → Bytes → Proposer → Acceptor → Ran
unfolding learn
run net instance c_nodes c_v p acc =
    let p' =
      (let s = setn acc p in
        record s { stable = false; my_n = record { n = s.my_n.n; m = p.me } }) in
    let q = prepare net p'.my_n instance c_nodes c_v in
    let acc' = learn instance q.learned acc in
    let give_up : Ran = record {
      proposer = record p' { stable = true };
      acceptor = acc';
      decides = [];
      outcome = returned false;
    } in
    if not p.stable
    then record { proposer = p; acceptor = acc; decides = []; outcome = returned false }
    else if q.result
    then (if majority c_nodes q.accepts
        then run_accept net instance c_nodes c_v q p' acc'
        else give_up)
    else give_up
