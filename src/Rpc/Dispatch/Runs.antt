-- ===== src/Rpc/Dispatch/Runs.antt =====
-- Whole runs of a server of rpc/rpc.cc: it uses no connection that is gone, no assertion of it fails,
-- and the handler of a request is called once.
use frangipani_yfs.Prelude.{
  Runs, Runs-some, all_then, and_then-Runs, both_true, ℕ, ◌+◌, ◌≤◌, ◌≡◌, ◌≢◌, refl, ap, subst, Bool,
  true, false, not, ◌&&◌, ◌||◌, [], ◌∷◌, ◌++◌, List, ◌==◌, some, arith, elem, remove_all, if_cases,
  Bytes, ltb, length,
}
use frangipani_yfs.Rpc.Fifo.{enq, deq}
use frangipani_yfs.Rpc.Dispatch.{
  Job, Rpcs, incref, max_jobs, added, got_pdu, fresh_server, header_of, take_job, accept, reap,
  Event, accepts, reaps, reaches, arrives, begins, finishes, step, run,
}
use frangipani_yfs.Rpc.Dispatch.References.{
  leaks, uses_held, uses_queue, uses_running, uses_conns, uses, uses_queue-push, uses_held-remove,
  uses_held-elem,
}
use frangipani_yfs.Rpc.Dispatch.Serving.{
  at_work, calls_of, none_deleted, Sound, drop-Sound, dispatch-Sound,
}
use frangipani_yfs.Rpc.Dispatch.Ends.{allowed, finish-Sound}

none_deleted-push :
    (q : List Job) (j : Job)
    → j.deleted ≡ false
    → none_deleted q ≡ true
    → none_deleted (q ++ j ∷ []) ≡ true
unfolding none_deleted
none_deleted-push [] j e h = ground arith
none_deleted-push (k ∷ q) j e h = ground (arith, none_deleted-push q j e)

arrive-Sound :
    (c : ℕ) (b : Bytes) (later : Bool) (s : Rpcs)
    → (elem c s.held && (not s.reachable || later)) ≡ true
    → Sound s
    → Runs Sound (got_pdu c b later s)
unfolding got_pdu enq added uses
arrive-Sound c b later s a (bal, (t, q)) =
    let j : Job = record { conn = c; buf = b; deleted = false } in
    if_cases (Runs Sound) (not s.reachable) (λ z. (bal, (t, q)))
      (λ z.
        if_cases (λ o. Runs Sound (added c later j s o))
          (max_jobs == 0 || ltb (length s.queue) max_jobs)
          (λ y.
            if_cases (Runs Sound) later
              (λ x. (
                (λ d. ground (arith, bal d, uses_queue-push d s.queue j)),
                (t, none_deleted-push s.queue j refl q),
              ))
              (λ x. absurd (ground arith)))
          (λ y. drop-Sound c (incref c s) ((λ d. ground (arith, bal d)), (t, q))))

accept-Sound : (c : ℕ) (s : Rpcs) → (s.refs c == 0) ≡ true → Sound s → Sound (accept c s)
unfolding accept uses uses_held
accept-Sound c s a (b, w) = ((λ d. ground (arith, b d, b c)), w)

reap-Sound : (c : ℕ) (s : Rpcs) → Sound s → Runs Sound (reap c s)
unfolding reap uses
reap-Sound c s (b, w) =
    if_cases (Runs Sound) (elem c s.held && s.refs c == 1)
      (λ t.
        drop-Sound c (record s { held = remove_all c s.held })
          (
            (λ d. ground (arith, b d, b c, uses_held-elem c s.held, uses_held-remove d c s.held)),
            w,
          ))
      (λ f. (b, w))

take-Sound : (s : Rpcs) (q : List Job) → s.queue ≡ q → Sound s → Runs Sound (take_job s (deq q))
unfolding take_job deq uses uses_queue none_deleted
take-Sound s [] e i = i
take-Sound s (j ∷ q) e (b, (t, d)) =
    if_cases (Runs Sound) j.deleted (λ z. absurd (ground (arith, ap none_deleted e)))
      (λ f.
        dispatch-Sound j.conn (record s { queue = q }) (header_of j.buf)
          ((λ c. ground (arith, b c, ap (uses_queue c) e)), (t, ground (arith, ap none_deleted e))))

step-Sound : (e : Event) (s : Rpcs) → allowed e s ≡ true → Sound s → Runs Sound (step e s)
unfolding allowed step uses
step-Sound (accepts c) s a i = accept-Sound c s a i
step-Sound (reaps c) s a i = reap-Sound c s i
step-Sound (reaches b) s a i = i
step-Sound (arrives c b later) s a i = arrive-Sound c b later s a i
step-Sound begins s a i = take-Sound s s.queue refl i
step-Sound (finishes n dead ret b sz) s a i = finish-Sound n dead ret b sz s _ refl a i

unfoldable pub all_allowed : List Event → Rpcs → Bool
unfolding allowed all_then step
all_allowed [] s = true
all_allowed (e ∷ es) s = allowed e s && all_then (λ u. all_allowed es u) (step e s)

run-Sound : (es : List Event) (s : Rpcs) → all_allowed es s ≡ true → Sound s → Runs Sound (run es s)
unfolding run all_allowed
run-Sound [] s a i = i
run-Sound (e ∷ es) s a i =
    let (p, q) = both_true (allowed e s) _ a in
    and_then-Runs Sound (λ u. all_allowed es u) (λ u. run es u) (step e s)
      (λ u b j. run-Sound es u b j) q (step-Sound e s p i)

fresh-Sound : (nonce : ℕ) (procs : List ℕ) → Sound (fresh_server nonce procs)
unfolding uses leaks uses_held uses_queue uses_running uses_conns at_work calls_of none_deleted
fresh-Sound nonce procs = (
  (λ c. omega arith),
  (
    (λ k x nz. (
      omega arith,
      (λ l. absurd (omega arith)),
      (λ l. absurd (omega arith)),
      omega arith,
      (λ l. absurd (omega arith)),
      omega arith,
    )),
    refl,
  ),
)

-- The server goes on and counts its connections exactly: whatever packets come, and in whatever order
-- its workers and its handlers go on, no assertion of it fails, no reference count drops below zero
-- and no job that was deleted is run, and each connection has as many references as holders, plus one
-- for each answer to a request for an old instance that it was sent; if accepted connections are new
-- ones, packets come on connections that the listener holds, the server is not made unreachable while
-- a packet is added, handlers return what dispatch takes, and a client without a nonce keeps its
-- connection until its handler ends.
pub serves_on :
    (nonce : ℕ) (procs : List ℕ) (es : List Event)
    → all_allowed es (fresh_server nonce procs) ≡ true
    → (s : Rpcs) × (run es (fresh_server nonce procs) ≡ some s)
      × ((c : ℕ) → s.refs c ≡ uses c s + leaks c s.sent)
serves_on nonce procs es a =
    let (s, (e, (b, w))) = Runs-some Sound _ (run-Sound es _ a (fresh-Sound nonce procs)) in
    (s, e, λ c. omega (arith, b c))

-- A handler is called once: in a run of the server that does not fail, the handler for a request of a
-- client with a nonce is called at most once, however often the request arrives and in whatever order
-- its workers go on; if accepted connections are new ones, packets come on connections that the
-- listener holds, the server is not made unreachable while a packet is added, handlers return what
-- dispatch takes, and a client without a nonce keeps its connection until its handler ends.
pub called_once :
    (nonce : ℕ) (procs : List ℕ) (es : List Event) (s : Rpcs) (clt xid : ℕ)
    → all_allowed es (fresh_server nonce procs) ≡ true
    → run es (fresh_server nonce procs) ≡ some s
    → clt ≢ 0
    → calls_of clt xid s.started ≤ 1
called_once nonce procs es s clt xid a e nz =
    let i = subst (Runs Sound) e (run-Sound es _ a (fresh-Sound nonce procs)) in
    ((i.1).0 clt xid nz).3
