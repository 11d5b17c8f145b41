-- ===== src/Rpc/Dispatch/Serving.antt =====
-- The runs of a server of rpc/rpc.cc, between the calls of its handlers.
use frangipani_yfs.Prelude.{
  Runs, ℕ, ◌+◌, ◌≤◌, ◌≡◌, ◌≢◌, refl, subst, Bool, true, false, not, ◌&&◌, [], ◌∷◌, List, ◌==◌,
  if◌then◌else◌, Option, none, some, is_some, arith, elem, Bool-cases, inl, inr, if_cases,
}
use frangipani_yfs.Rpc.Header.{ReqHeader}
use frangipani_yfs.Rpc.Reply.{RpcState, new, inprogress, forgotten, done, check}
use frangipani_yfs.Rpc.AtMostOnce.{known, check-known, check-not_known, check-records}
use frangipani_yfs.Rpc.Dispatch.{
  send, saved_reply, header_only, atmostonce_failure, Job, Running, Rpcs, decref, find_conn,
  set_conn, kept, save_conn, start, switch, screened, dispatch,
}
use frangipani_yfs.Rpc.Dispatch.InFlight.{in_flight, check-in_flight, check-starts}
use frangipani_yfs.Rpc.Dispatch.References.{
  leaks, is_stale, uses_running, uses, hand, Balanced, decref-Runs, uses_conns-set,
  uses_conns-replace, uses_conns-find, find-set_conn,
}

-- How many handlers work on a request, and how many were called for it.
unfoldable pub at_work : ℕ → ℕ → List Running → ℕ
at_work clt xid [] = 0
at_work clt xid (r ∷ rs) = (if r.clt == clt && r.xid == xid then 1 else 0) + at_work clt xid rs

unfoldable pub calls_of : ℕ → ℕ → List (ℕ × ℕ) → ℕ
calls_of clt xid [] = 0
calls_of clt xid ((k, x) ∷ l) = (if k == clt && x == xid then 1 else 0) + calls_of clt xid l

unfoldable pub none_deleted : List Job → Bool
none_deleted [] = true
none_deleted (j ∷ js) = if j.deleted then false else none_deleted js

-- A request of a client that wants its calls at most once: one handler at most works on it, and then
-- its entry has no reply yet, and the client has a connection; and the table knows it once it was
-- called.
abbrev pub Tracked : Rpcs → ℕ → ℕ → Type 0
Tracked s clt xid =
    (at_work clt xid s.running ≤ 1)
    × (1 ≤ at_work clt xid s.running → in_flight xid (s.table clt) ≡ true)
    × (1 ≤ at_work clt xid s.running → is_some (find_conn clt s.conns) ≡ true)
    × (calls_of clt xid s.started ≤ 1)
    × (1 ≤ calls_of clt xid s.started → known xid (s.table clt) ≡ true)
    × (at_work clt xid s.running ≤ calls_of clt xid s.started)

abbrev pub Whole : Rpcs → Type 0
Whole s = ((clt xid : ℕ) → clt ≢ 0 → Tracked s clt xid) × (none_deleted s.queue ≡ true)

abbrev pub SoundBy : (ℕ → ℕ) → Rpcs → Type 0
SoundBy x s = Balanced x s × Whole s

abbrev pub free : ℕ → ℕ
free c = 0

abbrev pub Sound : Rpcs → Type 0
Sound s = SoundBy free s

-- A worker's connection has the worker's reference.
hand-refs : (c : ℕ) (s : Rpcs) → Balanced (hand c) s → 1 ≤ s.refs c
hand-refs c s b = ground (arith, b c)

pub drop-Sound : (c : ℕ) (s : Rpcs) → SoundBy (hand c) s → Runs Sound (decref c s)
unfolding uses
drop-Sound c s (b, w) = decref-Runs Sound c s (hand-refs c s b) ((λ d. ground (arith, b d)), w)

-- A request that is new to the server, once it is recorded.
abbrev pub Recorded : Rpcs → ℕ → ℕ → Type 0
Recorded s clt xid =
    (calls_of clt xid s.started ≡ 0)
    × (in_flight xid (s.table clt) ≡ true)
    × (known xid (s.table clt) ≡ true)
    × (is_some (find_conn clt s.conns) ≡ true)

start-Tracked :
    (h : ReqHeader) (c : ℕ) (s : Rpcs) (k x : ℕ)
    → Tracked s k x
    → ((h.clt_nonce == k && h.xid == x) ≡ true → Recorded s k x)
    → Tracked (start h c s) k x
unfolding at_work calls_of
start-Tracked h c s k x t n = elim (Bool-cases (h.clt_nonce == k && h.xid == x)) [
  | inl e ↦
      let r = n e in (ground arith, (λ l. r.1), (λ l. r.3), ground arith, (λ l. r.2), ground arith)
  | inr e ↦ (
    ground arith,
    (λ l. t.1 (ground arith)),
    (λ l. t.2 (ground arith)),
    ground arith,
    (λ l. t.4 (ground arith)),
    ground arith,
  )
]

pub same_pair : (P : ℕ → ℕ → Type 0) (a b k x : ℕ) → (a == k && b == x) ≡ true → P a b → P k x
same_pair P a b k x e p =
    subst (λ u. P u x) (first a b k x e) (subst (λ v. P a v) (second a b k x e) p)
  where
    first : (a b k x : ℕ) → (a == k && b == x) ≡ true → a ≡ k
    first a b k x e = ground arith

    second : (a b k x : ℕ) → (a == k && b == x) ≡ true → b ≡ x
    second a b k x e = ground arith

start-Sound :
    (h : ReqHeader) (c : ℕ) (s : Rpcs)
    → SoundBy (hand c) s
    → (h.clt_nonce ≢ 0 → Recorded s h.clt_nonce h.xid)
    → Sound (start h c s)
unfolding uses uses_running
start-Sound h c s (b, (t, q)) n = (
  (λ d. ground (arith, b d)),
  (
    λ k x nz.
        start-Tracked h c s k x (t k x nz)
          (λ e. same_pair (Recorded s) h.clt_nonce h.xid k x e (n (λ z. nz (ground arith)))),
    q,
  ),
)

switch-Sound :
    (h : ReqHeader) (c : ℕ) (s : Rpcs) (r : RpcState)
    → SoundBy (hand c) s
    → (r ≡ new → h.clt_nonce ≢ 0 → Recorded s h.clt_nonce h.xid)
    → Runs Sound (switch h c s r)
unfolding switch uses leaks is_stale
switch-Sound h c s new i n = start-Sound h c s i (n refl)
switch-Sound h c s inprogress i n = drop-Sound c s i
switch-Sound h c s (done b sz) i n =
    drop-Sound c (send c (saved_reply b sz) s) ((λ d. ground (arith, i.0 d)), i.1)
switch-Sound h c s forgotten i n =
    drop-Sound c (send c (header_only (record { xid = h.xid; ret = atmostonce_failure })) s)
      ((λ d. ground (arith, i.0 d)), i.1)

-- What a check changes is what the invariant allows.
check-Tracked :
    (clt xid rep k x : ℕ) (s : Rpcs)
    → Tracked s k x
    → Tracked (record s { table = (check clt xid rep s.table).table }) k x
check-Tracked clt xid rep k x s t = (
  t.0,
  (λ l. check-in_flight k x clt xid rep s.table (t.1 l)),
  t.2,
  t.3,
  (λ l. check-known k x clt xid rep s.table (t.4 l)),
  t.5,
)

screened-Sound :
    (h : ReqHeader) (c : ℕ) (o : Option Rpcs)
    → Runs (λ s. SoundBy (hand c) s × (is_some (find_conn h.clt_nonce s.conns) ≡ true)) o
    → h.clt_nonce ≢ 0
    → Runs Sound (screened h c o)
unfolding screened uses
screened-Sound h c none i nz = i
screened-Sound h c (some s) ((b, (t, q)), f) nz =
    let k = check h.clt_nonce h.xid h.xid_rep s.table in
    switch-Sound h c (record s { table = k.table }) k.state
      (b, (λ y x z. check-Tracked h.clt_nonce h.xid h.xid_rep y x s (t y x z), q))
      (λ e z. (
        uncalled e,
        check-starts h.clt_nonce h.xid h.xid_rep s.table e,
        check-records h.clt_nonce h.xid h.xid_rep s.table e,
        f,
      ))
  where
    uncalled :
        (check h.clt_nonce h.xid h.xid_rep s.table).state ≡ new
        → calls_of h.clt_nonce h.xid s.started ≡ 0
    uncalled e =
        ground
          (arith, check-not_known h.clt_nonce h.xid h.xid_rep s.table e, (t h.clt_nonce h.xid nz).4)

-- The connections of other clients stay.
conn-Tracked :
    (clt c k x : ℕ) (s : Rpcs)
    → Tracked s k x
    → Tracked (record s { conns = set_conn clt c s.conns }) k x
conn-Tracked clt c k x s t =
    (t.0, t.1, (λ l. ground (arith, find-set_conn k clt c s.conns, t.2 l)), t.3, t.4, t.5)

abbrev Saves : ℕ → ℕ → Rpcs → Type 0
Saves clt c s = SoundBy (hand c) s × (is_some (find_conn clt s.conns) ≡ true)

moved-Sound :
    (clt c d : ℕ) (s : Rpcs)
    → (d == c) ≡ false
    → find_conn clt s.conns ≡ some d
    → SoundBy (hand c) s
    → Runs (Saves clt c) (kept clt c (decref d s))
unfolding decref kept uses
moved-Sound clt c d s n e (b, (t, q)) =
    if_cases (λ o. Runs (Saves clt c) (kept clt c o)) (s.refs d == 0)
      (λ z. absurd (ground (arith, b d, uses_conns-find clt d s.conns e)))
      (λ f. (
        (
          (λ x. ground (
            arith,
            b x,
            b d,
            uses_conns-find clt d s.conns e,
            uses_conns-replace x clt c d s.conns e,
          )),
          (λ k x nz. conn-Tracked clt c k x s (t k x nz), q),
        ),
        ground (arith, find-set_conn clt clt c s.conns),
      ))

save_conn-Sound :
    (clt c : ℕ) (s : Rpcs) (o : Option ℕ)
    → find_conn clt s.conns ≡ o
    → SoundBy (hand c) s
    → Runs (Saves clt c) (save_conn clt c s o)
unfolding save_conn kept uses
save_conn-Sound clt c s none e (b, (t, q)) = (
  (
    (λ d. ground (arith, b d, uses_conns-set d clt c s.conns e)),
    (λ k x nz. conn-Tracked clt c k x s (t k x nz), q),
  ),
  ground (arith, find-set_conn clt clt c s.conns),
)
save_conn-Sound clt c s (some d) e (b, (t, q)) =
    if_cases (Runs (Saves clt c)) (d == c) (λ w. ((b, (t, q)), ground (arith, e)))
      (λ n. moved-Sound clt c d s n e (b, (t, q)))

pub dispatch-Sound :
    (c : ℕ) (s : Rpcs) (o : Option ReqHeader) → SoundBy (hand c) s → Runs Sound (dispatch c s o)
unfolding dispatch uses leaks is_stale
dispatch-Sound c s none i = drop-Sound c s i
dispatch-Sound c s (some h) i =
    if_cases (Runs Sound) (not (h.srv_nonce == 0) && not (h.srv_nonce == s.nonce))
      (λ t. ((λ d. ground (arith, i.0 d)), i.1))
      (λ f.
        if_cases (Runs Sound) (not (elem h.proc s.procs)) (λ t. drop-Sound c s i)
          (λ g.
            if_cases (Runs Sound) (h.clt_nonce == 0)
              (λ z. start-Sound h c s i (λ nz. absurd (nz (ground arith))))
              (λ nz.
                screened-Sound h c _ (save_conn-Sound h.clt_nonce c s _ refl i)
                  (λ z. ground arith))))
