-- ===== src/Lock/Waiting.antt =====
-- The waiting clients of the caching lock server (lock_server_cache.cc).
use frangipani_yfs.Prelude.{
  ℕ, ◌≡◌, refl, ◌∙◌, Bool, true, false, ◌&&◌, ◌||◌, [], ◌∷◌, ◌++◌, List, ◌==◌, Option, none, some,
  Bytes, str_eq, str_eq_refl, elem_str, elem_str-append, arith, Bool-cases, inl, inr, if_cases,
}
use frangipani_yfs.Lock.Protocol.{Status, retry}
use frangipani_yfs.Lock.ServerCache.{
  acquired, LockServerCache, revoking, may_grant, granted, refused, acquire, is_owner, released,
  release, at, revoker_done, picked, retryer_at, retryer_call, retryer_done,
}
use frangipani_yfs.Lock.Exclusion.{
  Event, acquires, releases, revoker_ends, retryer_asks, retryer_ends, step, run,
}

-- The client waits for the lock.
abbrev pub waits : ℕ → Bytes → LockServerCache → Bool
waits lid d s = elem_str d (s.locks lid).waiting_clients

-- The retryer's step that calls the client for the lock.
unfoldable pub asked : ℕ → Bytes → Option ℕ → Option Bytes → Bool
asked lid d (some l) (some c) = l == lid && str_eq c d
asked lid d _ _ = false

unfoldable pub calls : ℕ → Bytes → Event → LockServerCache → Bool
unfolding asked retryer_call
calls lid d (retryer_asks it) s = asked lid d (at it s.free_locks) (retryer_call it s).0
calls lid d e s = false

unfoldable pub called : ℕ → Bytes → List Event → LockServerCache → Bool
unfolding calls
called lid d [] s = false
called lid d (e ∷ es) s = calls lid d e s || called lid d es (step e s)

granted-waits :
    (lid : ℕ) (d c : Bytes) (seq l : ℕ) (s : LockServerCache)
    → waits lid d (granted c seq l s) ≡ waits lid d s
unfolding granted
granted-waits lid d c seq l s = ground arith

refused-waits :
    (lid : ℕ) (d c : Bytes) (l : ℕ) (s : LockServerCache)
    → waits lid d s ≡ true
    → waits lid d (refused c l s) ≡ true
unfolding refused
refused-waits lid d c l s h =
    ground (arith, h, elem_str-append d (s.locks l).waiting_clients (c ∷ []))

acquire-waits :
    (lid : ℕ) (d c : Bytes) (seq l : ℕ) (s : LockServerCache)
    → waits lid d s ≡ true
    → waits lid d ((acquire c seq l s).1) ≡ true
unfolding acquire
acquire-waits lid d c seq l s h =
    if_cases (λ (p : Status × LockServerCache). waits lid d (p.1) ≡ true) (may_grant c (s.locks l))
      (λ t. granted-waits lid d c seq l s ∙ h) (λ f. refused-waits lid d c l s h)

released-waits :
    (lid : ℕ) (d : Bytes) (l : ℕ) (s : LockServerCache) → waits lid d (released l s) ≡ waits lid d s
unfolding released
released-waits lid d l s = ground arith

release-waits :
    (lid : ℕ) (d c : Bytes) (l : ℕ) (s : LockServerCache)
    → waits lid d s ≡ true
    → waits lid d ((release c l s).1) ≡ true
unfolding release
release-waits lid d c l s h =
    if_cases (λ (p : Status × LockServerCache). waits lid d (p.1) ≡ true) (is_owner c (s.locks l))
      (λ t. released-waits lid d l s ∙ h) (λ f. h)

picked-waits :
    (lid : ℕ) (d : Bytes) (l : ℕ) (s : LockServerCache) (us : List Bytes) (r : Bytes)
    → (s.locks l).waiting_clients ≡ us
    → waits lid d s ≡ true
    → (asked lid d (some l) (picked l s us r).0 || waits lid d ((picked l s us r).1)) ≡ true
unfolding picked asked elem_str
picked-waits lid d l s [] r e h = h
picked-waits lid d l s (u ∷ us) (x ∷ r) e h = h
picked-waits lid d l s (u ∷ us) [] e h = ground (arith, h, e)

retryer-waits :
    (lid : ℕ) (d : Bytes) (s : LockServerCache) (o : Option ℕ)
    → waits lid d s ≡ true
    → (asked lid d o (retryer_at s o).0 || waits lid d ((retryer_at s o).1)) ≡ true
unfolding retryer_at asked
retryer-waits lid d s none h = h
retryer-waits lid d s (some l) h = picked-waits lid d l s _ _ refl h

step-waits :
    (lid : ℕ) (d : Bytes) (e : Event) (s : LockServerCache)
    → waits lid d s ≡ true
    → (calls lid d e s || waits lid d (step e s)) ≡ true
unfolding step calls retryer_call revoker_done retryer_done
step-waits lid d (acquires c seq l) s h = acquire-waits lid d c seq l s h
step-waits lid d (releases c l) s h = release-waits lid d c l s h
step-waits lid d (revoker_ends it true) s h = h
step-waits lid d (revoker_ends it false) s h = h
step-waits lid d (retryer_asks it) s h = retryer-waits lid d s (at it s.free_locks) h
step-waits lid d (retryer_ends it l c b) s h = h

run-waits :
    (lid : ℕ) (d : Bytes) (es : List Event) (s : LockServerCache)
    → waits lid d s ≡ true
    → (called lid d es s || waits lid d (run es s)) ≡ true
unfolding called run
run-waits lid d [] s h = h
run-waits lid d (e ∷ es) s h = elim (Bool-cases (calls lid d e s)) [
  | inl t ↦ ground (arith, t)
  | inr f ↦ ground (arith, f, step-waits lid d e s h, run-waits lid d es (step e s))
]

revoking-push :
    (lid : ℕ) (c : Bytes) (rs : List (ℕ × Bytes)) → revoking lid c (rs ++ (lid, c) ∷ []) ≡ true
unfolding revoking
revoking-push lid c [] = ground (arith, str_eq_refl c)
revoking-push lid c ((l, d) ∷ rs) = ground (arith, revoking-push lid c rs)

refused-queued :
    (lid : ℕ) (d : Bytes) (s : LockServerCache)
    → (waits lid d (refused d lid s) ≡ true)
      × ((s.locks lid).state ≡ acquired
          → revoking lid (s.locks lid).clt_id (refused d lid s).revokes ≡ true)
unfolding refused elem_str
refused-queued lid d s = (
  ground (
    arith,
    elem_str-append d (s.locks lid).waiting_clients (d ∷ []),
    str_eq_refl d,
    Bool-cases (elem_str d (s.locks lid).waiting_clients),
  ),
  λ h. ground (
    arith,
    h,
    revoking-push lid (s.locks lid).clt_id s.revokes,
    Bool-cases (revoking lid (s.locks lid).clt_id s.revokes),
  ),
)

retry-refused :
    (lid seq : ℕ) (d : Bytes) (s : LockServerCache)
    → (acquire d seq lid s).0 ≡ retry
    → (acquire d seq lid s).1 ≡ refused d lid s
unfolding acquire
retry-refused lid seq d s h = ground (arith, h, Bool-cases (may_grant d (s.locks lid)))

-- No waiting client is lost: when an acquire returns RETRY, a revocation is queued for the client that
-- holds the lock, if one does, and, whatever the server does then, the client waits for the lock until
-- the retryer calls it.
pub retry-waits :
    (lid seq : ℕ) (d : Bytes) (es : List Event) (s : LockServerCache)
    → (acquire d seq lid s).0 ≡ retry
    → ((s.locks lid).state ≡ acquired
        → revoking lid (s.locks lid).clt_id (acquire d seq lid s).1.revokes ≡ true)
      × ((called lid d es ((acquire d seq lid s).1)
            || waits lid d (run es ((acquire d seq lid s).1)))
          ≡ true)
retry-waits lid seq d es s h =
    let same = retry-refused lid seq d s h in
    let q = refused-queued lid d s in (rw same (q.1), run-waits lid d es _ (rw same (q.0)))
