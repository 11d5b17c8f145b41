-- ===== src/Lock/Exclusion.antt =====
-- The caching lock server (lock_server_cache.cc): one holder at a time, and no waiting client is lost.
use frangipani_yfs.Prelude.{
  ℕ, ◌≡◌, ◌≢◌, refl, ap, Bool, true, false, [], ◌∷◌, List, Option, none, some, Bytes, str_eq_refl,
  arith, Bool-cases, inl, inr, if_cases,
}
use frangipani_yfs.Lock.Protocol.{Status, ok, retry}
use frangipani_yfs.Lock.ServerCache.{
  acquired, LockServerCache, may_grant, granted, refused, acquire, is_owner, released, release, at,
  revoker_done, picked, retryer_at, retryer_call, retryer_done,
}

-- The steps of the server: the handlers of a client's requests, and those of the two threads.
pub data Event : Type 0 where
  acquires : Bytes → ℕ → ℕ → Event
  releases : Bytes → ℕ → Event
  revoker_ends : ℕ → Bool → Event
  retryer_asks : ℕ → Event
  retryer_ends : ℕ → ℕ → Bytes → Bool → Event

unfoldable pub step : Event → LockServerCache → LockServerCache
unfolding acquire release revoker_done retryer_call retryer_done
step (acquires clt seq lid) s = (acquire clt seq lid s).1
step (releases clt lid) s = (release clt lid s).1
step (revoker_ends it b) s = (revoker_done it b s).1
step (retryer_asks it) s = (retryer_call it s).1
step (retryer_ends it lid clt b) s = (retryer_done it lid clt b s).1

unfoldable pub run : List Event → LockServerCache → LockServerCache
unfolding step
run [] s = s
run (e ∷ es) s = run es (step e s)

abbrev pub Holds : Bytes → ℕ → LockServerCache → Type 0
Holds clt lid s = ((s.locks lid).state ≡ acquired) × ((s.locks lid).clt_id ≡ clt)

-- No request of the run releases the lock.
unfoldable pub NoRelease : ℕ → List Event → Type 0
NoRelease lid [] = Unit
NoRelease lid ((releases clt l) ∷ es) = (l ≢ lid) × NoRelease lid es
NoRelease lid (e ∷ es) = NoRelease lid es

may_grant-held :
    (clt d : Bytes) (lid : ℕ) (s : LockServerCache)
    → Holds clt lid s
    → may_grant d (s.locks lid) ≡ false
unfolding may_grant
may_grant-held clt d lid s h = rw (h.0) refl

refused-Holds :
    (clt d : Bytes) (lid l : ℕ) (s : LockServerCache)
    → Holds clt lid s
    → Holds clt lid (refused d l s)
unfolding refused
refused-Holds clt d lid l s h = (ground (arith, h.0), ground (arith, h.1))

granted-Holds :
    (clt d : Bytes) (lid seq l : ℕ) (s : LockServerCache)
    → l ≢ lid
    → Holds clt lid s
    → Holds clt lid (granted d seq l s)
unfolding granted
granted-Holds clt d lid seq l s n h = (ground (arith, h.0), ground (arith, h.1))

acquire-Holds :
    (clt d : Bytes) (lid seq l : ℕ) (s : LockServerCache)
    → Holds clt lid s
    → Holds clt lid ((acquire d seq l s).1)
unfolding acquire
acquire-Holds clt d lid seq l s h =
    if_cases (λ (p : Status × LockServerCache). Holds clt lid (p.1)) (may_grant d (s.locks l))
      (λ t. granted-Holds clt d lid seq l s (other t) h) (λ f. refused-Holds clt d lid l s h)
  where
    other : may_grant d (s.locks l) ≡ true → l ≢ lid
    other t e = cc (may_grant-held clt d lid s h, ap (λ i. may_grant d (s.locks i)) e)

released-Holds :
    (clt : Bytes) (lid l : ℕ) (s : LockServerCache)
    → l ≢ lid
    → Holds clt lid s
    → Holds clt lid (released l s)
unfolding released
released-Holds clt lid l s n h = (ground (arith, h.0), ground (arith, h.1))

release-Holds :
    (clt d : Bytes) (lid l : ℕ) (s : LockServerCache)
    → l ≢ lid
    → Holds clt lid s
    → Holds clt lid ((release d l s).1)
unfolding release
release-Holds clt d lid l s n h =
    if_cases (λ (p : Status × LockServerCache). Holds clt lid (p.1)) (is_owner d (s.locks l))
      (λ t. released-Holds clt lid l s n h) (λ f. h)

picked-Holds :
    (clt : Bytes) (lid l : ℕ) (s : LockServerCache) (ws : List Bytes) (r : Bytes)
    → Holds clt lid s
    → Holds clt lid ((picked l s ws r).1)
unfolding picked
picked-Holds clt lid l s [] r h = h
picked-Holds clt lid l s (w ∷ ws) [] h = (ground (arith, h.0), ground (arith, h.1))
picked-Holds clt lid l s (w ∷ ws) (c ∷ r) h = h

retryer-Holds :
    (clt : Bytes) (lid : ℕ) (s : LockServerCache) (o : Option ℕ)
    → Holds clt lid s
    → Holds clt lid ((retryer_at s o).1)
unfolding retryer_at
retryer-Holds clt lid s none h = h
retryer-Holds clt lid s (some l) h = picked-Holds clt lid l s _ _ h

run-Holds :
    (clt : Bytes) (lid : ℕ) (es : List Event) (s : LockServerCache)
    → NoRelease lid es
    → Holds clt lid s
    → Holds clt lid (run es s)
unfolding run step NoRelease retryer_call revoker_done retryer_done
run-Holds clt lid [] s n h = h
run-Holds clt lid ((acquires d seq l) ∷ es) s n h =
    run-Holds clt lid es _ n (acquire-Holds clt d lid seq l s h)
run-Holds clt lid ((releases d l) ∷ es) s n h =
    run-Holds clt lid es _ (n.1) (release-Holds clt d lid l s (n.0) h)
run-Holds clt lid ((revoker_ends it true) ∷ es) s n h = run-Holds clt lid es _ n h
run-Holds clt lid ((revoker_ends it false) ∷ es) s n h = run-Holds clt lid es _ n h
run-Holds clt lid ((retryer_asks it) ∷ es) s n h =
    run-Holds clt lid es _ n (retryer-Holds clt lid s (at it s.free_locks) h)
run-Holds clt lid ((retryer_ends it l c b) ∷ es) s n h = run-Holds clt lid es _ n h

granted-now :
    (clt : Bytes) (seq lid : ℕ) (s : LockServerCache)
    → (acquire clt seq lid s).0 ≡ ok
    → Holds clt lid ((acquire clt seq lid s).1)
unfolding acquire granted
granted-now clt seq lid s h = elim (Bool-cases (may_grant clt (s.locks lid))) [
  | inl t ↦ rw t ((ground arith, ground arith))
  | inr f ↦ ground (arith, f)
]

acquire-held :
    (clt d : Bytes) (seq lid : ℕ) (s : LockServerCache)
    → Holds clt lid s
    → (acquire d seq lid s).0 ≡ retry
unfolding acquire
acquire-held clt d seq lid s h = rw (may_grant-held clt d lid s h) refl

-- Mutual exclusion at the server: once an acquire of a lock returns OK, every further acquire of it, by
-- any client, returns RETRY, as long as no release of it is served, whatever else the clients ask and
-- the revoker and the retryer do.
pub granted-exclusive :
    (clt d : Bytes) (seq q lid : ℕ) (es : List Event) (s : LockServerCache)
    → (acquire clt seq lid s).0 ≡ ok
    → NoRelease lid es
    → (acquire d q lid (run es ((acquire clt seq lid s).1))).0 ≡ retry
granted-exclusive clt d seq q lid es s g n =
    acquire-held clt d q lid _ (run-Holds clt lid es _ n (granted-now clt seq lid s g))

released-free :
    (d : Bytes) (lid : ℕ) (s : LockServerCache)
    → is_owner d (s.locks lid) ≡ true
    → release d lid s ≡ (ok, released lid s)
unfolding release
released-free d lid s h = rw h refl

owner :
    (d : Bytes) (lid : ℕ) (s : LockServerCache)
    → (s.locks lid).retryer_sent_to ≡ d
    → is_owner d (s.locks lid) ≡ true
unfolding is_owner
owner d lid s r = ground (arith, r, str_eq_refl d)

free_now :
    (e : Bytes) (seq lid : ℕ) (s : LockServerCache)
    → (s.locks lid).waiting_clients ≡ []
    → (acquire e seq lid (released lid s)).0 ≡ ok
unfolding acquire may_grant released
free_now e seq lid s w = ground (arith, w)

-- A client that the retryer has called can release a lock that another client holds: the server
-- accepts it, and when no client waits, the next acquire by any client is granted, with the holder
-- still believing that it has the lock.
pub retryer_releases :
    (clt d e : Bytes) (seq lid : ℕ) (s : LockServerCache)
    → Holds clt lid s
    → d ≢ clt
    → (s.locks lid).retryer_sent_to ≡ d
    → (s.locks lid).waiting_clients ≡ []
    → ((release d lid s).0 ≡ ok) × ((acquire e seq lid ((release d lid s).1)).0 ≡ ok)
unfolding acquire may_grant
retryer_releases clt d e seq lid s h n r w =
    let own : is_owner d (s.locks lid) ≡ true = owner d lid s r in
    let same = released-free d lid s own in (ap (λ p. p.0) same, rw same (free_now e seq lid s w))
