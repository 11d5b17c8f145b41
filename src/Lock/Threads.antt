-- ===== src/Lock/Threads.antt =====
-- The threads of one client at one lock (lock_client_cache.cc).
use frangipani_yfs.Prelude.{
  ℕ, ◌≤◌, ◌≡◌, ◌≢◌, refl, Bool, true, false, not, ◌&&◌, ◌||◌, [], ◌∷◌, List, ◌==◌, if◌then◌else◌,
  elem, remove_all, length, arith, if_cases,
}
use frangipani_yfs.Lock.Protocol.{Status, ok, retry, rpcerr, noent, ioerr, rpc_failed}
use frangipani_yfs.Lock.ClientCache.{
  LockState, absent, free, locked, acquiring, releasing, LockInfo, LockClientCache, info, set_info,
  enter, Turn, sleeps, returns, asks, front_turn, turn, answered, release, revoke, retry_call,
  releaser_call, releaser_done,
}

-- The client, the threads whose acquire of the lock has returned and that have not released it, and
-- the threads whose call to the server is not answered yet.
pub record Threads : Type 0 where
  pub client : LockClientCache
  pub inside : List ℕ
  pub asking : List ℕ

pub data Event : Type 0 where
  enters turns releases : ℕ → Event
  answers : ℕ → Status → Event
  revokes retries : ℕ → Event
  releaser_asks : ℕ → Event
  releaser_ends : ℕ → ℕ → Bool → Event

abbrev only_client : LockClientCache → Threads → Threads
only_client c s = record { client = c; inside = s.inside; asking = s.asking }

unfoldable pub turned : ℕ → ℕ → Threads → Turn × LockInfo → Threads
turned lid t s (sleeps, li) = only_client (set_info lid li s.client) s
turned lid t s (returns, li) = record {
  client = set_info lid li s.client;
  inside = t ∷ s.inside;
  asking = s.asking;
}
turned lid t s (asks, li) = record {
  client = set_info lid li s.client;
  inside = s.inside;
  asking = t ∷ s.asking;
}

abbrev is_ok : Status → Bool
is_ok ok = true
is_ok _ = false

-- A step of the threads at the lock. A thread releases the lock when it has it, and an answer comes
-- for a call that was made; otherwise nothing happens.
unfoldable pub step : ℕ → Event → Threads → Threads
unfolding turned revoke retry_call releaser_call releaser_done
step lid (enters t) s = only_client (set_info lid (enter t (info lid s.client)) s.client) s
step lid (turns t) s = turned lid t s (turn t (info lid s.client))
step lid (releases t) s =
    if elem t s.inside
    then record {
      client = set_info lid (release t (info lid s.client)) s.client;
      inside = remove_all t s.inside;
      asking = s.asking;
    }
    else s
step lid (answers t st) s =
    if elem t s.asking
    then record {
      client = set_info lid (answered st (info lid s.client)) s.client;
      inside = if is_ok st then t ∷ s.inside else s.inside;
      asking = remove_all t s.asking;
    }
    else s
step lid (revokes l) s = only_client ((revoke l s.client).1) s
step lid (retries l) s = only_client ((retry_call l s.client).1) s
step lid (releaser_asks it) s = only_client ((releaser_call it s.client).1) s
step lid (releaser_ends it l b) s = only_client ((releaser_done it l b s.client).1) s

unfoldable pub run : ℕ → List Event → Threads → Threads
unfolding step
run lid [] s = s
run lid (e ∷ es) s = run lid es (step lid e s)

abbrev pub is_acquiring : LockState → Bool
is_acquiring acquiring = true
is_acquiring _ = false

abbrev pub is_releasing : LockState → Bool
is_releasing releasing = true
is_releasing _ = false

-- The step does not take the lock for the server while a thread acquires it, and it ends only a
-- release that is under way.
unfoldable pub calm_at : ℕ → Event → Threads → Bool
calm_at lid (releaser_asks it) s = not (is_acquiring (info lid s.client).state)
calm_at lid (releaser_ends it l b) s = is_releasing (info lid s.client).state || not (l == lid)
calm_at lid e s = true

unfoldable pub calm : ℕ → List Event → Threads → Bool
unfolding calm_at step
calm lid [] s = true
calm lid (e ∷ es) s = calm_at lid e s && calm lid es (step lid e s)

-- Who may be inside and who may ask, by the state of the lock.
unfoldable pub Fits : LockState → List ℕ → List ℕ → Type 0
Fits locked ins ask = (length ins ≡ 1) × (ask ≡ [])
Fits acquiring ins ask = (ins ≡ []) × (length ask ≤ 1)
Fits _ ins ask = (ins ≡ []) × (ask ≡ [])

abbrev pub Sound : ℕ → Threads → Type 0
Sound lid s = Fits (info lid s.client).state s.inside s.asking

pub info-here : (l : ℕ) (li : LockInfo) (c : LockClientCache) → info l (set_info l li c) ≡ li
unfolding info set_info
info-here l li c = ground arith

front-Fits :
    (t : ℕ) (li : LockInfo) (st : LockState) (lid : ℕ) (s : Threads)
    → li.state ≡ st
    → Fits st s.inside s.asking
    → Sound lid (turned lid t s (front_turn li st))
unfolding front_turn turned Fits
front-Fits t li absent lid s e (i, a) = rw (info-here lid _ s.client, i, a) ((refl, omega arith))
front-Fits t li free lid s e (i, a) = rw (info-here lid _ s.client, i, a) ((refl, refl))
front-Fits t li locked lid s e h = rw (info-here lid li s.client, e) h
front-Fits t li acquiring lid s e h = rw (info-here lid li s.client, e) h
front-Fits t li releasing lid s e h = rw (info-here lid li s.client, e) h

sleeps-Sound :
    (t lid : ℕ) (s : Threads) → Sound lid s → Sound lid (turned lid t s (sleeps, info lid s.client))
unfolding turned
sleeps-Sound t lid s h = rw (info-here lid (info lid s.client) s.client) h

pub turn-Sound :
    (t lid : ℕ) (s : Threads)
    → Sound lid s
    → Sound lid (turned lid t s (turn t (info lid s.client)))
unfolding turn
turn-Sound t lid s h =
    if_cases (λ (p : Turn × LockInfo). Sound lid (turned lid t s p))
      (info lid s.client).to_be_revoked (λ y. sleeps-Sound t lid s h)
      (λ n.
        if_cases (λ (p : Turn × LockInfo). Sound lid (turned lid t s p)) _
          (λ y. front-Fits t (info lid s.client) _ lid s refl h) (λ m. sleeps-Sound t lid s h))

remove_one : (t : ℕ) (l : List ℕ) → elem t l ≡ true → length l ≤ 1 → remove_all t l ≡ []
unfolding elem remove_all
remove_one t [] h k = refl
remove_one t (x ∷ []) h k = ground arith
remove_one t (x ∷ y ∷ l) h k = absurd (omega arith)

has_member : (t : ℕ) (l : List ℕ) → elem t l ≡ true → l ≢ []
unfolding elem
has_member t [] h e = cc
has_member t (x ∷ l) h e = cc

pub release-Fits :
    (t : ℕ) (st : LockState) (ins ask : List ℕ)
    → elem t ins ≡ true
    → Fits st ins ask
    → Fits free (remove_all t ins) ask
unfolding Fits
release-Fits t absent ins ask m (i, a) = absurd (has_member t ins m i)
release-Fits t free ins ask m (i, a) = absurd (has_member t ins m i)
release-Fits t locked ins ask m (i, a) = (remove_one t ins m (omega (arith, i)), a)
release-Fits t acquiring ins ask m (i, a) = absurd (has_member t ins m i)
release-Fits t releasing ins ask m (i, a) = absurd (has_member t ins m i)

-- An answer comes while the lock is being acquired.
pub asked-acquiring :
    (t : ℕ) (st : LockState) (ins ask : List ℕ)
    → elem t ask ≡ true
    → Fits st ins ask
    → (st ≡ acquiring) × (ins ≡ []) × (remove_all t ask ≡ [])
unfolding Fits
asked-acquiring t absent ins ask m (i, a) = absurd (has_member t ask m a)
asked-acquiring t free ins ask m (i, a) = absurd (has_member t ask m a)
asked-acquiring t locked ins ask m (i, a) = absurd (has_member t ask m a)
asked-acquiring t acquiring ins ask m (i, a) = (refl, i, remove_one t ask m a)
asked-acquiring t releasing ins ask m (i, a) = absurd (has_member t ask m a)

pub answered-Fits :
    (t : ℕ) (st : Status) (li : LockInfo) (ins ask : List ℕ)
    → li.state ≡ acquiring
    → ins ≡ []
    → ask ≡ []
    → Fits ((answered st li).state) (if is_ok st then t ∷ ins else ins) ask
unfolding answered Fits
answered-Fits t ok li ins ask e i a = rw (i, a) ((refl, refl))
answered-Fits t retry li ins ask e i a = (i, a)
answered-Fits t rpcerr li ins ask e i a = rw (e, i, a) ((refl, omega arith))
answered-Fits t noent li ins ask e i a = rw (e, i, a) ((refl, omega arith))
answered-Fits t ioerr li ins ask e i a = rw (e, i, a) ((refl, omega arith))
answered-Fits t rpc_failed li ins ask e i a = rw (e, i, a) ((refl, omega arith))
