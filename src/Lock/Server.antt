-- ===== src/Lock/Server.antt =====
-- lock_server.cc. An acquire runs under the mutex except while it waits, so a step is the part of it
-- from a point where it has the mutex to the next wait or to its return.
use frangipani_yfs.Prelude.{
  ℕ, suc, ◌+◌, ◌-◌, ◌≡◌, refl, Bool, true, false, [], ◌∷◌, List, ◌==◌, if◌then◌else◌, Option, none,
  some, arith,
}
use frangipani_yfs.Lock.Protocol.{Status, ok, noent}

pub data LockState : Type 0 where
  free locked : LockState

abbrev is_locked : LockState → Bool
is_locked free = false
is_locked locked = true

-- The map of the locks, as its entries: `find` and the assignment through `operator[]`.
unfoldable pub find : ℕ → List (ℕ × LockState) → Option LockState
find lid [] = none
find lid ((k, v) ∷ m) = if k == lid then some v else find lid m

unfoldable pub set : ℕ → LockState → List (ℕ × LockState) → List (ℕ × LockState)
set lid s [] = (lid, s) ∷ []
set lid s ((k, v) ∷ m) = let rest = set lid s m in if k == lid then (k, s) ∷ m else (k, v) ∷ rest

pub record LockServer : Type 0 where
  pub locks : List (ℕ × LockState)
  pub nacquire : ℕ

abbrev pub empty_server : LockServer
empty_server = record { locks = []; nacquire = 0 }

unfoldable pub stat : LockServer → Status × ℕ
stat s = (ok, s.nacquire)

-- The entry of acquire: an unknown lock is made, free.
unfoldable pub known : ℕ → LockServer → Option LockState → LockServer
unfolding set
known lid s none = record { locks = set lid free s.locks; nacquire = s.nacquire }
known lid s (some v) = s

-- The test of the wait loop: none while the lock is held, and the grant otherwise.
unfoldable pub grant : ℕ → LockServer → Option LockState → Option (Status × ℕ × LockServer)
unfolding set
grant lid s (some locked) = none
grant lid s o =
    some (ok, suc s.nacquire, record { locks = set lid locked s.locks; nacquire = suc s.nacquire })

unfoldable pub acquire : ℕ → LockServer → Option (Status × ℕ × LockServer)
unfolding find known grant
acquire lid s = let t = known lid s (find lid s.locks) in grant lid t (find lid t.locks)

unfoldable pub freed : ℕ → ℕ → LockServer → Option LockState → Status × ℕ × LockServer
unfolding set
freed lid r s (some locked) =
    (ok, s.nacquire - 1, record { locks = set lid free s.locks; nacquire = s.nacquire - 1 })
freed lid r s _ = (noent, r, s)

unfoldable pub release : ℕ → ℕ → LockServer → Status × ℕ × LockServer
unfolding find freed
release lid r s = freed lid r s (find lid s.locks)

-- How many locks are held.
unfoldable pub held : List (ℕ × LockState) → ℕ
held [] = 0
held ((k, free) ∷ m) = held m
held ((k, locked) ∷ m) = suc (held m)

pub data Op : Type 0 where
  acquires releases : ℕ → Op

-- An acquire that has to wait leaves the entry that it made.
unfoldable pub waited : LockServer → Option (Status × ℕ × LockServer) → LockServer
waited s none = s
waited s (some (st, r, t)) = t

unfoldable pub step : Op → LockServer → LockServer
unfolding waited acquire release
step (acquires lid) s = waited (known lid s (find lid s.locks)) (acquire lid s)
step (releases lid) s = (release lid 0 s).2

unfoldable pub run : List Op → LockServer → LockServer
unfolding step
run [] s = s
run (o ∷ os) s = run os (step o s)

set-locked :
    (lid : ℕ) (m : List (ℕ × LockState))
    → (find lid m ≡ some locked → held (set lid free m) + 1 ≡ held m)
      × (find lid m ≡ some free → held (set lid locked m) ≡ held m + 1)
      × (find lid m ≡ none → held (set lid free m) ≡ held m)
      × (find lid m ≡ none → held (set lid locked m) ≡ held m + 1)
unfolding find set held
set-locked lid [] = (λ h. cc, λ h. cc, λ h. refl, λ h. refl)
set-locked lid ((k, free) ∷ m) = ground (arith, set-locked lid m)
set-locked lid ((k, locked) ∷ m) = ground (arith, set-locked lid m)

known-held :
    (lid : ℕ) (s : LockServer) (o : Option LockState)
    → find lid s.locks ≡ o
    → s.nacquire ≡ held s.locks
    → (known lid s o).nacquire ≡ held ((known lid s o).locks)
unfolding known
known-held lid s none e h = ground (arith, set-locked lid s.locks)
known-held lid s (some v) e h = h

grant-held :
    (lid : ℕ) (s t : LockServer) (o : Option LockState)
    → find lid s.locks ≡ o
    → s.nacquire ≡ held s.locks
    → t.nacquire ≡ held t.locks
    → (waited t (grant lid s o)).nacquire ≡ held ((waited t (grant lid s o)).locks)
unfolding grant waited
grant-held lid s t none e h k = ground (arith, set-locked lid s.locks)
grant-held lid s t (some free) e h k = ground (arith, set-locked lid s.locks)
grant-held lid s t (some locked) e h k = k

freed-held :
    (lid r : ℕ) (s : LockServer) (o : Option LockState)
    → find lid s.locks ≡ o
    → s.nacquire ≡ held s.locks
    → (freed lid r s o).2.nacquire ≡ held ((freed lid r s o).2.locks)
unfolding freed
freed-held lid r s none e h = h
freed-held lid r s (some free) e h = h
freed-held lid r s (some locked) e h = ground (arith, set-locked lid s.locks)

step-held :
    (o : Op) (s : LockServer)
    → s.nacquire ≡ held s.locks
    → (step o s).nacquire ≡ held ((step o s).locks)
unfolding step acquire release
step-held (acquires lid) s h =
    let k = known-held lid s (find lid s.locks) refl h in
    grant-held lid (known lid s (find lid s.locks)) (known lid s (find lid s.locks)) _ refl k k
step-held (releases lid) s h = freed-held lid 0 s (find lid s.locks) refl h

-- The number that stat reports is the number of locks that are held: if it is so before, it is so
-- after any run of acquires (granted or waiting) and releases (of held, free or unknown locks).
pub run-held :
    (os : List Op) (s : LockServer)
    → s.nacquire ≡ held s.locks
    → (stat (run os s)).1 ≡ held ((run os s).locks)
unfolding run stat
run-held [] s h = h
run-held (o ∷ os) s h = run-held os (step o s) (step-held o s h)
