-- ===== src/Prelude/Steps.antt =====
-- Runs of steps that may fail: `none` ends a run.
use mathlib.Core.Path.{◌≡◌, refl}
use mathlib.Core.Bool.{Bool, true}
use mathlib.Core.Option.{Option, none, some}

unfoldable pub and_then {ℓ} : {A : Type ℓ} → Option A → (A → Option A) → Option A
and_then none k = none
and_then (some s) k = k s

-- A test of the state that a step leaves, if it leaves one.
unfoldable pub all_then {ℓ} : {A : Type ℓ} → (A → Bool) → Option A → Bool
all_then f none = true
all_then f (some s) = f s

-- The run has not failed, and its state has the property.
abbrev pub Runs {ℓ} : {A : Type ℓ} → (A → Type 0) → Option A → Type 0
Runs P none = ⊥
Runs P (some s) = P s

-- What each state leads to, when it is as it should be, the run leads to.
pub and_then-Runs {ℓ} :
    {A : Type ℓ} (P : A → Type 0) (f : A → Bool) (k : A → Option A) (o : Option A)
    → ((s : A) → f s ≡ true → P s → Runs P (k s))
    → all_then f o ≡ true
    → Runs P o
    → Runs P (and_then o k)
unfolding all_then and_then
and_then-Runs P f k none h a i = i
and_then-Runs P f k (some s) h a i = h s a i

pub Runs-some {ℓ} :
    {A : Type ℓ} (P : A → Type 0) (o : Option A) → Runs P o → (s : A) × ((o ≡ some s) × P s)
Runs-some P none i = absurd i
Runs-some P (some s) i = (s, (refl, i))
