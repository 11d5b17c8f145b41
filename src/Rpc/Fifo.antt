-- ===== src/Rpc/Fifo.antt =====
-- The queue of the thread pool: rpc/fifo.h. A thread that blocks is not in a step.
use frangipani_yfs.Prelude.{
  ℕ, ◌||◌, List, [], ◌∷◌, ◌++◌, Option, none, some, ltb, ◌==◌, if◌then◌else◌, length,
}

-- enq that does not block, with the limit `max` (0 for none).
unfoldable pub enq {ℓ} : {A : Type ℓ} → ℕ → A → List A → Option (List A)
enq max e q = if max == 0 || ltb (length q) max then some (q ++ e ∷ []) else none

-- deq, when there is an entry.
unfoldable pub deq {ℓ} : {A : Type ℓ} → List A → Option (A × List A)
deq [] = none
deq (e ∷ q) = some (e, q)
