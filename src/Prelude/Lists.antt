-- ===== src/Prelude/Lists.antt =====
-- Lists measured and searched with native numbers.
use Prim.Native.Nat.{ℕ, zero, suc, ◌+◌, ◌-◌, ◌≤◌}
use mathlib.Core.Path.{◌≡◌, refl, ap}
use mathlib.Core.Bool.{Bool, true, false, ◌||◌}
use mathlib.Core.List.{List, [], ◌∷◌, ◌++◌}
use native.Mathlib.Omega.{arith}
use frangipani_yfs.Prelude.Tests.{◌==◌, if◌then◌else◌}

module _ {ℓ} {A : Type ℓ} where
  abbrev pub length : List A → ℕ
  length [] = 0
  length (x ∷ xs) = suc (length xs)

  abbrev pub take : ℕ → List A → List A
  take zero xs = []
  take (suc n) [] = []
  take (suc n) (x ∷ xs) = x ∷ take n xs

  abbrev pub drop : ℕ → List A → List A
  drop zero xs = xs
  drop (suc n) [] = []
  drop (suc n) (x ∷ xs) = drop n xs

  abbrev pub replicate : ℕ → A → List A
  replicate zero a = []
  replicate (suc n) a = a ∷ replicate n a

  abbrev pub All {κ} : (A → Type κ) → List A → Type κ
  All P [] = Unit
  All P (x ∷ xs) = P x × All P xs

  pub length-append : (xs ys : List A) → length (xs ++ ys) ≡ length xs + length ys
  length-append [] ys = omega arith
  length-append (x ∷ xs) ys = omega (arith, length-append xs ys)

  pub take-append-drop : (n : ℕ) (xs : List A) → take n xs ++ drop n xs ≡ xs
  take-append-drop zero xs = refl
  take-append-drop (suc n) [] = refl
  take-append-drop (suc n) (x ∷ xs) = ap (◌∷◌ x) (take-append-drop n xs)

  pub length-drop : (n : ℕ) (xs : List A) → length (drop n xs) ≡ length xs - n
  length-drop zero xs = omega arith
  length-drop (suc n) [] = omega arith
  length-drop (suc n) (x ∷ xs) = omega (arith, length-drop n xs)

  pub length-take_le : (n : ℕ) (xs : List A) → n ≤ length xs → length (take n xs) ≡ n
  length-take_le zero xs h = refl
  length-take_le (suc n) [] h = absurd (omega arith)
  length-take_le (suc n) (x ∷ xs) h = ap suc (length-take_le n xs (omega arith))

  pub length-replicate : (n : ℕ) (a : A) → length (replicate n a) ≡ n
  length-replicate zero a = refl
  length-replicate (suc n) a = ap suc (length-replicate n a)

  pub take-append : (xs ys : List A) → take (length xs) (xs ++ ys) ≡ xs
  take-append [] ys = refl
  take-append (x ∷ xs) ys = ap (◌∷◌ x) (take-append xs ys)

  pub drop-append : (xs ys : List A) → drop (length xs) (xs ++ ys) ≡ ys
  drop-append [] ys = refl
  drop-append (x ∷ xs) ys = drop-append xs ys

-- `std::find` over numbers, and `std::list::remove`, which erases every occurrence.
unfoldable pub elem : ℕ → List ℕ → Bool
elem a [] = false
elem a (x ∷ xs) = x == a || elem a xs

unfoldable pub remove_all : ℕ → List ℕ → List ℕ
remove_all a [] = []
remove_all a (x ∷ xs) = let rest = remove_all a xs in if x == a then rest else x ∷ rest

-- `erase(std::find(…))`: the first occurrence only.
unfoldable pub erase_first : ℕ → List ℕ → List ℕ
erase_first a [] = []
erase_first a (x ∷ xs) = if x == a then xs else x ∷ erase_first a xs

pub elem-append : (a : ℕ) (xs ys : List ℕ) → elem a (xs ++ ys) ≡ (elem a xs || elem a ys)
unfolding elem
elem-append a [] ys = refl
elem-append a (x ∷ xs) ys = ground (arith, elem-append a xs ys)

pub elem-remove_all :
    (a b : ℕ) (xs : List ℕ) → elem a (remove_all b xs) ≡ (if b == a then false else elem a xs)
unfolding elem remove_all
elem-remove_all a b [] = ground arith
elem-remove_all a b (x ∷ xs) = ground (arith, elem-remove_all a b xs)

pub elem-push : (a b : ℕ) (xs : List ℕ) → elem a (xs ++ b ∷ []) ≡ (b == a || elem a xs)
unfolding elem
elem-push a b xs = ground (arith, elem-append a xs (b ∷ []))

-- No entry occurs twice.
unfoldable pub nodup : List ℕ → Bool
nodup [] = true
nodup (x ∷ xs) = if elem x xs then false else nodup xs

pub nodup-push :
    (a : ℕ) (xs : List ℕ) → nodup xs ≡ true → elem a xs ≡ false → nodup (xs ++ a ∷ []) ≡ true
unfolding nodup elem
nodup-push a [] h m = refl
nodup-push a (x ∷ xs) h m = ground (arith, nodup-push a xs, elem-push x a xs)

pub elem-erase_first :
    (a b : ℕ) (xs : List ℕ)
    → nodup xs ≡ true
    → elem a (erase_first b xs) ≡ (if b == a then false else elem a xs)
unfolding elem erase_first nodup
elem-erase_first a b [] h = ground arith
elem-erase_first a b (x ∷ xs) h = ground (arith, elem-erase_first a b xs)

pub nodup-erase_first : (b : ℕ) (xs : List ℕ) → nodup xs ≡ true → nodup (erase_first b xs) ≡ true
unfolding elem erase_first nodup
nodup-erase_first b [] h = refl
nodup-erase_first b (x ∷ xs) h = ground (arith, nodup-erase_first b xs, elem-erase_first x b xs)

pub nodup-remove_all : (b : ℕ) (xs : List ℕ) → nodup xs ≡ true → nodup (remove_all b xs) ≡ true
unfolding elem remove_all nodup
nodup-remove_all b [] h = refl
nodup-remove_all b (x ∷ xs) h = ground (arith, nodup-remove_all b xs, elem-remove_all x b xs)
