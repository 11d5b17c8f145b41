-- ===== src/Prelude/Strings.antt =====
-- `std::string` as a list of byte values: equality and the order of `std::string::compare`.
use Prim.Native.Nat.{ℕ}
use Prim.Native.Char.{code}
use Prim.Native.String.{String}
use mathlib.Core.Path.{◌≡◌, refl}
use mathlib.Core.Logic.{◌↔◌}
use mathlib.Core.Bool.{Bool, true, false, ◌&&◌, ◌||◌}
use mathlib.Core.List.{List, [], ◌∷◌, ◌++◌}
use native.Mathlib.Omega.{arith}
use frangipani_yfs.Prelude.Tests.{ltb, ◌==◌, if◌then◌else◌}

abbrev pub Bytes : Type 0
Bytes = List ℕ

-- The bytes of an ASCII text. `String` has its own `[]` and `∷`.
abbrev pub codes : String → Bytes
codes String.[] = []
codes (String.◌∷◌ c s) = code c ∷ codes s

unfoldable pub str_eq : Bytes → Bytes → Bool
str_eq [] [] = true
str_eq [] (y ∷ ys) = false
str_eq (x ∷ xs) [] = false
str_eq (x ∷ xs) (y ∷ ys) = x == y && str_eq xs ys

unfoldable pub str_lt : Bytes → Bytes → Bool
str_lt [] [] = false
str_lt [] (y ∷ ys) = true
str_lt (x ∷ xs) [] = false
str_lt (x ∷ xs) (y ∷ ys) = ltb x y || (x == y && str_lt xs ys)

pub str_eq_refl : (s : Bytes) → str_eq s s ≡ true
unfolding str_eq
str_eq_refl [] = refl
str_eq_refl (x ∷ xs) = ground (arith, str_eq_refl xs)

pub str_eq_eq : (s t : Bytes) → str_eq s t ≡ true → s ≡ t
unfolding str_eq
str_eq_eq [] [] h = refl
str_eq_eq [] (y ∷ ys) h = cc
str_eq_eq (x ∷ xs) [] h = cc
str_eq_eq (x ∷ xs) (y ∷ ys) h = ground (arith, str_eq_eq xs ys)

pub str_eq_iff : (s t : Bytes) → (str_eq s t ≡ true) ↔ (s ≡ t)
str_eq_iff s t = (str_eq_eq s t, λ e. rw e (str_eq_refl t))

pub str_lt_irrefl : (s : Bytes) → str_lt s s ≡ false
unfolding str_lt
str_lt_irrefl [] = refl
str_lt_irrefl (x ∷ xs) = ground (arith, str_lt_irrefl xs)

pub str_lt_trans : (s t u : Bytes) → str_lt s t ≡ true → str_lt t u ≡ true → str_lt s u ≡ true
unfolding str_lt
str_lt_trans [] [] u h k = cc
str_lt_trans [] (y ∷ ys) [] h k = cc
str_lt_trans [] (y ∷ ys) (z ∷ zs) h k = refl
str_lt_trans (x ∷ xs) [] u h k = cc
str_lt_trans (x ∷ xs) (y ∷ ys) [] h k = cc
str_lt_trans (x ∷ xs) (y ∷ ys) (z ∷ zs) h k = ground (arith, str_lt_trans xs ys zs)

pub str_lt_total : (s t : Bytes) → (str_lt s t || str_lt t s || str_eq s t) ≡ true
unfolding str_lt str_eq
str_lt_total [] [] = refl
str_lt_total [] (y ∷ ys) = refl
str_lt_total (x ∷ xs) [] = refl
str_lt_total (x ∷ xs) (y ∷ ys) = ground (arith, str_lt_total xs ys)

-- A map keyed by strings.
abbrev pub update_str {ℓ} : {A : Type ℓ} → (Bytes → A) → Bytes → A → Bytes → A
update_str f i a j = if str_eq i j then a else f j

-- `isamember` of paxos.cc and `std::find` over a list of strings.
unfoldable pub elem_str : Bytes → List Bytes → Bool
elem_str m [] = false
elem_str m (x ∷ xs) = if str_eq x m then true else elem_str m xs

pub elem_str-append :
    (a : Bytes) (xs ys : List Bytes) → elem_str a (xs ++ ys) ≡ (elem_str a xs || elem_str a ys)
unfolding elem_str
elem_str-append a [] ys = refl
elem_str-append a (x ∷ xs) ys = ground (arith, elem_str-append a xs ys)
