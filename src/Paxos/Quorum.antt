-- ===== src/Paxos/Quorum.antt =====
-- Two majorities (paxos.cc) have a member in common.
use frangipani_yfs.Prelude.{
  ◌+◌, ◌/◌, ◌<◌, ◌≡◌, true, [], ◌∷◌, List, Bytes, leb→le, length, elem_str, arith, Bool-cases, inl,
  inr, ◌&&◌, str_eq_refl,
}
use frangipani_yfs.Paxos.Proposer.{votes, majority}

-- A member of `l1` that stands in both lists.
abbrev pub Common : List Bytes → List Bytes → List Bytes → Type 0
Common l1 a b = (x : Bytes) × (elem_str x l1 ≡ true) × (elem_str x a ≡ true) × (elem_str x b ≡ true)

Common-cons : (y : Bytes) (l1 a b : List Bytes) → Common l1 a b → Common (y ∷ l1) a b
unfolding elem_str
Common-cons y l1 a b (x, m, p, q) = (x, ground arith, p, q)

-- If more than `length l1` votes were cast in two rounds, some member voted in both.
votes-Common : (l1 a b : List Bytes) → length l1 < votes l1 a + votes l1 b → Common l1 a b
unfolding votes
votes-Common [] a b h = absurd (omega arith)
votes-Common (x ∷ l1) a b h = elim (Bool-cases (elem_str x a && elem_str x b)) [
  | inl both ↦ (x, unfold elem_str in ground (arith, str_eq_refl x), ground arith, ground arith)
  | inr other ↦ Common-cons x l1 a b (votes-Common l1 a b (ground arith))
]

-- Two quorums of the same membership share a member, also where a node is listed more than once.
pub majority-Common :
    (l1 a b : List Bytes)
    → majority l1 a ≡ true
    → majority l1 b ≡ true
    → (x : Bytes) × (elem_str x l1 ≡ true) × (elem_str x a ≡ true) × (elem_str x b ≡ true)
unfolding majority
majority-Common l1 a b h k = votes-Common l1 a b (
    omega
      (arith, leb→le (length l1 / 2 + 1) (votes l1 a) h, leb→le (length l1 / 2 + 1) (votes l1 b) k))
