-- ===== src/Paxos/Order.antt =====
-- prop_t and its order (paxos.cc): the number first, then the name of the proposer.
use frangipani_yfs.Prelude.{
  ℕ, ◌≡◌, Bool, true, false, not, ◌&&◌, ◌||◌, arith, ltb, ◌==◌, Bytes, str_lt, str_lt_irrefl,
  str_lt_trans, str_lt_total, str_eq_eq,
}

pub record PropT : Type 0 where
  pub n : ℕ
  pub m : Bytes

-- operator>
unfoldable pub gt : PropT → PropT → Bool
gt a b = ltb b.n a.n || (a.n == b.n && str_lt b.m a.m)

-- operator>=
unfoldable pub ge : PropT → PropT → Bool
ge a b = ltb b.n a.n || (a.n == b.n && not (str_lt a.m b.m))

pub ge_refl : (a : PropT) → ge a a ≡ true
unfolding ge
ge_refl a = ground (arith, str_lt_irrefl a.m)

-- `>=` is the negation of `<`.
pub ge-not-gt : (a b : PropT) → ge a b ≡ not (gt b a)
unfolding ge gt
ge-not-gt a b = ground arith

pub gt-ge : (a b : PropT) → gt a b ≡ true → ge a b ≡ true
unfolding ge gt
gt-ge a b h = ground (arith, str_lt_trans a.m b.m a.m, str_lt_irrefl a.m)

str_ge_trans : (s t u : Bytes) → str_lt s t ≡ false → str_lt t u ≡ false → str_lt s u ≡ false
str_ge_trans s t u h k = ground (
  arith,
  str_lt_total s t,
  str_lt_total t u,
  str_lt_trans t s u,
  str_eq_eq s t,
  str_eq_eq t u,
  str_lt_trans t u s,
  str_lt_trans s u t,
)

pub ge_trans : (a b c : PropT) → ge a b ≡ true → ge b c ≡ true → ge a c ≡ true
unfolding ge
ge_trans a b c h k = ground (arith, str_ge_trans a.m b.m c.m)

pub gt-ge_trans : (a b c : PropT) → gt a b ≡ true → ge b c ≡ true → gt a c ≡ true
unfolding ge gt
gt-ge_trans a b c h k =
    ground (arith, str_lt_total b.m c.m, str_lt_trans c.m b.m a.m, str_eq_eq b.m c.m)
