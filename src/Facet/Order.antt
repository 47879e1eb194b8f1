-- ===== src/Facet/Order.antt =====
-- The order of the powers (facet.rs).
use Prim.Native.Nat.{bit_and, bit_or}
use close_common.Common.{◌≡◌, ◌↔◌, true, eqb_iff}
use close_common.Common.Bits.{
  Covers, Covers-refl, Covers-trans, Covers-or_left, Covers-or_right, or-Covers,
}
use close_common.Facet.{Powers, union, contains, is_subset_of}

contains_iff : (p q : Powers) → (contains p q ≡ true) ↔ Covers p.bits q.bits
unfolding contains Covers
contains_iff p q = eqb_iff (bit_and p.bits q.bits) q.bits

pub is_subset_of_refl : (p : Powers) → is_subset_of p p ≡ true
unfolding is_subset_of
is_subset_of_refl p = (contains_iff p p).1 (Covers-refl p.bits)

-- Narrowing composes: a subset of a subset is a subset of the whole.
pub is_subset_of_trans :
    (p q r : Powers) → is_subset_of p q ≡ true → is_subset_of q r ≡ true → is_subset_of p r ≡ true
unfolding is_subset_of
is_subset_of_trans p q r h k =
    (contains_iff r p).1
      (Covers-trans r.bits q.bits p.bits ((contains_iff r q).0 k) ((contains_iff q p).0 h))

module _ (p q r : Powers) where
  contains-union_left :
      contains r (union p q) ≡ true → (contains r p ≡ true) × (contains r q ≡ true)
  unfolding union
  contains-union_left h =
      let u = (contains_iff r (union p q)).0 h in
      let a = bit_or p.bits q.bits in
      (
        (contains_iff r p).1 (Covers-trans r.bits a p.bits u (Covers-or_left p.bits q.bits)),
        (contains_iff r q).1 (Covers-trans r.bits a q.bits u (Covers-or_right p.bits q.bits)),
      )

  contains-union_right :
      (contains r p ≡ true) × (contains r q ≡ true) → contains r (union p q) ≡ true
  unfolding union
  contains-union_right h =
      (contains_iff r (union p q)).1
        (or-Covers r.bits p.bits q.bits ((contains_iff r p).0 h.0) ((contains_iff r q).0 h.1))

  -- A set of powers contains the union of two others exactly when it contains both.
  pub contains-union :
      (contains r (union p q) ≡ true) ↔ ((contains r p ≡ true) × (contains r q ≡ true))
  contains-union = (contains-union_left, contains-union_right)
