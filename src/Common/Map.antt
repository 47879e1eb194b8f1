-- ===== src/Common/Map.antt =====
-- `BTreeMap<String, V>` as an association list in the order of its keys, and `BTreeSet<String>`.
use Prim.Native.Nat.{compare, Ordering}
use close_common.Common.Tests.{if◌then◌else◌}
use close_common.Common.Bytes.{Text, ◌==◌, ==_iff}
use mathlib.Core.Path.{◌≡◌, refl}
use mathlib.Core.Option.{Option, none, some}
use mathlib.Core.List.{List, [], ◌∷◌}
use native.Mathlib.Omega.{arith}

-- `String`'s order: that of the first code points that differ, and a prefix comes first.
unfoldable pub lex : Text → Text → Ordering
lex [] [] = Ordering.eq
lex [] (y ∷ ys) = Ordering.lt
lex (x ∷ xs) [] = Ordering.gt
lex (x ∷ xs) (y ∷ ys) = elim (compare x y) [
  | Ordering.lt ↦ Ordering.lt
  | Ordering.eq ↦ lex xs ys
  | Ordering.gt ↦ Ordering.gt
]

pub lex-eq : (k j : Text) → lex k j ≡ Ordering.eq → k ≡ j
unfolding lex
lex-eq [] [] h = refl
lex-eq [] (y ∷ ys) h = cc
lex-eq (x ∷ xs) [] h = cc
lex-eq (x ∷ xs) (y ∷ ys) h = ground (arith, lex-eq xs ys)

pub lex_refl : (k : Text) → lex k k ≡ Ordering.eq
unfolding lex
lex_refl [] = refl
lex_refl (x ∷ xs) = ground (arith, lex_refl xs)

pub lex_flip : (k j : Text) → lex k j ≡ Ordering.gt → lex j k ≡ Ordering.lt
unfolding lex
lex_flip [] [] h = cc
lex_flip [] (y ∷ ys) h = cc
lex_flip (x ∷ xs) [] h = refl
lex_flip (x ∷ xs) (y ∷ ys) h = ground (arith, lex_flip xs ys)

pub lex_trans :
    (i j k : Text) → lex i j ≡ Ordering.lt → lex j k ≡ Ordering.lt → lex i k ≡ Ordering.lt
unfolding lex
lex_trans [] [] k h g = cc
lex_trans [] (y ∷ ys) [] h g = cc
lex_trans [] (y ∷ ys) (z ∷ zs) h g = refl
lex_trans (x ∷ xs) [] k h g = cc
lex_trans (x ∷ xs) (y ∷ ys) [] h g = cc
lex_trans (x ∷ xs) (y ∷ ys) (z ∷ zs) h g = ground (arith, lex_trans xs ys zs)

abbrev pub Map {ℓ} : Type ℓ → Type ℓ
Map V = List (Text × V)

module _ {ℓ} {V : Type ℓ} where
  unfoldable pub get : Text → Map V → Option V
  get k [] = none
  get k ((j, v) ∷ m) = if j == k then some v else get k m

  unfoldable pub insert : Text → V → Map V → Map V
  insert k v [] = (k, v) ∷ []
  insert k v ((j, w) ∷ m) = elim (lex k j) [
    | Ordering.lt ↦ (k, v) ∷ (j, w) ∷ m
    | Ordering.eq ↦ (k, v) ∷ m
    | Ordering.gt ↦ (j, w) ∷ insert k v m
  ]

  -- `map.keys()`
  unfoldable pub keys : Map V → List Text
  keys [] = []
  keys ((k, v) ∷ m) = k ∷ keys m

  -- Every key of `m` comes after `k`.
  abbrev pub Above : Text → Map V → Type 0
  Above k = elim [ [] ↦ Unit | (j, v) ∷ m ↦ (lex k j ≡ Ordering.lt) ]

  abbrev pub IsSorted : Map V → Type 0
  IsSorted [] = Unit
  IsSorted ((k, v) ∷ m) = Above k m × IsSorted m

  pub get-insert :
      (k j : Text) (v : V) (m : Map V) → get j (insert k v m) ≡ (if k == j then some v else get j m)
  unfolding get insert
  get-insert k j v [] = refl
  get-insert k j v ((i, w) ∷ m) =
      ground (arith, ==_iff k j, ==_iff i k, ==_iff i j, lex-eq k i, lex_refl k, get-insert k j v m)

  insert-Above :
      (i k : Text) (v : V) (m : Map V) → lex i k ≡ Ordering.lt → Above i m → Above i (insert k v m)
  unfolding insert
  insert-Above i k v [] h a = h
  insert-Above i k v ((j, w) ∷ m) h a = ground arith

  pub insert-IsSorted : (k : Text) (v : V) (m : Map V) → IsSorted m → IsSorted (insert k v m)
  unfolding insert
  insert-IsSorted k v [] s = (tt, tt)
  insert-IsSorted k v ((j, w) ∷ m) s =
      ground (arith, lex-eq k j, lex_flip k j, insert-Above j k v m, insert-IsSorted k v m)
