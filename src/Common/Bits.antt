-- ===== src/Common/Bits.antt =====
-- `&` and `|` on unsigned integers, at every width, from the digits that the native operations
-- stand for.
use Prim.Native.Nat.{
  ℕ, zero, suc, ◌+◌, ◌*◌, ◌/◌, ◌%◌, ◌≤◌, min, max, bit_and, bit_or, digits, bit_and-bitwise,
  bit_or-bitwise,
}
use mathlib.Core.Path.{◌≡◌, refl, subst, sym, ap, ◌∙◌}
use native.Mathlib.Omega.{arith}

module _ (ends : ℕ → ℕ) (op : ℕ → ℕ → ℕ) where
  -- Halving `a` at most `a` times reaches zero, so that more rounds change nothing.
  enough : (a m n b : ℕ) → a ≤ n → a ≤ m → digits ends op m a b ≡ digits ends op n a b
  enough zero zero zero b le le' = refl
  enough zero zero (suc n) b le le' = refl
  enough zero (suc m) zero b le le' = refl
  enough zero (suc m) (suc n) b le le' = refl
  enough (suc a) zero n b le le' = absurd (omega arith)
  enough (suc a) (suc m) zero b le le' = absurd (omega arith)
  enough (suc a) (suc m) (suc n) b le le' =
      let halved : digits ends op m (suc a / 2) (b / 2) ≡ digits ends op n (suc a / 2) (b / 2) =
        enough (suc a / 2) m n (b / 2) (omega arith) (omega arith) in
      omega (arith, halved)

  lowest :
      (a b : ℕ)
      → digits ends op (suc a) (suc a) b
        ≡ digits ends op (suc a / 2) (suc a / 2) (b / 2) * 2 + op (suc a % 2) (b % 2)
  lowest a b = omega (arith, enough (suc a / 2) a (suc a / 2) (b / 2) (omega arith) (omega arith))

none_of : (b : ℕ) → bit_and 0 b ≡ 0
none_of b = bit_and-bitwise 0 b

all_of : (b : ℕ) → bit_or 0 b ≡ b
all_of b = bit_or-bitwise 0 b

-- The lowest digits, and the rest.
and_lowest : (a b : ℕ) → bit_and a b ≡ bit_and (a / 2) (b / 2) * 2 + min (a % 2) (b % 2)
and_lowest zero b = omega (arith, none_of (b / 2), none_of b)
and_lowest (suc a) b =
    bit_and-bitwise (suc a) b
    ∙ lowest (λ _. 0) min a b
    ∙ ap (λ (h : ℕ). h * 2 + min (suc a % 2) (b % 2)) (sym (bit_and-bitwise (suc a / 2) (b / 2)))

or_lowest : (a b : ℕ) → bit_or a b ≡ bit_or (a / 2) (b / 2) * 2 + max (a % 2) (b % 2)
or_lowest zero b = omega (arith, all_of (b / 2), all_of b)
or_lowest (suc a) b =
    bit_or-bitwise (suc a) b
    ∙ lowest (λ n. n) max a b
    ∙ ap (λ (h : ℕ). h * 2 + max (suc a % 2) (b % 2)) (sym (bit_or-bitwise (suc a / 2) (b / 2)))

-- Every bit of `b` is set in `a`.
unfoldable pub Covers : ℕ → ℕ → Type 0
Covers a b = bit_and a b ≡ b

step_iff : (a b : ℕ) → Covers a b → Covers (a / 2) (b / 2) × (b % 2 ≤ a % 2)
unfolding Covers
step_iff a b h = omega (arith, and_lowest a b)

step_back : (a b : ℕ) → Covers (a / 2) (b / 2) → b % 2 ≤ a % 2 → Covers a b
unfolding Covers
step_back a b h k = omega (arith, and_lowest a b)

zero-Covers : (b : ℕ) → Covers 0 b → b ≡ 0
unfolding Covers
zero-Covers b h = omega (arith, none_of b)

Covers-zero_fuel : (fuel a : ℕ) → a ≤ fuel → Covers a 0
unfolding Covers
Covers-zero_fuel fuel zero le = refl
Covers-zero_fuel zero (suc a) le = absurd (omega arith)
Covers-zero_fuel (suc fuel) (suc a) le =
    let half = Covers-zero_fuel fuel (suc a / 2) (omega arith) in
    omega (arith, half, and_lowest (suc a) 0)

pub Covers-zero : (a : ℕ) → Covers a 0
Covers-zero a = Covers-zero_fuel a a (omega arith)

Covers-refl_fuel : (n a : ℕ) → a ≤ n → Covers a a
Covers-refl_fuel n zero h = Covers-zero 0
Covers-refl_fuel zero (suc a) h = absurd (omega arith)
Covers-refl_fuel (suc n) (suc a) h =
    step_back (suc a) (suc a) (Covers-refl_fuel n (suc a / 2) (omega arith)) (omega arith)

pub Covers-refl : (a : ℕ) → Covers a a
Covers-refl a = Covers-refl_fuel a a (omega arith)

Covers-trans_fuel : (n a b c : ℕ) → a ≤ n → Covers a b → Covers b c → Covers a c
Covers-trans_fuel n zero b c le h k =
    rw (zero-Covers c (subst (λ t. Covers t c) (zero-Covers b h) k)) (Covers-zero 0)
Covers-trans_fuel zero (suc a) b c le h k = absurd (omega arith)
Covers-trans_fuel (suc n) (suc a) b c le h k =
    let (hs, hd) = step_iff (suc a) b h in
    let (ks, kd) = step_iff b c k in
    step_back (suc a) c (Covers-trans_fuel n (suc a / 2) (b / 2) (c / 2) (omega arith) hs ks)
      (omega arith)

pub Covers-trans : (a b c : ℕ) → Covers a b → Covers b c → Covers a c
Covers-trans a b c = Covers-trans_fuel a a b c (omega arith)

-- The bits of a union are those of its parts: above both, and below all that is above both.
or_lower :
    (a b : ℕ) → (bit_or a b / 2 ≡ bit_or (a / 2) (b / 2)) × (bit_or a b % 2 ≡ max (a % 2) (b % 2))
or_lower a b = omega (arith, or_lowest a b)

Covers-or_left_fuel : (n a b : ℕ) → a ≤ n → Covers (bit_or a b) a
Covers-or_left_fuel n zero b h = Covers-zero _
Covers-or_left_fuel zero (suc a) b h = absurd (omega arith)
Covers-or_left_fuel (suc n) (suc a) b h =
    let (half, low) = or_lower (suc a) b in
    step_back (bit_or (suc a) b) (suc a)
      (rw half (Covers-or_left_fuel n (suc a / 2) (b / 2) (omega arith))) (omega arith)

pub Covers-or_left : (a b : ℕ) → Covers (bit_or a b) a
Covers-or_left a b = Covers-or_left_fuel a a b (omega arith)

Covers-or_right_fuel : (n a b : ℕ) → a ≤ n → Covers (bit_or a b) b
Covers-or_right_fuel n zero b h = rw all_of (Covers-refl b)
Covers-or_right_fuel zero (suc a) b h = absurd (omega arith)
Covers-or_right_fuel (suc n) (suc a) b h =
    let (half, low) = or_lower (suc a) b in
    step_back (bit_or (suc a) b) b
      (rw half (Covers-or_right_fuel n (suc a / 2) (b / 2) (omega arith))) (omega arith)

pub Covers-or_right : (a b : ℕ) → Covers (bit_or a b) b
Covers-or_right a b = Covers-or_right_fuel a a b (omega arith)

or-Covers_fuel : (n c a b : ℕ) → a ≤ n → Covers c a → Covers c b → Covers c (bit_or a b)
or-Covers_fuel n c zero b le h k = rw all_of k
or-Covers_fuel zero c (suc a) b le h k = absurd (omega arith)
or-Covers_fuel (suc n) c (suc a) b le h k =
    let (hs, hd) = step_iff c (suc a) h in
    let (ks, kd) = step_iff c b k in
    let (half, low) = or_lower (suc a) b in
    step_back c (bit_or (suc a) b)
      (rw half (or-Covers_fuel n (c / 2) (suc a / 2) (b / 2) (omega arith) hs ks)) (omega arith)

pub or-Covers : (c a b : ℕ) → Covers c a → Covers c b → Covers c (bit_or a b)
or-Covers c a b = or-Covers_fuel a c a b (omega arith)
