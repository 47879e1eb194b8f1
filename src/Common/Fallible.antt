-- ===== src/Common/Fallible.antt =====
-- `Result`, for code that fails with a value; `?` is the bind of a `do` block.
use mathlib.Core.Path.{◌≡◌, refl}
use mathlib.Core.Option.{Option, none, some}
use mathlib.Core.Logic.{◌⊎◌, inl, inr}
use mathlib.Core.Bool.{Bool, true, false, not}

pub data Result {ℓ κ} (E : Type ℓ) (A : Type κ) : Type (ℓ ⊔ κ) where
  ok : A → Result E A
  err : E → Result E A

infixl 5 ◌>>=◌ ◌>>◌
abbrev pub ◌>>=◌ {ℓ κ μ} :
    {E : Type ℓ} {A : Type κ} {B : Type μ} → Result E A → (A → Result E B) → Result E B
err e >>= rest = err e
ok a >>= rest = rest a

abbrev pub ◌>>◌ {ℓ μ} : {E : Type ℓ} {B : Type μ} → Result E (Unit {0}) → Result E B → Result E B
first >> rest = first >>= λ _. rest

module _ {ℓ κ} {E : Type ℓ} {A : Type κ} where
  -- `ok_or(e)?`
  abbrev pub ok_or : Option A → E → Result E A
  ok_or none e = err e
  ok_or (some a) e = ok a

  -- `result.ok()`
  abbrev pub to_option : Result E A → Option A
  to_option (ok a) = some a
  to_option (err e) = none

  pub Result-cases : (r : Result E A) → ((a : A) × (r ≡ ok a)) ⊎ ((e : E) × (r ≡ err e))
  Result-cases (ok a) = inl (a, refl)
  Result-cases (err e) = inr (e, refl)

  pub ok-injective : {a b : A} → ◌≡◌ {A = Result E A} (ok a) (ok b) → a ≡ b
  ok-injective h = cc

  -- A successful lookup came from a value that is there.
  pub ok_or-eq-ok : (o : Option A) (e : E) {a : A} → ok_or o e ≡ ok a → o ≡ some a
  ok_or-eq-ok none e h = cc
  ok_or-eq-ok (some a) e h = cc

module _ {ℓ κ μ} {E : Type ℓ} {A : Type κ} {B : Type μ} where
  -- `map_err`, with a conversion of the error as `?` makes it.
  abbrev pub map_err : (E → B) → Result E A → Result B A
  map_err f (ok a) = ok a
  map_err f (err e) = err (f e)

  -- A bind that succeeds went through its first step and then through its second.
  pub >>=-eq-ok :
      (first : Result E A) (next : A → Result E B) {out : B}
      → (first >>= next) ≡ ok out
      → (got : A) × (first ≡ ok got) × (next got ≡ ok out)
  >>=-eq-ok (err e) next h = cc
  >>=-eq-ok (ok got) next h = (got, refl, h)

module _ {ℓ} {E : Type ℓ} where
  -- `if test { return Err(e); }`
  abbrev pub refuse_if : Bool → E → Result E (Unit {0})
  refuse_if true e = err e
  refuse_if false e = ok tt

module _ {ℓ κ} {E : Type ℓ} {A : Type κ} where
  -- Code behind a refusal is reached only where the test fails.
  pub refuse_if-ok :
      (b : Bool) (e : E) (k : Result E A) {a : A}
      → (refuse_if b e >> k) ≡ ok a
      → (b ≡ false) × (k ≡ ok a)
  refuse_if-ok true e k h = cc
  refuse_if-ok false e k h = (refl, h)

  pub refuse_if-not-ok :
      (b : Bool) (e : E) (k : Result E A) {a : A}
      → (refuse_if (not b) e >> k) ≡ ok a
      → (b ≡ true) × (k ≡ ok a)
  refuse_if-not-ok false e k h = cc
  refuse_if-not-ok true e k h = (refl, h)

  pub map_err-ok {μ} :
      {F : Type μ} (f : F → E) (r : Result F A) {a : A} → map_err f r ≡ ok a → r ≡ ok a
  map_err-ok f (ok a) h = cc
  map_err-ok f (err e) h = cc
