-- ===== src/Common/Bytes.antt =====
-- Bytes and text. A byte is a number below 256 and a text is the list of its code points, so that
-- the order of texts by UTF-8 bytes is the order of their code points.
use Prim.Native.Char.{code}
use close_common.Common.Tests.{ltb, leb, eqb, if◌then◌else◌}
use close_common.Common.Lists.{length, All, cons-injective}
use Prim.Native.Nat.{ℕ, ◌+◌, ◌/◌, ◌%◌, ◌^◌, ◌<◌}
use Prim.Native.String.{String}
use mathlib.Core.Path.{◌≡◌, refl}
use mathlib.Core.Logic.{◌↔◌}
use mathlib.Core.Bool.{Bool, true, false, ◌&&◌}
use mathlib.Core.List.{List, [], ◌∷◌, ◌++◌}
use native.Mathlib.Omega.{arith}

abbrev pub Bytes : Type 0
Bytes = List ℕ

abbrev pub Text : Type 0
Text = List ℕ

-- The code points of a literal.
abbrev pub codes : String → Text
codes String.[] = []
codes (String.◌∷◌ c s) = code c ∷ codes s

infix 50 ◌==◌
unfoldable pub ◌==◌ : List ℕ → List ℕ → Bool
[] == [] = true
[] == (y ∷ ys) = false
(x ∷ xs) == [] = false
(x ∷ xs) == (y ∷ ys) = eqb x y && xs == ys

pub ==_refl : (xs : List ℕ) → (xs == xs) ≡ true
unfolding ◌==◌
==_refl [] = refl
==_refl (x ∷ xs) = ground (arith, ==_refl xs)

pub ==→eq : (xs ys : List ℕ) → (xs == ys) ≡ true → xs ≡ ys
unfolding ◌==◌
==→eq [] [] h = refl
==→eq [] (y ∷ ys) h = cc
==→eq (x ∷ xs) [] h = cc
==→eq (x ∷ xs) (y ∷ ys) h = ground (arith, ==→eq xs ys)

pub eq→== : (xs ys : List ℕ) → xs ≡ ys → (xs == ys) ≡ true
eq→== xs ys h = cc (==_refl xs)

pub ==_iff : (xs ys : List ℕ) → ((xs == ys) ≡ true) ↔ (xs ≡ ys)
==_iff xs ys = (==→eq xs ys, eq→== xs ys)

-- The UTF-8 bytes of a code point and of a text (`as_bytes`).
abbrev pub utf8_char : ℕ → Bytes
utf8_char c =
    if ltb c 0x80
    then c ∷ []
    else if ltb c 0x800
    then (0xc0 + c / 64) ∷ (0x80 + c % 64) ∷ []
    else if ltb c 0x10000
    then (0xe0 + c / 4096) ∷ (0x80 + c / 64 % 64) ∷ (0x80 + c % 64) ∷ []
    else (0xf0 + c / 262144) ∷ (0x80 + c / 4096 % 64) ∷ (0x80 + c / 64 % 64) ∷ (0x80 + c % 64) ∷ []

unfoldable pub as_bytes : Text → Bytes
as_bytes [] = []
as_bytes (c ∷ s) = utf8_char c ++ as_bytes s

abbrev pub u32_mod : ℕ
u32_mod = 2 ^ 32

abbrev pub u64_mod : ℕ
u64_mod = 2 ^ 64

-- `u32::to_le_bytes`.
abbrev pub to_le_bytes : ℕ → Bytes
to_le_bytes n = (n % 256) ∷ (n / 256 % 256) ∷ (n / 65536 % 256) ∷ (n / 16777216 % 256) ∷ []

pub to_le_bytes-injective :
    (n m : ℕ) → n < u32_mod → m < u32_mod → to_le_bytes n ≡ to_le_bytes m → n ≡ m
to_le_bytes-injective n m hn hm e =
    let (p, e₁) = cons-injective e in
    let (q, e₂) = cons-injective e₁ in
    let (r, e₃) = cons-injective e₂ in let (s, e₄) = cons-injective e₃ in omega (arith, p, q, r, s)

-- `str::to_ascii_lowercase`.
abbrev lower_char : ℕ → ℕ
lower_char c = if leb b'A' c && leb c b'Z' then c + 32 else c

unfoldable pub to_ascii_lowercase : Text → Text
to_ascii_lowercase [] = []
to_ascii_lowercase (c ∷ s) = lower_char c ∷ to_ascii_lowercase s

-- A 32-byte array.
abbrev pub IsKey : Bytes → Type 0
IsKey k = length k ≡ 32

abbrev pub AreBytes : Bytes → Type 0
AreBytes = All (λ b. b < 256)
