-- ===== src/Id/Hex.antt =====
-- Reading back the hexadecimal form of an id (id.rs).
use close_common.Common.{
  cons-injective, ap₂, ℕ, ◌+◌, ◌*◌, ◌/◌, ◌%◌, ◌<◌, ◌≤◌, ◌≡◌, refl, true, false, [], ◌∷◌, some,
  arith, length, All, eqb,
}
use close_common.Common.Bytes.{Bytes, Text, IsKey, AreBytes, as_bytes}
use close_common.Id.{
  parsed, to_hex, hex_digit, from_hex, trim, trim_start, trim_end, is_whitespace, decode,
  from_str_radix, to_digit, is_continuation, off_boundary,
}

-- The characters of a hexadecimal form: ASCII, not white space, no sign.
abbrev IsHexDigit : ℕ → Type 0
IsHexDigit ch = (b'0' ≤ ch) × (ch < 128)

hex_digit-IsHexDigit : (n : ℕ) → n < 16 → IsHexDigit (hex_digit n)
hex_digit-IsHexDigit n h = ground arith

to_hex-All : (bytes : Bytes) → AreBytes bytes → All IsHexDigit (to_hex bytes)
unfolding to_hex
to_hex-All [] h = tt
to_hex-All (b ∷ bytes) (small, h) = (
  hex_digit-IsHexDigit (b / 16) (omega arith),
  (hex_digit-IsHexDigit (b % 16) (omega arith), to_hex-All bytes h),
)

black : (ch : ℕ) → IsHexDigit ch → is_whitespace ch ≡ false
black ch h = ground arith

as_bytes-ascii : (s : Text) → All IsHexDigit s → as_bytes s ≡ s
unfolding as_bytes
as_bytes-ascii [] h = refl
as_bytes-ascii (ch ∷ s) (h, hs) = ground (arith, as_bytes-ascii s hs)

trim_start-black : (s : Text) → All IsHexDigit s → trim_start s ≡ s
unfolding trim_start
trim_start-black [] h = refl
trim_start-black (ch ∷ s) (h, hs) = rw (black ch h)

trim_end-black : (s : Text) → All IsHexDigit s → trim_end s ≡ s
unfolding trim_end
trim_end-black [] h = refl
trim_end-black (ch ∷ []) (h, hs) = rw (black ch h)
trim_end-black (ch ∷ next ∷ s) (h, hs) = ground (arith, trim_end-black (next ∷ s) hs)

to_digit-hex_digit : (n : ℕ) → n < 16 → to_digit (hex_digit n) ≡ some n
unfolding to_digit
to_digit-hex_digit n h = ground arith

not_sign : (n : ℕ) → n < 16 → eqb (hex_digit n) b'+' ≡ false
not_sign n h = ground arith

from_str_radix-hex :
    (b : ℕ) → b < 256 → from_str_radix (hex_digit (b / 16)) (hex_digit (b % 16)) ≡ some b
from_str_radix-hex b h =
    let high : b / 16 < 16 = omega arith in
    let low : b % 16 < 16 = omega arith in
    let whole : b / 16 * 16 + b % 16 ≡ b = omega arith in
    unfold from_str_radix in
    rw (
      not_sign (b / 16) high,
      to_digit-hex_digit (b / 16) high,
      to_digit-hex_digit (b % 16) low,
      whole,
    )

not_continuation : (n : ℕ) → n < 16 → is_continuation (hex_digit n) ≡ false
not_continuation n h = ground arith

off_boundary-hex : (bytes : Bytes) → AreBytes bytes → off_boundary (to_hex bytes) ≡ false
unfolding to_hex
off_boundary-hex [] h = refl
off_boundary-hex (b ∷ bytes) (small, h) = ground arith

decode_digits :
    (b : ℕ) (bytes : Bytes)
    → b < 256
    → AreBytes bytes
    → decode (to_hex bytes) ≡ parsed bytes
    → decode (to_hex (b ∷ bytes)) ≡ parsed (b ∷ bytes)
decode_digits b bytes small h rest =
    let high : b / 16 < 16 = omega arith in
    unfold decode to_hex in
    rw (not_continuation (b / 16) high, off_boundary-hex bytes h, from_str_radix-hex b small, rest)

decode-to_hex : (bytes : Bytes) → AreBytes bytes → decode (to_hex bytes) ≡ parsed bytes
decode-to_hex [] h = unfold decode to_hex in refl
decode-to_hex (b ∷ bytes) (small, h) = decode_digits b bytes small h (decode-to_hex bytes h)

pub length-to_hex : (bytes : Bytes) → length (to_hex bytes) ≡ length bytes * 2
unfolding to_hex
length-to_hex [] = refl
length-to_hex (b ∷ bytes) = omega (arith, length-to_hex bytes)

hex_digit-injective : (n m : ℕ) → hex_digit n ≡ hex_digit m → n ≡ m
hex_digit-injective n m h = ground arith

-- Different ids have different names.
pub to_hex-injective : (a b : Bytes) → to_hex a ≡ to_hex b → a ≡ b
unfolding to_hex
to_hex-injective [] [] h = refl
to_hex-injective [] (y ∷ b) h = cc
to_hex-injective (x ∷ a) [] h = cc
to_hex-injective (x ∷ a) (y ∷ b) h =
    let (high, rest) = cons-injective h in
    let (low, more) = cons-injective rest in
    let p = hex_digit-injective (x / 16) (y / 16) high in
    let q = hex_digit-injective (x % 16) (y % 16) low in
    let same : x ≡ y = omega (arith, p, q) in
    ap₂ (λ (h : ℕ) (t : Bytes). h ∷ t) same (to_hex-injective a b more)

-- An id, that is 32 bytes, is read back from its hexadecimal form.
pub from_hex-to_hex : (id : Bytes) → IsKey id → AreBytes id → from_hex (to_hex id) ≡ parsed id
from_hex-to_hex id size small =
    let black = to_hex-All id small in
    let whole : eqb (length (to_hex id)) 64 ≡ true = ground (arith, length-to_hex id) in
    unfold from_hex trim in
    rw (
      trim_start-black (to_hex id) black,
      trim_end-black (to_hex id) black,
      as_bytes-ascii (to_hex id) black,
      whole,
      decode-to_hex id small,
    )
