-- ===== src/Id.antt =====
-- cc-core/src/id.rs: the hexadecimal form of ids. An id is its 32 bytes.
pub mod Hex
use close_common.Common.{
  ℕ, ◌+◌, ◌-◌, ◌*◌, ◌/◌, ◌%◌, leb, ltb, eqb, ◌&&◌, ◌||◌, not, Bool, true, false, List, [], ◌∷◌,
  ◌++◌, Option, none, some, if◌then◌else◌, length, take,
}
use close_common.Common.Bytes.{Bytes, Text, as_bytes, codes}

-- `{:x}` of a number below 16
abbrev hex_digit : ℕ → ℕ
hex_digit n = if ltb n 10 then b'0' + n else b'a' + (n - 10)

unfoldable pub to_hex : Bytes → Text
to_hex [] = []
to_hex (b ∷ bytes) = hex_digit (b / 16) ∷ hex_digit (b % 16) ∷ to_hex bytes

-- `short`, with the prefix of the kind of id
unfoldable pub short : Text → Bytes → Text
unfolding to_hex
short prefix id = prefix ++ (codes ":" ++ take 8 (to_hex id))

-- What `from_hex` comes to. Slicing a `str` off the boundary of a character panics.
pub data Parsed : Type 0 where
  panicked rejected : Parsed
  parsed : Bytes → Parsed

-- `char::is_whitespace`
abbrev is_whitespace : ℕ → Bool
is_whitespace ch =
    (leb 9 ch && leb ch 13)
    || eqb ch 0x20
    || eqb ch 0x85
    || eqb ch 0xa0
    || eqb ch 0x1680
    || (leb 0x2000 ch && leb ch 0x200a)
    || eqb ch 0x2028
    || eqb ch 0x2029
    || eqb ch 0x202f
    || eqb ch 0x205f
    || eqb ch 0x3000

trim_start : Text → Text
trim_start [] = []
trim_start (ch ∷ s) = let rest = trim_start s in if is_whitespace ch then rest else ch ∷ s

trim_end : Text → Text
trim_end [] = []
trim_end (ch ∷ s) = elim (trim_end s) [
  | [] ↦ if is_whitespace ch then [] else ch ∷ []
  | next ∷ rest ↦ ch ∷ next ∷ rest
]

unfoldable pub trim : Text → Text
unfolding trim_start trim_end
trim s = trim_end (trim_start s)

-- A byte inside a character: no boundary lies before it.
abbrev is_continuation : ℕ → Bool
is_continuation b = leb 0x80 b && leb b 0xbf

abbrev off_boundary : Bytes → Bool
off_boundary [] = false
off_boundary (b ∷ bytes) = is_continuation b

-- `char::to_digit(16)`
to_digit : ℕ → Option ℕ
to_digit b =
    if leb b'0' b && leb b b'9'
    then some (b - b'0')
    else if leb b'a' b && leb b b'f'
    then some (b - b'a' + 10)
    else if leb b'A' b && leb b b'F'
    then some (b - b'A' + 10)
    else none

abbrev two_digits : Option ℕ → Option ℕ → Option ℕ
two_digits (some hi) (some lo) = some (hi * 16 + lo)
two_digits _ _ = none

-- `u8::from_str_radix(.., 16)` of two bytes; a leading `+` is a sign.
from_str_radix : ℕ → ℕ → Option ℕ
unfolding to_digit
from_str_radix a b = if eqb a b'+' then to_digit b else two_digits (to_digit a) (to_digit b)

abbrev prepend : Option ℕ → Parsed → Parsed
prepend none p = rejected
prepend (some v) panicked = panicked
prepend (some v) rejected = rejected
prepend (some v) (parsed bytes) = parsed (v ∷ bytes)

-- The loop of `from_hex`, two bytes a round.
decode : Bytes → Parsed
unfolding from_str_radix
decode [] = parsed []
decode (a ∷ []) = panicked
decode (a ∷ b ∷ rest) =
    let more = decode rest in
    if is_continuation a || off_boundary rest then panicked else prepend (from_str_radix a b) more

unfoldable pub from_hex : Text → Parsed
unfolding trim decode
from_hex s =
    let bytes = as_bytes (trim s) in if not (eqb (length bytes) 64) then rejected else decode bytes
