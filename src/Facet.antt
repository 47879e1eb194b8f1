-- ===== src/Facet.antt =====
-- cc-core/src/facet.rs and cc-core/src/error.rs: the graded disclosures, the powers of a grant,
-- and the errors of the core.
pub mod Words
pub mod Order
use Prim.Native.Nat.{bit_and, bit_or}
use close_common.Common.{
  ℕ, ltb, eqb, String, Bool, Option, none, some, if◌then◌else◌, ◌||◌, List, [], ◌∷◌, ◌++◌,
}
use close_common.Common.Bytes.{Text, codes, ◌==◌, to_ascii_lowercase}

pub data Facet : Type 0 where
  presence shape content : Facet

-- The discriminant: `facet as u8`, and what the derived order compares.
abbrev pub discriminant : Facet → ℕ
discriminant presence = 0
discriminant shape = 1
discriminant content = 2

-- `a > b`
abbrev pub gt : Facet → Facet → Bool
gt a b = ltb (discriminant b) (discriminant a)

abbrev pub eq : Facet → Facet → Bool
eq a b = eqb (discriminant a) (discriminant b)

unfoldable pub plain_name : Facet → Text
plain_name presence = codes "outline"
plain_name shape = codes "label"
plain_name content = codes "everything"

pub wizard_name : Facet → Text
wizard_name presence = codes "presence"
wizard_name shape = codes "shape"
wizard_name content = codes "content"

-- `Display` of a facet
pub to_string : Facet → Text
to_string f = plain_name f ++ (codes " (" ++ (wizard_name f ++ codes ")"))

unfoldable pub parse : Text → Option Facet
parse s =
    let w = to_ascii_lowercase s in
    if w == codes "outline" || w == codes "presence"
    then some presence
    else if w == codes "label" || w == codes "shape"
    then some shape
    else if w == codes "everything" || w == codes "content" || w == codes "reading"
    then some content
    else none

-- `Powers(u8)`.
pub record Powers : Type 0 where
  pub bits : ℕ

abbrev pub none_held : Powers
none_held = record { bits = 0 }

abbrev pub invoke : Powers
invoke = record { bits = 1 }

abbrev pub set : Powers
set = record { bits = 2 }

unfoldable pub parse_word : Text → Option Powers
parse_word s =
    let w = to_ascii_lowercase s in
    if w == codes "point" || w == codes "set"
    then some set
    else if w == codes "butler" || w == codes "invoke"
    then some invoke
    else if w == codes "none"
    then some none_held
    else none

unfoldable pub union : Powers → Powers → Powers
union p q = record { bits = bit_or p.bits q.bits }

unfoldable pub contains : Powers → Powers → Bool
contains p q = eqb (bit_and p.bits q.bits) q.bits

-- `Debug` of a set of powers
pub debug : Powers → Text
debug p =
    let names =
      if contains p invoke
      then if contains p set then codes "invoke+set" else codes "invoke"
      else if contains p set
      then codes "set"
      else codes "none" in
    codes "Powers(" ++ (names ++ codes ")")

unfoldable pub is_subset_of : Powers → Powers → Bool
unfolding contains
is_subset_of p q = contains q p

pub data Error : Type 0 where
  sealed : Error
  encoding : Text → Error
  grant_expired : Error
  bad_signature : Error
  not_attenuated : String → Error
  not_rooted : Error
  no_key : Error
  epoch_unreachable : (have wanted : ℕ) → Error
