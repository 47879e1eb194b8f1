-- ===== src/Segments.antt =====
-- close/src/repo.rs: how a path that a user typed is cut into names (segments).
pub mod Names
use close_common.Common.{ℕ, List, [], ◌∷◌, Bool, true, false, not, ◌&&◌, eqb, if◌then◌else◌}
use close_common.Common.Bytes.{Text, codes, ◌==◌}
use close_common.Id.{trim}

-- `trim_start_matches("./")`
strip_here : Text → Text
strip_here [] = []
strip_here (a ∷ []) = a ∷ []
strip_here (a ∷ b ∷ s) =
    let rest = strip_here s in if eqb a b'.' && eqb b b'/' then rest else a ∷ b ∷ s

-- `trim_matches('/')`
strip_start : Text → Text
strip_start [] = []
strip_start (a ∷ s) = let rest = strip_start s in if eqb a b'/' then rest else a ∷ s

strip_end : Text → Text
strip_end [] = []
strip_end (a ∷ s) = elim (strip_end s) [
  | [] ↦ if eqb a b'/' then [] else a ∷ []
  | b ∷ rest ↦ a ∷ b ∷ rest
]

-- `split('/')`
abbrev pub add_char : Bool → ℕ → List Text → List Text
add_char true a words = [] ∷ words
add_char false a [] = (a ∷ []) ∷ []
add_char false a (word ∷ words) = (a ∷ word) ∷ words

unfoldable pub split : Text → List Text
split [] = [] ∷ []
split (a ∷ s) = add_char (eqb a b'/') a (split s)

abbrev pub is_name : Text → Bool
is_name s = not (s == []) && not (s == codes ".")

unfoldable pub keep_names : List Text → List Text
keep_names [] = []
keep_names (s ∷ words) = let rest = keep_names words in if is_name s then s ∷ rest else rest

unfoldable pub segments : Text → List Text
unfolding strip_here strip_start strip_end split keep_names
segments path = keep_names (split (strip_end (strip_start (strip_here (trim path)))))
