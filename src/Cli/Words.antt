-- ===== src/Cli/Words.antt =====
-- close/src/main.rs: the words of arguments: powers, and the slots of a move.
use close_common.Common.{
  ℕ, List, [], ◌∷◌, Option, none, some, eqb, if◌then◌else◌, Result, ok, ok_or, ◌>>=◌,
}
use close_common.Common.Bytes.{Bytes, Text}
use close_common.Facet.{Powers, union, parse_word}
use close_common.World.{Codecs, World, RepoError, not_a_power, no_slot}
use close_common.History.{resolve_keep_ref}

-- The powers that the words name together
unfoldable pub parse_powers : Powers → List Text → Result RepoError Powers
parse_powers powers [] = ok powers
parse_powers powers (word ∷ words) = do
  p ← ok_or (parse_word word) not_a_power
  parse_powers (union powers p) words

abbrev with_front : ℕ → Option (Text × Text) → Option (Text × Text)
with_front a none = none
with_front a (some (front, back)) = some (a ∷ front, back)

-- `split_once('=')`
unfoldable pub split_once : Text → Option (Text × Text)
split_once [] = none
split_once (a ∷ s) =
    let rest = split_once s in if eqb a b'=' then some ([], s) else with_front a rest

-- `slot=ref`, with the commit that the ref names
unfoldable pub read_slot : Codecs → World → Text → Result RepoError (Text × (Bytes × Text))
unfolding split_once resolve_keep_ref
read_slot k w set = do
  parts ← ok_or (split_once set) no_slot
  commit ← resolve_keep_ref k w parts.1
  ok (parts.0, (commit, parts.1))

unfoldable pub read_slots :
    Codecs → World → List Text → Result RepoError (List (Text × (Bytes × Text)))
unfolding read_slot
read_slots k w [] = ok []
read_slots k w (set ∷ sets) = do
  slot ← read_slot k w set
  slots ← read_slots k w sets
  ok (slot ∷ slots)
