-- ===== src/Cli.antt =====
-- close/src/main.rs: the commands of the command line, once their arguments are parsed (Command, run).
-- What surrounds a command is given: the working tree, the name of the user, and fuel for its loops.
pub mod Words
pub mod Drawn
pub mod Safe
pub mod Failed
use close_common.Common.{
  ℕ, List, [], ◌∷◌, Option, none, some, Bool, true, false, eqb, if◌then◌else◌, Result, ok, err,
  ok_or, map,
}
use close_common.Common
use close_common.Common.Bytes.{Bytes, Text, codes, ◌==◌}
use close_common.Crypto.{Crypto}
use close_common.Facet
use close_common.Facet.{Facet, Powers, none_held, union, parse_word}
use close_common.Close.{CloseRecord}
use close_common.Grant.{Grant}
use close_common.Cell.{CellDecl, Transition}
use close_common.World.{
  Codecs, World, Run, RepoError, pure, fail, reads, given, stop_if, ◌>>=◌, ◌>>◌, no_commons,
  unreadable, already_a_commons, not_a_facet, not_a_power, no_slot, nothing_to_point,
}
use close_common.World.Shown.{Shown}
use close_common.Segments.{segments}
use close_common.Snapshot.{Listing, keep}
use close_common.Browse.{open_path}
use close_common.History.{history_lines}
use close_common.Cli.Words.{parse_powers, read_slots}
use close_common.Look.{View, look}
use close_common.Sharing.{new_identity, protect}
use close_common.Sharing.Hand.{share}
use close_common.Sharing.Relock.{rotate}
use close_common.Signpost.{cell_index}
use close_common.Signpost.Moves.{point, cell_new}
use close_common.Signpost.Trail.{Step, trail, Where, whereis}
use close_common.Glossary.{explain}
use close_common.Start.{Folder, bare, without_config, commons_in, init}

pub data Command : Type 0 where
  initialize : (as_name : Option Text) → Command
  id_new : (name : Text) → Command
  id_list : Command
  keep_all : (message : Text) → Command
  history : (as_name : Option Text) → (full : Bool) → Command
  look_at : (path as_name : Option Text) → Command
  open_file : (path : Text) → (as_name : Option Text) → Command
  protect_path : (path : Text) → (name : Option Text) → Command
  share_path : (path with_name seeing : Text) → (power : List Text) → (days : Option ℕ) → Command
  cell_raise : (path kind : Text) → (forward_only : List Text) → Command
  cell_list : Command
  point_to :
      (path : Text) → (sets : List Text) → (reason : Text) → (as_name : Option Text) → Command
  whereis_path : (path : Text) → (as_name : Option Text) → Command
  trail_of : (path : Text) → (as_name : Option Text) → Command
  rotate_path : (path : Text) → (except : List Text) → Command
  explain_term : (term : Option Text) → Command

-- What a command shows of what it did
pub data Output : Type 0 where
  welcome : Text → Output
  names : List Text → Output
  kept : Bytes → Output
  lines : Shown Text → Output
  view : View → Output
  content : Bytes → Output
  locked : Bytes → Output
  granted : Grant → Output
  declared : CellDecl → Output
  signposts : List CellDecl → Output
  moved : Bytes × Transition → Output
  whereabouts : Where → Output
  steps : Shown Step → Output
  relocked : CloseRecord → Output
  told : Text → Output

-- `as_name.unwrap_or_else(..)`
abbrev pub or_name : Text → Option Text → Text
or_name default none = default
or_name default (some name) = name

abbrev pub segments_of : Option Text → List Text
segments_of none = []
segments_of (some path) = segments path

abbrev pub is_empty {ℓ} : {A : Type ℓ} → List A → Bool
is_empty [] = true
is_empty (x ∷ xs) = false

-- `Repo::open`, and then the command
abbrev pub in_repo : Run Output → Folder → Result RepoError Output × Folder
in_repo m (bare clock random) = (err no_commons, bare clock random)
in_repo m (without_config w) = (err unreadable, without_config w)
in_repo m (commons_in w) = let done = m w in (done.0, commons_in done.1)

abbrev pub started : Text → Result RepoError (Unit {0}) × Folder → Result RepoError Output × Folder
started me (ok done, folder) = (ok (welcome me), folder)
started me (err e, folder) = (err e, folder)

module _ (c : Crypto) (k : Codecs) (tree : Listing) (fuel : ℕ) where
  unfoldable pub run_share : Text → Text → Text → List Text → Option ℕ → Run Output
  unfolding parse_powers
  run_share path with_name seeing power days = do
    facet ← given (ok_or (Facet.parse seeing) not_a_facet)
    powers ← given (parse_powers none_held power)
    g ← share c k (segments path) with_name facet powers days
    pure (granted g)

  unfoldable pub run_point : Text → List Text → Text → Option Text → Run Output
  unfolding read_slots
  run_point path sets reason as_name = do
    slots ← reads (λ w. read_slots k w sets)
    stop_if (is_empty slots) nothing_to_point
    done ← λ w. point c k (or_name w.me as_name) (segments path) slots reason w
    pure (moved done)

  -- What a command does in a commons; `init` finds the commons that is there.
  unfoldable pub run_in : Command → Run Output
  unfolding run_share run_point
  run_in (initialize as_name) = fail already_a_commons
  run_in (id_new name) = do person ← new_identity c k name; pure (names (name ∷ []))
  run_in id_list = reads (λ w. ok (names w.people))
  run_in (keep_all message) = do id ← keep c k tree message; pure (kept id)
  run_in (history as_name full) =
      reads (λ w. ok (lines (history_lines c k w (or_name w.me as_name) full fuel)))
  run_in (look_at path as_name) = do
    v ← reads (λ w. look c k w (or_name w.me as_name) fuel (segments_of path))
    pure (view v)
  run_in (open_file path as_name) = do
    bytes ← reads (λ w. open_path c k w (or_name w.me as_name) (segments path))
    pure (content bytes)
  run_in (protect_path path name) = do id ← protect c k (segments path) name; pure (locked id)
  run_in (share_path path with_name seeing power days) = run_share path with_name seeing power days
  run_in (cell_raise path kind forward_only) = do
    decl ← cell_new c k (segments path) kind forward_only
    pure (declared decl)
  run_in cell_list = do index ← reads (cell_index c k); pure (signposts index)
  run_in (point_to path sets reason as_name) = run_point path sets reason as_name
  run_in (whereis_path path as_name) = do
    place ← reads (λ w. whereis c k w (or_name w.me as_name) (segments path))
    pure (whereabouts place)
  run_in (trail_of path as_name) =
      reads (λ w. ok (steps (trail c k w (or_name w.me as_name) (segments path) fuel)))
  run_in (rotate_path path except) = do r ← rotate c k (segments path) except; pure (relocked r)
  run_in (explain_term term) = pure (told (explain term))

  -- `run`, with the name that `$USER` holds
  unfoldable pub run : Option Text → Command → Folder → Result RepoError Output × Folder
  unfolding run_in
  run user (initialize as_name) folder =
      let me = or_name (or_name (codes "me") user) as_name in started me (init c k me folder)
  run user (explain_term term) folder = (ok (told (explain term)), folder)
  run user command folder = in_repo (run_in command) folder
