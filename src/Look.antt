-- ===== src/Look.antt =====
-- close/src/main.rs: what someone sees of a path (look, with render_tree, describe_leaf and the hints).
pub mod Earned
pub mod Graded
pub mod Depth
use close_common.Common.{
  ℕ, zero, suc, List, [], ◌∷◌, ◌++◌, Option, none, some, Bool, true, false, not, if◌then◌else◌,
  Result, ok, err, to_option, ◌>>=◌,
}
use close_common.Common.Bytes.{Bytes, Text, ◌==◌}
use close_common.Common.Map.{Map}
use close_common.Crypto.{Crypto}
use close_common.Facet.{content}
use close_common.Close.{CloseRecord}
use close_common.Seal.{SealedObject, ShapeCard}
use close_common.Dag.{Tree, TreeEntry, is_tree}
use close_common.World.{Codecs, World, RepoError}
use close_common.World.Files.{
  load_close, load_sealed, open_tree, open_card, object_facet_key, name_of_signer, key_for,
}
use close_common.Browse.{resolve_path}

-- What is shown of an entry: its object is not there, a folder with what is in it, a folder that is a
-- sealed drawer, a file that can be read, a label, or what the entry itself lets through
pub data Sight : Type 0 where
  missing browsed sealed_drawer readable sealed_file : Sight
  labelled : ShapeCard → Sight

-- A line: how deep it stands, the name, the entry, the name of the close that begins there, and what is
-- shown.
pub record Line : Type 0 where
  pub depth : ℕ
  pub name : Text
  pub entry : TreeEntry
  pub boundary : Option Text
  pub sight : Sight

-- A listing, or one object with whom to ask for more
pub data View : Type 0 where
  listed : List Line → View
  drawer : (steward : Option Text) → View
  leaf : Sight → (steward : Option Text) → View
  unfinished : View

abbrev pub both : Option (List Line) → Option (List Line) → Option (List Line)
both none rest = none
both (some lines) none = none
both (some lines) (some more) = some (lines ++ more)

abbrev pub with_line : Line → Option (List Line) → Option (List Line)
with_line line none = none
with_line line (some lines) = some (line ∷ lines)

module _ (c : Crypto) (k : Codecs) (w : World) (who : Text) where
  abbrev close_name : Result RepoError CloseRecord → Option Text
  close_name (ok r) = some r.name
  close_name (err e) = none

  -- `close_tag`
  abbrev boundary_at : Bytes → TreeEntry → Option Text
  boundary_at parent entry =
      if not (entry.close == parent) then close_name (load_close k w entry.close) else none

  abbrev pub line_of : Bytes → ℕ → Text → TreeEntry → Sight → Line
  line_of parent depth name entry sight = record {
    depth = depth;
    name = name;
    entry = entry;
    boundary = boundary_at parent entry;
    sight = sight;
  }

  abbrev pub card_sight : Option ShapeCard → Sight
  card_sight none = sealed_file
  card_sight (some card) = labelled card

  abbrev pub key_sight : Sight → Option Bytes → Sight
  key_sight card none = card
  key_sight card (some key) = readable

  -- The grade of a file whose close is loaded
  abbrev pub loaded_sight : Sight → SealedObject → Result RepoError CloseRecord → Sight
  loaded_sight card sealed (err e) = card
  loaded_sight card sealed (ok r) = key_sight card (key_for k w c who r content sealed.epoch)

  abbrev pub file_sight : Bytes → SealedObject → Sight
  file_sight close sealed =
      loaded_sight (card_sight (open_card k w c who sealed)) sealed (load_close k w close)

  -- One entry of `render_tree`, with what shows a folder that opens
  abbrev pub render_opened :
      (Map TreeEntry → Option (List Line)) → (Sight → Line) → Option Tree → Option (List Line)
  render_opened deeper line none = some (line sealed_drawer ∷ [])
  render_opened deeper line (some sub) = with_line (line browsed) (deeper sub.entries)

  abbrev pub render_loaded :
      (Map TreeEntry → Option (List Line))
      → (Sight → Line)
      → TreeEntry
      → Result RepoError SealedObject
      → Option (List Line)
  render_loaded deeper line entry (err e) = some (line missing ∷ [])
  render_loaded deeper line entry (ok sealed) =
      if is_tree entry.kind
      then render_opened deeper line (open_tree k w c who sealed)
      else some (line (file_sight entry.close sealed) ∷ [])

  abbrev pub render_entry :
      (Map TreeEntry → Option (List Line)) → Bytes → ℕ → Text → TreeEntry → Option (List Line)
  render_entry deeper parent depth name entry =
      render_loaded deeper (line_of parent depth name entry) entry (load_sealed k w c entry.cipher)

  -- `render_tree`, on fuel for the depth of the trees
  unfoldable pub render_tree : ℕ → Bytes → ℕ → Map TreeEntry → Option (List Line)
  render_tree fuel parent depth [] = some []
  render_tree zero parent depth ((name, entry) ∷ entries) =
      both (render_entry (λ sub. none) parent depth name entry)
        (render_tree zero parent depth entries)
  render_tree (suc fuel) parent depth ((name, entry) ∷ entries) =
      both (render_entry (render_tree fuel entry.close (suc depth)) parent depth name entry)
        (render_tree (suc fuel) parent depth entries)

  -- `hint_ask`: whom to ask
  abbrev pub hint_ask : Bytes → Option Text
  hint_ask close = elim (load_close k w close) [
    | ok r ↦ name_of_signer k w r.steward
    | err e ↦ none
  ]

  abbrev pub view_lines : Option (List Line) → View
  view_lines none = unfinished
  view_lines (some lines) = listed lines

  abbrev pub view_tree : ℕ → SealedObject → Option Tree → View
  view_tree fuel sealed none = drawer (hint_ask sealed.close)
  view_tree fuel sealed (some tree) = view_lines (render_tree fuel sealed.close 1 tree.entries)

  abbrev pub asks : Sight → Bytes → Option Text
  asks sealed_file close = hint_ask close
  asks _ close = none

  -- `describe_leaf`
  abbrev pub describe_leaf : SealedObject → View
  describe_leaf sealed =
      let sight = file_sight sealed.close sealed in leaf sight (asks sight sealed.close)

  -- `close look`
  unfoldable pub look : ℕ → List Text → Result RepoError View
  unfolding render_tree
  look fuel path = do
    sealed ← resolve_path c k w who path
    ok (
        if is_tree sealed.kind
        then view_tree fuel sealed (open_tree k w c who sealed)
        else describe_leaf sealed)
