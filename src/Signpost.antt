-- ===== src/Signpost.antt =====
-- close/src/repo.rs: signposts. Their declarations stand in an index file, and the move that a
-- signpost points with now is named by a ref.
pub mod Moves
pub mod Point
pub mod Tip
pub mod Trail
pub mod Later
pub mod Opened
pub mod Longer
use close_common.Common.{
  ℕ, List, [], ◌∷◌, ◌++◌, Option, none, some, Bool, true, false, ◌&&◌, ◌||◌, eqb, if◌then◌else◌,
  Result, ok, err, map_err, ok_or, to_option, ◌>>=◌,
}
use close_common.Common.Bytes.{Bytes, Text, codes, ◌==◌}
use close_common.Common.Map
use close_common.Crypto.{Crypto}
use close_common.Facet.{content, set, contains}
use close_common.Close.{CloseRecord}
use close_common.Grant
use close_common.Grant.{Grant, terms, covers}
use close_common.Cell.{
  CellDecl, Pin, Value, Transition, CellError, Head, cell_id, make, verify, check_forward,
  seal_transition, open_transition, head_of,
}
use close_common.Dag.{Commit}
use close_common.Id.{to_hex}
use close_common.Repo.{is_descendant, is_ok}
use close_common.World.{
  Codecs, World, Run, RepoError, pure, fail, cell, no_signpost, no_point_power, needs_everything,
  name_taken, not_a_path,
}
use close_common.World.Files.{
  parse, written, load_close, governing_close, identity, grants_for, ref_of, load_sealed, key_for,
  current_content_key,
}
use close_common.Browse.{commit_at}
use close_common.Snapshot.{join, put_sealed, set_ref_in}

-- `a == b` on paths
unfoldable pub same_path : List Text → List Text → Bool
same_path [] [] = true
same_path [] (t ∷ ts) = false
same_path (s ∷ ss) [] = false
same_path (s ∷ ss) (t ∷ ts) = s == t && same_path ss ts

abbrev pub stands_at : List Text → List CellDecl → Option CellDecl
stands_at path [] = none
stands_at path (d ∷ index) = if same_path d.path path then some d else stands_at path index

abbrev pub is_taken : Option CellDecl → Bool
is_taken none = false
is_taken (some d) = true

-- `value.insert(slot, Pin { commit, note })` for each slot
abbrev pub point_slots : List (Text × (Bytes × Text)) → Value → Value
point_slots [] value = value
point_slots ((slot, (commit, note)) ∷ slots) value =
    point_slots slots (Map.insert slot (record { commit = commit; note = note }) value)

abbrev pub value_of : Option (Bytes × Transition) → Option Value
value_of none = none
value_of (some (cipher, t)) = some t.body.value

-- `unwrap_or_default()` on a value
abbrev pub or_empty : Option Value → Value
or_empty none = []
or_empty (some value) = value

module _ (c : Crypto) (k : Codecs) where
  -- `Repo::cell_index`
  unfoldable pub cell_index : World → Result RepoError (List CellDecl)
  cell_index w = elim w.cells [ none ↦ ok [] | some bytes ↦ parse k.cells (some bytes) ]

  -- `Repo::cell_decl`
  unfoldable pub cell_decl : World → List Text → Result RepoError CellDecl
  unfolding cell_index
  cell_decl w path = do index ← cell_index w; ok_or (stands_at path index) no_signpost

  unfoldable pub cell_ref : CellDecl → Text
  cell_ref decl = codes "cells/" ++ to_hex (cell_id c decl)

  abbrev pub open_head :
      World → Text → CellDecl → Option Bytes → Result RepoError (Option (Bytes × Transition))
  open_head w who decl none = ok none
  open_head w who decl (some cipher) = do
    sealed ← load_sealed k w c cipher
    r ← load_close k w decl.close
    key ← ok_or (key_for k w c who r content sealed.epoch) needs_everything
    t ← map_err cell (open_transition c k.cards k.transitions sealed key)
    ok (some (cipher, t))

  -- `Repo::cell_head`
  unfoldable pub cell_head :
      World → Text → CellDecl → Result RepoError (Option (Bytes × Transition))
  unfolding cell_ref
  cell_head w who decl = do cipher ← ref_of k w (cell_ref decl); open_head w who decl cipher

  -- The grants that a move may stand on
  unfoldable pub may_point : CellDecl → CloseRecord → ℕ → Grant → Bool
  may_point decl r now g =
      (terms g).close == decl.close
      && (contains (terms g).powers set
          && (covers g decl.path && is_ok (Grant.verify c k.bodies r now g)))

  abbrev pub first_pointing : CellDecl → CloseRecord → ℕ → List Grant → Option Grant
  first_pointing decl r now [] = none
  first_pointing decl r now (g ∷ grants) =
      if may_point decl r now g then some g else first_pointing decl r now grants

  -- The commits that a person can open
  abbrev pub opened_commit : World → Text → Bytes → Option Commit
  opened_commit w who id = to_option (commit_at c k w who id)

  -- What `point` decides before it writes: the declaration, its close, the sealing key and the move
  abbrev pub Decided : Type 0
  Decided = CellDecl × (CloseRecord × (Bytes × Transition))

  unfoldable pub decide_move :
      World
      → (who : Text) (path : List Text) → List (Text × (Bytes × Text))
      → (reason : Text) → Result RepoError Decided
  unfolding cell_decl cell_head may_point
  decide_move w who path slots reason = do
    decl ← cell_decl w path
    r ← load_close k w decl.close
    me ← identity k w who
    grant ← ok_or (first_pointing decl r w.clock (grants_for k w who)) no_point_power
    key ← ok_or (current_content_key k w c who r) needs_everything
    head ← cell_head w who decl
    let value = point_slots slots (or_empty (value_of head))
    done ←
        map_err cell
          (check_forward (is_descendant (opened_commit w who)) decl (value_of head) value)
    t ←
        map_err cell
          (make c k.moves decl (head_of c k.moves k.bodies head) value me grant w.clock reason)
    accepted ← map_err cell (verify c k.moves k.bodies t r decl)
    ok (decl, (r, (key, t)))
