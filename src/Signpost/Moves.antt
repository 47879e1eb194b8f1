-- ===== src/Signpost/Moves.antt =====
-- Moving a signpost and raising one: what `point` and `cell_new` of close/src/repo.rs write.
use close_common.Common.{List, [], ◌∷◌, ◌++◌, some, map_err}
use close_common.Common.Bytes.{Bytes, Text, codes, ◌==◌}
use close_common.Crypto.{Crypto}
use close_common.Close.{CloseRecord}
use close_common.Cell.{CellDecl, Transition, seal_transition}
use close_common.World.{
  Codecs, Run, pure, reads, given, modify, stop_if, ◌>>=◌, ◌>>◌, cell, name_taken, not_a_path,
}
use close_common.Store.{write}
use close_common.World.Files.{written, governing_close}
use close_common.Snapshot.{join, put_sealed, set_ref_in}
use close_common.Signpost.{stands_at, is_taken, cell_index, cell_ref, decide_move}

module _ (c : Crypto) (k : Codecs) where
  -- The end of `point`: the move is sealed, put and named by the ref.
  unfoldable pub record_move :
      CellDecl → CloseRecord → Bytes → Transition → Run (Bytes × Transition)
  unfolding put_sealed
  record_move decl r key t = do
    sealed ← given (map_err cell (seal_transition c k.cards k.transitions r key r.epoch t))
    cipher ← put_sealed c k sealed
    modify (set_ref_in c k (cell_ref c k decl) cipher)
    pure (cipher, t)

  -- `Repo::point`
  unfoldable pub point :
      (who : Text) (path : List Text)
      → List (Text × (Bytes × Text))
      → (reason : Text) → Run (Bytes × Transition)
  unfolding record_move
  point who path slots reason = do
    decided ← reads (λ w. decide_move c k w who path slots reason)
    record_move decided.0 decided.1.0 decided.1.1.0 decided.1.1.1

  -- `Repo::cell_new`
  unfoldable pub cell_new : (path : List Text) → (kind : Text) → List Text → Run CellDecl
  cell_new path kind forward_only = do
    stop_if (join path == []) not_a_path
    index ← reads (cell_index c k)
    stop_if (is_taken (stands_at path index)) name_taken
    close ← reads (λ w. governing_close k w (join path))
    let decl : CellDecl = record {
      path = path;
      close = close;
      kind = kind;
      forward_only = forward_only;
    }
    text ← given (written (k.declarations.to_allocvec decl))
    modify (λ w. record w { declarations = write (join path ++ codes ".cell") text w.declarations })
    index ← reads (cell_index c k)
    bytes ← given (written (k.cells.to_allocvec (index ++ decl ∷ [])))
    modify (λ w. record w { cells = some bytes })
    pure decl
