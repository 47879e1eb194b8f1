-- ===== src/Browse.antt =====
-- close/src/repo.rs and main.rs: what a person reads of a repository: the head commit, a path from
-- it, and the bytes there.
use close_common.Common.{
  err, List, [], ◌∷◌, Option, none, some, Result, ok, ok_or, map_err, refuse_if, ◌>>=◌, ◌>>◌,
}
use close_common.Common.Bytes.{Bytes, Text, codes}
use close_common.Common.Map
use close_common.Crypto.{Crypto}
use close_common.Facet
use close_common.Seal.{SealedObject}
use close_common.Dag.{Commit, is_tree}
use close_common.World.{
  Codecs, World, RepoError, core, sealed_history, sealed_drawer, nothing_kept, no_such_entry,
  is_folder, nothing_read,
}
use close_common.World.Files.{load_close, ref_of, load_sealed, open_tree, open_blob}

module _ (c : Crypto) (k : Codecs) (w : World) where
  -- `Repo::commit_at`, which returns the id as well
  unfoldable pub commit_at : Text → Bytes → Result RepoError Commit
  commit_at who id = do
    sealed ← load_sealed k w c id
    bytes ← ok_or (open_blob k w c who sealed) sealed_history
    map_err (λ e. core (Facet.encoding e)) (k.commits.from_bytes bytes)

  abbrev pub commit_of : Text → Option Bytes → Result RepoError (Option (Bytes × Commit))
  commit_of who none = ok none
  commit_of who (some id) = do commit ← commit_at who id; ok (some (id, commit))

  -- `Repo::head_commit`
  unfoldable pub head_commit : Text → Result RepoError (Option (Bytes × Commit))
  unfolding commit_at
  head_commit who = do id ← ref_of k w (codes "main"); commit_of who id

  -- The loop of `resolve_path`, from an object.
  unfoldable pub resolve_from : Text → SealedObject → List Text → Result RepoError SealedObject
  resolve_from who sealed [] = ok sealed
  resolve_from who sealed (segment ∷ path) = do
    tree ← ok_or (open_tree k w c who sealed) sealed_drawer
    entry ← ok_or (Map.get segment tree.entries) no_such_entry
    next ← load_sealed k w c entry.cipher
    resolve_from who next path

  -- `Repo::resolve_path`; the segments walked are the path itself.
  unfoldable pub resolve_path : Text → List Text → Result RepoError SealedObject
  unfolding head_commit resolve_from
  resolve_path who path = do
    head ← head_commit who
    found ← ok_or head nothing_kept
    sealed ← load_sealed k w c found.1.tree
    resolve_from who sealed path

  -- What was opened; whoever opened nothing is told of the close, which is loaded for that.
  abbrev pub blob_read : SealedObject → Option Bytes → Result RepoError Bytes
  blob_read sealed (some bytes) = ok bytes
  blob_read sealed none = do r ← load_close k w sealed.close; err nothing_read

  -- `close open`: the bytes that it prints
  unfoldable pub open_path : Text → List Text → Result RepoError Bytes
  unfolding resolve_path
  open_path who path = do
    sealed ← resolve_path who path
    refuse_if (is_tree sealed.kind) is_folder
    blob_read sealed (open_blob k w c who sealed)
