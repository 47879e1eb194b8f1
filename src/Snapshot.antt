-- ===== src/Snapshot.antt =====
-- close/src/repo.rs: keeping the working tree (keep, snap_dir, snap_file) and reading it back
-- (head_commit, commit_at, resolve_path). A directory lists its entries in the order of their
-- sorted names.
pub mod Onward
pub mod Sealed
pub mod Shows
pub mod Entries
pub mod Walk
pub mod Back
pub mod Commits
use close_common.Common.{
  ℕ, zero, suc, List, [], ◌∷◌, ◌++◌, Option, none, some, Bool, true, false, not, ◌&&◌,
  if◌then◌else◌, Result, ok, err, map_err, ok_or, length,
}
use close_common.Common
use close_common.Common.Bytes.{Bytes, Text, codes, as_bytes, ◌==◌}
use close_common.Common.Map
use close_common.Common.Map.{Map}
use close_common.Crypto.{Crypto}
use close_common.Facet
use close_common.Facet.{Facet, content}
use close_common.Close.{CloseRecord}
use close_common.Seal
use close_common.Seal.{
  ObjectKind, blob, tree, commit, ShapeCard, SealedObject, size_class_for, encode,
}
use close_common.Cell.{digits}
use close_common.Dag.{Tree, TreeEntry, Commit, EntryCard}
use close_common.Id.{Parsed, parsed, rejected, from_hex}
use close_common.Id
use close_common.Store
use close_common.Store.{put, set_ref}
use close_common.Repo.{card_for, guess_type}
use close_common.World.{
  Codecs, World, Run, RepoError, pure, fail, reads, given, modify, ◌>>=◌, ◌>>◌, panicked, core,
  cannot_write, sealed_history, sealed_drawer, nothing_kept, no_such_entry,
}
use close_common.World.Files.{
  load_close, governing_close, ref_of, load_sealed, open_tree, open_blob, current_content_key,
}

mutual
  pub data Node : Type 0 where
    file : Bytes → Node
    dir : Listing → Node

  pub data Listing : Type 0 where
    empty : Listing
    item : Text → Node → Listing → Listing

-- `rel.join("/")`
abbrev join_rest : List Text → Text
join_rest [] = []
join_rest (s ∷ segments) = (codes "/" ++ s) ++ join_rest segments

abbrev pub join : List Text → Text
join [] = []
join (s ∷ segments) = s ++ join_rest segments

abbrev pub last_or_empty : List Text → Text
last_or_empty [] = []
last_or_empty (s ∷ []) = s
last_or_empty (s ∷ t ∷ segments) = last_or_empty (t ∷ segments)

-- The files of the repository itself are not kept.
abbrev pub is_kept : Text → Bool
is_kept name = not (name == codes ".cc") && not (name == codes ".git")

abbrev entry_count : Map TreeEntry → Text
entry_count entries = let n = length entries in digits n n [] ++ codes " entries"

abbrev is_root : List Text → Bool
is_root [] = true
is_root (s ∷ segments) = false

abbrev pub expect_id : Parsed → Result RepoError Bytes
expect_id (parsed id) = ok id
expect_id rejected = err panicked
expect_id Id.panicked = err panicked

module _ (c : Crypto) (k : Codecs) where
  -- `Repo::put_sealed`
  unfoldable pub put_sealed : SealedObject → Run Bytes
  put_sealed s = do
    envelope ← given (map_err core (encode c k.objects s))
    λ w. let (store, id) = put c w.store envelope in (ok id, record w { store = store })

  -- The key that writing takes, or `cannot_write`
  unfoldable pub writing_key : World → CloseRecord → Result RepoError Bytes
  writing_key w r = ok_or (current_content_key k w c w.me r) cannot_write

  abbrev pub seal_as :
      CloseRecord → Bytes → ObjectKind → ShapeCard → Bytes → Result RepoError SealedObject
  seal_as r key kind card bytes = map_err core (Seal.seal c k.cards r key r.epoch kind card bytes)

  -- `Repo::snap_file`
  unfoldable pub snap_file : Bytes → List Text → Run TreeEntry
  unfolding put_sealed writing_key
  snap_file bytes rel = do
    close ← reads (λ w. governing_close k w (join rel))
    r ← reads (λ w. load_close k w close)
    key ← reads (λ w. writing_key w r)
    let content_type = guess_type (last_or_empty rel)
    let card : ShapeCard = record {
      label = last_or_empty rel;
      content_type = content_type;
      size_class = size_class_for (length bytes);
      note = [];
    }
    sealed ← given (seal_as r key blob card bytes)
    cipher ← put_sealed sealed
    pure (record {
      kind = blob;
      close = r.id;
      plain = sealed.plain;
      cipher = cipher;
      card = card_for r content_type (size_class_for (length bytes));
    })

  -- The rest of `snap_dir`, once its entries are there.
  unfoldable pub seal_dir : List Text → Bytes → Map TreeEntry → Run TreeEntry
  unfolding put_sealed writing_key
  seal_dir rel close entries = do
    r ← reads (λ w. load_close k w close)
    key ← reads (λ w. writing_key w r)
    let card : ShapeCard = record {
      label = if is_root rel then codes "/" else join rel;
      content_type = codes "commons/folder";
      size_class = entry_count entries;
      note = [];
    }
    bytes ← given (
        map_err (λ e. core (Facet.encoding e)) (k.trees.to_allocvec (record { entries = entries })))
    sealed ← given (seal_as r key tree card bytes)
    cipher ← put_sealed sealed
    pure (record {
      kind = tree;
      close = r.id;
      plain = sealed.plain;
      cipher = cipher;
      card = card_for r (codes "commons/folder") (entry_count entries);
    })

  -- `Repo::snap_dir`, whose loop over the names is given
  abbrev pub dir_steps : List Text → (Map TreeEntry → Run (Map TreeEntry)) → Run TreeEntry
  dir_steps rel loop = do
    close ← reads (λ w. governing_close k w (join rel))
    entries ← loop []
    seal_dir rel close entries

  -- One name of the loop, whose later names are given
  abbrev pub add_entry :
      Text
      → Run TreeEntry
      → (Map TreeEntry → Run (Map TreeEntry))
      → Map TreeEntry
      → Run (Map TreeEntry)
  add_entry name snapped later entries =
      if is_kept name
      then (do entry ← snapped; later (Map.insert name entry entries))
      else later entries

  unfoldable mutual
    unfolding snap_file

    -- The loop, with the entries so far
    pub snap_all : Listing → List Text → Map TreeEntry → Run (Map TreeEntry)
    snap_all empty rel entries = pure entries
    snap_all (item name node rest) rel entries =
        add_entry name (snap_node node (rel ++ name ∷ [])) (snap_all rest rel) entries

    pub snap_node : Node → List Text → Run TreeEntry
    snap_node (file bytes) rel = snap_file bytes rel
    snap_node (dir listing) rel = dir_steps rel (snap_all listing rel)

  unfoldable pub snap_dir : Listing → List Text → Run TreeEntry
  unfolding snap_all
  snap_dir listing rel = dir_steps rel (snap_all listing rel)

  abbrev pub id_list : Option Bytes → List Bytes
  id_list none = []
  id_list (some id) = id ∷ []

  -- `Repo::commons_id`, which expects an id in the configuration
  abbrev pub commons_id : World → Result RepoError Bytes
  commons_id w = expect_id (from_hex w.commons)

  abbrev pub set_ref_in : Text → Bytes → World → World
  set_ref_in name id w = record w { store = set_ref w.store name id }

  -- The end of `keep`, once the commit is made: it is sealed, put and named by the ref.
  unfoldable pub keep_commit : CloseRecord → Bytes → Commit → Run Bytes
  unfolding put_sealed
  keep_commit commons key made = do
    let card : ShapeCard = record {
      label = codes "commit";
      content_type = codes "commons/commit";
      size_class = size_class_for (length (as_bytes made.message));
      note = [];
    }
    bytes ← given (map_err (λ e. core (Facet.encoding e)) (k.commits.to_allocvec made))
    sealed ← given (seal_as commons key commit card bytes)
    kept ← put_sealed sealed
    modify (set_ref_in (codes "main") kept)
    pure kept

  abbrev pub commit_for : World → TreeEntry → Option Bytes → Text → Commit
  commit_for w root parent message = record {
    tree = root.cipher;
    tree_plain = root.plain;
    parents = id_list parent;
    author = w.me;
    message = message;
    when = w.clock;
  }

  -- `Repo::keep`
  unfoldable pub keep : Listing → Text → Run Bytes
  unfolding snap_dir keep_commit writing_key
  keep listing message = do
    root ← snap_dir listing []
    id ← reads commons_id
    commons ← reads (λ w. load_close k w id)
    key ← reads (λ w. writing_key w commons)
    parent ← reads (λ w. ref_of k w (codes "main"))
    λ w. keep_commit commons key (commit_for w root parent message) w
