-- ===== src/World/Files.antt =====
-- close/src/repo.rs: the files of a repository that its operations read: closes, the close map,
-- people, grants and sealed objects; and what a person can open with the grants they hold.
use close_common.Common.{
  ℕ, Bool, false, if◌then◌else◌, Result, ok, err, map_err, to_option, ◌>>=◌, List, [], ◌∷◌, Option,
  none, some,
}
use close_common.Common.Bytes.{Bytes, Text, ◌==◌}
use close_common.Common.Map.{Map}
use close_common.Crypto.{Crypto, Codec}
use close_common.Facet.{Facet, shape, content}
use close_common.Close.{CloseRecord}
use close_common.Grant.{Grant, Identity, PublicIdentity}
use close_common.Seal.{ShapeCard, SealedObject, open_payload, open_shape, decode}
use close_common.Dag.{Tree}
use close_common.Id.{Parsed, rejected, parsed, to_hex, from_hex}
use close_common.Id
use close_common.Store.{StoreError, get, get_ref}
use close_common.Repo.{governed, Governed, governing, facet_key_for, best_facet}
use close_common.Repo
use close_common.World.{Codecs}
use close_common.World.{
  World, RepoError, unreadable, unwritable, panicked, corrupt_object, missing_object, core,
  ungoverned, corrupt_closemap,
}

abbrev pub parse {ℓ} : {A : Type ℓ} → Codec A → Option Bytes → Result RepoError A
parse codec none = err unreadable
parse codec (some bytes) = map_err (λ _. unreadable) (codec.from_bytes bytes)

-- `serde_json::to_string_pretty` and `fs::write`, with `?`
abbrev pub written : Result Text Bytes → Result RepoError Bytes
written r = map_err (λ _. unwritable) r

-- `.ok()?` in code that returns an `Option`
abbrev pub and_then {ℓ κ} : {A : Type ℓ} {B : Type κ} → Option A → (A → Option B) → Option B
and_then none f = none
and_then (some a) f = f a

-- `Store::get` with `?`
abbrev pub got : Result StoreError (Option Bytes) → Result RepoError Bytes
got (ok none) = err missing_object
got (ok (some bytes)) = ok bytes
got (err e) = err corrupt_object

-- `Store::get_ref`, where the text of a ref that is no id is no ref
abbrev pub ref_id : Option Parsed → Result RepoError (Option Bytes)
ref_id none = ok none
ref_id (some Id.panicked) = err panicked
ref_id (some rejected) = ok none
ref_id (some (parsed id)) = ok (some id)

abbrev pub ruled : Governed → Result RepoError Bytes
ruled Repo.ungoverned = err ungoverned
ruled Repo.corrupt_entry = err corrupt_closemap
ruled Repo.panics = err panicked
ruled (governed id) = ok id

abbrev identity_of : Text → Bytes × Bytes → Identity
identity_of name (sign, dh) = record { name = name; sign = sign; dh = dh }

abbrev pub grant_files : Codec Grant → Map Bytes → List Grant
grant_files codec [] = []
grant_files codec ((name, bytes) ∷ files) =
    let rest = grant_files codec files in
    elim (codec.from_bytes bytes) [ ok g ↦ g ∷ rest | err e ↦ rest ]

module _ (k : Codecs) (w : World) where
  unfoldable pub load_close : Bytes → Result RepoError CloseRecord
  load_close id = parse k.closes (w.closes (to_hex id))

  unfoldable pub closemap : Result RepoError (List (Text × Text))
  closemap = parse k.closemap w.closemap

  -- `Repo::governing`
  unfoldable pub governing_close : Text → Result RepoError Bytes
  unfolding closemap
  governing_close rel = do map ← closemap; ruled (governing map rel)

  unfoldable pub identity : Text → Result RepoError Identity
  identity name = do keys ← parse k.secrets (w.secrets name); ok (identity_of name keys)

  unfoldable pub public_of : Text → Result RepoError PublicIdentity
  public_of name = parse k.publics (w.publics name)

  abbrev has_key : Bytes → Result RepoError PublicIdentity → Bool
  has_key sign (ok p) = p.sign == sign
  has_key sign (err e) = false

  abbrev signer_among : Bytes → List Text → Option Text
  signer_among sign [] = none
  signer_among sign (name ∷ names) =
      if has_key sign (public_of name) then some name else signer_among sign names

  -- `Repo::name_of_signer`
  unfoldable pub name_of_signer : Bytes → Option Text
  unfolding public_of
  name_of_signer sign = signer_among sign w.people

  -- In the order of the files' names; a file that does not decode is passed over.
  unfoldable pub grants_for : Text → List Grant
  grants_for holder = grant_files k.grants (w.grants holder)

  -- `store.get_ref` with `?`
  unfoldable pub ref_of : Text → Result RepoError (Option Bytes)
  ref_of name = ref_id (get_ref w.store name)

  module _ (c : Crypto) where
    unfoldable pub load_sealed : Bytes → Result RepoError SealedObject
    load_sealed id = do bytes ← got (get c w.store id); map_err core (decode c k.objects bytes)

    -- `Repo::facet_key_for`
    unfoldable pub key_for : Text → CloseRecord → Facet → ℕ → Option Bytes
    unfolding identity grants_for
    key_for who r facet epoch =
        facet_key_for c k.bodies r w.clock (to_option (identity who)) facet epoch (grants_for who)

    -- `Repo::best_facet`
    unfoldable pub best_facet_of : Text → CloseRecord → Option Facet
    unfolding grants_for
    best_facet_of who r = best_facet c k.bodies r w.clock (grants_for who)

    unfoldable pub current_content_key : Text → CloseRecord → Option Bytes
    unfolding key_for
    current_content_key who r = key_for who r content r.epoch

    -- The key of a facet of an object's close, at the epoch that it was sealed in.
    abbrev pub object_facet_key : Text → SealedObject → Facet → Option Bytes
    object_facet_key who s facet =
        and_then (to_option (load_close s.close)) (λ r. key_for who r facet s.epoch)

    unfoldable pub open_tree : Text → SealedObject → Option Tree
    unfolding load_close key_for
    open_tree who s = and_then (object_facet_key who s shape) (λ key.
        and_then (to_option (open_payload c s key)) (λ bytes. to_option (k.trees.from_bytes bytes)))

    unfoldable pub open_blob : Text → SealedObject → Option Bytes
    unfolding load_close key_for
    open_blob who s =
        and_then (object_facet_key who s content) (λ key. to_option (open_payload c s key))

    unfoldable pub open_card : Text → SealedObject → Option ShapeCard
    unfolding load_close key_for
    open_card who s =
        and_then (object_facet_key who s shape) (λ key. to_option (open_shape c k.cards s key))
