-- ===== src/Repo.antt =====
-- close/src/repo.rs: the choices that a repository makes from what it has read. The grants that a
-- person holds, the map of the closes and the commits that a person can open are arguments here, and
-- World reads them from the files.
pub mod Keys
pub mod Genuine
pub mod Late
pub mod Governing
pub mod Ancestry
use close_common.Common.{
  ℕ, zero, suc, Bool, true, false, not, ◌&&◌, ◌||◌, if◌then◌else◌, leb, List, [], ◌∷◌, ◌++◌, Option,
  none, some, Result, ok, err, to_option, length,
}
use close_common.Common.Bytes.{Bytes, Text, codes, as_bytes, ◌==◌}
use close_common.Crypto.{Crypto, Codec}
use close_common.Facet
use close_common.Facet.{Facet, presence, shape, content, discriminant, Error}
use close_common.Close.{
  CloseRecord, Silhouette, open_outline, counted, dark, content_key_at, shape_key_at,
  lower_facet_key,
}
use close_common.Grant.{Grant, GrantBody, Identity, terms, verify, unwrap_key}
use close_common.Dag
use close_common.Dag.{Commit, EntryCard, outline}
use close_common.Id.{Parsed, panicked, rejected, parsed, from_hex}

abbrev pub is_ok {ℓ κ} : {E : Type ℓ} {A : Type κ} → Result E A → Bool
is_ok (ok a) = true
is_ok (err e) = false

abbrev pub or_else {ℓ} : {A : Type ℓ} → Option A → Option A → Option A
or_else none o = o
or_else (some a) o = some a

-- `Option::max` over the facets, as the maximum of an iterator takes them
abbrev higher : Facet → Option Facet → Option Facet
higher f none = some f
higher f (some g) = if Facet.gt f g then some f else some g

module _ (c : Crypto) (bodies : Codec GrantBody) (r : CloseRecord) (now : ℕ) where
  -- A grant on the close that verifies now.
  unfoldable pub holds : Grant → Bool
  holds g = (terms g).close == r.id && is_ok (verify c bodies r now g)

  -- `Repo::best_facet`, over `grants_for(who)`
  unfoldable pub best_facet : List Grant → Option Facet
  unfolding holds
  best_facet [] = none
  best_facet (g ∷ grants) =
      let rest = best_facet grants in if holds g then higher (terms g).facet rest else rest

  abbrev pub lower_to : Facet → Result Error Bytes → Option Bytes
  lower_to wanted (ok k) = lower_facet_key c k content wanted r.id
  lower_to wanted (err e) = none

  -- The key of the wanted facet and epoch, from the key that a grant carries.
  unfoldable pub key_from : (held wanted : Facet) → (at epoch : ℕ) → Bytes → Option Bytes
  key_from content wanted at epoch key = lower_to wanted (content_key_at c r key at epoch)
  key_from shape shape at epoch key = to_option (shape_key_at c r key at epoch)
  key_from shape _ at epoch key = none
  key_from presence wanted at epoch key = none

  -- The grant is not passed over: of this close, of no lower facet, and it verifies.
  unfoldable pub serves : Facet → Grant → Bool
  serves wanted g =
      (terms g).close == r.id
      && (not (Facet.gt wanted (terms g).facet) && is_ok (verify c bodies r now g))

  abbrev pub carried : (held wanted : Facet) → (at epoch : ℕ) → Result Error Bytes → Option Bytes
  carried held wanted at epoch (ok key) = key_from held wanted at epoch key
  carried held wanted at epoch (err e) = none

  -- One round of the loop
  unfoldable pub try_grant : Identity → Facet → ℕ → Grant → Option Bytes
  try_grant me wanted epoch g =
      if serves wanted g
      then carried (terms g).facet wanted (terms g).epoch epoch (unwrap_key c g me)
      else none

  -- The loop of `facet_key_for`
  unfoldable pub first_key : Identity → Facet → ℕ → List Grant → Option Bytes
  unfolding try_grant
  first_key me wanted epoch [] = none
  first_key me wanted epoch (g ∷ grants) =
      or_else (try_grant me wanted epoch g) (first_key me wanted epoch grants)

  -- `Repo::facet_key_for`, with the identity of who asks and the grants that they hold
  unfoldable pub facet_key_for : Option Identity → Facet → ℕ → List Grant → Option Bytes
  unfolding first_key
  facet_key_for who presence epoch grants = none
  facet_key_for none wanted epoch grants = none
  facet_key_for (some me) wanted epoch grants = first_key me wanted epoch grants

abbrev starts_with : Text → Text → Bool
starts_with rel [] = true
starts_with [] (x ∷ prefix) = false
starts_with (y ∷ rel) (x ∷ prefix) = (y ∷ []) == (x ∷ []) && starts_with rel prefix

unfoldable pub matches : Text → Text → Bool
matches rel prefix = prefix == [] || (rel == prefix || starts_with rel (prefix ++ codes "/"))

-- `len()` counts bytes.
abbrev pub len : Text → ℕ
len prefix = length (as_bytes prefix)

abbrev pub at_least : ℕ → Option (ℕ × Text) → Bool
at_least n none = true
at_least n (some (l, id)) = leb l n

-- One round of `governing`: the later of two equally long prefixes wins.
unfoldable pub better : Text → Option (ℕ × Text) → (prefix id : Text) → Option (ℕ × Text)
better rel best prefix id =
    if matches rel prefix && at_least (len prefix) best then some (len prefix, id) else best

-- The loop of `governing`, with the best so far.
unfoldable pub best_of : Text → Option (ℕ × Text) → List (Text × Text) → Option (ℕ × Text)
unfolding better
best_of rel best [] = best
best_of rel best ((prefix, id) ∷ entries) = best_of rel (better rel best prefix id) entries

pub data Governed : Type 0 where
  ungoverned corrupt_entry panics : Governed
  governed : Bytes → Governed

abbrev pub read_id : Parsed → Governed
read_id panicked = panics
read_id rejected = corrupt_entry
read_id (parsed id) = governed id

-- `Repo::governing`, on the entries of the close map
abbrev pub governed_by : Option (ℕ × Text) → Governed
governed_by none = ungoverned
governed_by (some (l, id)) = read_id (from_hex id)

unfoldable pub governing : List (Text × Text) → Text → Governed
unfolding best_of
governing entries rel = governed_by (best_of rel none entries)

-- `Repo::card_for`
unfoldable pub card_for : CloseRecord → (content_type size : Text) → EntryCard
card_for r content_type size = elim r.silhouette [
  | open_outline ↦ outline content_type size
  | counted ↦ Dag.counted
  | dark ↦ Dag.dark
]

-- What follows the last dot, or the whole name (`rsplit('.').next()`)
abbrev extension : (found rest : Text) → Text
extension found [] = found
extension found (ch ∷ rest) = extension (if (ch ∷ []) == codes "." then rest else found) rest

unfoldable pub guess_type : Text → Text
guess_type name =
    let ext = extension name name in
    if ext == codes "rs"
    then codes "code/rust"
    else if ext == codes "py"
    then codes "code/python"
    else if ext == codes "js" || ext == codes "ts"
    then codes "code/javascript"
    else if ext == codes "md"
    then codes "text/markdown"
    else if ext == codes "txt"
    then codes "text/plain"
    else if ext == codes "json"
    then codes "config/json"
    else if ext == codes "yaml" || ext == codes "yml"
    then codes "config/yaml"
    else if ext == codes "toml"
    then codes "config/toml"
    else if ext == codes "png" || ext == codes "jpg" || ext == codes "jpeg" || ext == codes "gif"
    then codes "image"
    else if ext == codes "key" || ext == codes "pem" || ext == codes "secret" || ext == codes "env"
    then codes "secret"
    else codes "file"

-- The frontier is a stack; its top comes first here.
abbrev pub push_all : List Bytes → List Bytes → List Bytes
push_all [] frontier = frontier
push_all (p ∷ parents) frontier = push_all parents (p ∷ frontier)

abbrev parents_of : Option Commit → List Bytes
parents_of none = []
parents_of (some commit) = commit.parents

-- `commit_at` gives the commits that who asks can open. The number is that of the steps left.
module _ (commit_at : Bytes → Option Commit) where
  unfoldable pub search_from : Bytes → ℕ → List Bytes → Bool
  search_from old steps [] = false
  search_from old zero (id ∷ frontier) = id == old
  search_from old (suc steps) (id ∷ frontier) =
      let more = search_from old steps (push_all (parents_of (commit_at id)) frontier) in
      if id == old then true else more

  -- `Repo::is_descendant`
  unfoldable pub is_descendant : Bytes → Bytes → Bool
  unfolding search_from
  is_descendant old new = search_from old 10000 (new ∷ [])
