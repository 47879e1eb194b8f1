-- ===== src/Dag.antt =====
-- cc-dag/src/tree.rs, commit.rs and merge.rs: trees, commits, and the three-way merge.
pub mod Names
pub mod Merge
pub mod Resolved
pub mod Conflicts
pub mod Depth
use close_common.Common.{
  ℕ, zero, suc, ◌&&◌, List, [], ◌∷◌, ◌++◌, Option, none, some, Bool, true, false, if◌then◌else◌,
}
use close_common.Common.Bytes.{Bytes, Text, ◌==◌, codes}
use close_common.Common.Map
use close_common.Common.Map.{Map}
use close_common.Seal.{ObjectKind, blob, tree, commit, note, receipt, transition}

pub data EntryCard : Type 0 where
  outline : (content_type size_class : Text) → EntryCard
  counted : EntryCard
  dark : EntryCard

pub record TreeEntry : Type 0 where
  pub kind : ObjectKind
  pub close : Bytes
  pub plain : Bytes
  pub cipher : Bytes
  pub card : EntryCard

pub record Tree : Type 0 where
  pub entries : Map TreeEntry

pub record Commit : Type 0 where
  pub tree : Bytes
  pub tree_plain : Bytes
  pub parents : List Bytes
  pub author : Text
  pub message : Text
  pub when : ℕ

-- `TreeSource::load`; `none` is a subtree that is sealed for the merger or absent.
abbrev pub Load : Type 0
Load = Bytes → Option Tree

-- The entries of a `MergedTree`, in the order of their names.
mutual
  pub data MergedEntry : Type 0 where
    take : TreeEntry → MergedEntry
    subtree : MergedTree → MergedEntry
    conflict : (base ours theirs : Option TreeEntry) (sealed : Bool) → MergedEntry

  pub data MergedTree : Type 0 where
    nil : MergedTree
    entry : Text → MergedEntry → MergedTree → MergedTree

unfoldable pub same : TreeEntry → TreeEntry → Bool
same a b = a.plain == b.plain && a.close == b.close

unfoldable pub same_opt : Option TreeEntry → Option TreeEntry → Bool
unfolding same
same_opt none none = true
same_opt (some a) (some b) = same a b
same_opt _ _ = false

abbrev pub is_tree : ObjectKind → Bool
is_tree tree = true
is_tree _ = false

-- The set of names: a map to nothing.
abbrev NameSet : Type 0
NameSet = Map (Unit {0})

extend : Map TreeEntry → NameSet → NameSet
extend [] names = names
extend ((name, _) ∷ entries) names = extend entries (Map.insert name tt names)

abbrev pub entries_of : Option Tree → Map TreeEntry
entries_of none = []
entries_of (some t) = t.entries

unfoldable pub names_of : Option Tree → Tree → Tree → List Text
unfolding extend
names_of base ours theirs =
    Map.keys (extend theirs.entries (extend ours.entries (extend (entries_of base) [])))

abbrev pub take_opt : Option TreeEntry → Option MergedEntry
take_opt none = none
take_opt (some e) = some (take e)

-- `base.and_then(|b| source.load(&b.cipher))`
abbrev load_base : Load → Option TreeEntry → Option Tree
load_base load none = none
load_base load (some b) = load b.cipher

abbrev subtree_of : Option MergedTree → Option MergedEntry
subtree_of none = none
subtree_of (some m) = some (subtree m)

-- `merge` is the recursive call of `three_way`, and `none` means that it ran out of fuel.
module _ (load : Load) (merge : Option Tree → Tree → Tree → Option MergedTree) where
  opened : (base ours theirs : Option TreeEntry) → Option Tree → Option Tree → Option MergedEntry
  opened base ours theirs (some ot) (some tt') = subtree_of (merge (load_base load base) ot tt')
  opened base ours theirs _ _ = some (conflict base ours theirs true)

  diverged_both : Option TreeEntry → TreeEntry → TreeEntry → Option MergedEntry
  diverged_both base o t =
      if is_tree o.kind && (is_tree t.kind && o.close == t.close)
      then opened base (some o) (some t) (load o.cipher) (load t.cipher)
      else some (conflict base (some o) (some t) false)

  unfoldable pub diverged : (base ours theirs : Option TreeEntry) → Option MergedEntry
  unfolding opened diverged_both
  diverged base (some o) (some t) = diverged_both base o t
  diverged base ours theirs = some (conflict base ours theirs false)

  abbrev present : Option MergedEntry → Option (Option MergedEntry)
  present none = none
  present (some e) = some (some e)

  -- The outcome for one name, from its entries; an inner `none` is a name that is left out.
  unfoldable pub outcome : (base ours theirs : Option TreeEntry) → Option (Option MergedEntry)
  outcome b o t =
      if same_opt o t
      then some (take_opt o)
      else if same_opt o b
      then some (take_opt t)
      else if same_opt t b
      then some (take_opt o)
      else present (diverged b o t)

  abbrev add : Text → Option (Option MergedEntry) → Option MergedTree → Option MergedTree
  add name none rest = none
  add name (some none) rest = rest
  add name (some (some e)) none = none
  add name (some (some e)) (some m) = some (entry name e m)

  -- The loop over the names, which come in ascending order.
  unfoldable pub merge_names : Option Tree → Tree → Tree → List Text → Option MergedTree
  unfolding outcome
  merge_names base ours theirs [] = some nil
  merge_names base ours theirs (name ∷ names) =
      add name
        (outcome (Map.get name (entries_of base)) (Map.get name ours.entries)
          (Map.get name theirs.entries))
        (merge_names base ours theirs names)

unfoldable pub three_way : Load → ℕ → Option Tree → Tree → Tree → Option MergedTree
unfolding merge_names names_of
three_way load zero base ours theirs = none
three_way load (suc fuel) base ours theirs =
    merge_names load (three_way load fuel) base ours theirs (names_of base ours theirs)

abbrev join_path : Text → Text → Text
join_path prefix name = if prefix == [] then name else prefix ++ (codes "/" ++ name)

unfoldable mutual
  -- `MergedTree::walk`
  pub walk : MergedTree → Text → List (Text × Bool) → List (Text × Bool)
  walk nil prefix out = out
  walk (entry name e rest) prefix out = walk rest prefix (walk_entry e (join_path prefix name) out)

  pub walk_entry : MergedEntry → Text → List (Text × Bool) → List (Text × Bool)
  walk_entry (take e) path out = out
  walk_entry (subtree t) path out = walk t path out
  walk_entry (conflict b o t sealed) path out = out ++ (path, sealed) ∷ []

unfoldable pub conflicts : MergedTree → List (Text × Bool)
unfolding walk
conflicts m = walk m [] []

abbrev is_empty {ℓ} : {A : Type ℓ} → List A → Bool
is_empty [] = true
is_empty (x ∷ xs) = false

unfoldable pub is_clean : MergedTree → Bool
unfolding conflicts
is_clean m = is_empty (conflicts m)

-- `merged.entries.get(name)`
unfoldable pub find : Text → MergedTree → Option MergedEntry
find name nil = none
find name (entry n e rest) = if n == name then some e else find name rest
