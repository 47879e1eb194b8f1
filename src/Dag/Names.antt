-- ===== src/Dag/Names.antt =====
-- The names that a merge goes through (merge.rs).
use close_common.Common.{◌≡◌, refl, Bool, false, ◌||◌, none, Option, List, [], ◌∷◌, arith}
use close_common.Common.Bytes.{Text, ◌==◌}
use close_common.Common.Map
use close_common.Common.Map.{Map, get-insert}
use close_common.Dag.{Tree, TreeEntry, NameSet, extend, entries_of, names_of}

abbrev pub listed : Text → List Text → Bool
listed k [] = false
listed k (n ∷ names) = n == k || listed k names

get-keys : {V : Type 0} (k : Text) (m : Map V) → listed k (Map.keys m) ≡ false → Map.get k m ≡ none
unfolding Map.get Map.keys
get-keys k [] h = refl
get-keys k ((j, v) ∷ m) h = ground (arith, get-keys k m)

get-extend :
    (k : Text) (entries : Map TreeEntry) (names : NameSet)
    → Map.get k (extend entries names) ≡ none
    → (Map.get k entries ≡ none) × (Map.get k names ≡ none)
unfolding extend Map.get
get-extend k [] names h = (refl, h)
get-extend k ((j, v) ∷ entries) names h =
    let (p, q) = get-extend k entries (Map.insert j tt names) h in
    ground (arith, get-insert j k tt names)

pub unlisted :
    (k : Text) (base : Option Tree) (ours theirs : Tree)
    → listed k (names_of base ours theirs) ≡ false
    → (Map.get k (entries_of base) ≡ none)
      × (Map.get k ours.entries ≡ none)
      × (Map.get k theirs.entries ≡ none)
unfolding names_of
unlisted k base ours theirs h =
    let (t, p) = get-extend k theirs.entries _ (get-keys k _ h) in
    let (o, q) = get-extend k ours.entries _ p in
    let (b, _) = get-extend k (entries_of base) [] q in (b, o, t)
