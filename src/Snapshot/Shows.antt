-- ===== src/Snapshot/Shows.antt =====
-- What a snapshot of a directory shows in the store: every file at its path (repo.rs, snap_dir).
use close_common.Common.{
  ◌≡◌, inl, inr, sym, ◌∙◌, ap, subst, List, [], ◌∷◌, Option, none, some, false, ◌&&◌, if◌then◌else◌,
  Result, ok, ok_or-eq-ok, ok-injective, Option-cases, some-injective,
}
use close_common.Common.Bytes.{Bytes, Text, ◌==◌}
use close_common.Common.Map
use close_common.Common.Map.{Map, get-insert}
use close_common.Crypto.{Crypto}
use close_common.Close.{CloseRecord}
use close_common.Seal.{SealedObject}
use close_common.Dag.{Tree, TreeEntry, is_tree}
use close_common.Repo.{or_else}
use close_common.Store.{Store}
use close_common.World.{Codecs, World, RepoError, cannot_write}
use close_common.World.Files.{load_close, key_for, current_content_key, open_tree, open_blob}
use close_common.Snapshot.{Node, file, dir, Listing, empty, item, is_kept, writing_key}
use close_common.Snapshot.Sealed.{at, Holds, Keeps, Grown, Grown-trans, Keeps-Holds, Put}

-- The entry of a name that is kept; the last one, should names be equal.
abbrev pub child : Text → Listing → Option Node
child name empty = none
child name (item n node rest) =
    or_else (child name rest) (if is_kept n && n == name then some node else none)

-- The bytes of the file at a path.
abbrev pub lookup : List Text → Node → Option Bytes
lookup [] (file bytes) = some bytes
lookup [] (dir listing) = none
lookup (name ∷ path) (file bytes) = none
lookup (name ∷ path) (dir listing) = elim (child name listing) [
  | none ↦ none
  | some node ↦ lookup path node
]

module _ (c : Crypto) (k : Codecs) (w : World) where
  -- Whoever runs the program opens the trees along the path, and the object at its end to the bytes.
  abbrev pub Shows : Store → List Text → Bytes → Bytes → Type 0
  Shows s [] id bytes =
      (o : SealedObject) × Holds c k w s id o
      × (is_tree o.kind ≡ false)
      × (open_blob k (at w s) c w.me o ≡ some bytes)
  Shows s (name ∷ path) id bytes =
      (o : SealedObject) × (t : Tree) × (e : TreeEntry) × Holds c k w s id o
      × (open_tree k (at w s) c w.me o ≡ some t)
      × (Map.get name t.entries ≡ some e)
      × Shows s path e.cipher bytes

  pub Keeps-Shows :
      (s s' : Store) (path : List Text) (id bytes : Bytes)
      → Keeps c k w s s'
      → Shows s path id bytes
      → Shows s' path id bytes
  unfolding open_blob open_tree key_for load_close
  Keeps-Shows s s' [] id bytes g (o, holds, leaf, opens) =
      (o, Keeps-Holds c k w s s' id o g holds, leaf, opens)
  Keeps-Shows s s' (name ∷ path) id bytes g (o, t, e, holds, opens, there, rest) = (
    o,
    t,
    e,
    Keeps-Holds c k w s s' id o g holds,
    opens,
    there,
    Keeps-Shows s s' path e.cipher bytes g rest,
  )

  abbrev pub AllShow : Store → Node → Bytes → Type 0
  AllShow s node id =
      (path : List Text) (bytes : Bytes) → lookup path node ≡ some bytes → Shows s path id bytes

  pub record Snapped (node : Node) (s : Store) (e : TreeEntry) (w' : World) : Type 0 where
    pub store : Store
    pub after : w' ≡ at w store
    pub grown : Grown c k w s store
    pub shows : AllShow store node e.cipher

  pub record SnappedAll (listing : Listing) (s : Store) (before entries : Map TreeEntry)
      (w' : World) : Type 0 where
    pub store : Store
    pub after : w' ≡ at w store
    pub grown : Grown c k w s store
    pub others :
        (name : Text) → child name listing ≡ none → Map.get name entries ≡ Map.get name before
    pub shown :
        (name : Text) (node : Node)
        → child name listing ≡ some node
        → (e : TreeEntry) × (Map.get name entries ≡ some e) × AllShow store node e.cipher

  pub file-AllShow :
      (s : Store) (bytes id : Bytes) → Shows s [] id bytes → AllShow s (file bytes) id
  file-AllShow s bytes id shown [] b h =
      subst (λ (x : Bytes). Shows s [] id x) (some-injective bytes b h) shown
  file-AllShow s bytes id shown (name ∷ path) b h = cc

  pub dir-AllShow :
      (s : Store) (listing : Listing) (id : Bytes) (o : SealedObject) (t : Tree)
      → Holds c k w s id o
      → open_tree k (at w s) c w.me o ≡ some t
      → ((name : Text) (node : Node)
          → child name listing ≡ some node
          → (e : TreeEntry) × (Map.get name t.entries ≡ some e) × AllShow s node e.cipher)
      → AllShow s (dir listing) id
  dir-AllShow s listing id o t holds opens shown [] b h = cc
  dir-AllShow s listing id o t holds opens shown (name ∷ path) b h =
      elim (Option-cases (child name listing)) [
        | inl gone ↦ absurd (
            cc (
              h,
              ap
                  (λ (x : Option Node). elim x as (λ x. Option Bytes) [
                    | none ↦ none
                    | some node ↦ lookup path node
                  ])
                  gone,
            ))
        | inr (node, there) ↦
            let (e, entry, all) = shown name node there in
            (
              o,
              t,
              e,
              holds,
              opens,
              entry,
              all path b (
                  sym (
                    ap
                      (λ (x : Option Node). elim x as (λ x. Option Bytes) [
                        | none ↦ none
                        | some node ↦ lookup path node
                      ])
                      there)
                  ∙ h),
            )
      ]

  -- The key that was written with is the current one.
  pub current_key :
      (s : Store) (r : CloseRecord) (key : Bytes)
      → writing_key c k (at w s) r ≡ ok key
      → current_content_key k w c w.me r ≡ some key
  unfolding writing_key current_content_key key_for
  current_key s r key h = ok_or-eq-ok _ cannot_write h

  -- The step's result, from what it has put
  pub snapped :
      (node : Node) (s s' : Store) (o : SealedObject) (made e : TreeEntry) (v w' : World)
      → Grown c k w s s'
      → (p : Put c k w s' o made.cipher v) → AllShow p.store node made.cipher
      → ◌≡◌ {A = Result RepoError TreeEntry × World} (ok made, v) (ok e, w')
      → Snapped node s e w'
  snapped node s s' o made e v w' grown p all done = record {
    store = p.store;
    after = sym (ap (λ (x : Result RepoError TreeEntry × World). x.1) done) ∙ p.after;
    grown = Grown-trans c k w s s' p.store grown p.grown;
    shows =
        subst (λ (x : TreeEntry). AllShow p.store node x.cipher)
          (ok-injective (ap (λ (x : Result RepoError TreeEntry × World). x.0) done)) all;
  }
