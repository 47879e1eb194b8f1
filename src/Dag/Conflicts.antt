-- ===== src/Dag/Conflicts.antt =====
-- `is_clean` and `conflicts`, against a reading of the merged tree at every depth.
use close_common.Common.{◌≡◌, refl, ◌↔◌, Bool, true, List, [], ◌∷◌, ◌++◌, sym, ◌∙◌, ap}
use mathlib.Core.List.{append-nil, append_assoc}
use close_common.Common.Bytes.{Text}
use close_common.Dag.{
  MergedEntry, MergedTree, nil, entry, take, subtree, conflict, walk, walk_entry, is_clean,
  join_path, is_empty,
}

-- No entry, at any depth, is a conflict.
mutual
  pub NoConflict : MergedTree → Type 0
  NoConflict nil = Unit
  NoConflict (entry name e rest) = NoConflictAt e × NoConflict rest

  pub NoConflictAt : MergedEntry → Type 0
  NoConflictAt (take e) = Unit
  NoConflictAt (subtree m) = NoConflict m
  NoConflictAt (conflict b o t sealed) = ⊥

-- The conflicts below a path, in the order of the names.
mutual
  listing : MergedTree → Text → List (Text × Bool)
  listing nil prefix = []
  listing (entry name e rest) prefix =
      listing_entry e (join_path prefix name) ++ listing rest prefix

  listing_entry : MergedEntry → Text → List (Text × Bool)
  listing_entry (take e) path = []
  listing_entry (subtree m) path = listing m path
  listing_entry (conflict b o t sealed) path = (path, sealed) ∷ []

mutual
  unfolding walk listing

  walk-listing :
      (m : MergedTree) (prefix : Text) (out : List (Text × Bool))
      → walk m prefix out ≡ out ++ listing m prefix
  walk-listing nil prefix out = sym (append-nil out)
  walk-listing (entry name e rest) prefix out =
      walk-listing rest prefix (walk_entry e (join_path prefix name) out)
      ∙ ap (λ (l : List (Text × Bool)). l ++ listing rest prefix)
          (walk_entry-listing e (join_path prefix name) out)
      ∙ append_assoc out (listing_entry e (join_path prefix name)) (listing rest prefix)

  walk_entry-listing :
      (e : MergedEntry) (path : Text) (out : List (Text × Bool))
      → walk_entry e path out ≡ out ++ listing_entry e path
  walk_entry-listing (take e) path out = sym (append-nil out)
  walk_entry-listing (subtree m) path out = walk-listing m path out
  walk_entry-listing (conflict b o t sealed) path out = refl

empty-append :
    (xs ys : List (Text × Bool))
    → is_empty (xs ++ ys) ≡ true
    → (is_empty xs ≡ true) × (is_empty ys ≡ true)
empty-append [] ys h = (refl, h)
empty-append (x ∷ xs) ys h = cc

append-empty :
    (xs ys : List (Text × Bool))
    → is_empty xs ≡ true
    → is_empty ys ≡ true
    → is_empty (xs ++ ys) ≡ true
append-empty [] ys h k = k
append-empty (x ∷ xs) ys h k = cc

mutual
  unfolding listing NoConflict

  listing-NoConflict :
      (m : MergedTree) (prefix : Text) → is_empty (listing m prefix) ≡ true → NoConflict m
  listing-NoConflict nil prefix h = tt
  listing-NoConflict (entry name e rest) prefix h =
      let (p, q) = empty-append (listing_entry e (join_path prefix name)) (listing rest prefix) h in
      (listing_entry-NoConflictAt e (join_path prefix name) p, listing-NoConflict rest prefix q)

  listing_entry-NoConflictAt :
      (e : MergedEntry) (path : Text) → is_empty (listing_entry e path) ≡ true → NoConflictAt e
  listing_entry-NoConflictAt (take e) path h = tt
  listing_entry-NoConflictAt (subtree m) path h = listing-NoConflict m path h
  listing_entry-NoConflictAt (conflict b o t sealed) path h = cc

mutual
  unfolding listing NoConflict

  NoConflict-listing :
      (m : MergedTree) (prefix : Text) → NoConflict m → is_empty (listing m prefix) ≡ true
  NoConflict-listing nil prefix h = refl
  NoConflict-listing (entry name e rest) prefix h =
      append-empty (listing_entry e (join_path prefix name)) (listing rest prefix)
        (NoConflictAt-listing_entry e (join_path prefix name) h.0)
        (NoConflict-listing rest prefix h.1)

  NoConflictAt-listing_entry :
      (e : MergedEntry) (path : Text) → NoConflictAt e → is_empty (listing_entry e path) ≡ true
  NoConflictAt-listing_entry (take e) path h = refl
  NoConflictAt-listing_entry (subtree m) path h = NoConflict-listing m path h
  NoConflictAt-listing_entry (conflict b o t sealed) path h = absurd h

-- A merge is clean exactly when no entry of the merged tree is a conflict, at any depth.
pub is_clean_iff : (m : MergedTree) → (is_clean m ≡ true) ↔ NoConflict m
unfolding is_clean
is_clean_iff m = (
  λ h. listing-NoConflict m [] (ap is_empty (sym (walk-listing m [] [])) ∙ h),
  λ n. ap is_empty (walk-listing m [] []) ∙ NoConflict-listing m [] n,
)
