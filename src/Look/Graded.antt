-- ===== src/Look/Graded.antt =====
-- Each line that is shown of a tree, and what is shown of a path (main.rs, render_tree and look).
use close_common.Common.{
  ℕ, zero, suc, ◌≡◌, refl, sym, subst, List, [], ◌∷◌, Option, none, some, >>=-eq-ok, Result, ok,
  err, arith, Bool-cases, inl, inr, All, All-append,
}
use close_common.Common.Bytes.{Bytes, Text}
use close_common.Common.Map.{Map}
use close_common.Crypto.{Crypto}
use close_common.Seal.{SealedObject}
use close_common.Dag.{Tree, TreeEntry, is_tree}
use close_common.World.{Codecs, World, RepoError}
use close_common.World.Files.{load_sealed, open_tree}
use close_common.Browse.{resolve_path}
use close_common.Look.{
  View, listed, drawer, leaf, unfinished, look, view_tree, view_lines, describe_leaf, line_of,
  Sight, missing, browsed, sealed_drawer, readable, sealed_file, labelled, Line, render_tree,
  render_loaded, render_opened, both, with_line,
}
use close_common.Look.Earned.{Sees, open_tree-Earns, file_sight-Sees}

module _ (c : Crypto) (k : Codecs) (w : World) (who : Text) where
  -- An object stands behind everything that is shown but a name whose object is not there.
  abbrev pub Seen : TreeEntry → Sight → Type 0
  Seen entry missing = Unit
  Seen entry sight =
      (o : SealedObject) × (load_sealed k w c entry.cipher ≡ ok o)
      × Sees c k w who entry.close o sight

  abbrev pub IsEarned : Line → Type 0
  IsEarned line = Seen line.entry line.sight

  Sees-Seen :
      (entry : TreeEntry) (o : SealedObject) (sight : Sight)
      → load_sealed k w c entry.cipher ≡ ok o
      → Sees c k w who entry.close o sight
      → Seen entry sight
  Sees-Seen entry o missing loads seen = tt
  Sees-Seen entry o browsed loads seen = (o, loads, seen)
  Sees-Seen entry o sealed_drawer loads seen = (o, loads, seen)
  Sees-Seen entry o readable loads seen = (o, loads, seen)
  Sees-Seen entry o sealed_file loads seen = (o, loads, seen)
  Sees-Seen entry o (labelled card) loads seen = (o, loads, seen)

  -- What is shown of a path: the lines of a listing, or the object there
  abbrev pub IsEarnedView : List Text → View → Type 0
  IsEarnedView path (listed lines) =
      ((o : SealedObject) × (resolve_path c k w who path ≡ ok o) × Sees c k w who o.close o browsed)
      × All IsEarned lines
  IsEarnedView path (drawer steward) = Unit
  IsEarnedView path (leaf sight steward) =
      (o : SealedObject) × (resolve_path c k w who path ≡ ok o) × Sees c k w who o.close o sight
  IsEarnedView path unfinished = Unit

  -- All lines of what is shown, where the fuel was enough
  abbrev AllEarned : Option (List Line) → Type 0
  AllEarned none = Unit
  AllEarned (some lines) = All IsEarned lines

  both-AllEarned : (a b : Option (List Line)) → AllEarned a → AllEarned b → AllEarned (both a b)
  both-AllEarned none b ha hb = tt
  both-AllEarned (some lines) none ha hb = tt
  both-AllEarned (some lines) (some more) ha hb = All-append IsEarned lines more ha hb

  with_line-AllEarned :
      (line : Line) (rest : Option (List Line))
      → IsEarned line
      → AllEarned rest
      → AllEarned (with_line line rest)
  with_line-AllEarned line none h rest = tt
  with_line-AllEarned line (some lines) h rest = (h, rest)

  module _ (deeper : Map TreeEntry → Option (List Line))
      (inside : (sub : Map TreeEntry) → AllEarned (deeper sub)) (line : Sight → Line)
      (entry : TreeEntry) (same_entry : (sight : Sight) → (line sight).entry ≡ entry)
      (same_sight : (sight : Sight) → (line sight).sight ≡ sight) where
    at_entry : (sight : Sight) → Seen entry sight → IsEarned (line sight)
    at_entry sight seen =
        subst (λ (e : TreeEntry). Seen e (line sight).sight) (sym (same_entry sight))
          (subst (Seen entry) (sym (same_sight sight)) seen)

    render_opened-AllEarned :
        (o : SealedObject) (t : Option Tree)
        → load_sealed k w c entry.cipher ≡ ok o
        → open_tree k w c who o ≡ t
        → AllEarned (render_opened c k w who deeper line t)
    render_opened-AllEarned o none loads h = (at_entry sealed_drawer (o, loads, tt), tt)
    render_opened-AllEarned o (some sub) loads h =
        with_line-AllEarned (line browsed) (deeper sub.entries)
          (at_entry browsed (o, loads, open_tree-Earns c k w who o h)) (inside sub.entries)

    render_loaded-AllEarned :
        (x : Result RepoError SealedObject)
        → load_sealed k w c entry.cipher ≡ x
        → AllEarned (render_loaded c k w who deeper line entry x)
    render_loaded-AllEarned (err e) h = (at_entry missing tt, tt)
    render_loaded-AllEarned (ok o) h = elim (Bool-cases (is_tree entry.kind)) [
      | inl folder ↦ rw folder (render_opened-AllEarned o (open_tree k w c who o) h refl)
      | inr file ↦
          rw file (at_entry _ (Sees-Seen entry o _ h (file_sight-Sees c k w who entry.close o)), tt)
    ]

  render_tree-AllEarned :
      (fuel : ℕ) (parent : Bytes) (depth : ℕ) (entries : Map TreeEntry)
      → AllEarned (render_tree c k w who fuel parent depth entries)
  unfolding render_tree
  render_tree-AllEarned fuel parent depth [] = tt
  render_tree-AllEarned zero parent depth ((name, entry) ∷ entries) =
      both-AllEarned _ _
        (render_loaded-AllEarned (λ sub. none) (λ sub. tt)
          (line_of c k w who parent depth name entry) entry (λ sight. refl) (λ sight. refl)
          (load_sealed k w c entry.cipher) refl)
        (render_tree-AllEarned zero parent depth entries)
  render_tree-AllEarned (suc fuel) parent depth ((name, entry) ∷ entries) =
      both-AllEarned _ _
        (render_loaded-AllEarned (render_tree c k w who fuel entry.close (suc depth))
          (render_tree-AllEarned fuel entry.close (suc depth))
          (line_of c k w who parent depth name entry) entry (λ sight. refl) (λ sight. refl)
          (load_sealed k w c entry.cipher) refl)
        (render_tree-AllEarned (suc fuel) parent depth entries)

  view_tree-IsEarned :
      (fuel : ℕ) (path : List Text) (o : SealedObject) (t : Option Tree)
      → resolve_path c k w who path ≡ ok o
      → open_tree k w c who o ≡ t
      → IsEarnedView path (view_tree c k w who fuel o t)
  view_tree-IsEarned fuel path o none resolves opens = tt
  view_tree-IsEarned fuel path o (some t) resolves opens =
      lines_earned (render_tree c k w who fuel o.close 1 t.entries)
        (render_tree-AllEarned fuel o.close 1 t.entries)
    where
      lines_earned :
          (x : Option (List Line)) → AllEarned x → IsEarnedView path (view_lines c k w who x)
      lines_earned none h = tt
      lines_earned (some lines) h = ((o, resolves, open_tree-Earns c k w who o opens), h)

  -- Whoever is shown a listing of a folder, that a folder in it opens, or a label, holds a grant
  -- that verifies now, of shape or more, on the close of the object, whose key leads to the epoch
  -- it was sealed in; and whoever is told that a file is readable holds such a grant of content,
  -- on the close that the tree names for it. A label that is shown is the one that the object
  -- opens to.
  pub look-IsEarned :
      (fuel : ℕ) (path : List Text) (v : View)
      → look c k w who fuel path ≡ ok v
      → IsEarnedView path v
  unfolding look
  look-IsEarned fuel path v h =
      let (o, resolves, h₁) = >>=-eq-ok (resolve_path c k w who path) _ h in
      elim (Bool-cases (is_tree o.kind)) [
        | inl folder ↦
            let same : view_tree c k w who fuel o (open_tree k w c who o) ≡ v =
              ground (arith, h₁, folder) in
            subst (IsEarnedView path) same
              (view_tree-IsEarned fuel path o (open_tree k w c who o) resolves refl)
        | inr file ↦
            let same : describe_leaf c k w who o ≡ v = ground (arith, h₁, file) in
            subst (IsEarnedView path) same (o, resolves, file_sight-Sees c k w who o.close o)
      ]
