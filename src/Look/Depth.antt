-- ===== src/Look/Depth.antt =====
-- How much fuel the listing of a tree takes (main.rs, render_tree).
use close_common.Common.{
  ℕ, zero, suc, ◌<◌, ◌≤◌, ◌≡◌, refl, ◌++◌, List, [], ◌∷◌, Option, none, some, Result, ok, err,
  Bool-cases, inl, inr, All, arith,
}
use close_common.Common.Bytes.{Bytes, Text}
use close_common.Common.Map.{Map}
use close_common.Crypto.{Crypto}
use close_common.Seal.{SealedObject}
use close_common.Dag.{Tree, TreeEntry, is_tree}
use close_common.World.{Codecs, World, RepoError}
use close_common.World.Files.{load_sealed, open_tree}
use close_common.Look.{
  Line, Sight, browsed, render_tree, render_loaded, render_opened, both, line_of,
}

module _ (c : Crypto) (k : Codecs) (w : World) (who : Text) (rank : Bytes → ℕ) where
  -- The objects that the entries name have a rank below a bound.
  abbrev pub Below : ℕ → Map TreeEntry → Type 0
  Below n entries = All (λ x. rank x.1.cipher < n) entries

  lower : (n m : ℕ) (entries : Map TreeEntry) → n ≤ m → Below n entries → Below m entries
  lower n m [] le low = tt
  lower n m ((name, entry) ∷ entries) le (low, rest) =
      (omega (arith, le, low), lower n m entries le rest)

  -- The objects that a tree names have a lower rank than the tree.
  abbrev pub Falls : Type 0
  Falls =
      (id : Bytes) (o : SealedObject) (t : Tree)
      → load_sealed k w c id ≡ ok o
      → open_tree k w c who o ≡ some t
      → Below (rank id) t.entries

  abbrev Done : Option (List Line) → Type 0
  Done x = (lines : List Line) × (x ≡ some lines)

  both-Done : (a b : Option (List Line)) → Done a → Done b → Done (both a b)
  both-Done a b (xs, p) (ys, q) = (xs ++ ys, rw (p, q))

  render_loaded-Done :
      (deeper : Map TreeEntry → Option (List Line)) (line : Sight → Line) (entry : TreeEntry)
      (x : Result RepoError SealedObject)
      → ((o : SealedObject) (t : Tree)
          → x ≡ ok o
          → open_tree k w c who o ≡ some t
          → Done (deeper t.entries))
      → Done (render_loaded c k w who deeper line entry x)
  render_loaded-Done deeper line entry (err e) inside = (_, refl)
  render_loaded-Done deeper line entry (ok o) inside = elim (Bool-cases (is_tree entry.kind)) [
    | inl folder ↦ rw folder (opened (open_tree k w c who o) (λ t. inside o t refl))
    | inr file ↦ rw file (_, refl)
  ]
    where
      opened :
          (t : Option Tree)
          → ((s : Tree) → t ≡ some s → Done (deeper s.entries))
          → Done (render_opened c k w who deeper line t)
      opened none inside = (_, refl)
      opened (some t) inside = let (lines, p) = inside t refl in (line browsed ∷ lines, rw p refl)

  -- Where every tree names objects of a lower rank than its own, the listing of entries whose objects
  -- have a rank below the fuel comes to its end.
  pub render_tree_total :
      (fuel : ℕ) (parent : Bytes) (depth : ℕ) (entries : Map TreeEntry)
      → Falls
      → Below fuel entries
      → (lines : List Line) × (render_tree c k w who fuel parent depth entries ≡ some lines)
  unfolding render_tree
  render_tree_total fuel parent depth [] falls low = ([], refl)
  render_tree_total zero parent depth ((name, entry) ∷ entries) falls (low, rest) =
      absurd (omega (arith, low))
  render_tree_total (suc fuel) parent depth ((name, entry) ∷ entries) falls (low, rest) =
      both-Done _ _
        (render_loaded-Done (render_tree c k w who fuel entry.close (suc depth))
          (line_of c k w who parent depth name entry) entry (load_sealed k w c entry.cipher)
          (λ o t loads opens. render_tree_total fuel entry.close (suc depth) t.entries falls (
            lower (rank entry.cipher) fuel t.entries (omega (arith, low))
              (falls entry.cipher o t loads opens))))
        (render_tree_total (suc fuel) parent depth entries falls rest)
