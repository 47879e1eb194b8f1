-- ===== src/Dag/Depth.antt =====
-- The fuel of the merge, against the depth of the trees (merge.rs, three_way).
use close_common.Common.{
  ℕ, zero, suc, ◌<◌, ◌≡◌, ◌≢◌, refl, none, some, Option, List, [], ◌∷◌, arith, inl, inr,
  Option-cases,
}
use close_common.Common.Bytes.{Text, Bytes}
use close_common.Common.Map
use close_common.Common.Map.{Map}
use close_common.Dag.{
  Load, Tree, TreeEntry, MergedTree, MergedEntry, entries_of, names_of, outcome, add, merge_names,
  three_way, diverged, opened, load_base,
}

-- `rank` falls from a subtree that can be opened to the entries in it, as the address of a tree
-- is made from those of its entries.
abbrev pub IsRanked : Load → (Bytes → ℕ) → Type 0
IsRanked load rank =
    (cipher : Bytes) (t : Tree)
    → load cipher ≡ some t
    → (name : Text) (e : TreeEntry) → Map.get name t.entries ≡ some e
    → rank e.cipher < rank cipher

abbrev pub IsBelow : (Bytes → ℕ) → ℕ → Tree → Type 0
IsBelow rank n t =
    (name : Text) (e : TreeEntry) → Map.get name t.entries ≡ some e → rank e.cipher < n

module _ (load : Load) (rank : Bytes → ℕ) where
  -- Below rank `k`, every tree that can be opened is merged.
  module _ (merge : Option Tree → Tree → Tree → Option MergedTree) (k : ℕ)
      (ends : (e : TreeEntry) (ot : Tree)
        → rank e.cipher < k
        → load e.cipher ≡ some ot
        → (b : Option Tree) (t : Tree) → merge b ot t ≢ none) where
    opened-ne-none :
        (b t : Option TreeEntry) (o : TreeEntry) (x y : Option Tree)
        → rank o.cipher < k
        → load o.cipher ≡ x
        → opened load merge b (some o) t x y ≢ none
    unfolding opened
    opened-ne-none b t o none y below there = λ h. cc
    opened-ne-none b t o (some ot) none below there = λ h. cc
    opened-ne-none b t o (some ot) (some tt') below there =
        λ h. ground (arith, ends o ot below there (load_base load b) tt')

    diverged-ne-none :
        (b o t : Option TreeEntry)
        → ((e : TreeEntry) → o ≡ some e → rank e.cipher < k)
        → diverged load merge b o t ≢ none
    unfolding diverged
    diverged-ne-none b none t below = λ h. cc
    diverged-ne-none b (some o) none below = λ h. cc
    diverged-ne-none b (some o) (some t) below = λ h.
        ground
          (arith, opened-ne-none b (some t) o (load o.cipher) (load t.cipher) (below o refl) refl)

    outcome-ne-none :
        (b o t : Option TreeEntry)
        → ((e : TreeEntry) → o ≡ some e → rank e.cipher < k)
        → outcome load merge b o t ≢ none
    unfolding outcome
    outcome-ne-none b o t below = λ h. ground (arith, diverged-ne-none b o t below)

    add-ne-none :
        (name : Text) (o : Option (Option MergedEntry)) (rest : Option MergedTree)
        → o ≢ none
        → rest ≢ none
        → add load merge name o rest ≢ none
    add-ne-none name none rest ho hr = λ h. absurd (ho refl)
    add-ne-none name (some none) rest ho hr = hr
    add-ne-none name (some (some e)) none ho hr = λ h. absurd (hr refl)
    add-ne-none name (some (some e)) (some m) ho hr = λ h. cc

    merge_names-ne-none :
        (base : Option Tree) (ours theirs : Tree) (names : List Text)
        → IsBelow rank k ours
        → merge_names load merge base ours theirs names ≢ none
    unfolding merge_names
    merge_names-ne-none base ours theirs [] below = λ h. cc
    merge_names-ne-none base ours theirs (name ∷ names) below =
        add-ne-none name _ (merge_names load merge base ours theirs names)
          (outcome-ne-none (Map.get name (entries_of base)) (Map.get name ours.entries)
            (Map.get name theirs.entries) (below name))
          (merge_names-ne-none base ours theirs names below)

  module _ (ranked : IsRanked load rank) where
    three_way-ne-none :
        (fuel : ℕ) (base : Option Tree) (ours theirs : Tree)
        → IsBelow rank fuel ours
        → three_way load (suc fuel) base ours theirs ≢ none
    unfolding three_way
    three_way-ne-none zero base ours theirs below =
        merge_names-ne-none (three_way load zero) zero (λ e ot lt. absurd (omega arith)) base ours
          theirs (names_of base ours theirs) below
    three_way-ne-none (suc fuel) base ours theirs below =
        merge_names-ne-none (three_way load (suc fuel)) (suc fuel)
          (λ e ot lt there b t.
            three_way-ne-none fuel b ot t
              (λ name i found. omega (arith, ranked e.cipher ot there name i found)))
          base ours theirs (names_of base ours theirs) below

    -- Where rank falls from a tree that opens to its entries, the merge returns a merged tree with
    -- more fuel than the rank of every entry of our tree.
    pub three_way_total :
        (fuel : ℕ) (base : Option Tree) (ours theirs : Tree)
        → IsBelow rank fuel ours
        → (m : MergedTree) × (three_way load (suc fuel) base ours theirs ≡ some m)
    three_way_total fuel base ours theirs below =
        elim (Option-cases (three_way load (suc fuel) base ours theirs)) [
          | inl out ↦ absurd (three_way-ne-none fuel base ours theirs below out)
          | inr found ↦ found
        ]
