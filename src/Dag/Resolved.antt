-- ===== src/Dag/Resolved.antt =====
-- How the three entries of one name resolve in a merge (merge.rs, three_way and diverged).
use close_common.Common.{
  ◌≡◌, refl, true, false, none, some, Option, arith, Bool-cases, inl, inr, ◌⊎◌, ap, &&-eq-true,
  ◌&&◌,
}
use close_common.Common.Bytes.{◌==◌, ==→eq, eq→==}
use close_common.Dag.{
  Load, Tree, TreeEntry, MergedTree, MergedEntry, conflict, subtree, outcome, same_opt, take_opt,
  is_tree, same, diverged, opened, present, load_base, subtree_of,
}

-- No entry on either side, or entries of one content and close
abbrev pub Agree : (a d : Option TreeEntry) → Type 0
Agree none none = Unit
Agree (some a) (some d) = (a.plain ≡ d.plain) × (a.close ≡ d.close)
Agree _ _ = ⊥

same_opt-Agree : (a d : Option TreeEntry) → same_opt a d ≡ true → Agree a d
unfolding same_opt same
same_opt-Agree none none h = tt
same_opt-Agree none (some d) h = absurd (cc h)
same_opt-Agree (some a) none h = absurd (cc h)
same_opt-Agree (some a) (some d) h =
    let (p, q) = &&-eq-true (a.plain == d.plain) (a.close == d.close) h in
    (==→eq a.plain d.plain p, ==→eq a.close d.close q)

same_opt-apart : (a d : Option TreeEntry) → same_opt a d ≡ false → ¬ Agree a d
unfolding same_opt same
same_opt-apart none none h = cc
same_opt-apart none (some d) h = λ e. e
same_opt-apart (some a) none h = λ e. e
same_opt-apart (some a) (some d) h =
    λ (p, q). ground (arith, h, eq→== a.plain d.plain p, eq→== a.close d.close q)

-- Both entries are trees of one close.
abbrev pub AreTrees : (o t : TreeEntry) → Type 0
AreTrees o t = (is_tree o.kind ≡ true) × (is_tree t.kind ≡ true) × (o.close ≡ t.close)

-- What entries that both sides changed make together: the merge of their trees, a sealed conflict where
-- a tree does not open, and an ordinary conflict where they are not two trees of one close
abbrev pub Joins :
    Load
    → (Option Tree → Tree → Tree → Option MergedTree)
    → (b o t : Option TreeEntry) → MergedEntry
    → Type 0
Joins load merge b (some o) (some t) e =
    (AreTrees o t
      × ((x : Tree) × (y : Tree) × (m : MergedTree) × (load o.cipher ≡ some x)
          × (load t.cipher ≡ some y)
          × (merge (load_base load b) x y ≡ some m)
          × (e ≡ subtree m)))
    ⊎ ((AreTrees o t
          × ((load o.cipher ≡ none) ⊎ (load t.cipher ≡ none))
          × (e ≡ conflict b (some o) (some t) true))
        ⊎ ((¬ AreTrees o t) × (e ≡ conflict b (some o) (some t) false)))
Joins load merge b o t e = e ≡ conflict b o t false

module _ (load : Load) (merge : Option Tree → Tree → Tree → Option MergedTree)
    (b : Option TreeEntry) where
  opened-Joins :
      (o t : TreeEntry) (e : MergedEntry) (x y : Option Tree)
      → AreTrees o t
      → load o.cipher ≡ x
      → load t.cipher ≡ y
      → opened load merge b (some o) (some t) x y ≡ some e
      → Joins load merge b (some o) (some t) e
  unfolding opened
  opened-Joins o t e none y trees shut h k = inr (inl (trees, inl shut, cc k))
  opened-Joins o t e (some x) none trees h shut k = inr (inl (trees, inr shut, cc k))
  opened-Joins o t e (some x) (some y) trees h h' k = at (merge (load_base load b) x y) refl k
    where
      at :
          (m : Option MergedTree)
          → merge (load_base load b) x y ≡ m
          → subtree_of m ≡ some e
          → Joins load merge b (some o) (some t) e
      at none is k = absurd (cc k)
      at (some m) is k = inl (trees, (x, y, m, h, h', is, cc k))

  diverged-Joins :
      (o t : Option TreeEntry) (e : MergedEntry)
      → diverged load merge b o t ≡ some e
      → Joins load merge b o t e
  unfolding diverged
  diverged-Joins none t e h = cc h
  diverged-Joins (some o) none e h = cc h
  diverged-Joins (some o) (some t) e h =
      elim (Bool-cases (is_tree o.kind && (is_tree t.kind && o.close == t.close))) [
        | inl both ↦
            let (ours, rest) = &&-eq-true (is_tree o.kind) _ both in
            let (theirs, close) = &&-eq-true (is_tree t.kind) _ rest in
            opened-Joins o t e (load o.cipher) (load t.cipher)
              (ours, theirs, ==→eq o.close t.close close) refl refl (ground (arith, h, both))
        | inr other ↦ inr (
            inr (
              λ (ours, theirs, close).
                  ground (arith, other, ours, theirs, eq→== o.close t.close close),
              ground (arith, h, other),
            ))
      ]

-- How the entries of one name resolve
abbrev pub Resolves :
    Load
    → (Option Tree → Tree → Tree → Option MergedTree)
    → (b o t : Option TreeEntry) → Option MergedEntry
    → Type 0
Resolves load merge b o t x =
    (Agree o t × (x ≡ take_opt o))
    ⊎ (((¬ Agree o t) × Agree o b × (x ≡ take_opt t))
        ⊎ (((¬ Agree o t) × (¬ Agree o b) × Agree t b × (x ≡ take_opt o))
            ⊎ ((¬ Agree o t)
                × (¬ Agree o b)
                × (¬ Agree t b)
                × ((e : MergedEntry) × Joins load merge b o t e × (x ≡ some e)))))

pub outcome-Resolves :
    (load : Load) (merge : Option Tree → Tree → Tree → Option MergedTree) (b o t : Option TreeEntry)
    (x : Option MergedEntry)
    → outcome load merge b o t ≡ some x
    → Resolves load merge b o t x
unfolding outcome
outcome-Resolves load merge b o t x h = elim (Bool-cases (same_opt o t)) [
  | inl alike ↦ inl (same_opt-Agree o t alike, ground (arith, h, alike))
  | inr apart ↦ elim (Bool-cases (same_opt o b)) [
    | inl kept ↦
        inr
          (inl (same_opt-apart o t apart, same_opt-Agree o b kept, ground (arith, h, apart, kept)))
    | inr ours ↦ elim (Bool-cases (same_opt t b)) [
      | inl kept ↦ inr (
          inr (
            inl (
              same_opt-apart o t apart,
              same_opt-apart o b ours,
              same_opt-Agree t b kept,
              ground (arith, h, apart, ours, kept),
            )))
      | inr theirs ↦ inr (
          inr (
            inr (
              same_opt-apart o t apart,
              same_opt-apart o b ours,
              same_opt-apart t b theirs,
              made (diverged load merge b o t) refl (ground (arith, h, apart, ours, theirs)),
            )))
    ]
  ]
]
  where
    made :
        (d : Option MergedEntry)
        → diverged load merge b o t ≡ d
        → present load merge (diverged load merge b o t) ≡ some x
        → (e : MergedEntry) × Joins load merge b o t e × (x ≡ some e)
    made none is h = absurd (cc (h, ap (present load merge) is))
    made (some e) is h =
        (e, diverged-Joins load merge b o t e is, cc (h, ap (present load merge) is))
