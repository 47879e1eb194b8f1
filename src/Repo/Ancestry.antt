-- ===== src/Repo/Ancestry.antt =====
-- What the ancestry oracle of the forward-only guard says.
use close_common.Common.{
  ℕ, zero, suc, ◌≡◌, refl, true, false, Bool, Bool-cases, inl, inr, ◌⊎◌, ◌||◌, List, [], ◌∷◌,
  Option, some, Option-cases, arith, subst, sym, ap, ◌∙◌,
}
use close_common.Common.Bytes.{Bytes, ◌==◌, ==→eq, eq→==}
use close_common.Dag.{Commit}
use close_common.Repo.{push_all, parents_of, search_from, is_descendant}

abbrev pub member : Bytes → List Bytes → Bool
member x [] = false
member x (y ∷ ys) = y == x || member x ys

member-push_all :
    (x : Bytes) (parents frontier : List Bytes)
    → member x (push_all parents frontier) ≡ true
    → (member x parents ≡ true) ⊎ (member x frontier ≡ true)
member-push_all x [] frontier h = inr h
member-push_all x (p ∷ parents) frontier h = elim (member-push_all x parents (p ∷ frontier) h) [
  | inl early ↦ inl (ground (arith, early))
  | inr late ↦ ground (arith, late)
]

own : (x : Bytes) (xs : List Bytes) → member x (x ∷ xs) ≡ true
own x xs = rw (eq→== x x refl)

only : (x y : Bytes) → member x (y ∷ []) ≡ true → y ≡ x
only x y h = ==→eq y x (ground (arith, h))

module _ (commit_at : Bytes → Option Commit) where
  -- `old` is the commit, or is reached from it over the parents of commits that can be opened.
  pub data Descends (old : Bytes) : Bytes → Type 0 where
    here : Descends old old
    over :
        {id : Bytes} (commit : Commit) (p : Bytes)
        → commit_at id ≡ some commit
        → member p commit.parents ≡ true
        → Descends old p
        → Descends old id

  found_here :
      (old id : Bytes) (frontier : List Bytes)
      → (id == old) ≡ true
      → (x : Bytes) × (member x (id ∷ frontier) ≡ true) × Descends old x
  found_here old id frontier h =
      (id, own id frontier, subst (Descends old) (sym (==→eq id old h)) here)

  by_parents :
      (old id p : Bytes)
      → member p (parents_of (commit_at id)) ≡ true
      → Descends old p
      → Descends old id
  by_parents old id p m d = elim (Option-cases (commit_at id)) [
    | inl shut ↦
        absurd (ground (arith, ap (λ (o : Option Commit). member p (parents_of o)) shut, m))
    | inr (commit, there) ↦
        over commit p there (ap (λ (o : Option Commit). member p (parents_of o)) (sym there) ∙ m) d
  ]

  search_from-Descends :
      (old : Bytes) (steps : ℕ) (frontier : List Bytes)
      → search_from commit_at old steps frontier ≡ true
      → (id : Bytes) × (member id frontier ≡ true) × Descends old id
  unfolding search_from
  search_from-Descends old steps [] h = absurd (ground arith)
  search_from-Descends old zero (id ∷ frontier) h = found_here old id frontier h
  search_from-Descends old (suc steps) (id ∷ frontier) h = elim (Bool-cases (id == old)) [
    | inl found ↦ found_here old id frontier found
    | inr on ↦
        let more : search_from commit_at old steps (push_all (parents_of (commit_at id)) frontier)
            ≡ true =
          ground (arith, h, on) in
        let (x, m, d) =
          search_from-Descends old steps (push_all (parents_of (commit_at id)) frontier) more in
        elim (member-push_all x (parents_of (commit_at id)) frontier m) [
          | inl parent ↦ (id, own id frontier, by_parents old id x parent d)
          | inr waiting ↦ (x, ground (arith, waiting), d)
        ]
  ]

  -- Where the oracle says that a commit descends from another, it does, over parents that can be
  -- opened.
  pub is_descendant-Descends :
      (old new : Bytes) → is_descendant commit_at old new ≡ true → Descends old new
  unfolding is_descendant
  is_descendant-Descends old new h =
      let (id, m, d) = search_from-Descends old 10000 (new ∷ []) h in
      subst (Descends old) (sym (only id new m)) d
