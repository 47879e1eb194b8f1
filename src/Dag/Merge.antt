-- ===== src/Dag/Merge.antt =====
-- What a three-way merge does at each name.
use close_common.Common.{
  ℕ, suc, ◌≡◌, refl, true, false, if◌then◌else◌, none, some, Option, List, [], ◌∷◌, arith,
  Bool-cases, inl, inr, ◌⊎◌, ◌∙◌, ap, ◌↔◌,
}
use close_common.Common.Bytes.{Text, ◌==◌, ==→eq, eq→==}
use close_common.Common.Map
use close_common.Dag.{
  Load, Tree, TreeEntry, MergedTree, MergedEntry, entry, conflict, entries_of, names_of, outcome,
  add, merge_names, three_way, find, same_opt, take_opt, is_tree, same, diverged, opened,
}
use close_common.Dag.Names.{listed, unlisted}
use close_common.Dag.Resolved.{Resolves, outcome-Resolves}

module _ (load : Load) (merge : Option Tree → Tree → Tree → Option MergedTree) (base : Option Tree)
    (ours theirs : Tree) where
  abbrev outcome_at : Text → Option (Option MergedEntry)
  outcome_at name =
      outcome load merge (Map.get name (entries_of base)) (Map.get name ours.entries)
        (Map.get name theirs.entries)

  -- `m` holds the outcomes of `names`, and nothing at any other name.
  abbrev Holds : List Text → MergedTree → Text → Type 0
  Holds names m k =
      (listed k names ≡ true → outcome_at k ≡ some (find k m))
      × (listed k names ≡ false → find k m ≡ none)

  add-some :
      (name : Text) (o : Option (Option MergedEntry)) (rest : Option MergedTree) (m : MergedTree)
      → add load merge name o rest ≡ some m
      → ((o ≡ some none) × (rest ≡ some m))
        ⊎ ((e : MergedEntry) × (m' : MergedTree) × (o ≡ some (some e))
            × (rest ≡ some m')
            × (m ≡ entry name e m'))
  add-some name none rest m h = cc
  add-some name (some none) rest m h = inl (refl, h)
  add-some name (some (some e)) none m h = cc
  add-some name (some (some e)) (some m') m h = inr (e, m', refl, refl, cc)

  outcome_at-eq : (n k : Text) → (n == k) ≡ true → outcome_at n ≡ outcome_at k
  outcome_at-eq n k h = ap outcome_at (==→eq n k h)

  merge_names-Holds :
      (names : List Text) (m : MergedTree) (k : Text)
      → merge_names load merge base ours theirs names ≡ some m
      → Holds names m k
  unfolding merge_names find
  merge_names-Holds [] m k h = (λ p. cc, λ _. ground arith)
  merge_names-Holds (n ∷ names) m k h =
      elim (add-some n (outcome_at n) (merge_names load merge base ours theirs names) m h) [
        | inl (gone, rest) ↦
            let (on, off) = merge_names-Holds names m k rest in ground (arith, outcome_at-eq n k)
        | inr (e, m', there, rest, made) ↦
            let (on, off) = merge_names-Holds names m' k rest in
            rw made (ground (arith, outcome_at-eq n k))
      ]

-- Entries that agree with a third agree with each other.
same-common : (a d e : TreeEntry) → same a e ≡ true → same d e ≡ true → same a d ≡ true
unfolding same
same-common a d e h k = ground (
  arith,
  ==→eq a.plain e.plain,
  ==→eq d.plain e.plain,
  ==→eq a.close e.close,
  ==→eq d.close e.close,
  eq→== a.plain d.plain,
  eq→== a.close d.close,
)

same_opt-common :
    (a d e : Option TreeEntry) → same_opt a e ≡ true → same_opt d e ≡ true → same_opt a d ≡ true
unfolding same_opt
same_opt-common none none e h k = refl
same_opt-common none (some d) none h k = cc
same_opt-common none (some d) (some e) h k = cc
same_opt-common (some a) none none h k = cc
same_opt-common (some a) none (some e) h k = cc
same_opt-common (some a) (some d) none h k = cc
same_opt-common (some a) (some d) (some e) h k = same-common a d e h k

-- Both sides changed the entry, and differently.
abbrev pub Diverges : (b o t : Option TreeEntry) → Type 0
Diverges b o t = (same_opt o t ≡ false) × (same_opt o b ≡ false) × (same_opt t b ≡ false)

-- Both sides have a tree of one close there, and one of the two cannot be opened.
abbrev pub IsShut : Load → (o t : Option TreeEntry) → Type 0
IsShut load (some o) (some t) =
    (is_tree o.kind ≡ true)
    × (is_tree t.kind ≡ true)
    × (o.close ≡ t.close)
    × ((load o.cipher ≡ none) ⊎ (load t.cipher ≡ none))
IsShut load _ _ = ⊥

module _ (load : Load) (merge : Option Tree → Tree → Tree → Option MergedTree) where
  sealed-opened :
      (b o t : Option TreeEntry) (x y : Option Tree)
      → opened load merge b o t x y ≡ some (conflict b o t true)
      → (x ≡ none) ⊎ (y ≡ none)
  unfolding opened
  sealed-opened b o t none y h = inl refl
  sealed-opened b o t (some x) none h = inr refl
  sealed-opened b o t (some x) (some y) h = ground arith

  opened-sealed :
      (b o t : Option TreeEntry) (x y : Option Tree)
      → (x ≡ none) ⊎ (y ≡ none)
      → opened load merge b o t x y ≡ some (conflict b o t true)
  unfolding opened
  opened-sealed b o t none y h = refl
  opened-sealed b o t (some x) none h = refl
  opened-sealed b o t (some x) (some y) h = ground arith

  diverged-sealed :
      (b o t : Option TreeEntry)
      → (diverged load merge b o t ≡ some (conflict b o t true)) ↔ IsShut load o t
  unfolding diverged
  diverged-sealed b none t = (λ h. ground arith, λ h. absurd h)
  diverged-sealed b (some o) none = (λ h. ground arith, λ h. absurd h)
  diverged-sealed b (some o) (some t) = (
    λ h. ground (
      arith,
      ==→eq o.close t.close,
      sealed-opened b (some o) (some t) (load o.cipher) (load t.cipher),
    ),
    λ (ho, ht, same_close, shut).
        rw (ho, ht, eq→== o.close t.close same_close)
          (opened-sealed b (some o) (some t) (load o.cipher) (load t.cipher) shut),
  )

  outcome-sealed :
      (b o t : Option TreeEntry)
      → outcome load merge b o t ≡ some (some (conflict b o t true))
      → Diverges b o t × (diverged load merge b o t ≡ some (conflict b o t true))
  unfolding outcome
  outcome-sealed b none t h = ground arith
  outcome-sealed b (some o) none h = ground arith
  outcome-sealed b (some o) (some t) h = ground arith

  sealed-outcome :
      (b o t : Option TreeEntry)
      → Diverges b o t
      → diverged load merge b o t ≡ some (conflict b o t true)
      → outcome load merge b o t ≡ some (some (conflict b o t true))
  unfolding outcome
  sealed-outcome b o t (p, q, r) h = rw (p, q, r, h)

module _ (load : Load) (fuel : ℕ) (base : Option Tree) (ours theirs : Tree) (m : MergedTree)
    (merged : three_way load (suc fuel) base ours theirs ≡ some m) (name : Text) where
  abbrev b : Option TreeEntry
  b = Map.get name (entries_of base)

  abbrev o : Option TreeEntry
  o = Map.get name ours.entries

  abbrev t : Option TreeEntry
  t = Map.get name theirs.entries

  find-outcome : outcome load (three_way load fuel) b o t ≡ some (find name m)
  unfolding three_way
  find-outcome =
      let (on, off) =
        merge_names-Holds load (three_way load fuel) base ours theirs (names_of base ours theirs) m
          name merged in
      elim (Bool-cases (listed name (names_of base ours theirs))) [
        | inl there ↦ on there
        | inr gone ↦
            let (nb, no', nt) = unlisted name base ours theirs gone in
            rw (nb, no', nt, off gone) (unfold outcome same_opt in refl)
      ]

  -- Each name is merged by itself, for every name: an entry that both sides have alike, or that they left
  -- as it was, is ours in the merged tree, or is left out with ours; one that only they changed is theirs,
  -- or is left out with theirs. One that both changed differently is the merge of the two trees,
  -- where they are trees of one close that the merger opens, a sealed conflict where one of the
  -- trees does not open, and an ordinary conflict otherwise.
  pub find-three_way : Resolves load (three_way load fuel) b o t (find name m)
  find-three_way = outcome-Resolves load (three_way load fuel) b o t (find name m) find-outcome

  -- An entry that only they changed is taken from them, and one that both left as it was or
  -- changed alike is kept as ours, whether or not the merger can open anything.
  pub find-kept_by_us :
      same_opt o b ≡ true → find name m ≡ (if same_opt o t then take_opt o else take_opt t)
  unfolding outcome
  find-kept_by_us kept = ground (arith, find-outcome)

  -- An entry that they left as it was is ours in the merged tree, changed or not, whether or not
  -- the merger can open anything.
  pub find-kept_by_them : same_opt t b ≡ true → find name m ≡ take_opt o
  unfolding outcome
  find-kept_by_them kept = ground (arith, find-outcome, same_opt-common o t b)

  -- A sealed conflict is reported exactly where both sides changed the entry differently, both to
  -- a tree of one close, and the merger cannot open both trees: never for
  -- a blob, whatever the merger can open.
  pub find-sealed : (find name m ≡ some (conflict b o t true)) ↔ (Diverges b o t × IsShut load o t)
  find-sealed = (
    λ h.
        let (apart, d) =
          outcome-sealed load (three_way load fuel) b o t
            (find-outcome ∙ ap (λ (x : Option MergedEntry). some x) h) in
        (apart, (diverged-sealed load (three_way load fuel) b o t).0 d),
    λ (apart, shut). cc (
      find-outcome,
      sealed-outcome load (three_way load fuel) b o t apart
          ((diverged-sealed load (three_way load fuel) b o t).1 shut),
    ),
  )
