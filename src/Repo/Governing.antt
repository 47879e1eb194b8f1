-- ===== src/Repo/Governing.antt =====
-- The close that governs a path.
use close_common.Common.{
  refl, ◌++◌, &&-eq-true, ℕ, ◌≤◌, ◌≡◌, true, Bool-cases, inl, inr, ◌⊎◌, List, [], ◌∷◌, Option, none,
  some, arith, All, subst, Option-cases, ap, ◌∙◌, sym,
}
use close_common.Common.Bytes.{Bytes, Text, codes, ◌==◌, ==_refl, ==→eq, eq→==}
use close_common.Id.{Parsed, panicked, rejected, parsed, from_hex}
use close_common.Repo.{
  starts_with, best_of, better, matches, len, governing, governed_by, read_id, governed,
}

-- The best so far is at least this long.
abbrev pub Reaches : Option (ℕ × Text) → ℕ → Type 0
Reaches none n = ⊥
Reaches (some (l, id)) n = n ≤ l

-- The empty prefix, the path itself, or what comes before a slash in it
abbrev pub LiesUnder : (rel prefix : Text) → Type 0
LiesUnder rel prefix =
    (prefix ≡ []) ⊎ ((rel ≡ prefix) ⊎ ((rest : Text) × (rel ≡ (prefix ++ codes "/") ++ rest)))

starts_with-append :
    (rel prefix : Text) → starts_with rel prefix ≡ true → (rest : Text) × (rel ≡ prefix ++ rest)
starts_with-append rel [] h = (rel, refl)
starts_with-append [] (x ∷ prefix) h = cc
starts_with-append (y ∷ rel) (x ∷ prefix) h =
    let (same, later) = &&-eq-true ((y ∷ []) == (x ∷ [])) (starts_with rel prefix) h in
    let (rest, e) = starts_with-append rel prefix later in
    (rest, cc (e, ==→eq (y ∷ []) (x ∷ []) same))

append-starts_with : (prefix rest : Text) → starts_with (prefix ++ rest) prefix ≡ true
append-starts_with [] rest = refl
append-starts_with (x ∷ prefix) rest = rw (==_refl (x ∷ []), append-starts_with prefix rest)

matches-LiesUnder : (rel prefix : Text) → matches rel prefix ≡ true → LiesUnder rel prefix
unfolding matches
matches-LiesUnder rel prefix h = elim (Bool-cases (prefix == [])) [
  | inl all ↦ inl (==→eq prefix [] all)
  | inr some_prefix ↦ elim (Bool-cases (rel == prefix)) [
    | inl whole ↦ inr (inl (==→eq rel prefix whole))
    | inr part ↦
        inr (
          inr (starts_with-append rel (prefix ++ codes "/") (ground (arith, h, some_prefix, part))))
  ]
]

LiesUnder-matches : (rel prefix : Text) → LiesUnder rel prefix → matches rel prefix ≡ true
unfolding matches
LiesUnder-matches rel prefix (inl all) = ground (arith, eq→== prefix [] all)
LiesUnder-matches rel prefix (inr (inl whole)) = ground (arith, eq→== rel prefix whole)
LiesUnder-matches rel prefix (inr (inr (rest, e))) =
    let starts : starts_with rel (prefix ++ codes "/") ≡ true =
      ap (λ (x : Text). starts_with x (prefix ++ codes "/")) e
      ∙ append-starts_with (prefix ++ codes "/") rest in
    ground (arith, starts)

-- Some entry's prefix is one that the path lies under, and has this length and this id.
abbrev pub Offers : Text → ℕ → Text → List (Text × Text) → Type 0
Offers rel n id [] = ⊥
Offers rel n id ((prefix, i) ∷ entries) =
    (LiesUnder rel prefix × (len prefix ≡ n) × (i ≡ id)) ⊎ Offers rel n id entries

-- No prefix that the path lies under is longer than the best.
abbrev pub Tops : Text → Option (ℕ × Text) → List (Text × Text) → Type 0
Tops rel best = All (λ (e : Text × Text). (¬ LiesUnder rel e.0) ⊎ Reaches best (len e.0))

better-Reaches :
    (rel : Text) (best : Option (ℕ × Text)) (prefix id : Text) (n : ℕ)
    → Reaches best n
    → Reaches (better rel best prefix id) n
unfolding better
better-Reaches rel none prefix id n h = absurd h
better-Reaches rel (some (l, i)) prefix id n h = ground arith

better-matches :
    (rel : Text) (best : Option (ℕ × Text)) (prefix id : Text)
    → matches rel prefix ≡ true
    → Reaches (better rel best prefix id) (len prefix)
unfolding better
better-matches rel none prefix id h = ground (arith, h)
better-matches rel (some (l, i)) prefix id h = ground (arith, h)

better-from :
    (rel : Text) (best : Option (ℕ × Text)) (prefix id i : Text) (n : ℕ)
    → better rel best prefix id ≡ some (n, i)
    → (best ≡ some (n, i)) ⊎ ((matches rel prefix ≡ true) × (len prefix ≡ n) × (id ≡ i))
unfolding better
better-from rel none prefix id i n h = ground arith
better-from rel (some (l, j)) prefix id i n h = ground arith

best_of-Reaches :
    (rel : Text) (best : Option (ℕ × Text)) (entries : List (Text × Text)) (n : ℕ)
    → Reaches best n
    → Reaches (best_of rel best entries) n
unfolding best_of
best_of-Reaches rel best [] n h = h
best_of-Reaches rel best ((prefix, id) ∷ entries) n h =
    best_of-Reaches rel (better rel best prefix id) entries n
      (better-Reaches rel best prefix id n h)

best_of-Tops :
    (rel : Text) (best : Option (ℕ × Text)) (entries : List (Text × Text))
    → Tops rel (best_of rel best entries) entries
unfolding best_of
best_of-Tops rel best [] = tt
best_of-Tops rel best ((prefix, id) ∷ entries) = (
  elim (Bool-cases (matches rel prefix)) [
    | inl here ↦ inr (
        best_of-Reaches rel (better rel best prefix id) entries (len prefix)
          (better-matches rel best prefix id here))
    | inr apart ↦ inl (λ under. cc (apart, LiesUnder-matches rel prefix under))
  ],
  best_of-Tops rel (better rel best prefix id) entries,
)

best_of-Offers :
    (rel : Text) (best : Option (ℕ × Text)) (entries : List (Text × Text)) (n : ℕ) (i : Text)
    → best_of rel best entries ≡ some (n, i)
    → (best ≡ some (n, i)) ⊎ Offers rel n i entries
unfolding best_of
best_of-Offers rel best [] n i h = inl h
best_of-Offers rel best ((prefix, id) ∷ entries) n i h =
    elim (best_of-Offers rel (better rel best prefix id) entries n i h) [
      | inl now ↦ elim (better-from rel best prefix id i n now) [
        | inl before ↦ inl before
        | inr (here, size, same) ↦ inr (inl (matches-LiesUnder rel prefix here, size, same))
      ]
      | inr later ↦ inr (inr later)
    ]

read_id-governed : (p : Parsed) (close : Bytes) → read_id p ≡ governed close → p ≡ parsed close
read_id-governed panicked close h = cc
read_id-governed rejected close h = cc
read_id-governed (parsed id) close h = cc

-- Where a close governs a path, some entry of the close map names that close in hexadecimal and has
-- a prefix that the path lies under: the empty one, the path, or what comes before a slash in it. No
-- prefix that the path lies under is longer.
pub governing_lem :
    (entries : List (Text × Text)) (rel : Text) (close : Bytes)
    → governing entries rel ≡ governed close
    → (n : ℕ) × (id : Text) × (from_hex id ≡ parsed close)
      × Offers rel n id entries
      × Tops rel (some (n, id)) entries
unfolding governing
governing_lem entries rel close h = elim (Option-cases (best_of rel none entries)) [
  | inl nothing ↦ absurd (cc (h, ap governed_by nothing))
  | inr ((n, id), best) ↦ (
    n,
    id,
    read_id-governed (from_hex id) close (sym (ap governed_by best) ∙ h),
    elim (best_of-Offers rel none entries n id best) [
      | inl impossible ↦ cc
      | inr offered ↦ offered
    ],
    subst (λ (b : Option (ℕ × Text)). Tops rel b entries) best (best_of-Tops rel none entries),
  )
]
