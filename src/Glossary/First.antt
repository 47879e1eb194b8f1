-- ===== src/Glossary/First.antt =====
-- Which term `close explain` answers with (glossary.rs, explain).
use close_common.Common.{
  ℕ, zero, suc, ◌<◌, ◌≡◌, ◌↔◌, ◌⊎◌, inl, inr, refl, ◌∙◌, ap, subst, List, [], ◌∷◌, ◌++◌, none, some,
  some-injective, true, false, get_elem?, arith, Bool-cases,
}
use close_common.Common.Bytes.{Text, to_ascii_lowercase}
use close_common.Glossary.Terms.{Term, glossary}
use close_common.Glossary.{
  starts_with, contains, is_named, first_named, explain, entry, not_there, answer,
}

starts_with-append : (w b : Text) → starts_with (w ++ b) w ≡ true
unfolding starts_with
starts_with-append [] [] = refl
starts_with-append [] (y ∷ b) = refl
starts_with-append (x ∷ w) b = ground (arith, starts_with-append w b)

starts_with-split : (s w : Text) → starts_with s w ≡ true → (b : Text) × (s ≡ w ++ b)
unfolding starts_with
starts_with-split [] [] h = ([], refl)
starts_with-split (a ∷ s) [] h = (a ∷ s, refl)
starts_with-split [] (b ∷ w) h = cc
starts_with-split (a ∷ s) (b ∷ w) h =
    let (rest, same) = starts_with-split s w (ground (arith, h)) in (rest, ground (arith, h, same))

-- A text contains a word that stands somewhere in it.
abbrev pub Within : Text → Text → Type 0
Within w s = (a b : Text) × (s ≡ a ++ (w ++ b))

contains_infix : (s w : Text) → contains s w ≡ true → Within w s
unfolding contains
contains_infix [] w h = let (b, same) = starts_with-split [] w h in ([], b, same)
contains_infix (x ∷ s) w h = elim (Bool-cases (starts_with (x ∷ s) w)) [
  | inl here ↦ let (b, same) = starts_with-split (x ∷ s) w here in ([], b, same)
  | inr later ↦
      let (a, b, same) = contains_infix s w (ground (arith, h, later)) in
      (x ∷ a, b, ap (λ (t : Text). x ∷ t) same)
]

infix_contains : (a w b : Text) → contains (a ++ (w ++ b)) w ≡ true
unfolding contains
infix_contains [] [] [] = unfold starts_with in refl
infix_contains [] [] (y ∷ b) = unfold starts_with in refl
infix_contains [] (x ∷ w) b = rw (starts_with-append (x ∷ w) b) refl
infix_contains (x ∷ a) w b = ground (arith, infix_contains a w b)

-- A term that has the word in its plain name, or, in lower case, in its wizard's name.
abbrev pub Names : Text → Term → Type 0
Names w t = Within w t.plain ⊎ Within w (to_ascii_lowercase t.wizard)

contains-Within : (s w : Text) → Within w s → contains s w ≡ true
contains-Within s w (a, b, same) = ap (λ (t : Text). contains t w) same ∙ infix_contains a w b

is_named_iff : (w : Text) (t : Term) → (is_named w t ≡ true) ↔ Names w t
is_named_iff w t = (there, back)
  where
    there : is_named w t ≡ true → Names w t
    there h = elim (Bool-cases (contains t.plain w)) [
      | inl plain ↦ inl (contains_infix t.plain w plain)
      | inr other ↦ inr (
          contains_infix (to_ascii_lowercase t.wizard) w
            (unfold is_named in ground (arith, h, other)))
    ]

    back : Names w t → is_named w t ≡ true
    back (inl plain) = unfold is_named in rw (contains-Within t.plain w plain) refl
    back (inr wizard) =
        unfold is_named in ground (arith, contains-Within (to_ascii_lowercase t.wizard) w wizard)

-- The term at a place of a list, and none before it, has the word.
pub record IsFirst (w : Text) (terms : List Term) (t : Term) : Type 0 where
  pub place : ℕ
  pub there : get_elem? terms place ≡ some t
  pub named : Names w t
  pub earlier : (j : ℕ) (u : Term) → j < place → get_elem? terms j ≡ some u → ¬ Names w u

abbrev pub NotThere : Text → List Term → Type 0
NotThere w terms = (j : ℕ) (u : Term) → get_elem? terms j ≡ some u → ¬ Names w u

unnamed : (w : Text) (t : Term) → is_named w t ≡ false → ¬ Names w t
unnamed w t no_name n = cc (no_name, (is_named_iff w t).1 n)

first_named-IsFirst :
    (w : Text) (terms : List Term)
    → ((t : Term) × (first_named w terms ≡ some t) × IsFirst w terms t)
      ⊎ ((first_named w terms ≡ none) × NotThere w terms)
unfolding first_named
first_named-IsFirst w [] = inr (refl, λ j u there. absurd (cc there))
first_named-IsFirst w (t ∷ terms) = elim (Bool-cases (is_named w t)) [
  | inl here ↦ inl (
    t,
    rw here refl,
    record {
      place = 0;
      there = refl;
      named = (is_named_iff w t).0 here;
      earlier = λ j u before. absurd (omega (arith, before));
    },
  )
  | inr later ↦ elim (first_named-IsFirst w terms) [
    | inl (x, found, f) ↦ inl (
      x,
      rw later found,
      record {
        place = suc f.place;
        there = f.there;
        named = f.named;
        earlier = elim [
          | zero ↦ λ u before at.
              subst (λ (y : Term). ¬ Names w y) (some-injective t u at) (unnamed w t later)
          | suc j ↦ λ u before. f.earlier j u (omega (arith, before))
        ];
      },
    )
    | inr (gone, nowhere) ↦ inr (
      rw later gone,
      elim [
        | zero ↦
            λ u at. subst (λ (y : Term). ¬ Names w y) (some-injective t u at) (unnamed w t later)
        | suc j ↦ nowhere j
      ],
    )
  ]
]

-- Whatever the case of its letters, a word is answered with the first term of the glossary that has the
-- word in its plain name or its wizard's name; where no term has it, the answer says so.
pub explain_lem :
    (word : Text)
    → ((t : Term) × IsFirst (to_ascii_lowercase word) glossary t × (explain (some word) ≡ entry t))
      ⊎ (NotThere (to_ascii_lowercase word) glossary × (explain (some word) ≡ not_there word))
unfolding explain
explain_lem word = elim (first_named-IsFirst (to_ascii_lowercase word) glossary) [
  | inl (t, found, f) ↦ inl (t, f, ap (answer word) found)
  | inr (gone, nowhere) ↦ inr (nowhere, ap (answer word) gone)
]
