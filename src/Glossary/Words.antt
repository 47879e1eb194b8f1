-- ===== src/Glossary/Words.antt =====
-- The words that the flags of the command line take, in the glossary (facet.rs, parse and parse_word;
-- glossary.rs, explain).
use close_common.Common.{◌≡◌, refl, ◌∙◌, ap, subst, some, true, arith, Bool-cases, inl, inr, ◌⊎◌}
use close_common.Common.Bytes.{Text, codes, to_ascii_lowercase, ◌==◌, ==→eq}
use close_common.Facet
use close_common.Facet.{
  Facet, presence, shape, content, plain_name, Powers, parse_word, set, invoke, none_held,
}
use close_common.Glossary.Terms.{Term, glossary}
use close_common.Glossary.{first_named, explain, entry, answer}

-- The term that is found has this plain name.
IsAnswered : Text → Text → Type 0
IsAnswered w name = (t : Term) × (first_named w glossary ≡ some t) × (t.plain ≡ name)

facet_words :
    (IsAnswered (codes "outline") (codes "outline"))
    × (IsAnswered (codes "presence") (codes "outline"))
    × (IsAnswered (codes "label") (codes "label"))
    × (IsAnswered (codes "shape") (codes "label"))
    × (IsAnswered (codes "everything") (codes "everything"))
    × (IsAnswered (codes "content") (codes "everything"))
unfolding IsAnswered first_named glossary to_ascii_lowercase
facet_words = (
  (_, refl, refl),
  (_, refl, refl),
  (_, refl, refl),
  (_, refl, refl),
  (_, refl, refl),
  (_, refl, refl),
)

-- The answer to the word is the entry of this plain name.
abbrev Explains : Text → Text → Type 0
Explains word name = (t : Term) × (explain (some word) ≡ entry t) × (t.plain ≡ name)

explains :
    (word w name : Text) → to_ascii_lowercase word ≡ w → IsAnswered w name → Explains word name
unfolding explain IsAnswered
explains word w name same (t, found, plain) = (
  t,
  ap (λ (x : Text). answer word (first_named x glossary)) same ∙ ap (answer word) found,
  plain,
)

-- Every word that names a facet on the command line, but for `reading`, is answered with the entry that
-- has the facet's plain name.
pub explain-parse :
    (word : Text) (f : Facet)
    → Facet.parse word ≡ some f
    → (to_ascii_lowercase word ≡ codes "reading") ⊎ Explains word (plain_name f)
unfolding Facet.parse plain_name
explain-parse word f h =
    let w = to_ascii_lowercase word in
    let (outline, presence_word, label, shape_word, everything, content_word) = facet_words in
    let found =
      λ (x : Text) (g : Facet) (e : (w == x) ≡ true) (is : g ≡ f) (a : IsAnswered x (plain_name g)).
        subst (λ (y : Facet). Explains word (plain_name y)) is
          (explains word x (plain_name g) (==→eq w x e) a) in
    elim (Bool-cases (w == codes "outline")) [
      | inl e ↦ inr (found (codes "outline") presence e (ground (arith, h, e)) outline)
      | inr n₁ ↦ elim (Bool-cases (w == codes "presence")) [
        | inl e ↦ inr (found (codes "presence") presence e (ground (arith, h, e, n₁)) presence_word)
        | inr n₂ ↦ elim (Bool-cases (w == codes "label")) [
          | inl e ↦ inr (found (codes "label") shape e (ground (arith, h, e, n₁, n₂)) label)
          | inr n₃ ↦ elim (Bool-cases (w == codes "shape")) [
            | inl e ↦
                inr (found (codes "shape") shape e (ground (arith, h, e, n₁, n₂, n₃)) shape_word)
            | inr n₄ ↦ elim (Bool-cases (w == codes "everything")) [
              | inl e ↦ inr (
                  found (codes "everything") content e (ground (arith, h, e, n₁, n₂, n₃, n₄))
                    everything)
              | inr n₅ ↦ elim (Bool-cases (w == codes "content")) [
                | inl e ↦ inr (
                    found (codes "content") content e (ground (arith, h, e, n₁, n₂, n₃, n₄, n₅))
                      content_word)
                | inr n₆ ↦ elim (Bool-cases (w == codes "reading")) [
                  | inl e ↦ inl (==→eq w (codes "reading") e)
                  | inr n₇ ↦ absurd (ground (arith, h, n₁, n₂, n₃, n₄, n₅, n₆, n₇))
                ]
              ]
            ]
          ]
        ]
      ]
    ]
