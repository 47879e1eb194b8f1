-- ===== src/Tests/Cells.antt =====
-- Cells and their journals at concrete inputs.
use close_common.Common.{
  ℕ, ◌≡◌, ◌↔◌, refl, Bool, true, List, [], ◌∷◌, ◌++◌, Option, some, none, ok, replicate, All,
}
use close_common.Common.Bytes.{Bytes, codes, ◌==◌, as_bytes}
use close_common.Facet.{set, contains}
use close_common.Grant
use close_common.Grant.{terms, covers, public}
use close_common.Cell.{
  CellDecl, Pin, Value, Transition, TransitionBody, cell_id, make, verify, check_link,
  check_forward, fold, head_of,
}
use close_common.Cell.Forward.{MovesOnAt, check_forward_iff}
use close_common.Cell.Journal.{IsJournal, result, tip, fold_iff}
use close_common.Cell.Authority.{IsAuthorized, IsMoved, verify-IsAuthorized_iff}
use close_common.Cell.Moves.{verify-make}
use close_common.Tests.Toy.{digest, toy, toy-IsLawful, bodies, transitions}
use close_common.Tests.Grants.{lock, alice, alices, alices_verify}

abbrev pub signpost : CellDecl
signpost = record {
  path = codes "drafts" ∷ codes "current" ∷ [];
  close = replicate 32 9;
  kind = codes "doc";
  forward_only = codes "main" ∷ [];
}

abbrev pin : Bytes → Pin
pin commit = record { commit = commit; note = [] }

abbrev value : Bytes → Value
value commit = (codes "main", pin commit) ∷ []

abbrev first_value : Value
first_value = value (1 ∷ [])

abbrev next_value : Value
next_value = value (2 ∷ [])

abbrev move : ℕ → Option Bytes → Value → Transition
move seq prev v = record {
  body = record {
    cell = cell_id toy signpost;
    seq = seq;
    prev = prev;
    value = v;
    by = record { name = codes "alice"; sign = digest [] (2 ∷ []); dh = digest [] (3 ∷ []) };
    when = 60;
    reason = [];
    grant = alices;
  };
  sig = digest [] (2 ∷ []) ++ digest [] (2 ∷ []);
}

abbrev pub opening : Transition
opening = move 0 none first_value

abbrev address : Bytes
address = 8 ∷ []

abbrev second : Transition
second = move 1 (some address) next_value

abbrev journal : List (Bytes × Transition)
journal = (address, opening) ∷ []

opening_verify : verify toy transitions bodies opening lock signpost ≡ ok tt
unfolding verify toy ◌==◌ as_bytes contains covers Grant.verify Grant.expired
opening_verify = refl

second_verify : verify toy transitions bodies second lock signpost ≡ ok tt
unfolding verify toy ◌==◌ as_bytes contains covers Grant.verify Grant.expired
second_verify = refl

journal_folds : fold toy transitions bodies lock signpost journal ≡ ok (some opening)
unfolding fold verify toy ◌==◌ as_bytes contains covers Grant.verify Grant.expired
journal_folds = refl

second_links :
    check_link second
      (head_of toy transitions bodies (tip toy transitions bodies lock signpost none journal))
    ≡ ok tt
unfolding check_link ◌==◌
second_links = refl

verify-IsAuthorized_iff_example :
    (verify toy transitions bodies second lock signpost ≡ ok tt)
    ↔ (IsMoved toy transitions second × IsAuthorized toy bodies lock signpost second.body)
verify-IsAuthorized_iff_example =
    verify-IsAuthorized_iff toy transitions bodies lock signpost second

fold_iff_example : (fold toy transitions bodies lock signpost journal ≡ ok (some opening)) ↔ (
    IsJournal toy transitions bodies lock signpost none journal
    × (some opening ≡ result toy transitions bodies lock signpost journal))
fold_iff_example = fold_iff toy transitions bodies lock signpost journal (some opening)

abbrev transitions_encode :
    (b : TransitionBody) → (bytes : Bytes) × (transitions.to_allocvec b ≡ ok bytes)
transitions_encode b = (b.cell, refl)

alices_set : contains set set ≡ true
unfolding contains
alices_set = refl

alices-covers : covers alices signpost.path ≡ true
unfolding covers ◌==◌
alices-covers = refl

alices_sign : digest [] (2 ∷ []) ≡ toy.verifying_key (2 ∷ [])
unfolding toy
alices_sign = refl

verify-make_example :
    (t : Transition) × (make toy transitions signpost
        (some (address, 0))
        next_value
        alice
        alices
        60
        []
      ≡ ok t)
    × (t.body.value ≡ next_value)
    × (verify toy transitions bodies t lock signpost ≡ ok tt)
    × (check_link t (some (address, 0)) ≡ ok tt)
verify-make_example =
    verify-make toy toy-IsLawful transitions transitions_encode bodies lock signpost
      (some (address, 0)) next_value alice alices 60 [] refl alices_sign alices_set alices-covers
      alices_verify

abbrev descends : Bytes → Bytes → Bool
descends a b = true

check_forward_iff_example :
    (check_forward descends signpost (some first_value) next_value ≡ ok tt)
    ↔ All (MovesOnAt descends first_value next_value) signpost.forward_only
check_forward_iff_example = check_forward_iff descends first_value next_value signpost
