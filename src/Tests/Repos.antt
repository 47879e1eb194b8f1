-- ===== src/Tests/Repos.antt =====
-- The repository's choices at concrete inputs.
use close_common.Common.{
  ℕ, zero, suc, sym, ◌∙◌, ap, subst, ok-injective, some-injective, ◌≡◌, ◌≢◌, refl, arith, none,
  some, true, List, [], ◌∷◌, Option, replicate, get_elem?, if◌then◌else◌,
}
use close_common.Common.Bytes.{Bytes, Text, codes, ◌==◌, as_bytes}
use close_common.Facet.{presence, shape, content}
use close_common.Aead
use close_common.Aead.{derive}
use close_common.Close.{lower_facet_key, content_key_at}
use close_common.Close.Epochs.{IsKeyed}
use close_common.Dag.{Commit}
use close_common.Grant
use close_common.Grant.{Grant, unwrap_key}
use close_common.Id.{from_hex, parsed}
use close_common.Repo.{serves, facet_key_for, governing, governed, matches, is_descendant, key_from}
use close_common.Repo.Ancestry.{Descends, is_descendant-Descends}
use close_common.Repo.Governing.{Offers, Tops, governing_lem}
use close_common.Repo.Genuine.{IsGenuine, facet_key_for-genuine}
use close_common.Repo.Keys.{Grants, facet_key_for-Grants}
use close_common.Tests.Toy.{toy, bodies}
use close_common.Tests.Grants.{lock, alice, alices, alices_key, content_key}

abbrev held : List Grant
held = alices ∷ []

found_key : facet_key_for toy bodies lock 60 (some alice) content 0 held ≡ some content_key
unfolding facet_key_for serves ◌==◌ Grant.verify toy Grant.expired unwrap_key Aead.unwrap_key derive
    key_from content_key_at lower_facet_key
found_key = refl

facet_key_for-Grants_example :
    (i : ℕ) × (g : Grant) × (get_elem? held i ≡ some g)
    × Grants toy bodies lock 60 alice content 0 content_key g
facet_key_for-Grants_example =
    facet_key_for-Grants toy bodies lock 60 alice content 0 content_key held found_key

pub lock-IsKeyed : IsKeyed toy lock (λ i. content_key)
lock-IsKeyed = record { linked = refl; sized = λ i h. refl; unlocks = λ i h. absurd (omega arith) }

pub alices-IsGenuine : IsGenuine toy bodies lock 60 (λ n. content_key) alice alices
unfolding lower_facet_key
alices-IsGenuine k close verifies unwraps =
    (omega arith, ap (λ (x : Bytes). some x) (ok-injective (sym alices_key ∙ unwraps)))

held-IsGenuine :
    (i : ℕ) (g : Grant)
    → get_elem? held i ≡ some g
    → IsGenuine toy bodies lock 60 (λ n. content_key) alice g
held-IsGenuine zero g there =
    subst (IsGenuine toy bodies lock 60 (λ n. content_key) alice) (some-injective alices g there)
      alices-IsGenuine
held-IsGenuine (suc i) g there = cc

facet_key_for-genuine_example :
    lower_facet_key toy content_key content content lock.id ≡ some content_key
facet_key_for-genuine_example =
    facet_key_for-genuine toy bodies lock 60 (λ i. content_key) lock-IsKeyed alice held
      held-IsGenuine 0 content content_key found_key

shape_apart : shape ≢ presence
shape_apart = λ h. cc

abbrev close_hex : Text
close_hex = codes "0909090909090909090909090909090909090909090909090909090909090909"

abbrev map : List (Text × Text)
map = ([], close_hex) ∷ (codes "letters", close_hex) ∷ []

governs : governing map (codes "letters/old") ≡ governed (replicate 32 9)
unfolding governing matches ◌==◌ as_bytes from_hex
governs = refl

governing_lem_example :
    (n : ℕ) × (id : Text) × (from_hex id ≡ parsed (replicate 32 9))
    × Offers (codes "letters/old") n id map
    × Tops (codes "letters/old") (some (n, id)) map
governing_lem_example = governing_lem map (codes "letters/old") (replicate 32 9) governs

abbrev commit : Commit
commit = record {
  tree = [];
  tree_plain = [];
  parents = (1 ∷ []) ∷ [];
  author = [];
  message = [];
  when = 0;
}

abbrev commits : Bytes → Option Commit
commits id = if id == (2 ∷ []) then some commit else none

descends : is_descendant commits (1 ∷ []) (2 ∷ []) ≡ true
unfolding is_descendant ◌==◌
descends = refl

is_descendant-Descends_example : Descends commits (1 ∷ []) (2 ∷ [])
is_descendant-Descends_example = is_descendant-Descends commits (1 ∷ []) (2 ∷ []) descends
