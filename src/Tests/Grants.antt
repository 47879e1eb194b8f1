-- ===== src/Tests/Grants.antt =====
-- Grants at concrete inputs.
use close_common.Common.{
  inr, ◌≡◌, refl, List, [], ◌++◌, ◌↔◌, arith, ◌∷◌, Option, none, some, Result, ok, ok_or, true,
  replicate,
}
use close_common.Common.Bytes.{Bytes, Text, codes, ◌==◌}
use close_common.Facet.{presence, shape, content, Error, set, none_held, no_key, is_subset_of}
use close_common.Close.{CloseRecord, dark, lower_facet_key, shape_of}
use close_common.Grant.{
  Terms, Grant, root, link, Identity, public, issue_root, attenuate, verify, unwrap_key, covers,
  terms, prefix_under, expired, outlives, expires_later, WrappedKey,
}
use close_common.Grant.Valid.{IsValid}
use close_common.Grant.Chain.{Above, here, up, root_of}
use close_common.Grant.Chain
use close_common.Grant.Attenuate
use close_common.Grant.Issue
use close_common.Grant.Narrow.{IsNarrow}
use close_common.Grant.Valid
use close_common.Aead
use close_common.Aead.{derive, wrap_key}
use close_common.Tests.Toy.{digest, header, shared, toy, toy-IsLawful, bodies, bodies-Encodes}

abbrev pub lock : CloseRecord
lock = record {
  id = replicate 32 9;
  name = codes "letters";
  silhouette = dark;
  steward = digest [] (1 ∷ []);
  epoch = 0;
  chain = [];
}

abbrev pub content_key : Bytes
content_key = replicate 32 4

abbrev pub alice : Identity
alice = record { name = codes "alice"; sign = 2 ∷ []; dh = 3 ∷ [] }

abbrev pub bob : Identity
bob = record { name = codes "bob"; sign = 5 ∷ []; dh = 6 ∷ [] }

abbrev pub drafts : List Text
drafts = codes "drafts" ∷ []

-- Alice's content key, as the steward wraps it to her with the ephemeral secret 7.
abbrev to_alice : WrappedKey
to_alice = record {
  epk = digest [] (7 ∷ []);
  ct =
      header
        (digest (codes "closecommon/v0/wrap") (shared 7 (digest [] (3 ∷ [])) ++ digest [] (7 ∷ [])))
        (replicate 32 9 ++ (digest [] (2 ∷ []) ++ (2 ∷ 0 ∷ 0 ∷ 0 ∷ 0 ∷ [])))
      ++ content_key;
}

-- Alice may read and point the signposts below `drafts` until the time 100.
abbrev pub alices_terms : Terms
alices_terms = record {
  close = replicate 32 9;
  holder = record { name = codes "alice"; sign = digest [] (2 ∷ []); dh = digest [] (3 ∷ []) };
  facet = content;
  powers = set;
  prefix = drafts;
  expires_at = some 100;
  caveats = [];
  epoch = 0;
  wrapped = some to_alice;
  issuer_sign = digest [] (1 ∷ []);
}

abbrev pub alices : Grant
alices = root alices_terms (digest [] (1 ∷ []) ++ digest [] (1 ∷ []))

abbrev old_drafts : List Text
old_drafts = codes "drafts" ∷ codes "old" ∷ []

-- She hands the presence of the old ones on to Bob, until the time 50.
abbrev pub bobs_terms : Terms
bobs_terms = record {
  close = replicate 32 9;
  holder = record { name = codes "bob"; sign = digest [] (5 ∷ []); dh = digest [] (6 ∷ []) };
  facet = presence;
  powers = none_held;
  prefix = old_drafts;
  expires_at = some 50;
  caveats = [];
  epoch = 0;
  wrapped = none;
  issuer_sign = digest [] (2 ∷ []);
}

abbrev pub bobs : Grant
bobs = link bobs_terms (digest [] (2 ∷ []) ++ digest [] (2 ∷ [])) alices

pub alices_verify : verify toy bodies lock 60 alices ≡ ok tt
unfolding verify ◌==◌ expired toy
alices_verify = refl

bobs_verify : verify toy bodies lock 40 bobs ≡ ok tt
unfolding verify ◌==◌ expired toy is_subset_of prefix_under outlives expires_later
bobs_verify = refl

bobs-Above : Above alices bobs
bobs-Above = up bobs_terms (digest [] (2 ∷ []) ++ digest [] (2 ∷ [])) here

verify_iff_example : (verify toy bodies lock 40 bobs ≡ ok tt) ↔ IsValid toy bodies lock 40 bobs
verify_iff_example = Valid.verify_iff toy bodies lock 40 bobs

verify-Above_example :
    (verify toy bodies lock 40 alices ≡ ok tt) × IsNarrow (terms bobs) (terms alices)
verify-Above_example = Chain.verify-Above toy bodies lock 40 alices bobs bobs-Above bobs_verify

bobs-covers : covers bobs (codes "drafts" ∷ codes "old" ∷ codes "1" ∷ []) ≡ true
unfolding covers ◌==◌
bobs-covers = refl

pub alices_key : unwrap_key toy alices alice ≡ ok content_key
unfolding unwrap_key toy Aead.unwrap_key derive
alices_key = refl

bobs_made :
    Attenuate.child toy bodies alices alice lock
      (8 ∷ [])
      (terms bobs).holder
      presence
      none_held
      old_drafts
      (some 50)
      []
    ≡ ok bobs
unfolding attenuate ◌==◌ toy is_subset_of prefix_under outlives expires_later
bobs_made = refl

abbrev bobs_with : Option WrappedKey → Terms
bobs_with =
    Attenuate.child_terms toy bodies alices alice lock (8 ∷ []) (terms bobs).holder presence
      none_held old_drafts (some 50) []

attenuate-IsNarrow_example :
    (wrapped : Option WrappedKey) × (sig : Bytes) × (bobs ≡ link (bobs_with wrapped) sig alices)
    × IsNarrow (bobs_with wrapped) alices_terms
    × ((bobs_with wrapped).issuer_sign ≡ alices_terms.holder.sign)
attenuate-IsNarrow_example =
    Attenuate.attenuate-IsNarrow toy bodies alices alice lock (8 ∷ []) (terms bobs).holder presence
      none_held old_drafts (some 50) [] bobs bobs_made

abbrev request : Result Error Grant
request =
    attenuate toy bodies alices alice lock (8 ∷ []) (public toy bob) shape none_held old_drafts
      (some 50) []

abbrev label_key : Bytes
label_key = shape_of toy content_key lock.id

fewer : is_subset_of none_held set ≡ true
unfolding is_subset_of
fewer = refl

deeper : prefix_under old_drafts drafts ≡ true
unfolding prefix_under ◌==◌
deeper = refl

alices_sign : digest [] (2 ∷ []) ≡ toy.verifying_key (2 ∷ [])
unfolding toy
alices_sign = refl

alices_verify_early : verify toy bodies lock 40 alices ≡ ok tt
unfolding verify ◌==◌ expired toy
alices_verify_early = refl

attenuate_lem_example :
    (g : Grant) × (request ≡ ok g)
    × (verify toy bodies lock 40 g ≡ ok tt)
    × (unwrap_key toy g bob
        ≡ Attenuate.lowered_to toy toy-IsLawful bodies bodies-Encodes alices alice bob lock
            (8 ∷ [])
            shape
            none_held
            old_drafts
            (some 50)
            []
            content_key)
attenuate_lem_example =
    Attenuate.attenuate_lem toy toy-IsLawful bodies bodies-Encodes alices alice bob lock (8 ∷ [])
      shape none_held old_drafts (some 50) [] content_key (inr (alices_key, refl)) refl fewer deeper
      (omega arith) alices_sign 40 alices_verify_early (omega arith)

abbrev issued : Result Error Grant
issued =
    issue_root toy bodies lock (1 ∷ []) content_key (7 ∷ []) 0 (public toy alice) content set drafts
      (some 100) []

stewards : lock.steward ≡ toy.verifying_key (1 ∷ [])
unfolding toy
stewards = refl

abbrev issued_terms : Option WrappedKey → Terms
issued_terms =
    Issue.root_terms toy toy-IsLawful bodies bodies-Encodes lock (1 ∷ []) content_key (7 ∷ []) refl
      0 alice content set drafts (some 100) [] stewards

issue_root_lem_example :
    (wrapped : Option WrappedKey) × (sig : Bytes) × (issued ≡ ok (root (issued_terms wrapped) sig))
    × (verify toy bodies lock 60 (root (issued_terms wrapped) sig) ≡ ok tt)
    × (unwrap_key toy (root (issued_terms wrapped) sig) alice
        ≡ ok_or (lower_facet_key toy content_key content content lock.id) no_key)
issue_root_lem_example =
    Issue.issue_root_lem toy toy-IsLawful bodies bodies-Encodes lock (1 ∷ []) content_key (7 ∷ [])
      refl 0 alice content set drafts (some 100) [] stewards 60 (omega arith)
