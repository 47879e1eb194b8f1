-- ===== src/Tests/Starting.antt =====
-- Making a folder a commons at a concrete input.
use close_common.Aead
use close_common.Aead.{derive, wrap_key}
use close_common.Close.{lower_facet_key, facet_key}
use close_common.Common.Bytes.{◌==◌}
use close_common.Grant.{wrap, sign_body, wrap_aad}
use close_common.Sharing.{new_identity, found_close, save_close, add_grant}
use close_common.Store.{write}
use close_common.World.Files.{identity}
use close_common.Tests.Grants.{alices}
use close_common.Tests.Stores.{hash-AreBytes}
use close_common.Common.{ℕ, ◌≡◌, refl, ap, [], ◌∷◌, none, some, true, Result, ok, err}
use close_common.Common.Bytes.{Bytes, Text, codes}
use close_common.Crypto.{Codec}
use close_common.Close.{CloseRecord, open_outline, found}
use close_common.Facet.{Error, content, union, set, invoke}
use close_common.Grant.{Grant, Identity, public, issue_root}
use close_common.Id.{to_hex}
use close_common.Repo.{is_ok}
use close_common.World.{Codecs, World, RepoError}
use close_common.World.Files.{load_close, governing_close, current_content_key}
use close_common.Store.Sound.{IsSound}
use close_common.Snapshot.{commons_id}
use close_common.Snapshot.Sealed.{IsCoherent}
use close_common.Start.{bare, commons_in, after_start, fresh, start, init}
use close_common.Start.Ready.{Kept}
use close_common.Start.Coherent.{init-IsCoherent}
use close_common.Tests.Toy.{toy, toy-IsLawful, bodies, bodies-Encodes}
use close_common.Tests.Keeping.{codecs}

-- Files that hold one value, which are written too
abbrev holding {ℓ} : {A : Type ℓ} → A → Codec A
holding a = record { to_allocvec = λ _. ok []; from_bytes = λ bytes. ok a }

abbrev nia : Text
nia = codes "nia"

abbrev random : ℕ → Bytes
random n = n ∷ []

abbrev commons_and_key : CloseRecord × Bytes
commons_and_key = found toy (codes "commons") open_outline (toy.verifying_key (0 ∷ [])) (2 ∷ [])

abbrev person : Identity
person = record { name = nia; sign = 0 ∷ []; dh = 1 ∷ [] }

abbrev issued : Result Error Grant
issued =
    issue_root toy bodies commons_and_key.0 (0 ∷ []) commons_and_key.1 (3 ∷ []) 0
      (public toy person) content (union set invoke) [] none []

unfoldable grant_of : Result Error Grant → Grant → Grant
grant_of (ok g) other = g
grant_of (err e) other = other

abbrev files : Codecs
files = record codecs {
  closes = holding commons_and_key.0;
  grants = holding (grant_of issued alices);
  secrets = holding (0 ∷ [], 1 ∷ []);
  publics = holding (public toy person);
  closemap = holding (([], to_hex commons_and_key.0.id) ∷ []);
}

unfoldable done : Result RepoError (Unit {0}) × World
done = start toy files nia (fresh nia 60 random)

unit-ok : (r : Result RepoError (Unit {0})) → is_ok r ≡ true → r ≡ ok tt
unit-ok (ok x) h = refl
unit-ok (err e) h = cc

done_ok : is_ok done.0 ≡ true
unfolding done start new_identity found_close save_close add_grant issue_root identity write found
    ◌==◌ toy wrap_key public lower_facet_key facet_key wrap sign_body wrap_aad Aead.seal derive
    to_hex
done_ok = refl

begins : init toy files nia (bare 60 random) ≡ (ok tt, commons_in done.1)
unfolding init done
begins =
    ap (λ (r : Result RepoError (Unit {0})). (r, after_start r done.1)) (unit-ok done.0 done_ok)

kept : Kept toy files nia 60 random
unfolding grant_of
kept = record {
  secrets = λ b h. refl;
  closes = λ b h. refl;
  grants = λ g issues b h. ap (λ (r : Result Error Grant). ok (grant_of r alices)) issues;
  closemap = λ b h. refl;
}

init-IsCoherent_example :
    IsSound toy done.1.store
    × IsCoherent toy files done.1
    × (commons_id toy files done.1 ≡ ok commons_and_key.0.id)
    × ((path : Text) → governing_close files done.1 path ≡ ok commons_and_key.0.id)
    × (load_close files done.1 commons_and_key.0.id ≡ ok commons_and_key.0)
    × (done.1.me ≡ nia)
    × (current_content_key files done.1 toy done.1.me commons_and_key.0 ≡ some commons_and_key.1)
init-IsCoherent_example =
    init-IsCoherent toy toy-IsLawful files bodies-Encodes hash-AreBytes nia 60 random done.1 kept
      begins
