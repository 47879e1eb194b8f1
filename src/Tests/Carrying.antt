-- ===== src/Tests/Carrying.antt =====
-- Sharing a label at a concrete input.
use close_common.Aead
use close_common.Grant
use close_common.Seal
use close_common.Store.{get_ref, object_path, put, rename, set_ref, tmp_path, write}
use close_common.Seal.{cipher_id, encode, facet_aad, plain_id, size_class_for}
use close_common.Common.Map.{insert, lex}
use close_common.Aead.{derive, open_box, to_key, wrap_key}
use close_common.Id.{from_hex, to_hex, trim}
use close_common.Common.{
  ◌≡◌, refl, sym, ap, [], ◌∷◌, none, ok-injective, Result, ok, err, true, replicate, if◌then◌else◌,
  ◌∙◌, get_elem?, List,
}
use close_common.Common.Bytes.{Bytes, codes, ◌==◌, as_bytes}
use close_common.Crypto.{ReadsBack}
use close_common.Close.{
  CloseRecord, binding_key, chain_aad, content_key_at, facet_key, lower_facet_key, object_key,
  shape_key_at, walk_chain, walk_down,
}
use close_common.Facet.{shape, none_held, contains, is_subset_of, union}
use close_common.Grant.{
  Grant, Identity, verify, expired, check_link, check_signature, expires_later, outlives,
  prefix_under, unwrap, wrap_aad, zip_equal, covers, public, sign_body, attenuate, rewrap,
}
use close_common.Repo.{
  is_ok, governing, matches, facet_key_for, serves, best_of, better, first_key, key_from, try_grant,
}
use close_common.Repo.Genuine.{IsGenuine}
use close_common.Snapshot.{join}
use close_common.Snapshot.Sealed.{IsCoherent}
use close_common.Sharing.Hand.{share, share_as_holder, hand_over, wide_enough, share_as_steward}
use close_common.Sharing.Held.{Has}
use close_common.Sharing.Genuine.{share-IsGenuine}
use close_common.Sharing.{add_grant}
use close_common.World.{Codecs, World, RepoError}
use close_common.World.Files.{
  load_close, identity, grants_for, governing_close, key_for, current_content_key, closemap, ref_of,
  public_of,
}
use close_common.Tests.Grants.{lock, alice, alices}
use close_common.Tests.Keeping
use close_common.Tests.Keeping.{world}
use close_common.Tests.Toy.{toy, toy-IsLawful, bodies-Encodes}

abbrev bob : Identity
bob = record { name = codes "bob"; sign = replicate 32 5; dh = replicate 32 6 }

-- What Alice hands on to Bob
unfoldable copied : Result RepoError Grant
copied =
    (share_as_holder toy Keeping.codecs lock.id lock alice (public toy bob) shape none_held none
      world).0

abbrev value : Result RepoError Grant → Grant
value (ok g) = g
value (err e) = alices

abbrev codecs : Codecs
codecs = record Keeping.codecs {
  grants = record {
    to_allocvec = λ g. ok (1 ∷ []);
    from_bytes = λ bytes. if bytes == (1 ∷ []) then ok (value copied) else ok alices;
  };
  publics = Keeping.only (public toy bob);
}

unfoldable shared : Result RepoError Grant × World
shared = share toy codecs [] (codes "bob") shape none_held none world

grant_ok :
    (r : Result RepoError Grant) (s : Result RepoError Grant)
    → is_ok s ≡ true
    → r ≡ s
    → r ≡ ok (value s)
grant_ok r (ok g) h same = same
grant_ok r (err e) h same = cc

copied_ok : is_ok copied ≡ true
unfolding copied share_as_holder governing_close governing matches ◌==◌ from_hex as_bytes to_hex
    load_close current_content_key facet_key_for serves verify toy expired Grant.unwrap_key
    Aead.unwrap_key derive open_box Aead.seal to_key binding_key chain_aad content_key_at facet_key
    lower_facet_key object_key shape_key_at walk_chain walk_down insert lex contains is_subset_of
    check_link check_signature expires_later outlives prefix_under unwrap wrap_aad zip_equal trim
    best_of better first_key key_from try_grant cipher_id encode facet_aad plain_id Seal.seal
    size_class_for get_ref object_path put rename set_ref tmp_path write closemap grants_for
    identity key_for ref_of covers public wide_enough hand_over add_grant public_of attenuate rewrap
    sign_body wrap_key union Grant.wrap
copied_ok = refl

shared_copied : shared.0 ≡ copied
unfolding shared copied share governing_close governing matches ◌==◌ from_hex as_bytes to_hex
    load_close current_content_key facet_key_for serves verify toy expired Grant.unwrap_key
    Aead.unwrap_key derive open_box Aead.seal to_key binding_key chain_aad content_key_at facet_key
    lower_facet_key object_key shape_key_at walk_chain walk_down insert lex contains is_subset_of
    check_link check_signature expires_later outlives prefix_under unwrap wrap_aad zip_equal trim
    best_of better first_key key_from try_grant cipher_id encode facet_aad plain_id Seal.seal
    size_class_for get_ref object_path put rename set_ref tmp_path write closemap grants_for
    identity key_for ref_of covers public wide_enough hand_over add_grant public_of attenuate rewrap
    sign_body wrap_key union share_as_holder share_as_steward Grant.wrap
shared_copied = refl

share_so :
    share toy codecs [] (codes "bob") shape none_held none world ≡ (ok (value copied), shared.1)
unfolding shared
share_so =
    ap (λ (r : Result RepoError Grant). (r, shared.1))
      (grant_ok shared.0 copied copied_ok shared_copied)

reads_back : ReadsBack codecs.grants (value copied)
unfolding ◌==◌
reads_back b h = ap (λ (x : Bytes). codecs.grants.from_bytes x) (sym (ok-injective h))

same_grants :
    grants_for codecs world (codes "alice") ≡ grants_for Keeping.codecs world (codes "alice")
unfolding grants_for ◌==◌
same_grants = refl

coherent : IsCoherent toy codecs world
unfolding load_close identity
coherent = record {
  filed = Keeping.coherent.filed;
  keys = Keeping.coherent.keys;
  keyed = Keeping.coherent.keyed;
  genuine = λ id r h me known i g there.
      Keeping.coherent.genuine id r h me known i g
        (ap (λ (gs : List Grant). get_elem? gs i) (sym same_grants) ∙ there);
}

published : public_of codecs world (codes "bob") ≡ ok (public toy bob)
unfolding public_of
published = refl

share-IsGenuine_example :
    (close : Bytes) × (r : CloseRecord) × (loads : load_close codecs world close ≡ ok r)
    × (governing_close codecs world (join []) ≡ ok close)
    × IsGenuine toy codecs.bodies r world.clock (coherent.keys close r loads) bob (value copied)
    × Has (value copied) (grants_for codecs shared.1 (codes "bob"))
share-IsGenuine_example =
    share-IsGenuine toy toy-IsLawful codecs bodies-Encodes world coherent [] (codes "bob") shape
      none_held none bob (value copied) shared.1 reads_back published share_so
