-- ===== src/Tests/Sharings.antt =====
-- Sharing and changing the lock at concrete inputs.
use close_common.Aead
use close_common.Grant
use close_common.Seal
use close_common.Store.{get_ref, object_path, put, rename, set_ref, tmp_path, write}
use close_common.Seal.{cipher_id, encode, facet_aad, plain_id, size_class_for}
use close_common.Common.Map.{insert, lex}
use close_common.Aead.{derive, open_box, to_key, wrap_key}
use close_common.Id.{from_hex, to_hex, trim}
use close_common.Common.{
  ℕ, suc, zero, ◌≤◌, ◌≡◌, refl, arith, sym, ap, [], ◌∷◌, none, some, some-injective, ok-injective,
  Result, ok, err, true, false, replicate, get_elem?, if◌then◌else◌, subst,
}
use close_common.Common.Bytes.{Bytes, codes, ◌==◌, as_bytes}
use close_common.Crypto.{ReadsBack, Codec}
use close_common.Close
use close_common.Close.{
  CloseRecord, binding_key, chain_aad, content_key_at, facet_key, lower_facet_key, object_key,
  shape_key_at, walk_chain, walk_down,
}
use close_common.Facet.{Facet, presence, none_held, contains, is_subset_of, union}
use close_common.Grant.{
  PublicIdentity, Grant, Identity, terms, verify, expired, check_link, check_signature,
  expires_later, outlives, prefix_under, unwrap, wrap_aad, zip_equal, covers, public, issue_root,
  sign_body, attenuate, rewrap,
}
use close_common.Repo.{
  is_ok, governing, matches, facet_key_for, serves, best_of, better, first_key, key_from, try_grant,
}
use close_common.Sharing.Hand.{share, share_as_holder, hand_over, wide_enough, share_as_steward}
use close_common.Sharing.Relock.{rotate, relock, reissue, keepers_of}
use close_common.Sharing.Passed.{Passes, share-Passes}
use close_common.Sharing.Held.{Has}
use close_common.Sharing.Lockout.{rotate-locks_out}
use close_common.Sharing.{mentions, add_grant, save_close}
use close_common.World.{Codecs, World, RepoError}
use close_common.World.Files.{
  load_close, identity, grants_for, governing_close, key_for, current_content_key, closemap, ref_of,
  public_of,
}
use close_common.Tests.Grants.{lock, alice, alices}
use close_common.Tests.Keeping
use close_common.Tests.Toy.{toy}

abbrev pub public_bob : PublicIdentity
public_bob = record { name = codes "bob"; sign = replicate 32 5; dh = replicate 32 6 }

abbrev pub world : World
world = record Keeping.world { people = codes "alice" ∷ codes "dana" ∷ [] }

-- What Alice hands on to Bob
unfoldable pub copied : Result RepoError Grant
copied =
    (share_as_holder toy Keeping.codecs lock.id lock alice public_bob presence none_held none
      world).0

abbrev pub value : Result RepoError Grant → Grant
value (ok g) = g
value (err e) = alices

abbrev pub grants : Codec Grant
grants = record {
  to_allocvec = λ g. ok (1 ∷ []);
  from_bytes = λ bytes. if bytes == (1 ∷ []) then ok (value copied) else ok alices;
}

abbrev pub codecs : Codecs
codecs = record Keeping.codecs {
  grants = grants;
  publics = Keeping.only public_bob;
  closes = record { to_allocvec = λ r. ok (1 ∷ []); from_bytes = λ bytes. ok lock };
}

-- The steward, with the keys that Alice's grant was wrapped to
abbrev pub steward : Codecs
steward = record codecs { secrets = Keeping.only (1 ∷ [], alice.dh) }

unfoldable pub rotated : Result RepoError CloseRecord × World
rotated = rotate toy steward [] (codes "dana" ∷ []) world

abbrev pub record_of : Result RepoError CloseRecord → CloseRecord
record_of (ok r) = r
record_of (err e) = lock

record-ok : (r : Result RepoError CloseRecord) → is_ok r ≡ true → r ≡ ok (record_of r)
record-ok (ok r) h = refl
record-ok (err e) h = cc

pub rotated_ok : is_ok rotated.0 ≡ true
unfolding rotated rotate governing_close governing matches ◌==◌ from_hex as_bytes to_hex load_close
    current_content_key facet_key_for serves verify toy expired Grant.unwrap_key Aead.unwrap_key
    derive open_box Aead.seal to_key binding_key chain_aad content_key_at facet_key lower_facet_key
    object_key shape_key_at walk_chain walk_down insert lex contains is_subset_of check_link
    check_signature expires_later outlives prefix_under unwrap wrap_aad zip_equal trim best_of
    better first_key key_from try_grant cipher_id encode facet_aad plain_id Seal.seal size_class_for
    get_ref object_path put rename set_ref tmp_path write closemap grants_for identity key_for
    ref_of covers public relock reissue keepers_of add_grant save_close public_of issue_root
    sign_body wrap_key union Close.rotate Grant.wrap
rotated_ok = refl

rotate_so : rotate toy steward [] (codes "dana" ∷ []) world ≡ (ok (record_of rotated.0), rotated.1)
unfolding rotated
rotate_so =
    ap (λ (r : Result RepoError CloseRecord). (r, rotated.1)) (record-ok rotated.0 rotated_ok)

governs : governing_close steward world [] ≡ ok lock.id
unfolding governing_close governing matches ◌==◌ as_bytes from_hex to_hex
governs = refl

loads : load_close steward world lock.id ≡ ok lock
unfolding load_close ◌==◌ to_hex
loads = refl

danas :
    (i : ℕ) (g : Grant)
    → get_elem? (grants_for steward world (codes "dana")) i ≡ some g
    → (terms g).epoch ≤ 0
unfolding grants_for ◌==◌
danas zero g there =
    subst (λ (x : Grant). (terms x).epoch ≤ 0) (some-injective alices g there) (omega arith)
danas (suc i) g there = cc

left_out : mentions (codes "dana") (codes "dana" ∷ []) ≡ true
unfolding ◌==◌
left_out = refl

rotate-locks_out_example :
    ((me : Identity) × (identity steward world world.me ≡ ok me)
      × (lock.steward ≡ toy.verifying_key me.sign))
    × ((record_of rotated.0).epoch ≡ 1)
    × ((wanted : Facet)
        → key_for steward rotated.1 toy
            (codes "dana")
            (record_of rotated.0)
            wanted
            (record_of rotated.0).epoch
          ≡ none)
rotate-locks_out_example =
    rotate-locks_out toy steward [] (codes "dana" ∷ []) world lock.id lock (record_of rotated.0)
      rotated.1 (codes "dana") governs loads (omega arith) left_out danas rotate_so

unfoldable shared : Result RepoError Grant × World
shared = share toy codecs [] (codes "bob") presence none_held none world

grant_ok :
    (r : Result RepoError Grant) (s : Result RepoError Grant)
    → is_ok s ≡ true
    → r ≡ s
    → r ≡ ok (value s)
grant_ok r (ok g) h same = same
grant_ok r (err e) h same = cc

copied_ok : is_ok copied ≡ true
unfolding copied share_as_holder governing_close governing matches ◌==◌ from_hex as_bytes to_hex
    load_close current_content_key facet_key_for serves verify toy expired Grant.unwrap_key
    Aead.unwrap_key derive open_box Aead.seal to_key binding_key chain_aad content_key_at facet_key
    lower_facet_key object_key shape_key_at walk_chain walk_down insert lex contains is_subset_of
    check_link check_signature expires_later outlives prefix_under unwrap wrap_aad zip_equal trim
    best_of better first_key key_from try_grant cipher_id encode facet_aad plain_id Seal.seal
    size_class_for get_ref object_path put rename set_ref tmp_path write closemap grants_for
    identity key_for ref_of covers public wide_enough hand_over add_grant public_of attenuate rewrap
    sign_body wrap_key union
copied_ok = refl

shared_copied : shared.0 ≡ copied
unfolding shared copied share governing_close governing matches ◌==◌ from_hex as_bytes to_hex
    load_close current_content_key facet_key_for serves verify toy expired Grant.unwrap_key
    Aead.unwrap_key derive open_box Aead.seal to_key binding_key chain_aad content_key_at facet_key
    lower_facet_key object_key shape_key_at walk_chain walk_down insert lex contains is_subset_of
    check_link check_signature expires_later outlives prefix_under unwrap wrap_aad zip_equal trim
    best_of better first_key key_from try_grant cipher_id encode facet_aad plain_id Seal.seal
    size_class_for get_ref object_path put rename set_ref tmp_path write closemap grants_for
    identity key_for ref_of covers public wide_enough hand_over add_grant public_of attenuate rewrap
    sign_body wrap_key union share_as_holder share_as_steward
shared_copied = refl

share_so :
    share toy codecs [] (codes "bob") presence none_held none world ≡ (ok (value copied), shared.1)
unfolding shared
share_so =
    ap (λ (r : Result RepoError Grant). (r, shared.1))
      (grant_ok shared.0 copied copied_ok shared_copied)

reads_back : ReadsBack codecs.grants (value copied)
unfolding ◌==◌
reads_back b h = ap (λ (x : Bytes). codecs.grants.from_bytes x) (sym (ok-injective h))

knows : identity codecs world (codes "alice") ≡ ok alice
unfolding identity
knows = refl

not_steward : (lock.steward == toy.verifying_key alice.sign) ≡ false
unfolding ◌==◌ toy
not_steward = refl

shares : governing_close codecs world [] ≡ ok lock.id
unfolding governing_close governing matches ◌==◌ as_bytes from_hex to_hex
shares = refl

loads_shared : load_close codecs world lock.id ≡ ok lock
unfolding load_close ◌==◌ to_hex
loads_shared = refl

share-Passes_example :
    Passes toy codecs world lock.id lock presence none_held (value copied)
    × Has (value copied) (grants_for codecs shared.1 (codes "bob"))
share-Passes_example =
    share-Passes toy codecs [] (codes "bob") presence none_held none world lock.id lock alice
      (value copied) shared.1 reads_back shares loads_shared knows not_steward share_so
