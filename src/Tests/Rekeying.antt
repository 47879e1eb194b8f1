-- ===== src/Tests/Rekeying.antt =====
-- The keys after a change of the lock, at a concrete input.
use close_common.Aead
use close_common.Grant
use close_common.Seal
use close_common.Store.{get_ref, object_path, put, rename, set_ref, tmp_path, write}
use close_common.Seal.{cipher_id, encode, facet_aad, plain_id, size_class_for}
use close_common.Common.Map.{insert, lex}
use close_common.Aead.{derive, open_box, to_key, wrap_key}
use close_common.Id.{from_hex, to_hex, trim}
use close_common.Common.{
  ℕ, suc, zero, ◌≡◌, refl, arith, sym, ◌∙◌, ap, [], ◌∷◌, some, some-injective, ok-injective, Result,
  ok, err, true, get_elem?, if◌then◌else◌, subst, Bool-cases, inl, inr,
}
use close_common.Common.Bytes.{Bytes, codes, ◌==◌, as_bytes}
use close_common.Crypto.{ReadsBack}
use close_common.Close
use close_common.Close.{
  CloseRecord, binding_key, chain_aad, content_key_at, facet_key, lower_facet_key, object_key,
  shape_key_at, walk_chain, walk_down,
}
use close_common.Close.Epochs.{IsKeyed}
use close_common.Close.History.{extend}
use close_common.Facet.{contains, is_subset_of, union}
use close_common.Grant.{
  Grant, Identity, verify, expired, check_link, check_signature, expires_later, outlives,
  prefix_under, unwrap, wrap_aad, zip_equal, covers, public, issue_root, sign_body, attenuate,
  rewrap,
}
use close_common.Repo.{
  is_ok, governing, matches, facet_key_for, serves, best_of, better, first_key, key_from, try_grant,
}
use close_common.Repo.Genuine.{IsGenuine}
use close_common.Snapshot.Sealed.{IsCoherent}
use close_common.Sharing.Relock.{rotate, relock, reissue, keepers_of}
use close_common.Sharing.Rekeyed.{rotate-content_key_at}
use close_common.Sharing.{add_grant, save_close}
use close_common.World.{Codecs, World, RepoError}
use close_common.World.Files.{
  load_close, identity, grants_for, governing_close, key_for, current_content_key, closemap, ref_of,
  public_of,
}
use close_common.Tests.Grants.{lock, alice, alices, content_key}
use close_common.Tests.Keeping
use close_common.Tests.Repos.{lock-IsKeyed, alices-IsGenuine}
use close_common.Tests.Sharings.{world, steward, rotated, rotated_ok, record_of}
use close_common.Tests.Toy.{toy, toy-IsLawful, bodies, bodies-Encodes}

-- Files of closes, which are the lock or what it is changed to
abbrev codecs : Codecs
codecs = record steward {
  grants = record { to_allocvec = λ g. ok (1 ∷ []); from_bytes = λ bytes. ok alices };
  closes = record {
    to_allocvec = λ r. ok (1 ∷ []);
    from_bytes = λ bytes. if bytes == (1 ∷ []) then ok (record_of rotated.0) else ok lock;
  };
}

unfoldable changed : Result RepoError CloseRecord × World
changed = rotate toy codecs [] (codes "dana" ∷ []) world

changed_rotated : changed.0 ≡ rotated.0
unfolding changed rotated rotate governing_close governing matches ◌==◌ from_hex as_bytes to_hex
    load_close current_content_key facet_key_for serves verify toy expired Grant.unwrap_key
    Aead.unwrap_key derive open_box Aead.seal to_key binding_key chain_aad content_key_at facet_key
    lower_facet_key object_key shape_key_at walk_chain walk_down insert lex contains is_subset_of
    check_link check_signature expires_later outlives prefix_under unwrap wrap_aad zip_equal trim
    best_of better first_key key_from try_grant cipher_id encode facet_aad plain_id Seal.seal
    size_class_for get_ref object_path put rename set_ref tmp_path write closemap grants_for
    identity key_for ref_of covers public relock reissue keepers_of add_grant save_close public_of
    issue_root sign_body wrap_key union Close.rotate Grant.wrap
changed_rotated = refl

of-ok : (r s : Result RepoError CloseRecord) → is_ok s ≡ true → r ≡ s → r ≡ ok (record_of s)
of-ok r (ok x) h same = same
of-ok r (err e) h same = cc

change_so : rotate toy codecs [] (codes "dana" ∷ []) world ≡ (ok (record_of rotated.0), changed.1)
unfolding changed
change_so =
    ap (λ (r : Result RepoError CloseRecord). (r, changed.1))
      (of-ok changed.0 rotated.0 rotated_ok changed_rotated)

reads_back : ReadsBack codecs.closes (record_of rotated.0)
unfolding ◌==◌
reads_back b h = ap (λ (x : Bytes). codecs.closes.from_bytes x) (sym (ok-injective h))

same_close : (id : Bytes) → load_close codecs world id ≡ load_close Keeping.codecs Keeping.world id
unfolding load_close ◌==◌
same_close id = elim (Bool-cases (to_hex id == Keeping.lock_hex)) [
  | inl here ↦ rw (here)
  | inr gone ↦ rw (gone)
]

-- The steward unwraps what Alice does.
stewards_grant :
    (me : Identity) (i : ℕ) (g : Grant)
    → identity codecs world (codes "alice") ≡ ok me
    → get_elem? (grants_for codecs world (codes "alice")) i ≡ some g
    → IsGenuine toy bodies lock 60 (λ n. content_key) me g
unfolding identity grants_for Grant.unwrap_key
stewards_grant me zero g known there =
    subst (λ (x : Identity). IsGenuine toy bodies lock 60 (λ n. content_key) x g)
      (ok-injective known)
      (subst
        (IsGenuine toy bodies lock 60 (λ n. content_key)
          (record { name = codes "alice"; sign = 1 ∷ []; dh = alice.dh }))
        (some-injective alices g there) alices-IsGenuine)
stewards_grant me (suc i) g known there = cc

coherent : IsCoherent toy codecs world
coherent = record {
  filed = λ id r h. Keeping.coherent.filed id r (sym (same_close id) ∙ h);
  keys = λ id r h n. content_key;
  keyed = λ id r h.
      subst (λ (x : CloseRecord). IsKeyed toy x (λ n. content_key))
        (Keeping.loads_lock id r (sym (same_close id) ∙ h)).0 lock-IsKeyed;
  genuine = λ id r h me known i g there.
      subst (λ (x : CloseRecord). IsGenuine toy bodies x 60 (λ n. content_key) me g)
        (Keeping.loads_lock id r (sym (same_close id) ∙ h)).0 (stewards_grant me i g known there);
}

loads : load_close codecs world lock.id ≡ ok lock
unfolding load_close ◌==◌ to_hex
loads = refl

governs : governing_close codecs world [] ≡ ok lock.id
unfolding governing_close governing matches ◌==◌ as_bytes from_hex to_hex
governs = refl

rotate-content_key_at_example :
    (new : Bytes) × (load_close codecs changed.1 lock.id ≡ ok (record_of rotated.0))
    × ((record_of rotated.0).epoch ≡ 1)
    × IsKeyed toy (record_of rotated.0) (extend (λ n. content_key) 0 new)
    × (content_key_at toy (record_of rotated.0) new (record_of rotated.0).epoch 0 ≡ ok content_key)
unfolding coherent
rotate-content_key_at_example =
    rotate-content_key_at toy codecs toy-IsLawful bodies-Encodes world coherent []
      (codes "dana" ∷ []) lock.id lock (record_of rotated.0) changed.1 0 loads governs reads_back
      (omega arith) (omega arith) change_so
