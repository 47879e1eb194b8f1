-- ===== src/Tests/Keeping.antt =====
-- Keeping a directory at a concrete input.
use close_common.Common.{
  ℕ, ◌≡◌, ◌⊎◌, refl, sym, ◌∙◌, ap, arith, [], ◌∷◌, none, some, true, Result, ok, err, if◌then◌else◌,
  get_elem?, Bool-cases, inl, inr, zero, suc, some-injective, ok-injective, subst,
}
use close_common.Common.Bytes.{Bytes, Text, codes, ◌==◌, ==→eq, IsKey}
use close_common.Crypto.{Codec}
use close_common.Close.{CloseRecord, lower_facet_key}
use close_common.Close.Epochs.{IsKeyed}
use close_common.Grant.{Grant, Identity, PublicIdentity, unwrap_key}
use close_common.Id.{to_hex, from_hex}
use close_common.Id.Hex.{to_hex-injective}
use close_common.Repo.{is_ok}
use close_common.Repo.Genuine.{IsGenuine}
use close_common.Seal.{ShapeCard}
use close_common.Snapshot.{file, Listing, empty, item, keep}
use close_common.Snapshot.Sealed.{IsCoherent}
use close_common.Snapshot.Back.{open_path-keep}
use close_common.Browse.{open_path, head_commit}
use close_common.Dag.{Commit}
use close_common.History.{history}
use close_common.History.Later.{AreSized}
use close_common.History.Longer.{history-keep}
use close_common.World.Shown.{Shown, shown, above, finished}
use close_common.World.{Codecs, World, RepoError}
use close_common.World.Files.{load_close, identity, grants_for}
use close_common.Store.Sound.{Collision}
use close_common.Tests.Codecs.{
  objects, trees, commits, objects-IsCodec, trees-IsCodec, commits-IsCodec,
}
use close_common.Tests.Grants.{lock, alice, alices, content_key}
use close_common.Tests.Repos.{lock-IsKeyed, alices-IsGenuine}
use close_common.Tests.Stores
use close_common.Tests.Stores.{hash-AreBytes, empty-IsSound}
use close_common.Tests.Toy
use close_common.Tests.Toy.{toy, toy-IsLawful, bodies}
use close_common.Aead.{derive, open_box, to_key}
use close_common.Close.{
  binding_key, chain_aad, content_key_at, facet_key, object_key, shape_key_at, walk_chain,
  walk_down,
}
use close_common.Common.Bytes.{as_bytes}
use close_common.Common.Map.{insert, lex}
use close_common.Facet.{contains, is_subset_of}
use close_common.Grant.{
  verify, expired, check_link, check_signature, expires_later, outlives, prefix_under, unwrap,
  wrap_aad, zip_equal,
}
use close_common.Id.{trim}
use close_common.Repo.{
  card_for, guess_type, governing, matches, facet_key_for, serves, best_of, better, first_key,
  key_from, try_grant,
}
use close_common.Seal.{cipher_id, encode, facet_aad, plain_id, size_class_for}
use close_common.Snapshot.{
  keep_commit, put_sealed, seal_dir, snap_all, snap_dir, snap_file, writing_key,
}
use close_common.Store.{get_ref, object_path, put, rename, set_ref, tmp_path, write}
use close_common.World.Files.{governing_close, current_content_key, closemap, key_for, ref_of}
use close_common.Aead
use close_common.Seal

-- Files that hold one value
abbrev pub only {ℓ} : {A : Type ℓ} → A → Codec A
only a = record { to_allocvec = λ _. err []; from_bytes = λ bytes. ok a }

abbrev pub lock_hex : Text
lock_hex = to_hex lock.id

abbrev public_alice : PublicIdentity
public_alice = record { name = codes "alice"; sign = []; dh = [] }

abbrev pub codecs : Codecs
codecs = record {
  bodies = bodies;
  grants = only alices;
  cards = record { to_allocvec = λ card. ok card.label; from_bytes = λ bytes. err [] };
  objects = objects;
  trees = trees;
  commits = commits;
  moves = Toy.transitions;
  transitions = record { to_allocvec = λ t. err []; from_bytes = λ bytes. err [] };
  closes = only lock;
  closemap = only (([], lock_hex) ∷ []);
  cells = only [];
  declarations = record { to_allocvec = λ decl. ok decl.kind; from_bytes = λ bytes. err [] };
  secrets = only (alice.sign, alice.dh);
  publics = only public_alice;
}

abbrev pub world : World
world = record {
  me = codes "alice";
  commons = lock_hex;
  store = Stores.empty;
  closes = λ path. if path == lock_hex then some [] else none;
  closemap = some [];
  cells = none;
  declarations = λ path. none;
  grants = λ holder. (codes "0001.grant", []) ∷ [];
  people = codes "alice" ∷ [];
  secrets = λ name. some [];
  publics = λ name. some [];
  clock = 60;
  random = λ n. [];
  drawn = 0;
}

pub loads_lock :
    (id : Bytes) (r : CloseRecord) → load_close codecs world id ≡ ok r → (lock ≡ r) × (lock.id ≡ id)
unfolding load_close
loads_lock id r h = elim (Bool-cases (to_hex id == lock_hex)) [
  | inl same ↦
      (ground (arith, h, same), sym (to_hex-injective id lock.id (==→eq (to_hex id) lock_hex same)))
  | inr other ↦ absurd (ground (arith, h, other))
]

abbrev letters : Listing
letters = item (codes "a") (file (1 ∷ 2 ∷ 3 ∷ [])) empty

alices_grant :
    (me : Identity) (i : ℕ) (g : Grant)
    → identity codecs world (codes "alice") ≡ ok me
    → get_elem? (grants_for codecs world (codes "alice")) i ≡ some g
    → IsGenuine toy bodies lock 60 (λ n. content_key) me g
unfolding identity grants_for
alices_grant me zero g known there =
    subst (λ (x : Identity). IsGenuine toy bodies lock 60 (λ n. content_key) x g)
      (ok-injective known)
      (subst (IsGenuine toy bodies lock 60 (λ n. content_key) alice) (some-injective alices g there)
        alices-IsGenuine)
alices_grant me (suc i) g known there = cc

pub coherent : IsCoherent toy codecs world
coherent = record {
  filed = λ id r h.
      let (same, named) = loads_lock id r h in ap (λ (x : CloseRecord). x.id) (sym same) ∙ named;
  keys = λ id r h n. content_key;
  keyed = λ id r h.
      subst (λ (x : CloseRecord). IsKeyed toy x (λ n. content_key)) (loads_lock id r h).0
        lock-IsKeyed;
  genuine = λ id r h me known i g there.
      subst (λ (x : CloseRecord). IsGenuine toy bodies x 60 (λ n. content_key) me g)
        (loads_lock id r h).0 (alices_grant me i g known there);
}

unfoldable pub kept : Result RepoError Bytes × World
kept = keep toy codecs letters (codes "first") world

kept_ok : is_ok kept.0 ≡ true
unfolding kept card_for guess_type keep governing_close governing matches ◌==◌ from_hex as_bytes
    to_hex load_close current_content_key facet_key_for serves verify toy expired unwrap_key
    Aead.unwrap_key derive open_box Aead.seal to_key binding_key chain_aad content_key_at facet_key
    lower_facet_key object_key shape_key_at walk_chain walk_down insert lex contains is_subset_of
    check_link check_signature expires_later outlives prefix_under unwrap wrap_aad zip_equal trim
    best_of better first_key key_from try_grant cipher_id encode facet_aad plain_id Seal.seal
    size_class_for keep_commit put_sealed seal_dir snap_all snap_dir snap_file writing_key get_ref
    object_path put rename set_ref tmp_path write closemap grants_for identity key_for ref_of
kept_ok = refl

abbrev pub value : Result RepoError Bytes → Bytes
value (ok id) = id
value (err e) = []

pub value-ok : (r : Result RepoError Bytes) → is_ok r ≡ true → r ≡ ok (value r)
value-ok (ok id) h = refl
value-ok (err e) h = cc

kept_so : keep toy codecs letters (codes "first") world ≡ (ok (value kept.0), kept.1)
unfolding kept
kept_so = ap (λ (r : Result RepoError Bytes). (r, kept.1)) (value-ok kept.0 kept_ok)

open_path-keep_example :
    Collision toy kept.1.store
    ⊎ (open_path toy codecs kept.1 (codes "alice") (codes "a" ∷ []) ≡ ok (1 ∷ 2 ∷ 3 ∷ []))
unfolding ◌==◌
open_path-keep_example =
    open_path-keep toy toy-IsLawful hash-AreBytes codecs objects-IsCodec trees-IsCodec
      commits-IsCodec world coherent letters (codes "first") (value kept.0) kept.1 (codes "a" ∷ [])
      (1 ∷ 2 ∷ 3 ∷ []) empty-IsSound kept_so refl

nothing_yet : history toy codecs world (codes "alice") 0 ≡ shown [] finished
unfolding history head_commit ref_of get_ref
nothing_yet = refl

history-keep_example :
    Collision toy kept.1.store
    ⊎ ((made : Commit) × (made.message ≡ codes "first")
        × (made.author ≡ codes "alice")
        × IsKey (value kept.0)
        × (history toy codecs kept.1 (codes "alice") 1
            ≡ above (value kept.0, made) (history toy codecs world (codes "alice") 0)))
history-keep_example =
    history-keep toy toy-IsLawful hash-AreBytes codecs objects-IsCodec trees-IsCodec commits-IsCodec
      world coherent letters (codes "first") (value kept.0) kept.1 0 empty-IsSound kept_so
      (ap (λ (x : Shown (Bytes × Commit)). x.ending) nothing_yet)
      (subst (λ (x : Shown (Bytes × Commit)). AreSized x.lines) (sym nothing_yet) tt)
