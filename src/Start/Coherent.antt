-- ===== src/Start/Coherent.antt =====
-- A new commons meets what the theorems on keeping and sharing assume (repo.rs, init).
use close_common.Common.{
  err, ℕ, zero, suc, ◌≡◌, ◌⊎◌, refl, sym, ◌∙◌, ap, subst, List, [], ◌∷◌, none, some, some-injective,
  Result, ok, ok-injective, to_option, get_elem?, arith, length, Option-cases, inl, inr,
}
use close_common.Common.Bytes.{Bytes, Text, IsKey, AreBytes, ◌==◌}
use close_common.Crypto.{Crypto, IsLawful, IsCodec}
use close_common.Facet.{content, union, set, invoke}
use close_common.Aead.{derive-IsKey}
use close_common.Close.{CloseRecord, EpochLink, found, lower_facet_key}
use close_common.Close.Epochs.{IsKeyed}
use close_common.Grant.{Grant, Identity, terms, unwrap_key, verify}
use close_common.Grant.Wrap.{Encodes}
use close_common.Grant.Issue.{issue_root_lem}
use close_common.Id.{from_hex}
use close_common.Id.Hex.{from_hex-to_hex}
use close_common.Repo.{facet_key_for, governing, matches}
use close_common.Repo.Genuine.{IsGenuine, facet_key_for-genuine}
use close_common.Repo.Keys.{facet_key_for-ne-none}
use close_common.Store.Sound.{IsSound, Collision}
use close_common.World.{Codecs, World, RepoError}
use close_common.World.Files.{
  load_close, identity, grants_for, governing_close, key_for, current_content_key,
}
use close_common.Snapshot.{Listing, dir, keep, commons_id, expect_id}
use close_common.Snapshot.Sealed.{IsCoherent}
use close_common.Snapshot.Shows.{lookup}
use close_common.Snapshot.Back.{open_path-keep}
use close_common.Browse.{open_path}
use close_common.Start.{Folder, bare, without_config, commons_in, after_start, fresh, start, init}
use close_common.Start.Founding.{first_close, first_person}
use close_common.Start.Ready.{Begun, Kept, start-Begun}

abbrev in_commons : World → Folder → World
in_commons w (bare clock random) = w
in_commons w (without_config v) = v
in_commons w (commons_in v) = v

in_commons-after_start :
    (w v : World) (r : Result RepoError (Unit {0})) → in_commons w (after_start r v) ≡ v
in_commons-after_start w v (ok done) = refl
in_commons-after_start w v (err e) = refl

module _ (c : Crypto) (l : IsLawful c) (k : Codecs) (encodes : Encodes k.bodies) where
  module _ (me : Text) (who : Identity) (r : CloseRecord) (key eph : Bytes) (size : IsKey key)
      (w : World) (b : Begun c k me who r key eph w) where
    unlinked : IsKeyed c r (λ i. key)
    unlinked =
        let (e, chain) = b.first in
        record {
          linked = ap (λ (x : List EpochLink). length x) chain ∙ sym e;
          sized = λ i h. size;
          unlocks = λ i h. absurd (omega (arith, e));
        }

    -- The founding grant carries the key of the commons.
    founding-IsGenuine :
        IsGenuine c k.bodies r w.clock (λ i. key) who b.grant
        × (verify c k.bodies r w.clock b.grant ≡ ok tt)
        × (unwrap_key c b.grant who ≡ ok key)
        × ((terms b.grant).close ≡ r.id)
        × ((terms b.grant).facet ≡ content)
        × ((terms b.grant).epoch ≡ 0)
    unfolding lower_facet_key
    founding-IsGenuine =
        let (wrapped, sig, made, verifies, unwraps) =
          issue_root_lem c l k.bodies encodes r who.sign key eph size 0 who content
            (union set invoke) [] none [] b.steward w.clock tt in
        let same = ok-injective (sym made ∙ b.issued) in
        subst
          (λ (g : Grant).
            IsGenuine c k.bodies r w.clock (λ i. key) who g
            × (verify c k.bodies r w.clock g ≡ ok tt)
            × (unwrap_key c g who ≡ ok key)
            × ((terms g).close ≡ r.id)
            × ((terms g).facet ≡ content)
            × ((terms g).epoch ≡ 0))
          same
          (
            λ found close checked opens.
                (omega arith, ap (λ (x : Bytes). some x) (ok-injective (sym unwraps ∙ opens))),
            verifies,
            unwraps,
            refl,
            refl,
            refl,
          )

    IsGenuine-at :
        (who' : Identity) (i : ℕ) (g : Grant)
        → identity k w me ≡ ok who'
        → get_elem? (grants_for k w me) i ≡ some g
        → IsGenuine c k.bodies r w.clock (λ i. key) who' g
    IsGenuine-at who' i g known there =
        subst (λ (x : Identity). IsGenuine c k.bodies r w.clock (λ i. key) x g)
          (ok-injective (sym b.known ∙ known))
          (only i (ap (λ (gs : List Grant). get_elem? gs i) (sym b.holds) ∙ there))
      where
        only :
            (i : ℕ)
            → get_elem? (b.grant ∷ []) i ≡ some g
            → IsGenuine c k.bodies r w.clock (λ i. key) who g
        only zero h =
            subst (IsGenuine c k.bodies r w.clock (λ i. key) who) (some-injective b.grant g h)
              founding-IsGenuine.0
        only (suc i) h = absurd (cc h)

    Begun-IsCoherent : IsCoherent c k w
    Begun-IsCoherent = record {
      filed = λ id r' h.
          let (same, named) = b.alone id r' h in ap (λ (x : CloseRecord). x.id) (sym same) ∙ named;
      keys = λ id r' h i. key;
      keyed = λ id r' h.
          subst (λ (x : CloseRecord). IsKeyed c x (λ i. key)) (b.alone id r' h).0 unlinked;
      genuine = λ id r' h who' known i g there.
          subst (λ (x : CloseRecord). IsGenuine c k.bodies x w.clock (λ i. key) who' g)
            (b.alone id r' h).0
            (IsGenuine-at who' i g (ap (identity k w) (sym b.named) ∙ known)
              (ap (λ (n : Text). get_elem? (grants_for k w n) i) (sym b.named) ∙ there));
    }

    finds : facet_key_for c k.bodies r w.clock (some who) content r.epoch (b.grant ∷ []) ≡ some key
    unfolding lower_facet_key
    finds =
        let (genuine, verifies, opens, close, reads, at) = founding-IsGenuine in
        let (zeroth, _) = b.first in
        let F = facet_key_for c k.bodies r w.clock (some who) content r.epoch (b.grant ∷ []) in
        elim (Option-cases F) [
          | inl gone ↦ absurd (
              facet_key_for-ne-none c k.bodies r w.clock (λ i. key) unlinked who r.epoch b.grant
                close verifies reads opens (omega (arith, zeroth)) (omega (arith, at)) content
                (b.grant ∷ []) 0 (λ e. cc) refl gone)
          | inr (found, there) ↦
              there
              ∙ sym (
                  facet_key_for-genuine c k.bodies r w.clock (λ i. key) unlinked who (b.grant ∷ [])
                    only_one r.epoch content found there)
        ]
      where
        only_one :
            (i : ℕ) (g : Grant)
            → get_elem? (b.grant ∷ []) i ≡ some g
            → IsGenuine c k.bodies r w.clock (λ i. key) who g
        only_one zero g h =
            subst (IsGenuine c k.bodies r w.clock (λ i. key) who) (some-injective b.grant g h)
              founding-IsGenuine.0
        only_one (suc i) g h = absurd (cc h)

    current : current_content_key k w c w.me r ≡ some key
    unfolding current_content_key key_for
    current =
        ap
          (λ (n : Text).
            facet_key_for c k.bodies r w.clock (to_option (identity k w n)) content r.epoch
              (grants_for k w n))
          b.named
        ∙ ap
            (λ (x : Result RepoError Identity).
              facet_key_for c k.bodies r w.clock (to_option x) content r.epoch (grants_for k w me))
            b.known
        ∙ ap (facet_key_for c k.bodies r w.clock (some who) content r.epoch) b.holds
        ∙ finds

    governs : (path : Text) → AreBytes r.id → IsKey r.id → governing_close k w path ≡ ok r.id
    unfolding governing_close governing matches ◌==◌
    governs path small sized = rw (b.mapped, from_hex-to_hex r.id sized small)

    stands : AreBytes r.id → IsKey r.id → commons_id c k w ≡ ok r.id
    stands small sized =
        ap (λ (t : Text). expect_id (from_hex t)) b.commons
        ∙ ap expect_id (from_hex-to_hex r.id sized small)

  module _ (small : (m : Bytes) → AreBytes (c.hash m)) (me : Text) (clock : ℕ) (random : ℕ → Bytes)
      (w : World) (kept : Kept c k me clock random)
      (begins : init c k me (bare clock random) ≡ (ok tt, commons_in w)) where
    abbrev r : CloseRecord
    r = (first_close c k me random).0

    begin_eq :
        (start c k me (fresh me clock random)).0 ≡ ok tt
        → (start c k me (fresh me clock random)).1 ≡ w
        → start c k me (fresh me clock random) ≡ (ok tt, w)
    begin_eq p q = cc (p, q)

    begun : Begun c k me (first_person c k me random) r (first_close c k me random).1 (random 3) w
    unfolding init
    begun = start-Begun c k me clock random kept w (
        begin_eq (ap (λ (x : Result RepoError (Unit {0}) × Folder). x.0) begins) (
          sym (in_commons-after_start w _ (start c k me (fresh me clock random)).0)
          ∙ ap (λ (x : Result RepoError (Unit {0}) × Folder). in_commons w x.1) begins))

    -- Where the files that `init` writes read back, a folder that it made a commons has a store where
    -- every object stands at its hash. The commons is a close with its chain in order, it governs every
    -- path, and whoever made it holds a genuine grant of it and finds its current content key.
    pub init-IsCoherent :
        IsSound c w.store
        × IsCoherent c k w
        × (commons_id c k w ≡ ok r.id)
        × ((path : Text) → governing_close k w path ≡ ok r.id)
        × (load_close k w r.id ≡ ok r)
        × (w.me ≡ me)
        × (current_content_key k w c w.me r ≡ some (first_close c k me random).1)
    unfolding found
    init-IsCoherent =
        let key = (first_close c k me random).1 in
        let size : IsKey key = derive-IsKey c l _ _ _ in
        let sized : IsKey r.id = l.length-hash _ in
        let who = first_person c k me random in
        (
          subst (IsSound c) (sym begun.stored) (λ id size bytes there. cc),
          Begun-IsCoherent me who r key (random 3) size w begun,
          stands me who r key (random 3) size w begun (small _) sized,
          (λ path. governs me who r key (random 3) size w begun path (small _) sized),
          begun.loads,
          begun.named,
          current me who r key (random 3) size w begun,
        )

    -- Where the files that `init` writes read back, in a folder that it made a commons: after a first
    -- keeping that succeeds, every file of the directory opens at its path to the bytes that it had,
    -- unless bytes were put into the store at whose address other bytes of the same hash stand.
    pub open_path-keep-init :
        (objects : IsCodec k.objects) (trees : IsCodec k.trees) (commits : IsCodec k.commits)
        (listing : Listing) (message : Text) (id : Bytes) (w' : World) (path : List Text)
        (bytes : Bytes)
        → keep c k listing message w ≡ (ok id, w')
        → lookup path (dir listing) ≡ some bytes
        → Collision c w'.store ⊎ (open_path c k w' me path ≡ ok bytes)
    open_path-keep-init objects trees commits listing message id w' path bytes h there =
        let (sound, coherent, _, _, _, named, _) = init-IsCoherent in
        subst (λ (n : Text). Collision c w'.store ⊎ (open_path c k w' n path ≡ ok bytes)) named
          (open_path-keep c l small k objects trees commits w coherent listing message id w' path
            bytes sound h there)
