-- ===== src/Snapshot/Sealed.antt =====
-- What stands in a store once an object was sealed and put there (repo.rs, put_sealed), and what the
-- person who sealed it opens of it.
use close_common.Common.{
  ℕ, ◌≡◌, refl, ◌⊎◌, inl, inr, sym, ◌∙◌, ap, subst, Option, some, Result, ok, map_err, map_err-ok,
  to_option, ok-injective, Result-cases, get_elem?,
}
use close_common.Common.Bytes.{Bytes, IsKey}
use close_common.Crypto.{Crypto, IsLawful, IsCodec}
use close_common.Facet
use close_common.Facet.{Facet, Error, shape, content}
use close_common.Close.{CloseRecord, shape_of}
use close_common.Seal
use close_common.Seal.{
  ObjectKind, tree, ShapeCard, SealedObject, payload_facet, payload_key, open_payload, encode,
  cipher_id,
}
use close_common.Seal.Confine.{Opens, seal-Opens}
use close_common.Store.{Store, put, object_path}
use close_common.Snapshot.Onward.{Bears}
use close_common.Store.Sound.{
  Collision, IsSound, get-IsSound, put-IsSound, put_keeps, put_refs, put_stands,
}
use close_common.Close.Epochs.{IsKeyed}
use close_common.Grant.{Grant, Identity}
use close_common.Repo.{facet_key_for}
use close_common.Repo.Genuine.{IsGenuine, facet_key_for-shape}
use close_common.World.{Codecs, World, Run, RepoError, given, ◌>>=◌, given_then, run_then, core}
use close_common.World.Files.{
  load_close, identity, grants_for, load_sealed, key_for, current_content_key, open_tree, open_blob,
  object_facet_key, and_then,
}
use close_common.Snapshot.{put_sealed, seal_as}

-- The state with another store.
abbrev pub at : World → Store → World
at w s = record w { store = s }

abbrev pub unless {ℓ κ μ ν} :
    {C : Type ℓ} {D : Type ν} {A : Type κ} {B : Type μ} → C ⊎ A → (C → D) → (A → D ⊎ B) → D ⊎ B
unless (inl e) up f = inl (up e)
unless (inr a) up f = f a

module _ (c : Crypto) (k : Codecs) (w : World) where
  -- Close files hold the closes that they are named for, with their chains in order, and the grants
  -- held by whoever runs the program carry the keys of these closes.
  pub record IsCoherent : Type 0 where
    pub filed : (id : Bytes) (r : CloseRecord) → load_close k w id ≡ ok r → r.id ≡ id
    pub keys : (id : Bytes) (r : CloseRecord) → load_close k w id ≡ ok r → ℕ → Bytes
    pub keyed :
        (id : Bytes) (r : CloseRecord) (h : load_close k w id ≡ ok r) → IsKeyed c r (keys id r h)
    pub genuine :
        (id : Bytes) (r : CloseRecord) (h : load_close k w id ≡ ok r) (me : Identity)
        → identity k w w.me ≡ ok me
        → (i : ℕ) (g : Grant) → get_elem? (grants_for k w w.me) i ≡ some g
        → IsGenuine c k.bodies r w.clock (keys id r h) me g

  -- Who finds the current content key of a close finds the shape key that belongs to it.
  browses :
      (coherent : IsCoherent) (id : Bytes) (r : CloseRecord) (key : Bytes)
      → load_close k w id ≡ ok r
      → current_content_key k w c w.me r ≡ some key
      → key_for k w c w.me r shape r.epoch ≡ some (shape_of c key r.id)
  unfolding current_content_key key_for facet_key_for
  browses coherent id r key loads h = elim (Result-cases (identity k w w.me)) [
    | inl (me, known) ↦
        let found = λ (f : Facet).
          ap
            (λ (x : Result RepoError Identity).
              facet_key_for c k.bodies r w.clock (to_option x) f r.epoch (grants_for k w w.me))
            known in
        found shape
        ∙ facet_key_for-shape c k.bodies r w.clock (coherent.keys id r loads)
            (coherent.keyed id r loads) me (grants_for k w w.me)
            (coherent.genuine id r loads me known) r.epoch key (sym (found content) ∙ h)
    | inr (e, unknown) ↦ absurd (
        cc (
          h,
          ap
              (λ (x : Result RepoError Identity).
                facet_key_for c k.bodies r w.clock (to_option x) content r.epoch
                  (grants_for k w w.me))
              unknown,
        ))
  ]

  -- The envelope of the object stands at the id.
  pub record Holds (s : Store) (id : Bytes) (o : SealedObject) : Type 0 where
    pub sized : IsKey id
    pub envelope : Bytes
    pub there : s.objects (object_path id) ≡ some envelope
    pub decodes : k.objects.from_bytes envelope ≡ ok o

  abbrev pub Keeps : Store → Store → Type 0
  Keeps s s' =
      (id b : Bytes)
      → IsKey id
      → s.objects (object_path id) ≡ some b
      → s'.objects (object_path id) ≡ some b

  -- A later store is sound, still holds what was there, and has the same refs.
  pub record Grown (s s' : Store) : Type 0 where
    pub sound : IsSound c s'
    pub keeps : Keeps s s'
    pub refs : s'.refs ≡ s.refs

  pub Grown-refl : (s : Store) → IsSound c s → Grown s s
  Grown-refl s sound = record { sound = sound; keeps = λ id b size there. there; refs = refl }

  pub Grown-trans : (s s' s'' : Store) → Grown s s' → Grown s' s'' → Grown s s''
  Grown-trans s s' s'' a b = record {
    sound = b.sound;
    keeps = λ id x size there. b.keeps id x size (a.keeps id x size there);
    refs = b.refs ∙ a.refs;
  }

  pub Keeps-Holds :
      (s s' : Store) (id : Bytes) (o : SealedObject) → Keeps s s' → Holds s id o → Holds s' id o
  Keeps-Holds s s' id o keeps h = record {
    sized = h.sized;
    envelope = h.envelope;
    there = keeps id h.envelope h.sized h.there;
    decodes = h.decodes;
  }

  -- What a sound store holds is loaded.
  pub load_sealed-Holds :
      (s : Store) (id : Bytes) (o : SealedObject)
      → IsSound c s
      → Holds s id o
      → load_sealed k (at w s) c id ≡ ok o
  unfolding load_sealed Seal.decode
  load_sealed-Holds s id o sound h = rw (get-IsSound c s id sound h.sized, h.there, h.decodes)

  -- An object that a person sealed with the current content key of a close.
  pub record Made (kind : ObjectKind) (bytes : Bytes) (o : SealedObject) : Type 0 where
    pub id : Bytes
    pub r : CloseRecord
    pub key : Bytes
    pub loads : load_close k w id ≡ ok r
    pub current : current_content_key k w c w.me r ≡ some key
    pub opens : Opens c k.cards r key r.epoch kind bytes o

  -- The object stands in a later store at the id that came back.
  pub record Put (s : Store) (o : SealedObject) (id : Bytes) (w' : World) : Type 0 where
    pub store : Store
    pub after : w' ≡ at w store
    pub grown : Grown s store
    pub holds : Holds store id o

  module _ (coherent : IsCoherent) where
    loads_again :
        (kind : ObjectKind) (bytes : Bytes) (o : SealedObject) (m : Made kind bytes o)
        → load_close k w o.close ≡ ok m.r
    loads_again kind bytes o m =
        ap (load_close k w) (m.opens.same_close ∙ coherent.filed m.id m.r m.loads) ∙ m.loads

    object_facet_key-Made :
        (s : Store) (kind : ObjectKind) (bytes : Bytes) (o : SealedObject) (f : Facet)
        (m : Made kind bytes o)
        → object_facet_key k (at w s) c w.me o f ≡ key_for k w c w.me m.r f m.r.epoch
    unfolding load_close key_for
    object_facet_key-Made s kind bytes o f m =
        ap
          (λ (x : Result RepoError CloseRecord).
            and_then (to_option x) (λ r. key_for k w c w.me r f o.epoch))
          (loads_again kind bytes o m)
        ∙ ap (key_for k w c w.me m.r f) m.opens.same_epoch

    -- Who sealed an object that the content key opens reads it.
    pub open_blob-Made :
        (s : Store) (kind : ObjectKind) (bytes : Bytes) (o : SealedObject)
        → payload_facet kind ≡ content
        → Made kind bytes o
        → open_blob k (at w s) c w.me o ≡ some bytes
    unfolding open_blob current_content_key
    open_blob-Made s kind bytes o reading m =
        ap (λ (x : Option Bytes). and_then x (λ key. to_option (open_payload c o key)))
          (object_facet_key-Made s kind bytes o content m ∙ m.current)
        ∙ ap
            (λ (f : Facet).
              to_option (open_payload c o (payload_key f (shape_of c m.key m.r.id) m.key)))
            (sym reading)
        ∙ ap (λ (x : Result Error Bytes). to_option x) m.opens.opens

    -- Who sealed a tree browses it.
    pub open_tree-Made :
        (s : Store) (bytes : Bytes) (o : SealedObject)
        → Made tree bytes o
        → open_tree k (at w s) c w.me o ≡ to_option (k.trees.from_bytes bytes)
    unfolding open_tree
    open_tree-Made s bytes o m =
        ap
          (λ (x : Option Bytes). and_then x (λ key.
            and_then (to_option (open_payload c o key)) (λ b. to_option (k.trees.from_bytes b))))
          (object_facet_key-Made s tree bytes o shape m
            ∙ browses coherent m.id m.r m.key m.loads m.current)
        ∙ ap
            (λ (x : Result Error Bytes).
              and_then (to_option x) (λ b. to_option (k.trees.from_bytes b)))
            m.opens.opens

  module _ (l : IsLawful c) (objects : IsCodec k.objects) where
    put-Put :
        (s : Store) (o : SealedObject) (envelope : Bytes)
        → IsSound c s
        → encode c k.objects o ≡ ok envelope
        → s.objects (object_path (cipher_id c envelope)) ≡ some envelope
        → Holds s (cipher_id c envelope) o
    unfolding encode cipher_id
    put-Put s o envelope sound encoded there = record {
      sized = l.length-hash envelope;
      envelope = envelope;
      there = there;
      decodes = objects o envelope (map_err-ok Facet.encoding (k.objects.to_allocvec o) encoded);
    }

    pub put_sealed-Put :
        (s : Store) (o : SealedObject) (id : Bytes) (w' : World)
        → IsSound c s
        → put_sealed c k o (at w s) ≡ (ok id, w')
        → Collision c w'.store ⊎ Put s o id w'
    unfolding put_sealed put
    put_sealed-Put s o id w' sound h =
        let (envelope, encoded, rest) =
          given_then (map_err core (encode c k.objects o)) _ (at w s) h in
        let named : cipher_id c envelope ≡ id =
          ok-injective (ap (λ (p : Result RepoError Bytes × World). p.0) rest) in
        unless (put_stands c l s envelope sound)
          (subst (λ (u : World). Collision c u.store)
            (ap (λ (p : Result RepoError Bytes × World). p.1) rest))
          (λ there.
            let grown : Grown s (put c s envelope).0 = record {
              sound = put-IsSound c l s envelope sound;
              keeps = put_keeps c l s envelope;
              refs = put_refs c s envelope;
            } in
            inr (record {
              store = (put c s envelope).0;
              after = sym (ap (λ (p : Result RepoError Bytes × World). p.1) rest);
              grown = grown;
              holds =
                  subst (λ (i : Bytes). Holds (put c s envelope).0 i o) named
                    (put-Put (put c s envelope).0 o envelope grown.sound
                      (map_err-ok core (encode c k.objects o) encoded) there);
            }))

    -- Sealing and putting, as the snapshots and the commit do it, with what is left to do
    pub sealed-Put :
        {A : Type 0} (kind : ObjectKind) (id : Bytes) (r : CloseRecord) (key : Bytes)
        (card : ShapeCard) (bytes : Bytes) (s : Store) (next : SealedObject → Bytes → Run A) {a : A}
        {w' : World}
        → IsSound c s
        → load_close k w id ≡ ok r
        → current_content_key k w c w.me r ≡ some key
        → ((o : SealedObject) (cipher : Bytes) (u : World)
            → next o cipher u ≡ (ok a, w')
            → Bears c k l u w')
        → (given (seal_as c k r key kind card bytes) >>= λ o. put_sealed c k o >>= next o) (at w s)
          ≡ (ok a, w')
        → Collision c w'.store
          ⊎ ((o : SealedObject) × (cipher : Bytes) × (v : World) × Made kind bytes o
              × Put s o cipher v
              × (next o cipher v ≡ (ok a, w')))
    sealed-Put kind id r key card bytes s next {a} {w'} sound loads current onward h =
        let (o, sealed, h₁) = given_then (seal_as c k r key kind card bytes) _ (at w s) h in
        let (cipher, v, puts, h₂) = run_then (put_sealed c k o) (next o) (at w s) h₁ in
        unless (put_sealed-Put s o cipher v sound puts) (onward o cipher v h₂) (λ p. inr (
          o,
          cipher,
          v,
          record {
            id = id;
            r = r;
            key = key;
            loads = loads;
            current = current;
            opens =
                seal-Opens c k.cards l r key r.epoch kind card bytes o (map_err-ok core _ sealed);
          },
          p,
          h₂,
        ))
