-- ===== src/Store/Sound.antt =====
-- The object store: the addresses against what stands at them, and the refs (cc-store/src/lib.rs).
use close_common.Common.{
  ℕ, suc, get_elem?, ◌≡◌, ◌≢◌, ◌⊎◌, refl, sym, ◌∙◌, ap, subst, Option, none, some, ok,
  if◌then◌else◌, arith, Bool-cases, Option-cases, inl, inr,
}
use close_common.Common.Bytes.{Bytes, Text, ◌==◌, ==_refl, ==→eq, eq→==, IsKey, AreBytes}
use close_common.Crypto.{Crypto, IsLawful}
use close_common.Seal.{cipher_id}
use close_common.Id.{parsed}
use close_common.Id.Hex.{from_hex-to_hex}
use close_common.Store.Paths.{object_path-injective, tmp_apart}
use close_common.Store.{
  Files, Store, put, get, checked, set_ref, get_ref, object_path, tmp_path, write, rename,
}

-- Some bytes were put into the store, and others of the same hash stand at their address.
pub record Collision (c : Crypto) (s : Store) : Type 0 where
  pub given : Bytes
  pub standing : Bytes
  pub offered : (i : ℕ) × (get_elem? s.offered i ≡ some given)
  pub there : s.objects (object_path (cipher_id c given)) ≡ some standing
  pub differ : given ≢ standing
  pub same : cipher_id c given ≡ cipher_id c standing

module _ (c : Crypto) where
  -- Every object stands at the address that its bytes hash to.
  abbrev pub IsSound : Store → Type 0
  IsSound s =
      (id : Bytes)
      → IsKey id
      → (bytes : Bytes) → s.objects (object_path id) ≡ some bytes
      → cipher_id c bytes ≡ id

  checked-all :
      (id : Bytes) (read : Option Bytes)
      → ((bytes : Bytes) → read ≡ some bytes → cipher_id c bytes ≡ id)
      → checked c id read ≡ ok read
  checked-all id none h = refl
  checked-all id (some bytes) h = rw (eq→== (cipher_id c bytes) id (h bytes refl)) refl

  -- A sound store never reports corruption: it hands out what stands at the address.
  pub get-IsSound :
      (s : Store) (id : Bytes) → IsSound s → IsKey id → get c s id ≡ ok (s.objects (object_path id))
  unfolding get
  get-IsSound s id sound k = checked-all id (s.objects (object_path id)) (sound id k)

  -- Putting changes no ref.
  pub put_refs : (s : Store) (envelope : Bytes) → (put c s envelope).0.refs ≡ s.refs
  unfolding put
  put_refs s envelope = refl

  module _ (l : IsLawful c) (s : Store) (envelope : Bytes) where
    abbrev id : Bytes
    id = cipher_id c envelope

    id-IsKey : IsKey id
    unfolding cipher_id
    id-IsKey = l.length-hash envelope

    put_new :
        (other : Bytes)
        → IsKey other
        → s.objects (object_path id) ≡ none
        → (put c s envelope).0.objects (object_path other) ≡ (
            if object_path id == object_path other
            then some envelope
            else s.objects (object_path other))
    unfolding put write rename
    put_new other k gone =
        rw (gone, tmp_apart id other id-IsKey k, ==_refl (tmp_path (object_path id))) refl

    put_old :
        (b : Bytes) → s.objects (object_path id) ≡ some b → (put c s envelope).0.objects ≡ s.objects
    unfolding put
    put_old b there = rw there refl

    -- Putting leaves every object that is there as it is.
    pub put_keeps :
        (other b : Bytes)
        → IsKey other
        → s.objects (object_path other) ≡ some b
        → (put c s envelope).0.objects (object_path other) ≡ some b
    put_keeps other b k there = elim (Option-cases (s.objects (object_path id))) [
      | inl gone ↦ elim (Bool-cases (object_path id == object_path other)) [
        | inl same ↦ absurd (cc (there, gone, ==→eq (object_path id) (object_path other) same))
        | inr apart ↦ ground (arith, put_new other k gone, there, apart)
      ]
      | inr (d, old) ↦ ap (λ (f : Files). f (object_path other)) (put_old d old) ∙ there
    ]

    -- A collision that a store has shown stays.
    pub put-Collision : Collision c s → Collision c (put c s envelope).0
    put-Collision x = record {
      given = x.given;
      standing = x.standing;
      offered = let (i, at) = x.offered in (suc i, unfold put in at);
      there =
          put_keeps (cipher_id c x.given) x.standing (unfold cipher_id in l.length-hash x.given)
            x.there;
      differ = x.differ;
      same = x.same;
    }

    module _ (sound : IsSound s) where
      -- With hashes of 32 bytes, putting keeps a store sound: whatever stands at an address
      -- afterwards hashes to it.
      pub put-IsSound :
          (other : Bytes)
          → IsKey other
          → (bytes : Bytes) → (put c s envelope).0.objects (object_path other) ≡ some bytes
          → cipher_id c bytes ≡ other
      put-IsSound other k bytes there = elim (Option-cases (s.objects (object_path id))) [
        | inl gone ↦ elim (Bool-cases (object_path id == object_path other)) [
          | inl same ↦
              let written : envelope ≡ bytes = ground (arith, put_new other k gone, there, same) in
              ap (cipher_id c) (sym written)
              ∙ object_path-injective id other id-IsKey k
                  (==→eq (object_path id) (object_path other) same)
          | inr apart ↦ sound other k bytes (ground (arith, put_new other k gone, there, apart))
        ]
        | inr (b, old) ↦
            sound other k bytes
              (subst (λ (f : Files). f (object_path other) ≡ some bytes) (put_old b old) there)
      ]

      put_there :
          (b : Bytes) × ((put c s envelope).0.objects (object_path id) ≡ some b)
          × (cipher_id c b ≡ id)
          × ((b ≡ envelope) ⊎ (s.objects (object_path id) ≡ some b))
      put_there = elim (Option-cases (s.objects (object_path id))) [
        | inl gone ↦ (
          envelope,
          ground (arith, put_new id id-IsKey gone, ==_refl (object_path id)),
          refl,
          inl refl,
        )
        | inr (b, old) ↦ (
          b,
          ap (λ (f : Files). f (object_path id)) (put_old b old) ∙ old,
          sound id id-IsKey b old,
          inr old,
        )
      ]

      -- With hashes of 32 bytes, what is put into a sound store is read back at the address that
      -- comes back: those bytes, or bytes of the same hash that were there before.
      pub get-put :
          ((put c s envelope).1 ≡ cipher_id c envelope)
          × ((b : Bytes) × (get c (put c s envelope).0 (put c s envelope).1 ≡ ok (some b))
              × (cipher_id c b ≡ cipher_id c envelope)
              × ((b ≡ envelope) ⊎ (s.objects (object_path (cipher_id c envelope)) ≡ some b)))
      get-put =
          let (b, there, same, from) = put_there in
          let named : (put c s envelope).1 ≡ id = unfold put in refl in
          (
            named,
            (
              b,
              ap (get c (put c s envelope).0) named
                  ∙ get-IsSound (put c s envelope).0 id put-IsSound id-IsKey
                  ∙ ap (λ (o : Option Bytes). ok o) there,
              same,
              from,
            ),
          )

      -- The envelope itself stands there, or other bytes of its hash do.
      pub put_stands :
          Collision c (put c s envelope).0
          ⊎ ((put c s envelope).0.objects (object_path id) ≡ some envelope)
      put_stands =
          let (b, there, same, from) = put_there in
          elim (Bool-cases (b == envelope)) [
            | inl equal ↦ inr (there ∙ ap (λ (x : Bytes). some x) (==→eq b envelope equal))
            | inr apart ↦ inl (record {
              given = envelope;
              standing = b;
              offered = (0, unfold put in refl);
              there = there;
              differ = λ e. cc (apart, eq→== b envelope (sym e));
              same = sym same;
            })
          ]

-- Refs are no objects.
pub set_ref-Collision :
    (c : Crypto) (s : Store) (name : Text) (target : Bytes)
    → Collision c s
    → Collision c (set_ref s name target)
unfolding set_ref
set_ref-Collision c s name target x = record {
  given = x.given;
  standing = x.standing;
  offered = x.offered;
  there = x.there;
  differ = x.differ;
  same = x.same;
}

-- A ref that was set reads as the id of 32 bytes that it was set to, and the other refs as before.
pub get_ref-set_ref :
    (s : Store) (name other : Text) (target : Bytes)
    → IsKey target
    → AreBytes target
    → get_ref (set_ref s name target) other
      ≡ (if name == other then some (parsed target) else get_ref s other)
unfolding get_ref set_ref write
get_ref-set_ref s name other target k small = elim (Bool-cases (name == other)) [
  | inl same ↦ rw (same, from_hex-to_hex target k small)
  | inr apart ↦ rw apart
]
