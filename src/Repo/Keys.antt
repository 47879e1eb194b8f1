-- ===== src/Repo/Keys.antt =====
-- The key that a repository finds for a person among the grants they hold.
use close_common.Common.{
  ℕ, zero, suc, ◌≤◌, ◌≡◌, ◌≢◌, refl, true, false, not, if◌then◌else◌, Bool, inl, inr, ◌⊎◌,
  some-injective, List, [], ◌∷◌, Option, none, some, Result, ok, err, Result-cases, arith,
  get_elem?, &&-eq-true, ap, sym, ◌∙◌,
}
use close_common.Common.Bytes.{Bytes, ◌==◌, ==→eq, eq→==}
use close_common.Crypto.{Crypto, Codec}
use close_common.Facet
use close_common.Facet.{Facet, presence, shape, content, discriminant, Error}
use close_common.Close.{CloseRecord, lower_facet_key}
use close_common.Close.Epochs.{IsKeyed, content_key_at-back}
use close_common.Grant.{Grant, GrantBody, Identity, terms, verify, unwrap_key}
use close_common.Repo.{
  serves, carried, is_ok, or_else, key_from, try_grant, first_key, facet_key_for,
}

then-some {ℓ} :
    {A : Type ℓ} (b : Bool) (o : Option A) {a : A}
    → (if b then o else none) ≡ some a
    → (b ≡ true) × (o ≡ some a)
then-some true o h = (refl, h)
then-some false o h = cc

or_else-some {ℓ} :
    {A : Type ℓ} (o p : Option A) {a : A} → or_else o p ≡ some a → (o ≡ some a) ⊎ (p ≡ some a)
or_else-some none p h = inr h
or_else-some (some b) p h = inl h

or_else-none {ℓ} : {A : Type ℓ} (o p : Option A) → or_else o p ≡ none → (o ≡ none) × (p ≡ none)
or_else-none none p h = (refl, h)
or_else-none (some b) p h = cc

lower-ne-none :
    (c : Crypto) (k close : Bytes) (wanted : Facet)
    → wanted ≢ presence
    → lower_facet_key c k content wanted close ≢ none
unfolding lower_facet_key
lower-ne-none c k close presence h = absurd (h refl)
lower-ne-none c k close shape h = λ e. cc
lower-ne-none c k close content h = λ e. cc

module _ (c : Crypto) (bodies : Codec GrantBody) (r : CloseRecord) (now : ℕ) where
  -- The grant is on the close, verifies now, is of no lower facet, and the key it carries leads to
  -- this one.
  pub record Grants (me : Identity) (wanted : Facet) (epoch : ℕ) (k : Bytes) (g : Grant)
      : Type 0 where
    pub key : Bytes
    pub close : (terms g).close ≡ r.id
    pub verifies : verify c bodies r now g ≡ ok tt
    pub high : discriminant wanted ≤ discriminant (terms g).facet
    pub unwraps : unwrap_key c g me ≡ ok key
    pub leads : key_from c bodies r now (terms g).facet wanted (terms g).epoch epoch key ≡ some k

  is_ok-eq-ok : (x : Result Error (Unit {0})) → is_ok x ≡ true → x ≡ ok tt
  is_ok-eq-ok (ok done) h = refl
  is_ok-eq-ok (err e) h = cc

  try_grant-Grants :
      (me : Identity) (wanted : Facet) (epoch : ℕ) (k : Bytes) (g : Grant)
      → try_grant c bodies r now me wanted epoch g ≡ some k
      → Grants me wanted epoch k g
  unfolding try_grant serves
  try_grant-Grants me wanted epoch k g h =
      let (passed, leads) = then-some (serves c bodies r now wanted g) _ h in
      let (close, more) = &&-eq-true ((terms g).close == r.id) _ passed in
      let (high, verified) =
        &&-eq-true (not (Facet.gt wanted (terms g).facet)) (is_ok (verify c bodies r now g)) more in
      elim (Result-cases (unwrap_key c g me)) [
        | inl (key, unwraps) ↦ record {
          key = key;
          close = ==→eq (terms g).close r.id close;
          verifies = is_ok-eq-ok (verify c bodies r now g) verified;
          high = ground (arith, high);
          unwraps = unwraps;
          leads =
              ap (carried c bodies r now (terms g).facet wanted (terms g).epoch epoch) (sym unwraps)
              ∙ leads;
        }
        | inr (e, shut) ↦ absurd (
            cc (
              leads,
              ap (carried c bodies r now (terms g).facet wanted (terms g).epoch epoch) shut,
            ))
      ]

  first_key-Grants :
      (me : Identity) (wanted : Facet) (epoch : ℕ) (k : Bytes) (grants : List Grant)
      → first_key c bodies r now me wanted epoch grants ≡ some k
      → (i : ℕ) × (g : Grant) × (get_elem? grants i ≡ some g) × Grants me wanted epoch k g
  unfolding first_key
  first_key-Grants me wanted epoch k [] h = cc
  first_key-Grants me wanted epoch k (g ∷ grants) h =
      elim (or_else-some (try_grant c bodies r now me wanted epoch g) _ h) [
        | inl took ↦ (zero, g, refl, try_grant-Grants me wanted epoch k g took)
        | inr on ↦
            let (i, x, there, found) = first_key-Grants me wanted epoch k grants on in
            (suc i, x, there, found)
      ]

  -- A key that is found comes from a grant that the person holds: on this close, verifying now, of
  -- no lower facet than was asked for, and carrying for that person the key that leads to it.
  pub facet_key_for-Grants :
      (me : Identity) (wanted : Facet) (epoch : ℕ) (k : Bytes) (grants : List Grant)
      → facet_key_for c bodies r now (some me) wanted epoch grants ≡ some k
      → (i : ℕ) × (g : Grant) × (get_elem? grants i ≡ some g) × Grants me wanted epoch k g
  unfolding facet_key_for
  facet_key_for-Grants me presence epoch k grants h = cc
  facet_key_for-Grants me shape epoch k grants h = first_key-Grants me shape epoch k grants h
  facet_key_for-Grants me content epoch k grants h = first_key-Grants me content epoch k grants h

  module _ (key : ℕ → Bytes) (keyed : IsKeyed c r key) (me : Identity) (epoch : ℕ) (g : Grant)
      (close : (terms g).close ≡ r.id) (verifies : verify c bodies r now g ≡ ok tt)
      (reads : (terms g).facet ≡ content) (opens : unwrap_key c g me ≡ ok (key (terms g).epoch))
      (early : epoch ≤ (terms g).epoch) (known : (terms g).epoch ≤ r.epoch) where
    serves-content : (wanted : Facet) → serves c bodies r now wanted g ≡ true
    unfolding serves
    serves-content presence = rw (eq→== (terms g).close r.id close, reads, verifies)
    serves-content shape = rw (eq→== (terms g).close r.id close, reads, verifies)
    serves-content content = rw (eq→== (terms g).close r.id close, reads, verifies)

    try_grant-content :
        (wanted : Facet)
        → try_grant c bodies r now me wanted epoch g
          ≡ lower_facet_key c (key epoch) content wanted r.id
    unfolding try_grant key_from
    try_grant-content wanted = rw (
      serves-content wanted,
      opens,
      reads,
      content_key_at-back c r key keyed (terms g).epoch epoch known early,
    )

    first_key-ne-none :
        (wanted : Facet) (grants : List Grant) (i : ℕ)
        → lower_facet_key c (key epoch) content wanted r.id ≢ none
        → get_elem? grants i ≡ some g
        → first_key c bodies r now me wanted epoch grants ≢ none
    unfolding first_key
    first_key-ne-none wanted [] i has there = λ h. cc
    first_key-ne-none wanted (x ∷ grants) zero has there = λ h. has (
        sym (try_grant-content wanted)
        ∙ ap (try_grant c bodies r now me wanted epoch) (sym (some-injective x g there))
        ∙ (or_else-none (try_grant c bodies r now me wanted epoch x) _ h).0)
    first_key-ne-none wanted (x ∷ grants) (suc i) has there = λ h.
        first_key-ne-none wanted grants i has there
          (or_else-none (try_grant c bodies r now me wanted epoch x) _ h).1

    -- In a close whose chain is in order, who holds a grant of content that verifies and opens to
    -- the close's key of its epoch finds a key for every epoch up to that one and every facet but
    -- presence.
    pub facet_key_for-ne-none :
        (wanted : Facet) (grants : List Grant) (i : ℕ)
        → wanted ≢ presence
        → get_elem? grants i ≡ some g
        → facet_key_for c bodies r now (some me) wanted epoch grants ≢ none
    unfolding facet_key_for
    facet_key_for-ne-none presence grants i some_key there = absurd (some_key refl)
    facet_key_for-ne-none shape grants i some_key there =
        first_key-ne-none shape grants i (lower-ne-none c (key epoch) r.id shape some_key) there
    facet_key_for-ne-none content grants i some_key there =
        first_key-ne-none content grants i (lower-ne-none c (key epoch) r.id content some_key) there
