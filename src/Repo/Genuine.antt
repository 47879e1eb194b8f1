-- ===== src/Repo/Genuine.antt =====
-- With genuine grants, the key that a repository finds is the close's own (repo.rs, facet_key_for).
use close_common.Common.{
  ℕ, ◌≤◌, ◌≡◌, refl, sym, ◌∙◌, ap, ltb, Bool-cases, inl, inr, some-injective, List, some,
  Option-cases, Result, ok, arith, get_elem?, to_option,
}
use close_common.Common.Bytes.{Bytes}
use close_common.Crypto.{Crypto, Codec}
use close_common.Facet.{Facet, presence, shape, content, discriminant, Error}
use close_common.Close.{CloseRecord, lower_facet_key, shape_of}
use close_common.Close.Epochs.{IsKeyed, content_key_at-back, shape_key_at-back, lane_key}
use close_common.Grant.{Grant, GrantBody, Identity, terms, verify, unwrap_key}
use close_common.Repo.{key_from, lower_to, facet_key_for}
use close_common.Repo.Late.{content_key_at-late, shape_key_at-late}
use close_common.Repo.Keys.{facet_key_for-Grants, facet_key_for-ne-none}

module _ (c : Crypto) (bodies : Codec GrantBody) (r : CloseRecord) (now : ℕ) (key : ℕ → Bytes) where
  -- A grant on the close that verifies is of an epoch that the close has had, and what it carries
  -- for a person is the key of its facet and epoch.
  abbrev pub IsGenuine : Identity → Grant → Type 0
  IsGenuine me g =
      (k : Bytes)
      → (terms g).close ≡ r.id
      → verify c bodies r now g ≡ ok tt
      → unwrap_key c g me ≡ ok k
      → ((terms g).epoch ≤ r.epoch)
        × (lower_facet_key c (key (terms g).epoch) content (terms g).facet r.id ≡ some k)

  module _ (keyed : IsKeyed c r key) where
    key_from-content :
        (wanted : Facet) (at epoch : ℕ) (found : Bytes)
        → at ≤ r.epoch
        → key_from c bodies r now content wanted at epoch (key at) ≡ some found
        → (epoch ≤ at) × (lower_facet_key c (key epoch) content wanted r.id ≡ some found)
    unfolding key_from
    key_from-content wanted at epoch found known h = elim (Bool-cases (ltb at epoch)) [
      | inl late ↦ absurd (
          cc (
            h,
            ap (lower_to c bodies r now wanted)
                (content_key_at-late c bodies r now (key at) at epoch late),
          ))
      | inr early ↦
          let le : epoch ≤ at = ground (arith, early) in
          (
            le,
            ap (lower_to c bodies r now wanted)
                  (sym (content_key_at-back c r key keyed at epoch known le))
                ∙ h,
          )
    ]

    key_from-shape :
        (wanted : Facet) (at epoch : ℕ) (found : Bytes)
        → at ≤ r.epoch
        → key_from c bodies r now shape wanted at epoch (lane_key c r.id shape (key at))
          ≡ some found
        → lower_facet_key c (key epoch) content wanted r.id ≡ some found
    unfolding key_from lower_facet_key
    key_from-shape presence at epoch found known h = cc
    key_from-shape content at epoch found known h = cc
    key_from-shape shape at epoch found known h = elim (Bool-cases (ltb at epoch)) [
      | inl late ↦ absurd (
          cc (
            h,
            ap (λ (x : Result Error Bytes). to_option x)
                (shape_key_at-late c bodies r now _ at epoch late),
          ))
      | inr early ↦
          ap (λ (x : Result Error Bytes). to_option x)
            (sym (shape_key_at-back c r key keyed at epoch known (ground (arith, early))))
          ∙ h
    ]

    key_from-genuine :
        (facet wanted : Facet) (at epoch : ℕ) (k found : Bytes)
        → at ≤ r.epoch
        → lower_facet_key c (key at) content facet r.id ≡ some k
        → key_from c bodies r now facet wanted at epoch k ≡ some found
        → lower_facet_key c (key epoch) content wanted r.id ≡ some found
    unfolding lower_facet_key
    key_from-genuine presence wanted at epoch k found known carries h = cc
    key_from-genuine shape wanted at epoch k found known carries h =
        key_from-shape wanted at epoch found known
          (ap (key_from c bodies r now shape wanted at epoch) (some-injective _ k carries) ∙ h)
    key_from-genuine content wanted at epoch k found known carries h =
        (key_from-content wanted at epoch found known
          (ap (key_from c bodies r now content wanted at epoch) (some-injective _ k carries) ∙ h)).1

    module _ (me : Identity) (grants : List Grant)
        (genuine : (i : ℕ) (g : Grant) → get_elem? grants i ≡ some g → IsGenuine me g)
        (epoch : ℕ) where
      -- Where the chain of a close is in order and the grants held are genuine, a key that is found
      -- for a facet and an epoch is the close's own: its content key of that epoch, lowered to the
      -- facet.
      pub facet_key_for-genuine :
          (wanted : Facet) (found : Bytes)
          → facet_key_for c bodies r now (some me) wanted epoch grants ≡ some found
          → lower_facet_key c (key epoch) content wanted r.id ≡ some found
      facet_key_for-genuine wanted found h =
          let (i, g, there, has) =
            facet_key_for-Grants c bodies r now me wanted epoch found grants h in
          let (known, carries) = genuine i g there has.key has.close has.verifies has.unwraps in
          key_from-genuine (terms g).facet wanted (terms g).epoch epoch has.key found known carries
            has.leads

      high-content : (f : Facet) → 2 ≤ discriminant f → f ≡ content
      high-content presence h = absurd (omega arith)
      high-content shape h = absurd (omega arith)
      high-content content h = refl

      -- The grant that a content key came from carries a content key, of no earlier epoch.
      content_grant :
          (g : Grant) (found k : Bytes)
          → (terms g).epoch ≤ r.epoch
          → (terms g).facet ≡ content
          → lower_facet_key c (key (terms g).epoch) content (terms g).facet r.id ≡ some k
          → key_from c bodies r now (terms g).facet content (terms g).epoch epoch k ≡ some found
          → (k ≡ key (terms g).epoch) × (epoch ≤ (terms g).epoch)
      unfolding lower_facet_key
      content_grant g found k known reads carries leads =
          let same : key (terms g).epoch ≡ k = some-injective _ k (
            ap (λ (f : Facet). lower_facet_key c (key (terms g).epoch) content f r.id) (sym reads)
            ∙ carries) in
          (
            sym same,
            (key_from-content content (terms g).epoch epoch found known (
                ap (key_from c bodies r now content content (terms g).epoch epoch) same
                ∙ ap (λ (f : Facet). key_from c bodies r now f content (terms g).epoch epoch k)
                    (sym reads)
                ∙ leads)).0,
          )

      -- Who finds the content key finds the shape key that belongs to it.
      pub facet_key_for-shape :
          (found : Bytes)
          → facet_key_for c bodies r now (some me) content epoch grants ≡ some found
          → facet_key_for c bodies r now (some me) shape epoch grants ≡ some (shape_of c found r.id)
      unfolding lower_facet_key
      facet_key_for-shape found h =
          let (i, g, there, has) =
            facet_key_for-Grants c bodies r now me content epoch found grants h in
          let (known, carries) = genuine i g there has.key has.close has.verifies has.unwraps in
          let reads = high-content (terms g).facet has.high in
          let (same, early) = content_grant g found has.key known reads carries has.leads in
          elim (Option-cases (facet_key_for c bodies r now (some me) shape epoch grants)) [
            | inl gone ↦ absurd (
                facet_key_for-ne-none c bodies r now key keyed me epoch g has.close has.verifies
                  reads (has.unwraps ∙ ap (λ (k : Bytes). ok k) same) early known shape grants i
                  (λ e. cc) there gone)
            | inr (found', there') ↦
                there'
                ∙ sym (facet_key_for-genuine shape found' there')
                ∙ ap (λ (k : Bytes). some (shape_of c k r.id))
                    (some-injective (key epoch) found (facet_key_for-genuine content found h))
          ]
