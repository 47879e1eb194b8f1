-- ===== src/Seal/Confine.antt =====
-- What keys open of a sealed object, and its plain id (seal.rs).
use close_common.Common.{ℕ, ◌≡◌, sym, ◌∙◌, ok, ap, map_err, >>=-eq-ok, ok-injective, subst}
use close_common.Common.Bytes.{Bytes}
use close_common.Crypto.{Crypto, Codec, IsLawful}
use close_common.Facet.{encoding}
use close_common.Aead
use close_common.Aead.{open-sealed, open_box-err}
use close_common.Close.{CloseRecord, binding_key, shape_of, object_key}
use close_common.Close.Past.{OpensPast}
use close_common.Seal.{
  ObjectKind, ShapeCard, SealedObject, seal, open_payload, payload_facet, payload_key, facet_aad,
  plain_id,
}

module _ (c : Crypto) (cards : Codec ShapeCard) where
  -- How a sealed object came about.
  record Sealing (r : CloseRecord) (k : Bytes) (epoch : ℕ) (kind : ObjectKind) (card : ShapeCard)
      (plaintext : Bytes) (s : SealedObject) : Type 0 where
    binding : Bytes
    bound : binding_key c r k epoch ≡ ok binding
    plain : s.plain ≡ plain_id c binding plaintext
    same_kind : s.kind ≡ kind
    same_close : s.close ≡ r.id
    same_epoch : s.epoch ≡ epoch
    payload :
        Aead.seal c
          (object_key c (payload_key (payload_facet kind) (shape_of c k r.id) k) s.plain)
          (facet_aad r.id epoch (payload_facet kind) s.plain)
          plaintext
        ≡ ok s.content_ct

  seal-Sealing :
      (r : CloseRecord) (k : Bytes) (epoch : ℕ) (kind : ObjectKind) (card : ShapeCard)
      (plaintext : Bytes) (s : SealedObject)
      → seal c cards r k epoch kind card plaintext ≡ ok s
      → Sealing r k epoch kind card plaintext s
  unfolding seal
  seal-Sealing r k epoch kind card plaintext s h =
      let (binding, bound, h₁) = >>=-eq-ok (binding_key c r k epoch) _ h in
      let (bytes, _, h₂) = >>=-eq-ok (map_err encoding (cards.to_allocvec card)) _ h₁ in
      let (ct, _, h₃) = >>=-eq-ok (Aead.seal c _ _ bytes) _ h₂ in
      let (ct', payload, h₄) = >>=-eq-ok (Aead.seal c _ _ plaintext) _ h₃ in
      let e = ok-injective h₄ in
      record {
        binding = binding;
        bound = bound;
        plain = sym (ap (λ (o : SealedObject). o.plain) e);
        same_kind = sym (ap (λ (o : SealedObject). o.kind) e);
        same_close = sym (ap (λ (o : SealedObject). o.close) e);
        same_epoch = sym (ap (λ (o : SealedObject). o.epoch) e);
        payload =
            subst
              (λ (o : SealedObject).
                Aead.seal c
                  (object_key c (payload_key (payload_facet kind) (shape_of c k r.id) k) o.plain)
                  (facet_aad r.id epoch (payload_facet kind) o.plain) plaintext
                ≡ ok o.content_ct)
              e payload;
      }

  -- An object that was sealed is of its close, epoch and kind, and the key of its kind's payload facet
  -- opens its payload.
  pub record Opens (r : CloseRecord) (k : Bytes) (epoch : ℕ) (kind : ObjectKind) (plaintext : Bytes)
      (s : SealedObject) : Type 0 where
    pub same_kind : s.kind ≡ kind
    pub same_close : s.close ≡ r.id
    pub same_epoch : s.epoch ≡ epoch
    pub opens :
        open_payload c s (payload_key (payload_facet kind) (shape_of c k r.id) k) ≡ ok plaintext

  pub seal-Opens :
      (l : IsLawful c) (r : CloseRecord) (k : Bytes) (epoch : ℕ) (kind : ObjectKind)
      (card : ShapeCard) (plaintext : Bytes) (s : SealedObject)
      → seal c cards r k epoch kind card plaintext ≡ ok s
      → Opens r k epoch kind plaintext s
  unfolding open_payload
  seal-Opens l r k epoch kind card plaintext s h =
      let d = seal-Sealing r k epoch kind card plaintext s h in
      record {
        same_kind = d.same_kind;
        same_close = d.same_close;
        same_epoch = d.same_epoch;
        opens = rw (
          d.same_kind,
          d.same_close,
          d.same_epoch,
          open-sealed c l _ _ plaintext s.content_ct d.payload,
        );
      }

  -- Changing the lock keeps the identity of a plaintext: sealed before and after lock changes, of
  -- whatever kind and with whatever label, it has the same plain id.
  pub plain-stable :
      (r₁ r₂ : CloseRecord) (k₁ k₂ : Bytes) (kind₁ kind₂ : ObjectKind) (card₁ card₂ : ShapeCard)
      (plaintext : Bytes) (s₁ s₂ : SealedObject)
      → OpensPast c r₁ k₁ r₂ k₂
      → seal c cards r₁ k₁ r₁.epoch kind₁ card₁ plaintext ≡ ok s₁
      → seal c cards r₂ k₂ r₂.epoch kind₂ card₂ plaintext ≡ ok s₂
      → s₁.plain ≡ s₂.plain
  plain-stable r₁ r₂ k₁ k₂ kind₁ kind₂ card₁ card₂ plaintext s₁ s₂ past h₁ h₂ =
      let a = seal-Sealing r₁ k₁ r₁.epoch kind₁ card₁ plaintext s₁ h₁ in
      let b = seal-Sealing r₂ k₂ r₂.epoch kind₂ card₂ plaintext s₂ h₂ in
      let same = ok-injective (sym b.bound ∙ past.binding ∙ a.bound) in
      a.plain ∙ ap (λ (x : Bytes). plain_id c x plaintext) (sym same) ∙ sym b.plain
