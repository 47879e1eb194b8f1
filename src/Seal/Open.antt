-- ===== src/Seal/Open.antt =====
-- Sealing an object and opening it (seal.rs).
use close_common.Common.{ℕ, ◌≤◌, ◌≡◌, length, ok}
use close_common.Common.Bytes.{Bytes, IsKey, codes}
use close_common.Crypto.{Crypto, Codec, IsLawful, IsCodec, max_plaintext}
use close_common.Facet.{shape}
use close_common.Aead.{derive, derive-IsKey, open-seal}
use close_common.Close.{CloseRecord, shape_of, object_key}
use close_common.Close.Epochs.{IsKeyed, binding_key-back}
use close_common.Seal.{
  ObjectKind, ShapeCard, SealedObject, seal, open_payload, open_shape, payload_facet, payload_key,
  facet_aad, plain_id,
}

module _ (c : Crypto) (l : IsLawful c) where
  object_key-IsKey : (k plain : Bytes) → IsKey (object_key c k plain)
  unfolding object_key
  object_key-IsKey k plain = derive-IsKey c l _ k plain

  module _ (cards : Codec ShapeCard) (faithful : IsCodec cards) (r : CloseRecord) (key : ℕ → Bytes)
      (keyed : IsKeyed c r key) (epoch : ℕ) (reached : epoch ≤ r.epoch) (kind : ObjectKind)
      (card : ShapeCard) (card_bytes plaintext : Bytes)
      (encodes : cards.to_allocvec card ≡ ok card_bytes)
      (card_fits : length card_bytes ≤ max_plaintext)
      (fits : length plaintext ≤ max_plaintext) where
    abbrev shape_key : Bytes
    shape_key = shape_of c (key epoch) r.id

    -- With a key of the history of a close that is in order, an object of admissible size whose
    -- label encodes is sealed. The shape key opens its label, and the key of its kind's payload
    -- facet opens its payload: the shape key for a tree and the content key for every other kind.
    pub open-seal_all :
        (s : SealedObject) × (seal c cards r (key epoch) epoch kind card plaintext ≡ ok s)
        × (open_shape c cards s shape_key ≡ ok card)
        × (open_payload c s (payload_key (payload_facet kind) shape_key (key epoch)) ≡ ok plaintext)
    unfolding seal open_shape open_payload
    open-seal_all =
        let binding = derive c (codes "closecommon/v0/binding") (key 0) r.id in
        let plain = plain_id c binding plaintext in
        let bound = binding_key-back c r key keyed epoch reached in
        let (e, boxes, opens) =
          open-seal c l (object_key c shape_key plain) (facet_aad r.id epoch shape plain) card_bytes
            (object_key-IsKey shape_key plain) card_fits in
        let pk = payload_key (payload_facet kind) shape_key (key epoch) in
        let (e', boxes', opens') =
          open-seal c l (object_key c pk plain) (facet_aad r.id epoch (payload_facet kind) plain)
            plaintext (object_key-IsKey pk plain) fits in
        (
          record {
            close = r.id;
            epoch = epoch;
            kind = kind;
            plain = plain;
            shape_ct = e;
            content_ct = e';
          },
          rw (bound, encodes, boxes, boxes'),
          rw (opens, faithful card card_bytes encodes),
          opens',
        )
