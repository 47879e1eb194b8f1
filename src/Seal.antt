-- ===== src/Seal.antt =====
-- cc-core/src/seal.rs: the envelope that every object travels in.
pub mod Envelope
pub mod Open
pub mod Confine
use close_common.Common.{ℕ, Result, ok, err, ◌>>=◌, leb, if◌then◌else◌, ◌++◌, ◌∷◌, [], map_err}
use close_common.Common.Bytes.{Bytes, Text, codes, to_le_bytes}
use close_common.Crypto.{Crypto, Codec}
use close_common.Facet.{Facet, presence, shape, content, Error, encoding, discriminant}
use close_common.Aead
use close_common.Aead.{open_box}
use close_common.Close.{CloseRecord, binding_key, facet_key, expect_key, object_key}

pub data ObjectKind : Type 0 where
  blob tree commit note receipt transition : ObjectKind

-- The facet whose key opens a payload of this kind.
abbrev pub payload_facet : ObjectKind → Facet
payload_facet tree = shape
payload_facet _ = content

pub record ShapeCard : Type 0 where
  pub label : Text
  pub content_type : Text
  pub size_class : Text
  pub note : Text

unfoldable pub size_class_for : ℕ → Text
size_class_for len =
    if leb len 1023
    then codes "under 1 KB"
    else if leb len 16383
    then codes "1–16 KB"
    else if leb len 262143
    then codes "16–256 KB"
    else if leb len 4194303
    then codes "256 KB – 4 MB"
    else codes "over 4 MB"

pub record SealedObject : Type 0 where
  pub close : Bytes
  pub epoch : ℕ
  pub kind : ObjectKind
  pub plain : Bytes
  pub shape_ct : Bytes
  pub content_ct : Bytes

unfoldable pub facet_aad : Bytes → ℕ → Facet → Bytes → Bytes
facet_aad close epoch facet plain = close ++ (to_le_bytes epoch ++ (discriminant facet ∷ plain))

abbrev pub payload_key : Facet → (shape_key content_key : Bytes) → Bytes
payload_key shape s k = s
payload_key _ s k = k

module _ (c : Crypto) where
  -- `id::plain_id` and `id::cipher_id`
  unfoldable pub plain_id : Bytes → Bytes → Bytes
  plain_id binding plaintext = c.keyed_hash binding plaintext

  unfoldable pub cipher_id : Bytes → Bytes
  cipher_id envelope = c.hash envelope

  -- `SealedObject::open_payload`
  unfoldable pub open_payload : SealedObject → Bytes → Result Error Bytes
  unfolding facet_aad
  open_payload s payload_facet_key =
      let facet = payload_facet s.kind in
      open_box c (object_key c payload_facet_key s.plain) (facet_aad s.close s.epoch facet s.plain)
        s.content_ct

  module _ (cards : Codec ShapeCard) where
    unfoldable pub seal :
        CloseRecord → Bytes → ℕ → ObjectKind → ShapeCard → Bytes → Result Error SealedObject
    unfolding facet_aad
    seal record' content_key epoch kind card plaintext = do
      binding ← binding_key c record' content_key epoch
      let plain = plain_id binding plaintext
      let shape_key = expect_key (facet_key c content_key record'.id shape)
      card_bytes ← map_err encoding (cards.to_allocvec card)
      shape_ct ←
          Aead.seal c (object_key c shape_key plain) (facet_aad record'.id epoch shape plain)
            card_bytes
      let facet = payload_facet kind
      content_ct ←
          Aead.seal c (object_key c (payload_key facet shape_key content_key) plain)
            (facet_aad record'.id epoch facet plain) plaintext
      ok (record {
        close = record'.id;
        epoch = epoch;
        kind = kind;
        plain = plain;
        shape_ct = shape_ct;
        content_ct = content_ct;
      })

    unfoldable pub open_shape : SealedObject → Bytes → Result Error ShapeCard
    unfolding facet_aad
    open_shape s shape_key = do
      bytes ←
          open_box c (object_key c shape_key s.plain) (facet_aad s.close s.epoch shape s.plain)
            s.shape_ct
      map_err encoding (cards.from_bytes bytes)

  module _ (objects : Codec SealedObject) where
    unfoldable pub encode : SealedObject → Result Error Bytes
    encode s = map_err encoding (objects.to_allocvec s)

    unfoldable pub decode : Bytes → Result Error SealedObject
    decode bytes = map_err encoding (objects.from_bytes bytes)

    -- The address of an envelope.
    unfoldable pub cipher_id_of : SealedObject → Result Error Bytes
    unfolding encode cipher_id
    cipher_id_of s = do bytes ← encode s; ok (cipher_id bytes)
