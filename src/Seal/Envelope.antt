-- ===== src/Seal/Envelope.antt =====
-- The associated data of a payload (seal.rs, facet_aad).
use close_common.Common.{
  ℕ, ◌<◌, ◌≡◌, refl, arith, cons-injective, append-injective_left, append-injective_right, sym, ◌∙◌,
}
use close_common.Common.Bytes.{Bytes, IsKey, u32_mod, to_le_bytes, to_le_bytes-injective}
use close_common.Facet.{Facet, presence, shape, content, discriminant}
use close_common.Seal.{facet_aad}

pub discriminant-injective : (f g : Facet) → discriminant f ≡ discriminant g → f ≡ g
discriminant-injective presence presence h = refl
discriminant-injective presence shape h = ground arith
discriminant-injective presence content h = ground arith
discriminant-injective shape presence h = ground arith
discriminant-injective shape shape h = refl
discriminant-injective shape content h = ground arith
discriminant-injective content presence h = ground arith
discriminant-injective content shape h = ground arith
discriminant-injective content content h = refl

module _ (close close' : Bytes) (epoch epoch' : ℕ) (facet facet' : Facet)
    (plain plain' : Bytes) where
  -- Two payloads with the same associated data are of one close, epoch, facet and plain id, for
  -- close ids of 32 bytes and epochs of 32 bits.
  pub facet_aad-injective :
      IsKey close
      → IsKey close'
      → epoch < u32_mod
      → epoch' < u32_mod
      → facet_aad close epoch facet plain ≡ facet_aad close' epoch' facet' plain'
      → (close ≡ close') × (epoch ≡ epoch') × (facet ≡ facet') × (plain ≡ plain')
  unfolding facet_aad
  facet_aad-injective hc hc' he he' h =
      let same = append-injective_left close close' _ _ (hc ∙ sym hc') h in
      let rest = append-injective_right close close' _ _ (hc ∙ sym hc') h in
      let le = append-injective_left (to_le_bytes epoch) (to_le_bytes epoch') _ _ refl rest in
      let (f, p) =
        cons-injective
          (append-injective_right (to_le_bytes epoch) (to_le_bytes epoch') _ _ refl rest) in
      (same, to_le_bytes-injective epoch epoch' he he' le, discriminant-injective facet facet' f, p)
