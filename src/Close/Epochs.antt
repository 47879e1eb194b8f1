-- ===== src/Close/Epochs.antt =====
-- The walk along the public chain of a close (close.rs, walk_chain).
use close_common.Common.{
  ℕ, zero, suc, ◌≤◌, ◌<◌, ◌≡◌, refl, ok, some, ltb, arith, length, get_elem?, Bool-cases, inl, inr,
  ◌∙◌,
}
use close_common.Common.Bytes.{Bytes, IsKey, codes}
use close_common.Crypto.{Crypto}
use close_common.Facet.{Facet, shape, content}
use close_common.Aead.{unwrap_key, derive}
use close_common.Close.{
  CloseRecord, EpochLink, chain_aad, facet_key, expect_key, walk_down, content_key_at, shape_key_at,
  binding_key, lane_of,
}

module _ (c : Crypto) where
  -- The key of a lane of the chain, from the content key of the same epoch.
  abbrev pub lane_key : Bytes → Facet → Bytes → Bytes
  lane_key id lane key = expect_key (facet_key c key id lane)

  -- `link` gives back the keys of epoch `i`, under those of epoch `i + 1`.
  pub record Unlocks (id : Bytes) (i : ℕ) (link : EpochLink) (old new : Bytes) : Type 0 where
    pub content :
        unwrap_key c (lane_key id content new) (chain_aad id i content) link.content
        ≡ ok (lane_key id content old)
    pub shape :
        unwrap_key c (lane_key id shape new) (chain_aad id i shape) link.shape
        ≡ ok (lane_key id shape old)

  -- The record's epoch and chain fit the content keys `key 0` to `key r.epoch`.
  pub record IsKeyed (r : CloseRecord) (key : ℕ → Bytes) : Type 0 where
    pub linked : length r.chain ≡ r.epoch
    pub sized : (i : ℕ) → i ≤ r.epoch → IsKey (key i)
    pub unlocks :
        (i : ℕ)
        → i < r.epoch
        → (link : EpochLink) × (get_elem? r.chain i ≡ some link)
          × Unlocks r.id i link (key i) (key (suc i))

  walk_down-step :
      (r : CloseRecord) (k w next : Bytes) (at want : ℕ) (lane : Facet) (link : EpochLink)
      → want ≤ at
      → get_elem? r.chain at ≡ some link
      → lane_of c link lane ≡ ok w
      → unwrap_key c k (chain_aad r.id at lane) w ≡ ok next
      → walk_down c r k (suc at) want lane ≡ walk_down c r next at want lane
  unfolding walk_down
  walk_down-step r k w next at want lane link le there lies opens = ground arith

  module _ (r : CloseRecord) (key : ℕ → Bytes) (keyed : IsKeyed r key) where
    walk_down-content :
        (at want : ℕ)
        → at ≤ r.epoch
        → want ≤ at
        → walk_down c r (lane_key r.id content (key at)) at want content
          ≡ ok (lane_key r.id content (key want))
    walk_down-content zero zero le h = unfold walk_down in refl
    walk_down-content zero (suc want) le h = absurd (omega arith)
    walk_down-content (suc at) want le h = elim (Bool-cases (ltb want (suc at))) [
      | inl below ↦
          let (link, there, opens) = keyed.unlocks at (omega arith) in
          walk_down-step r _ link.content _ at want content link (ground arith) there refl
            opens.content
          ∙ walk_down-content at want (omega arith) (ground arith)
      | inr same ↦ unfold walk_down in ground arith
    ]

    walk_down-shape :
        (at want : ℕ)
        → at ≤ r.epoch
        → want ≤ at
        → walk_down c r (lane_key r.id shape (key at)) at want shape
          ≡ ok (lane_key r.id shape (key want))
    walk_down-shape zero zero le h = unfold walk_down in refl
    walk_down-shape zero (suc want) le h = absurd (omega arith)
    walk_down-shape (suc at) want le h = elim (Bool-cases (ltb want (suc at))) [
      | inl below ↦
          let (link, there, opens) = keyed.unlocks at (omega arith) in
          walk_down-step r _ link.shape _ at want shape link (ground arith) there refl opens.shape
          ∙ walk_down-shape at want (omega arith) (ground arith)
      | inr same ↦ unfold walk_down in ground arith
    ]

    -- From the content key of any epoch the walk gives that of every epoch up to it.
    pub content_key_at-back :
        (have want : ℕ)
        → have ≤ r.epoch
        → want ≤ have
        → content_key_at c r (key have) have want ≡ ok (key want)
    unfolding content_key_at facet_key
    content_key_at-back have want le h = ground (arith, walk_down-content have want le h)

    -- In the shape lane likewise, without a content key.
    pub shape_key_at-back :
        (have want : ℕ)
        → have ≤ r.epoch
        → want ≤ have
        → shape_key_at c r (lane_key r.id shape (key have)) have want
          ≡ ok (lane_key r.id shape (key want))
    unfolding shape_key_at
    shape_key_at-back have want le h = ground (arith, walk_down-shape have want le h)

    pub binding_key-back :
        (have : ℕ)
        → have ≤ r.epoch
        → binding_key c r (key have) have
          ≡ ok (derive c (codes "closecommon/v0/binding") (key 0) r.id)
    unfolding binding_key
    binding_key-back have le = rw (content_key_at-back have 0 le (omega arith))
