-- ===== src/Close.antt =====
-- cc-core/src/close.rs: closes, their epochs and the keys of their facets.
pub mod Keys
pub mod Epochs
pub mod History
pub mod Past
use close_common.Common.{
  ℕ, zero, suc, ◌+◌, ◌%◌, Result, ok, err, ok_or, ◌>>=◌, ltb, if◌then◌else◌, get_elem?, List, [],
  ◌∷◌, ◌++◌, Option, none, some, true, false,
}
use close_common.Common.Bytes.{Bytes, Text, codes, as_bytes, to_le_bytes, u32_mod}
use close_common.Crypto.{Crypto}
use close_common.Facet
use close_common.Facet.{
  Facet, presence, shape, content, Error, epoch_unreachable, no_key, discriminant,
}
use close_common.Aead.{derive, wrap_key, unwrap_key}

pub data Silhouette : Type 0 where
  open_outline counted dark : Silhouette

pub record EpochLink : Type 0 where
  pub content : Bytes
  pub shape : Bytes

pub record CloseRecord : Type 0 where
  pub id : Bytes
  pub name : Text
  pub silhouette : Silhouette
  pub steward : Bytes
  pub epoch : ℕ
  pub chain : List EpochLink

unfoldable pub chain_aad : Bytes → ℕ → Facet → Bytes
chain_aad id epoch lane = id ++ (to_le_bytes epoch ++ discriminant lane ∷ [])

-- `expect` on a key. The shape key always derives, so the panic of the other case is never met.
abbrev pub expect_key : Option Bytes → Bytes
expect_key none = []
expect_key (some k) = k

module _ (c : Crypto) where
  unfoldable pub facet_key : Bytes → Bytes → Facet → Option Bytes
  facet_key content_key close content = some content_key
  facet_key content_key close shape =
      some (derive c (codes "closecommon/v0/facet/shape") content_key close)
  facet_key content_key close presence = none

  lower_by : Bytes → Facet → Facet → Bytes → Option Bytes
  lower_by key content want close = facet_key key close want
  lower_by key shape shape close = some key
  lower_by key _ _ close = none

  -- `None` if `want` is above `have` or has no key.
  unfoldable pub lower_facet_key : Bytes → Facet → Facet → Bytes → Option Bytes
  unfolding facet_key lower_by
  lower_facet_key key have want close =
      if Facet.gt want have then none else lower_by key have want close

  -- The single-use key of one object's facet payload.
  unfoldable pub object_key : Bytes → Bytes → Bytes
  object_key key plain = derive c (codes "closecommon/v0/object") key plain

  -- A new close with its content key of epoch 0.
  unfoldable pub found : Text → Silhouette → Bytes → Bytes → CloseRecord × Bytes
  found name silhouette steward seed =
      let id = c.hash (codes "closecommon/v0/close-id" ++ (steward ++ (seed ++ as_bytes name))) in
      let epoch0 = derive c (codes "closecommon/v0/epoch0") seed id in
      (
        record {
          id = id;
          name = name;
          silhouette = silhouette;
          steward = steward;
          epoch = 0;
          chain = [];
        },
        epoch0,
      )

  abbrev pub shape_of : Bytes → Bytes → Bytes
  shape_of key close = expect_key (facet_key key close shape)

  -- Nothing of the record changes where either wrapping fails. The epoch is a `u32`.
  unfoldable pub rotate : CloseRecord → Bytes → Bytes → Result Error (CloseRecord × Bytes)
  unfolding chain_aad facet_key
  rotate r current_key fresh = do
    let new_key = derive c (codes "closecommon/v0/rotate") fresh r.id
    let old_shape = expect_key (facet_key current_key r.id shape)
    let new_shape = expect_key (facet_key new_key r.id shape)
    wrapped_content ← wrap_key c new_key (chain_aad r.id r.epoch content) current_key
    wrapped_shape ← wrap_key c new_shape (chain_aad r.id r.epoch shape) old_shape
    let link : EpochLink = record { content = wrapped_content; shape = wrapped_shape }
    ok (record r { chain = r.chain ++ link ∷ []; epoch = (r.epoch + 1) % u32_mod }, new_key)

  abbrev lane_of : EpochLink → Facet → Result Error Bytes
  lane_of link content = ok link.content
  lane_of link shape = ok link.shape
  lane_of link presence = err no_key

  -- The loop of `walk_chain`, on the epoch `at` that it has come down to.
  unfoldable pub walk_down : CloseRecord → Bytes → ℕ → ℕ → Facet → Result Error Bytes
  unfolding chain_aad
  walk_down r key zero want lane = ok key
  walk_down r key (suc at) want lane = elim (ltb want (suc at)) [
    | true ↦ do
      link ← ok_or (get_elem? r.chain at) (epoch_unreachable (suc at) want)
      wrapped ← lane_of link lane
      next ← unwrap_key c key (chain_aad r.id at lane) wrapped
      walk_down r next at want lane
    | false ↦ ok key
  ]

  unfoldable pub walk_chain : CloseRecord → Bytes → ℕ → ℕ → Facet → Result Error Bytes
  unfolding walk_down
  walk_chain r key_at_have have want lane =
      let walked = walk_down r key_at_have have want lane in
      if ltb have want then err (epoch_unreachable have want) else walked

  unfoldable pub content_key_at : CloseRecord → Bytes → ℕ → ℕ → Result Error Bytes
  unfolding walk_chain
  content_key_at r key have want = walk_chain r key have want content

  unfoldable pub shape_key_at : CloseRecord → Bytes → ℕ → ℕ → Result Error Bytes
  unfolding walk_chain
  shape_key_at r key have want = walk_chain r key have want shape

  unfoldable pub binding_key : CloseRecord → Bytes → ℕ → Result Error Bytes
  unfolding content_key_at
  binding_key r key have = do
    epoch0 ← content_key_at r key have 0
    ok (derive c (codes "closecommon/v0/binding") epoch0 r.id)
