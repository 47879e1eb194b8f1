-- ===== src/Grant.antt =====
-- cc-core/src/grant.rs: grants, how they are issued and narrowed, and how a chain of them is
-- checked. A `Grant` is its terms (the fields of `GrantBody` but for `parent`), the signature, and
-- the parent where there is one; `body` puts the signed `GrantBody` together again. The random
-- ephemeral secret of a wrapping is an argument.
pub mod Prefix
pub mod Narrow
pub mod Valid
pub mod Chain
pub mod Wrap
pub mod Issue
pub mod Carried
pub mod Attenuate
use close_common.Common.{
  ℕ, Result, ok, err, ok_or, refuse_if, map_err, ◌>>=◌, ◌>>◌, ltb, leb, eqb, not, ◌&&◌, List, [],
  ◌∷◌, ◌++◌, Option, none, some, Bool, true, false, length, if◌then◌else◌,
}
use close_common.Common.Bytes.{Bytes, Text, ◌==◌, codes, to_le_bytes}
use close_common.Crypto.{Crypto, Codec}
use close_common.Facet
use close_common.Facet.{
  Facet, presence, content, Powers, is_subset_of, Error, encoding, grant_expired, bad_signature,
  not_attenuated, not_rooted, no_key, discriminant,
}
use close_common.Aead.{derive, wrap_key}
use close_common.Aead
use close_common.Close.{CloseRecord, lower_facet_key}

pub record PublicIdentity : Type 0 where
  pub name : Text
  pub sign : Bytes
  pub dh : Bytes

-- `sign` and `dh` are the secret keys.
pub record Identity : Type 0 where
  pub name : Text
  pub sign : Bytes
  pub dh : Bytes

pub record WrappedKey : Type 0 where
  pub epk : Bytes
  pub ct : Bytes

pub record Terms : Type 0 where
  pub close : Bytes
  pub holder : PublicIdentity
  pub facet : Facet
  pub powers : Powers
  pub prefix : List Text
  pub expires_at : Option ℕ
  pub caveats : List Text
  pub epoch : ℕ
  pub wrapped : Option WrappedKey
  pub issuer_sign : Bytes

pub data Grant : Type 0 where
  root : Terms → (sig : Bytes) → Grant
  link : Terms → (sig : Bytes) → (parent : Grant) → Grant

pub record GrantBody : Type 0 where
  pub terms : Terms
  pub parent : Option Grant

abbrev pub body : Grant → GrantBody
body (root t sig) = record { terms = t; parent = none }
body (link t sig p) = record { terms = t; parent = some p }

abbrev pub terms : Grant → Terms
terms (root t sig) = t
terms (link t sig p) = t

abbrev pub signature : Grant → Bytes
signature (root t sig) = sig
signature (link t sig p) = sig

abbrev pub with_signature : GrantBody → Bytes → Grant
with_signature b sig = elim b.parent [ none ↦ root b.terms sig | some p ↦ link b.terms sig p ]

unfoldable pub wrap_aad : Bytes → PublicIdentity → Facet → ℕ → Bytes
wrap_aad close holder facet epoch =
    close ++ (holder.sign ++ (discriminant facet ∷ to_le_bytes epoch))

-- `child.iter().zip(parent.iter()).all(|(a, b)| a == b)`
unfoldable pub zip_equal : List Text → List Text → Bool
zip_equal [] _ = true
zip_equal (a ∷ u) [] = true
zip_equal (a ∷ u) (b ∷ v) = a == b && zip_equal u v

unfoldable pub prefix_under : List Text → List Text → Bool
unfolding zip_equal
prefix_under child parent = leb (length parent) (length child) && zip_equal child parent

-- `c > p`, where both expire
unfoldable pub expires_later : Option ℕ → Option ℕ → Bool
expires_later (some c) (some p) = ltb p c
expires_later _ _ = false

-- The child never expires and the parent does.
unfoldable pub outlives : Option ℕ → Option ℕ → Bool
outlives none (some p) = true
outlives _ _ = false

-- `now > exp`
unfoldable pub expired : Option ℕ → ℕ → Bool
expired none now = false
expired (some exp) now = ltb exp now

-- `Grant::covers`
unfoldable pub covers : Grant → List Text → Bool
unfolding prefix_under
covers g path = prefix_under path (terms g).prefix

-- What a link has to keep of its parent.
unfoldable pub check_link : Terms → Terms → Result Error (Unit {0})
check_link t p = do
  refuse_if (not (t.close == p.close)) (not_attenuated "close mismatch in chain")
  refuse_if (not (t.issuer_sign == p.holder.sign))
      (not_attenuated "issuer is not the parent holder")
  refuse_if (Facet.gt t.facet p.facet) (not_attenuated "facet widened in chain")
  refuse_if (not (is_subset_of t.powers p.powers)) (not_attenuated "powers widened in chain")
  refuse_if (not (prefix_under t.prefix p.prefix)) (not_attenuated "path widened in chain")
  refuse_if (expires_later t.expires_at p.expires_at) (not_attenuated "expiry widened in chain")
  refuse_if (outlives t.expires_at p.expires_at) (not_attenuated "expiry widened in chain")

module _ (c : Crypto) where
  unfoldable pub public : Identity → PublicIdentity
  public i = record { name = i.name; sign = c.verifying_key i.sign; dh = c.dh_public i.dh }

  abbrev wrap_context : Text
  wrap_context = codes "closecommon/v0/wrap"

  -- `WrappedKey::wrap`, with the ephemeral secret
  unfoldable pub wrap : Bytes → Bytes → Bytes → Bytes → Result Error WrappedKey
  wrap eph to_dh_pub aad key = do
    let epk = c.dh_public eph
    let shared = c.diffie_hellman eph to_dh_pub
    let kek = derive c wrap_context shared epk
    ct ← wrap_key c kek aad key
    ok (record { epk = epk; ct = ct })

  -- `WrappedKey::unwrap`
  unfoldable pub unwrap : WrappedKey → Bytes → Bytes → Result Error Bytes
  unwrap w holder_dh aad =
      let shared = c.diffie_hellman holder_dh w.epk in
      let kek = derive c wrap_context shared w.epk in Aead.unwrap_key c kek aad w.ct

  -- `Grant::unwrap_key`
  unfoldable pub unwrap_key : Grant → Identity → Result Error Bytes
  unfolding unwrap wrap_aad
  unwrap_key g holder = do
    let t = terms g
    w ← ok_or t.wrapped no_key
    unwrap w holder.dh (wrap_aad t.close t.holder t.facet t.epoch)

  abbrev wrap_if : Option Bytes → Bytes → Bytes → Bytes → Result Error (Option WrappedKey)
  wrap_if none eph to aad = ok none
  wrap_if (some k) eph to aad = do w ← wrap eph to aad k; ok (some w)

  module _ (bodies : Codec GrantBody) where
    unfoldable pub sign_body : GrantBody → Bytes → Result Error Grant
    sign_body b signer = do
      bytes ← map_err encoding (bodies.to_allocvec b)
      ok (with_signature b (c.sign signer bytes))

    unfoldable pub issue_root :
        CloseRecord
        → (steward content_key eph : Bytes) (epoch : ℕ) (holder : PublicIdentity) (facet : Facet)
          (powers : Powers) (prefix : List Text) (expires_at : Option ℕ) (caveats : List Text)
        → Result Error Grant
    unfolding sign_body wrap_aad
    issue_root r steward content_key eph epoch holder facet powers prefix expires_at caveats = do
      let key = lower_facet_key c content_key content facet r.id
      wrapped ← wrap_if key eph holder.dh (wrap_aad r.id holder facet epoch)
      let t : Terms = record {
        close = r.id;
        holder = holder;
        facet = facet;
        powers = powers;
        prefix = prefix;
        expires_at = expires_at;
        caveats = caveats;
        epoch = epoch;
        wrapped = wrapped;
        issuer_sign = c.verifying_key steward;
      }
      sign_body (record { terms = t; parent = none }) steward

    -- The key that an attenuated grant carries: the parent's, lowered and wrapped again.
    unfoldable pub rewrap :
        Terms
        → Identity
        → CloseRecord
        → Bytes
        → PublicIdentity
        → Facet
        → Result Error (Option WrappedKey)
    unfolding unwrap wrap wrap_aad
    rewrap p me r eph holder presence = ok none
    rewrap p me r eph holder f = do
      w ← ok_or p.wrapped no_key
      parent_key ← unwrap w me.dh (wrap_aad p.close p.holder p.facet p.epoch)
      lowered ← ok_or (lower_facet_key c parent_key p.facet f r.id) no_key
      wrapped ← wrap eph holder.dh (wrap_aad p.close holder f p.epoch) lowered
      ok (some wrapped)

    unfoldable pub attenuate :
        Grant
        → (me : Identity) (r : CloseRecord) (eph : Bytes) (holder : PublicIdentity) (facet : Facet)
          (powers : Powers) (prefix : List Text) (expires_at : Option ℕ) (caveats : List Text)
        → Result Error Grant
    unfolding sign_body rewrap
    attenuate parent me r eph holder facet powers prefix expires_at caveats = do
      let p = terms parent
      refuse_if (Facet.gt facet p.facet) (not_attenuated "facet may only be lowered")
      refuse_if (not (is_subset_of powers p.powers)) (not_attenuated "powers may only shrink")
      refuse_if (not (prefix_under prefix p.prefix)) (not_attenuated "path may only deepen")
      refuse_if (outlives expires_at p.expires_at) (not_attenuated "expiry may only tighten")
      refuse_if (expires_later expires_at p.expires_at) (not_attenuated "expiry may only tighten")
      refuse_if (not (p.holder.sign == c.verifying_key me.sign))
          (not_attenuated "only the holder may pass a grant on")
      wrapped ← rewrap p me r eph holder facet
      let t : Terms = record {
        close = p.close;
        holder = holder;
        facet = facet;
        powers = powers;
        prefix = prefix;
        expires_at = expires_at;
        caveats = caveats;
        epoch = p.epoch;
        wrapped = wrapped;
        issuer_sign = c.verifying_key me.sign;
      }
      sign_body (record { terms = t; parent = some parent }) me.sign

    -- The signature of one link of a chain.
    unfoldable pub check_signature : GrantBody → Bytes → Result Error (Unit {0})
    check_signature b sig = do
      refuse_if (not (c.valid_verifying_key b.terms.issuer_sign)) bad_signature
      bytes ← map_err encoding (bodies.to_allocvec b)
      refuse_if (not (eqb (length sig) 64)) bad_signature
      refuse_if (not (c.verify b.terms.issuer_sign bytes sig)) bad_signature

    -- `Grant::verify`
    unfoldable pub verify : CloseRecord → ℕ → Grant → Result Error (Unit {0})
    unfolding check_signature check_link
    verify r now (root t sig) = do
      check_signature (record { terms = t; parent = none }) sig
      refuse_if (expired t.expires_at now) grant_expired
      refuse_if (not (t.issuer_sign == r.steward)) not_rooted
    verify r now (link t sig p) = do
      check_signature (record { terms = t; parent = some p }) sig
      refuse_if (expired t.expires_at now) grant_expired
      check_link t (terms p)
      verify r now p
