-- ===== src/Grant/Chain.antt =====
-- What a grant that verifies says about the whole chain above it.
use close_common.Common.{ℕ, ◌≡◌, true, ok, List}
use close_common.Common.Bytes.{Text}
use close_common.Crypto.{Crypto, Codec}
use close_common.Close.{CloseRecord}
use close_common.Grant.{Terms, Grant, root, link, GrantBody, terms, verify, covers}
use close_common.Grant.Narrow.{IsNarrow, IsNarrow-refl, IsNarrow-trans}
use close_common.Grant.Prefix.{prefix_under_trans}
use close_common.Grant.Valid.{IsValid, verify_iff}

-- `a` is `g` or stands above it in its chain.
pub data Above (a : Grant) : Grant → Type 0 where
  here : Above a a
  up : {g : Grant} (t : Terms) (sig : List ℕ) → Above a g → Above a (link t sig g)

-- The grant that a chain starts from.
abbrev pub root_of : Grant → Grant
root_of (root t sig) = root t sig
root_of (link t sig p) = root_of p

pub root_of-Above : (g : Grant) → Above (root_of g) g
root_of-Above (root t sig) = here
root_of-Above (link t sig p) = up t sig (root_of-Above p)

module _ (c : Crypto) (bodies : Codec GrantBody) (r : CloseRecord) (now : ℕ) where
  Above-IsValid : {a g : Grant} → Above a g → IsValid c bodies r now g → IsValid c bodies r now a
  Above-IsValid here v = v
  Above-IsValid (up t sig above) (_, _, _, v) = Above-IsValid above v

  Above-IsNarrow :
      {a g : Grant} → Above a g → IsValid c bodies r now g → IsNarrow (terms g) (terms a)
  Above-IsNarrow here v = IsNarrow-refl _
  Above-IsNarrow (up {g = g} t sig above) (_, _, (narrow, _), v) =
      IsNarrow-trans t (terms g) _ narrow (Above-IsNarrow above v)

  -- Where a grant verifies, so does every grant above it in its chain, and it is narrower than
  -- each of them: of the same close, with no higher facet, no further power, no shorter path and
  -- no later expiry.
  pub verify-Above :
      (a g : Grant)
      → Above a g
      → verify c bodies r now g ≡ ok tt
      → (verify c bodies r now a ≡ ok tt) × IsNarrow (terms g) (terms a)
  verify-Above a g above h =
      let v = (verify_iff c bodies r now g).0 h in
      ((verify_iff c bodies r now a).1 (Above-IsValid above v), Above-IsNarrow above v)

  root_of-issuer :
      (g : Grant) → IsValid c bodies r now g → (terms (root_of g)).issuer_sign ≡ r.steward
  root_of-issuer (root t sig) (_, _, issuer) = issuer
  root_of-issuer (link t sig p) (_, _, _, v) = root_of-issuer p v

  -- The first grant of a chain that verifies was issued by the steward, and whatever path the last
  -- one covers, the first covers too.
  pub verify-root_of :
      (g : Grant) (path : List Text)
      → verify c bodies r now g ≡ ok tt
      → covers g path ≡ true
      → ((terms (root_of g)).issuer_sign ≡ r.steward) × (covers (root_of g) path ≡ true)
  unfolding covers
  verify-root_of g path h covered =
      let (_, narrow) = verify-Above (root_of g) g (root_of-Above g) h in
      (
        root_of-issuer g ((verify_iff c bodies r now g).0 h),
        prefix_under_trans path (terms g).prefix (terms (root_of g)).prefix covered narrow.prefix,
      )
