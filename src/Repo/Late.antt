-- ===== src/Repo/Late.antt =====
-- Grants of earlier epochs give no key of a later one (repo.rs, facet_key_for).
use close_common.Common.{
  ℕ, ◌<◌, ◌≡◌, refl, true, ltb, List, Option, none, some, Option-cases, err, arith, get_elem?, inl,
  inr,
}
use close_common.Common.Bytes.{Bytes}
use close_common.Crypto.{Crypto, Codec}
use close_common.Facet.{Facet, presence, shape, content, epoch_unreachable}
use close_common.Close.{CloseRecord, content_key_at, shape_key_at}
use close_common.Grant.{Grant, GrantBody, Identity, terms}
use close_common.Repo.{key_from, facet_key_for}
use close_common.Repo.Keys.{facet_key_for-Grants}

module _ (c : Crypto) (bodies : Codec GrantBody) (r : CloseRecord) (now : ℕ) where
  -- The chain does not lead upwards.
  pub content_key_at-late :
      (k : Bytes) (at epoch : ℕ)
      → ltb at epoch ≡ true
      → content_key_at c r k at epoch ≡ err (epoch_unreachable at epoch)
  unfolding content_key_at
  content_key_at-late k at epoch late = rw late

  pub shape_key_at-late :
      (k : Bytes) (at epoch : ℕ)
      → ltb at epoch ≡ true
      → shape_key_at c r k at epoch ≡ err (epoch_unreachable at epoch)
  unfolding shape_key_at
  shape_key_at-late k at epoch late = rw late

  key_from-late :
      (held wanted : Facet) (at epoch : ℕ) (k : Bytes)
      → ltb at epoch ≡ true
      → key_from c bodies r now held wanted at epoch k ≡ none
  unfolding key_from
  key_from-late presence wanted at epoch k late = refl
  key_from-late content wanted at epoch k late = rw (content_key_at-late k at epoch late)
  key_from-late shape presence at epoch k late = refl
  key_from-late shape content at epoch k late = refl
  key_from-late shape shape at epoch k late = rw (shape_key_at-late k at epoch late)

  facet_key_for-nobody :
      (wanted : Facet) (epoch : ℕ) (grants : List Grant)
      → facet_key_for c bodies r now none wanted epoch grants ≡ none
  unfolding facet_key_for
  facet_key_for-nobody presence epoch grants = refl
  facet_key_for-nobody shape epoch grants = refl
  facet_key_for-nobody content epoch grants = refl

  -- Who holds grants of earlier epochs alone finds no key of an epoch, of any facet.
  pub facet_key_for-late :
      (me : Option Identity) (wanted : Facet) (epoch : ℕ) (grants : List Grant)
      → ((i : ℕ) (g : Grant) → get_elem? grants i ≡ some g → (terms g).epoch < epoch)
      → facet_key_for c bodies r now me wanted epoch grants ≡ none
  facet_key_for-late none wanted epoch grants early = facet_key_for-nobody wanted epoch grants
  facet_key_for-late (some me) wanted epoch grants early =
      elim (Option-cases (facet_key_for c bodies r now (some me) wanted epoch grants)) [
        | inl gone ↦ gone
        | inr (k, found) ↦
            let (i, g, there, has) =
              facet_key_for-Grants c bodies r now me wanted epoch k grants found in
            let before = early i g there in
            let late : ltb (terms g).epoch epoch ≡ true = ground (arith, before) in
            absurd (
              cc (
                has.leads,
                key_from-late (terms g).facet wanted (terms g).epoch epoch has.key late,
              ))
      ]
