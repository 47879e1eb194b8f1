-- ===== src/Close/Keys.antt =====
-- Deriving the key of one facet from that of another (close.rs, lower_facet_key).
use close_common.Common.{◌≡◌, refl, ◌↔◌, ◌⊎◌, inl, inr, none, some, arith, ◌<◌, ◌≤◌}
use close_common.Common.Bytes.{Bytes}
use close_common.Crypto.{Crypto}
use close_common.Facet.{Facet, presence, shape, content, discriminant}
use close_common.Close.{lower_facet_key}

module _ (c : Crypto) (key close : Bytes) where
  -- A key is refused exactly when the wanted facet is presence or lies above the one that is held.
  pub lower_facet_key-eq-none :
      (have want : Facet)
      → (lower_facet_key c key have want close ≡ none)
        ↔ ((want ≡ presence) ⊎ (discriminant have < discriminant want))
  unfolding lower_facet_key
  lower_facet_key-eq-none presence presence = (λ _. inl refl, λ _. refl)
  lower_facet_key-eq-none presence shape = (λ _. inr (omega arith), λ _. refl)
  lower_facet_key-eq-none presence content = (λ _. inr (omega arith), λ _. refl)
  lower_facet_key-eq-none shape presence = (λ _. inl refl, λ _. refl)
  lower_facet_key-eq-none shape shape = (λ h. ground arith, λ h. ground arith)
  lower_facet_key-eq-none shape content = (λ _. inr (omega arith), λ _. refl)
  lower_facet_key-eq-none content presence = (λ _. inl refl, λ _. refl)
  lower_facet_key-eq-none content shape = (λ h. ground arith, λ h. ground arith)
  lower_facet_key-eq-none content content = (λ h. ground arith, λ h. ground arith)

  -- Lowering in two steps gives the key that one step gives, through any facet between.
  pub lower_facet_key_twice :
      (have mid want : Facet) (k : Bytes)
      → lower_facet_key c key have mid close ≡ some k
      → discriminant want ≤ discriminant mid
      → lower_facet_key c k mid want close ≡ lower_facet_key c key have want close
  unfolding lower_facet_key
  lower_facet_key_twice presence presence want k h le = ground arith
  lower_facet_key_twice presence shape want k h le = ground arith
  lower_facet_key_twice presence content want k h le = ground arith
  lower_facet_key_twice shape presence want k h le = ground arith
  lower_facet_key_twice shape shape want k h le = ground arith
  lower_facet_key_twice shape content want k h le = ground arith
  lower_facet_key_twice content presence want k h le = ground arith
  lower_facet_key_twice content shape want k h le = ground arith
  lower_facet_key_twice content content want k h le = ground arith
