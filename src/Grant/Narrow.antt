-- ===== src/Grant/Narrow.antt =====
-- Narrowing: what a link of a chain keeps of the one above it, in every dimension.
use close_common.Common.{
  ℕ, ◌≤◌, ◌≡◌, refl, ◌↔◌, true, false, Option, none, some, arith, ok, ◌∙◌, refuse_if-ok,
  refuse_if-not-ok,
}
use close_common.Common.Bytes.{==→eq, eq→==, ◌==◌}
use close_common.Facet
use close_common.Facet.{discriminant, is_subset_of, Error, not_attenuated}
use close_common.Facet.Order.{is_subset_of_refl, is_subset_of_trans}
use close_common.Grant.{Terms, prefix_under, expires_later, outlives, check_link}
use close_common.Grant.Prefix.{prefix_under_refl, prefix_under_trans}

-- The first expiry is no later than the second; `none` is never.
abbrev pub ExpiresBy : Option ℕ → Option ℕ → Type 0
ExpiresBy _ none = Unit
ExpiresBy none (some p) = ⊥
ExpiresBy (some e) (some p) = e ≤ p

pub record IsNarrow (t p : Terms) : Type 0 where
  pub close : t.close ≡ p.close
  pub facet : discriminant t.facet ≤ discriminant p.facet
  pub powers : is_subset_of t.powers p.powers ≡ true
  pub prefix : prefix_under t.prefix p.prefix ≡ true
  pub expiry : ExpiresBy t.expires_at p.expires_at

ExpiresBy-refl : (e : Option ℕ) → ExpiresBy e e
ExpiresBy-refl none = tt
ExpiresBy-refl (some e) = omega arith

ExpiresBy-trans : (a b d : Option ℕ) → ExpiresBy a b → ExpiresBy b d → ExpiresBy a d
ExpiresBy-trans a b none h k = tt
ExpiresBy-trans a none (some d) h k = absurd k
ExpiresBy-trans none (some b) (some d) h k = absurd h
ExpiresBy-trans (some a) (some b) (some d) h k = omega arith

pub IsNarrow-refl : (t : Terms) → IsNarrow t t
IsNarrow-refl t = record {
  close = refl;
  facet = omega arith;
  powers = is_subset_of_refl t.powers;
  prefix = prefix_under_refl t.prefix;
  expiry = ExpiresBy-refl t.expires_at;
}

pub IsNarrow-trans : (t u v : Terms) → IsNarrow t u → IsNarrow u v → IsNarrow t v
IsNarrow-trans t u v h k = record {
  close = h.close ∙ k.close;
  facet = omega arith;
  powers = is_subset_of_trans t.powers u.powers v.powers h.powers k.powers;
  prefix = prefix_under_trans t.prefix u.prefix v.prefix h.prefix k.prefix;
  expiry = ExpiresBy-trans t.expires_at u.expires_at v.expires_at h.expiry k.expiry;
}

pub ExpiresBy-of_tests :
    (e p : Option ℕ) → expires_later e p ≡ false → outlives e p ≡ false → ExpiresBy e p
unfolding expires_later outlives
ExpiresBy-of_tests e none h k = tt
ExpiresBy-of_tests none (some p) h k = absurd (ground arith)
ExpiresBy-of_tests (some e) (some p) h k = ground arith

pub tests_of-ExpiresBy :
    (e p : Option ℕ) → ExpiresBy e p → (expires_later e p ≡ false) × (outlives e p ≡ false)
unfolding expires_later outlives
tests_of-ExpiresBy none none h = (refl, refl)
tests_of-ExpiresBy (some e) none h = (refl, refl)
tests_of-ExpiresBy none (some p) h = absurd h
tests_of-ExpiresBy (some e) (some p) h = ground arith

module _ (t p : Terms) where
  check_link-IsNarrow : check_link t p ≡ ok tt → IsNarrow t p × (t.issuer_sign ≡ p.holder.sign)
  unfolding check_link
  check_link-IsNarrow h =
      let (close, h₁) = refuse_if-not-ok (t.close == p.close) _ _ h in
      let (issuer, h₂) = refuse_if-not-ok (t.issuer_sign == p.holder.sign) _ _ h₁ in
      let (facet, h₃) = refuse_if-ok (Facet.gt t.facet p.facet) _ _ h₂ in
      let (powers, h₄) = refuse_if-not-ok (is_subset_of t.powers p.powers) _ _ h₃ in
      let (prefix, h₅) = refuse_if-not-ok (prefix_under t.prefix p.prefix) _ _ h₄ in
      let (later, h₆) = refuse_if-ok (expires_later t.expires_at p.expires_at) _ _ h₅ in
      (
        record {
          close = ==→eq _ _ close;
          facet = ground arith;
          powers = powers;
          prefix = prefix;
          expiry = ExpiresBy-of_tests t.expires_at p.expires_at later (ground arith);
        },
        ==→eq _ _ issuer,
      )

  IsNarrow-check_link : IsNarrow t p → t.issuer_sign ≡ p.holder.sign → check_link t p ≡ ok tt
  unfolding check_link
  IsNarrow-check_link n issuer =
      let (later, endless) = tests_of-ExpiresBy t.expires_at p.expires_at n.expiry in
      let low : Facet.gt t.facet p.facet ≡ false = ground (arith, n.facet) in
      rw (eq→== _ _ n.close, eq→== _ _ issuer, low, n.powers, n.prefix, later, endless)

  -- A link passes exactly when it narrows its parent in all dimensions, stays in its close, and
  -- was issued by its holder.
  pub check_link_iff : (check_link t p ≡ ok tt) ↔ (IsNarrow t p × (t.issuer_sign ≡ p.holder.sign))
  check_link_iff = (check_link-IsNarrow, λ h. IsNarrow-check_link h.0 h.1)
