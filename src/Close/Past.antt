-- ===== src/Close/Past.antt =====
-- Keys across changes of the lock (close.rs).
use mathlib.Core.Path.{subst₂}
use close_common.Common.{
  ℕ, ◌+◌, ◌≤◌, ◌<◌, ◌≡◌, refl, ok, err, arith, length, List, sym, ◌∙◌, ap, ap₂, ok-injective, subst,
}
use close_common.Common.Bytes.{Bytes, Text, codes, u32_mod}
use close_common.Crypto.{Crypto, IsLawful}
use close_common.Facet.{epoch_unreachable}
use close_common.Aead.{derive}
use close_common.Close.{
  CloseRecord, Silhouette, shape_of, found, content_key_at, shape_key_at, binding_key,
}
use close_common.Close.Epochs.{IsKeyed, content_key_at-back, shape_key_at-back, binding_key-back}
use close_common.Close.History.{rotate_all, Continues, rotate_all-Continues, found-IsKeyed}

-- What the keys `k` of the record `r` give of those that `k₀` had at the earlier record `r₀`.
pub record OpensPast (c : Crypto) (r₀ : CloseRecord) (k₀ : Bytes) (r : CloseRecord) (k : Bytes)
    : Type 0 where
  pub content : content_key_at c r k r.epoch r₀.epoch ≡ ok k₀
  pub shape : shape_key_at c r (shape_of c k r.id) r.epoch r₀.epoch ≡ ok (shape_of c k₀ r₀.id)
  pub binding : binding_key c r k r.epoch ≡ binding_key c r₀ k₀ r₀.epoch

abbrev binding_of : Crypto → Bytes → Bytes → Bytes
binding_of c id k = derive c (codes "closecommon/v0/binding") k id

module _ (c : Crypto) (l : IsLawful c) where
  module _ (r₀ : CloseRecord) (key : ℕ → Bytes) (keyed : IsKeyed c r₀ key) (seeds : List Bytes)
      (fits : r₀.epoch + length seeds < u32_mod) where
    abbrev continued : Continues c l r₀ key seeds
    continued = rotate_all-Continues c l r₀ key seeds keyed fits

    OpensPast-continued :
        OpensPast c r₀ (key r₀.epoch) continued.last (continued.keys continued.last.epoch)
    OpensPast-continued =
        let d = continued in
        let back : r₀.epoch ≤ d.last.epoch = omega (arith, d.counted) in
        let same : d.keys r₀.epoch ≡ key r₀.epoch = d.same_keys r₀.epoch (omega arith) in
        record {
          content =
              content_key_at-back c d.last d.keys d.in_order d.last.epoch r₀.epoch (omega arith)
                back
              ∙ ap (λ (k : Bytes). ok k) same;
          shape =
              shape_key_at-back c d.last d.keys d.in_order d.last.epoch r₀.epoch (omega arith) back
              ∙ ap₂ (λ (id k : Bytes). ok (shape_of c k id)) d.same_id same;
          binding =
              binding_key-back c d.last d.keys d.in_order d.last.epoch (omega arith)
              ∙ ap₂ (λ (id k : Bytes). ok (binding_of c id k)) d.same_id
                  (d.same_keys 0 (omega arith))
              ∙ sym (binding_key-back c r₀ key keyed r₀.epoch (omega arith));
        }

    OpensPast-rotate_all :
        (r : CloseRecord) (k : Bytes)
        → rotate_all c r₀ (key r₀.epoch) seeds ≡ ok (r, k)
        → OpensPast c r₀ (key r₀.epoch) r k
    OpensPast-rotate_all r k h =
        let e = ok-injective (sym continued.runs ∙ h) in
        subst₂ (OpensPast c r₀ (key r₀.epoch)) (ap (λ p. p.0) e) (ap (λ p. p.1) e)
          OpensPast-continued

  module _ (name : Text) (s : Silhouette) (steward seed : Bytes) (before after : List Bytes)
      (fits : length before + length after < u32_mod) where
    -- Found a close, change its lock for each seed of `before` and then for each of `after`, fewer
    -- than 2^32 times in all. The keys at the end lead back to those in between: the content key by
    -- the content lane, the shape key by the shape lane, and the binding key is still the same.
    pub content_key_at-past :
        (r₁ r₂ : CloseRecord) (k₁ k₂ : Bytes)
        → rotate_all c (found c name s steward seed).0 (found c name s steward seed).1 before
          ≡ ok (r₁, k₁)
        → rotate_all c r₁ k₁ after ≡ ok (r₂, k₂)
        → OpensPast c r₁ k₁ r₂ k₂
    content_key_at-past r₁ r₂ k₁ k₂ h₁ h₂ =
        let (r₀, k₀) = found c name s steward seed in
        let start : IsKeyed c r₀ (λ _. k₀) = found-IsKeyed c l name s steward seed in
        let none_yet : r₀.epoch ≡ 0 = unfold found in refl in
        let d = rotate_all-Continues c l r₀ (λ _. k₀) before start (omega (arith, none_yet)) in
        subst
          (λ (p : CloseRecord × Bytes).
            rotate_all c p.0 p.1 after ≡ ok (r₂, k₂) → OpensPast c p.0 p.1 r₂ k₂)
          (ok-injective (sym d.runs ∙ h₁))
          (OpensPast-rotate_all d.last d.keys d.in_order after (omega (arith, d.counted, none_yet))
            r₂ k₂)
          h₂

module _ (c : Crypto) where
  -- Asked for a later epoch than that of its key, the walk refuses, whatever the key and the lane.
  pub key_at_future :
      (r : CloseRecord) (k : Bytes) (have want : ℕ)
      → have < want
      → (content_key_at c r k have want ≡ err (epoch_unreachable have want))
        × (shape_key_at c r k have want ≡ err (epoch_unreachable have want))
  unfolding content_key_at shape_key_at
  key_at_future r k have want h = (ground arith, ground arith)
