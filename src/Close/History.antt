-- ===== src/Close/History.antt =====
-- Founding a close and changing its lock, against the keys of all its epochs (close.rs, found and
-- rotate).
use close_common.Common.{
  ℕ, suc, ◌+◌, ◌%◌, ◌≤◌, ◌<◌, ◌≡◌, refl, ok, some, eqb, if◌then◌else◌, arith, length, get_elem?,
  Bool-cases, inl, inr, List, ◌++◌, ◌∷◌, [], length-append, get_elem?-append_left, subst, sym,
  get_elem?-append_length, Result, eqb_iff, ◌∙◌, ◌>>=◌,
}
use close_common.Common.Bytes.{Bytes, Text, IsKey, u32_mod, codes}
use mathlib.Core.Path.{subst₂}
use close_common.Crypto.{Crypto, IsLawful}
use close_common.Facet.{shape, content, Error}
use close_common.Aead.{derive, derive-IsKey, unwrap-wrap}
use close_common.Close.{CloseRecord, EpochLink, Silhouette, chain_aad, facet_key, rotate, found}
use close_common.Close.Epochs.{lane_key, Unlocks, IsKeyed}

-- The keys of a history, with one more at `n + 1`.
abbrev pub extend : (ℕ → Bytes) → ℕ → Bytes → ℕ → Bytes
extend key n k i = if eqb i (suc n) then k else key i

pub extend_old : (key : ℕ → Bytes) (n : ℕ) (k : Bytes) (i : ℕ) → i ≤ n → extend key n k i ≡ key i
extend_old key n k i h = ground arith

pub extend_new : (key : ℕ → Bytes) (n : ℕ) (k : Bytes) → extend key n k (suc n) ≡ k
extend_new key n k = ground arith

module _ (c : Crypto) where
  abbrev pub fresh_key : CloseRecord → Bytes → Bytes
  fresh_key r fresh = derive c (codes "closecommon/v0/rotate") fresh r.id

  abbrev pub rotated : CloseRecord → EpochLink → CloseRecord
  rotated r link = record r { chain = r.chain ++ link ∷ []; epoch = (r.epoch + 1) % u32_mod }

  -- The lock changed once for each seed, each time with the key that the last change returned.
  unfoldable pub rotate_all : CloseRecord → Bytes → List Bytes → Result Error (CloseRecord × Bytes)
  unfolding rotate
  rotate_all r k [] = ok (r, k)
  rotate_all r k (fresh ∷ seeds) = do (r', k') ← rotate c r k fresh; rotate_all r' k' seeds

module _ (c : Crypto) (l : IsLawful c) where
  -- A new close is in order with its key of epoch 0.
  pub found-IsKeyed :
      (name : Text) (s : Silhouette) (steward seed : Bytes)
      → let (r, k) = found c name s steward seed in IsKeyed c r (λ _. k)
  unfolding found
  found-IsKeyed name s steward seed = record {
    linked = refl;
    sized = λ i h. derive-IsKey c l _ _ _;
    unlocks = λ i h. absurd (omega arith);
  }

  module _ (r : CloseRecord) (key : ℕ → Bytes) (keyed : IsKeyed c r key) (fresh : Bytes) where
    shape_IsKey : (k : Bytes) → IsKey (lane_key c r.id shape k)
    unfolding facet_key
    shape_IsKey k = derive-IsKey c l _ _ _

    rotate_links :
        (link : EpochLink) × (rotate c r (key r.epoch) fresh
          ≡ ok (rotated c r link, fresh_key c r fresh))
        × Unlocks c r.id r.epoch link (key r.epoch) (fresh_key c r fresh)
    unfolding rotate
    rotate_links =
        let k = key r.epoch in
        let new = fresh_key c r fresh in
        let (w, wraps, unwraps) =
          unwrap-wrap c l new (chain_aad r.id r.epoch content) k (derive-IsKey c l _ _ _)
            (keyed.sized r.epoch (omega arith)) in
        let (v, wraps', unwraps') =
          unwrap-wrap c l (lane_key c r.id shape new) (chain_aad r.id r.epoch shape)
            (lane_key c r.id shape k) (shape_IsKey new) (shape_IsKey k) in
        (
          record { content = w; shape = v },
          rw (wraps, wraps'),
          record { content = unwraps; shape = unwraps' },
        )

    module _ (fits : r.epoch + 1 < u32_mod) (link : EpochLink) (new : Bytes) (size : IsKey new)
        (opens : Unlocks c r.id r.epoch link (key r.epoch) new) where
      epoch-rotated : (rotated c r link).epoch ≡ suc r.epoch
      epoch-rotated = omega arith

      rotated-Unlocks :
          (i : ℕ)
          → i < suc r.epoch
          → (m : EpochLink) × (get_elem? (r.chain ++ link ∷ []) i ≡ some m)
            × Unlocks c r.id i m (extend key r.epoch new i) (extend key r.epoch new (suc i))
      rotated-Unlocks i h = elim (Bool-cases (eqb i r.epoch)) [
        | inl last ↦
            let e : i ≡ r.epoch = (eqb_iff i r.epoch).0 last in
            rw e (
              link,
              subst (λ (n : ℕ). get_elem? (r.chain ++ link ∷ []) n ≡ some link) keyed.linked
                  (get_elem?-append_length r.chain link []),
              subst₂ (λ (a b : Bytes). Unlocks c r.id r.epoch link a b)
                  (sym (extend_old key r.epoch new r.epoch (omega arith)))
                  (sym (extend_new key r.epoch new)) opens,
            )
        | inr before ↦
            let lt : i < r.epoch = ground arith in
            let (m, there, unlocks) = keyed.unlocks i lt in
            (
              m,
              get_elem?-append_left r.chain (link ∷ []) i (omega (arith, keyed.linked)) ∙ there,
              subst₂ (λ (a b : Bytes). Unlocks c r.id i m a b)
                  (sym (extend_old key r.epoch new i (omega arith)))
                  (sym (extend_old key r.epoch new (suc i) lt)) unlocks,
            )
      ]

      extend_sized : (i : ℕ) → i ≤ suc r.epoch → IsKey (extend key r.epoch new i)
      extend_sized i h = elim (Bool-cases (eqb i (suc r.epoch))) [
        | inl last ↦ rw last size
        | inr before ↦ rw before (keyed.sized i (ground arith))
      ]

      rotated-IsKeyed : IsKeyed c (rotated c r link) (extend key r.epoch new)
      rotated-IsKeyed = record {
        linked = rw length-append (omega (arith, keyed.linked));
        sized = λ i h. extend_sized i (omega (arith, epoch-rotated));
        unlocks = λ i h. rotated-Unlocks i (omega (arith, epoch-rotated));
      }

    -- Changing the lock succeeds with the current key, counts the epoch up by one, and leaves a
    -- record in order with the old keys and the new one.
    pub rotate-IsKeyed :
        r.epoch + 1 < u32_mod
        → (link : EpochLink) × (rotate c r (key r.epoch) fresh
            ≡ ok (rotated c r link, fresh_key c r fresh))
          × ((rotated c r link).epoch ≡ suc r.epoch)
          × IsKeyed c (rotated c r link) (extend key r.epoch (fresh_key c r fresh))
    rotate-IsKeyed fits =
        let (link, done, opens) = rotate_links in
        let size = derive-IsKey c l (codes "closecommon/v0/rotate") fresh r.id in
        (
          link,
          done,
          epoch-rotated fits link (fresh_key c r fresh) size opens,
          rotated-IsKeyed fits link (fresh_key c r fresh) size opens,
        )

  -- What a history of lock changes leads to: its last record and keys, in order, and continuing
  -- the keys that were there before.
  pub record Continues (r : CloseRecord) (key : ℕ → Bytes) (seeds : List Bytes) : Type 0 where
    pub last : CloseRecord
    pub keys : ℕ → Bytes
    pub runs : rotate_all c r (key r.epoch) seeds ≡ ok (last, keys last.epoch)
    pub in_order : IsKeyed c last keys
    pub counted : last.epoch ≡ r.epoch + length seeds
    pub same_id : last.id ≡ r.id
    pub same_keys : (i : ℕ) → i ≤ r.epoch → keys i ≡ key i

  pub rotate_all-Continues :
      (r : CloseRecord) (key : ℕ → Bytes) (seeds : List Bytes)
      → IsKeyed c r key
      → r.epoch + length seeds < u32_mod
      → Continues r key seeds
  unfolding rotate_all
  rotate_all-Continues r key [] keyed fits = record {
    last = r;
    keys = key;
    runs = refl;
    in_order = keyed;
    counted = omega arith;
    same_id = refl;
    same_keys = λ i h. refl;
  }
  rotate_all-Continues r key (fresh ∷ seeds) keyed fits =
      let (link, done, up, keyed') = rotate-IsKeyed r key keyed fresh (omega arith) in
      let new = fresh_key c r fresh in
      let key' = extend key r.epoch new in
      let rest = rotate_all-Continues (rotated c r link) key' seeds keyed' (omega (arith, up)) in
      let now : key' (rotated c r link).epoch ≡ new = rw up (extend_new key r.epoch new) in
      record {
        last = rest.last;
        keys = rest.keys;
        runs = rw done (
            subst
              (λ (k : Bytes).
                rotate_all c (rotated c r link) k seeds ≡ ok (rest.last, rest.keys rest.last.epoch))
              now rest.runs);
        in_order = rest.in_order;
        counted = omega (arith, rest.counted, up);
        same_id = rest.same_id;
        same_keys = λ i h. rest.same_keys i (omega (arith, up)) ∙ extend_old key r.epoch new i h;
      }

  -- Every history of lock changes on a new close that the epoch's 32 bits can count succeeds,
  -- counts the changes, and keeps the close's id.
  pub rotate_all_total :
      (name : Text) (s : Silhouette) (steward seed : Bytes) (seeds : List Bytes)
      → length seeds < u32_mod
      → let (r₀, k₀) = found c name s steward seed in
        (r : CloseRecord) × (k : Bytes) × (rotate_all c r₀ k₀ seeds ≡ ok (r, k))
        × (r.epoch ≡ length seeds)
        × (r.id ≡ r₀.id)
  unfolding found
  rotate_all_total name s steward seed seeds fits =
      let (r₀, k₀) = found c name s steward seed in
      let d =
        rotate_all-Continues r₀ (λ _. k₀) seeds (found-IsKeyed name s steward seed) (omega arith) in
      (d.last, d.keys d.last.epoch, d.runs, omega (arith, d.counted), d.same_id)
