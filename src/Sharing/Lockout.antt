-- ===== src/Sharing/Lockout.antt =====
-- Whom a change of the lock leaves out (main.rs, rotate).
use close_common.Common.{
  ℕ, suc, ◌+◌, ◌<◌, ◌≤◌, ◌≡◌, refl, sym, ◌∙◌, ap, List, [], ◌∷◌, none, some, Bool, true, false, not,
  if◌then◌else◌, ok, ok_or, ok-injective, get_elem?, arith, Bool-cases, inl, inr, All,
}
use close_common.Common.Bytes.{Bytes, Text, u32_mod, ◌==◌, ==→eq}
use close_common.Common.Map.{Map}
use close_common.Crypto.{Crypto}
use close_common.Facet.{Facet}
use close_common.Close.{CloseRecord}
use close_common.Grant.{Grant, Identity, terms}
use close_common.Repo.Late.{facet_key_for-late}
use close_common.World.{Codecs, World, reads_then, stop_then, not_the_steward, no_current_key}
use close_common.World.Files.{
  grant_files, load_close, identity, grants_for, governing_close, key_for, current_content_key,
}
use close_common.Snapshot.{join}
use close_common.Sharing.{mentions}
use close_common.Sharing.Relock.{Keeper, keeper_of, with_keeper, held_on, keepers_of, rotate}
use close_common.Sharing.Untouched.{relock-Same}

module _ (c : Crypto) (k : Codecs) where
  keeper_of-name :
      (name : Text) (grants : List Grant) (keepers : List Keeper) (P : Text → Type 0)
      → P name
      → All (λ (x : Keeper). P x.name) keepers
      → All (λ (x : Keeper). P x.name) (with_keeper c k (keeper_of c k name grants) keepers)
  keeper_of-name name [] keepers P h all = all
  keeper_of-name name (g ∷ grants) keepers P h all = (h, all)

  apart_from :
      (except : List Text) (name other : Text)
      → mentions name except ≡ true
      → mentions other except ≡ false
      → (name == other) ≡ false
  apart_from except name other there gone = elim (Bool-cases (name == other)) [
    | inl same ↦ absurd (cc (there, gone, ==→eq name other same))
    | inr apart ↦ apart
  ]

  All-if {ℓ κ} :
      {A : Type ℓ} (P : A → Type κ) (b : Bool) (xs ys : List A)
      → All P xs
      → (b ≡ false → All P ys)
      → All P (if b then xs else ys)
  All-if P true xs ys hx hy = hx
  All-if P false xs ys hx hy = hy refl

  -- Nobody that is left out is among those that keep up.
  keepers_of-apart :
      (w : World) (close : Bytes) (r : CloseRecord) (except people : List Text) (name : Text)
      → mentions name except ≡ true
      → All (λ (x : Keeper). (name == x.name) ≡ false) (keepers_of c k w close r except people)
  unfolding keepers_of
  keepers_of-apart w close r except [] name out = tt
  keepers_of-apart w close r except (p ∷ people) name out =
      let rest = keepers_of-apart w close r except people name out in
      All-if (λ (x : Keeper). (name == x.name) ≡ false) (mentions p except) _ _ rest
        (λ stays.
          keeper_of-name p (held_on c k close r w.clock (grants_for k w p)) _
            (λ n. (name == n) ≡ false) (apart_from except name p out stays) rest)

  not-false : (b : Bool) → not b ≡ false → b ≡ true
  not-false true h = refl
  not-false false h = cc

  -- A change of the lock that succeeds, before the epoch reaches the end of its 32 bits, is made by
  -- the close's steward and counts the epoch up by one. Whoever it excepts, and held no grant of a later
  -- epoch than the close was in, finds no key of the new epoch, of any facet.
  pub rotate-locks_out :
      (path except : List Text) (w : World) (close : Bytes) (r r' : CloseRecord) (w' : World)
      (name : Text)
      → governing_close k w (join path) ≡ ok close
      → load_close k w close ≡ ok r
      → r.epoch + 1 < u32_mod
      → mentions name except ≡ true
      → ((i : ℕ) (g : Grant)
          → get_elem? (grants_for k w name) i ≡ some g
          → (terms g).epoch ≤ r.epoch)
      → rotate c k path except w ≡ (ok r', w')
      → ((me : Identity) × (identity k w w.me ≡ ok me) × (r.steward ≡ c.verifying_key me.sign))
        × (r'.epoch ≡ suc r.epoch)
        × ((wanted : Facet) → key_for k w' c name r' wanted r'.epoch ≡ none)
  unfolding rotate key_for grants_for
  rotate-locks_out path except w close r r' w' name governs loads fits out held h =
      let (close', governs', h₁) = reads_then (λ w. governing_close k w (join path)) _ w h in
      let (r₀, loads', h₂) = reads_then (λ w. load_close k w close') _ w h₁ in
      let (me, mine, h₃) = reads_then (λ w. identity k w w.me) _ w h₂ in
      let (steward, h₄) =
        stop_then (not (r₀.steward == c.verifying_key me.sign)) not_the_steward _ w h₃ in
      let (key, _, h₅) =
        reads_then (λ w. ok_or (current_content_key k w c w.me r₀) no_current_key) _ w h₄ in
      let same : r₀ ≡ r =
        ok-injective
          (sym loads' ∙ ap (load_close k w) (ok-injective (sym governs' ∙ governs)) ∙ loads) in
      let (kept, counts, _) =
        relock-Same c k name r₀ me key _ _ (record w { drawn = suc w.drawn }) r' w'
          (keepers_of-apart w close' r₀ except w.people name out) h₅ in
      let up : r'.epoch ≡ suc r.epoch =
        omega (arith, counts, ap (λ (x : CloseRecord). x.epoch) same, fits) in
      (
        (
          me,
          mine,
          ap (λ (x : CloseRecord). x.steward) (sym same)
              ∙ ==→eq r₀.steward (c.verifying_key me.sign) (not-false _ steward),
        ),
        up,
        λ wanted.
            facet_key_for-late c k.bodies r' w'.clock _ wanted r'.epoch (grants_for k w' name)
              (λ i g there. omega (
                arith,
                up,
                held i g (
                    ap (λ (m : Map Bytes). get_elem? (grant_files k.grants m) i) (sym kept.grants)
                    ∙ there),
              )),
      )
