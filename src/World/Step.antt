-- ===== src/World/Step.antt =====
-- The state of a run, and steps that change it and may fail. What was written before a failure
-- stays written.
use close_common.Common.{
  ℕ, suc, ◌≡◌, refl, ap, sym, subst, Option, List, Result, ok, err, Bool, true, false,
  if◌then◌else◌,
}
use close_common.Common.Bytes.{Bytes, Text}
use close_common.Common.Map.{Map}
use close_common.Facet.{Error}
use close_common.Cell.{CellError}
use close_common.Store.{Store, Files}

pub data RepoError : Type 0 where
  -- a file is not there or does not parse
  unreadable : RepoError
  -- a value does not encode
  unwritable : RepoError
  -- `from_hex` has panicked
  panicked : RepoError
  corrupt_object missing_object : RepoError
  core : Error → RepoError
  cell : CellError → RepoError
  ungoverned corrupt_closemap : RepoError
  cannot_write sealed_history sealed_drawer nothing_kept no_such_entry : RepoError
  is_folder nothing_read : RepoError
  no_signpost no_point_power needs_everything : RepoError
  no_current_key nothing_to_share not_the_steward : RepoError
  name_taken not_a_path not_a_keeping : RepoError
  already_a_commons no_commons : RepoError
  not_a_facet not_a_power no_slot nothing_to_point : RepoError

-- `grants` holds the files of each holder's directory by name, and `people` the names of the
-- directories under `ids`, in order. `random n` is the result of the `n`-th call for random bytes,
-- and `drawn` counts the calls.
pub record World : Type 0 where
  pub me : Text
  pub commons : Text
  pub store : Store
  pub closes : Files
  pub closemap : Option Bytes
  pub cells : Option Bytes
  -- the `.cell` files of the working tree
  pub declarations : Files
  pub grants : Text → Map Bytes
  pub people : List Text
  pub secrets : Files
  pub publics : Files
  pub clock : ℕ
  pub random : ℕ → Bytes
  pub drawn : ℕ

abbrev pub Run : Type 0 → Type 0
Run A = World → Result RepoError A × World

module _ {A : Type 0} where
  abbrev pub pure : A → Run A
  pure a w = (ok a, w)

  abbrev pub fail : RepoError → Run A
  fail e w = (err e, w)

  -- Code that only reads.
  abbrev pub reads : (World → Result RepoError A) → Run A
  reads f w = (f w, w)

  abbrev pub given : Result RepoError A → Run A
  given r w = (r, w)

abbrev pub modify : (World → World) → Run (Unit {0})
modify f w = (ok tt, f w)

-- `random32` and the calls of the random generator.
abbrev pub draw : Run Bytes
draw w = (ok (w.random w.drawn), record w { drawn = suc w.drawn })

abbrev pub proceed :
    {A B : Type 0} → (A → Run B) → Result RepoError A × World → Result RepoError B × World
proceed f (ok a, w) = f a w
proceed f (err e, w) = (err e, w)

infixl 5 ◌>>=◌ ◌>>◌
abbrev pub ◌>>=◌ : {A B : Type 0} → Run A → (A → Run B) → Run B
◌>>=◌ m f w = proceed f (m w)

abbrev pub ◌>>◌ : {B : Type 0} → Run (Unit {0}) → Run B → Run B
m >> k = m >>= λ _. k

abbrev pub stop_if : Bool → RepoError → Run (Unit {0})
stop_if b e = if b then fail e else pure tt

module _ {A B : Type 0} where
  proceed-ok :
      (f : A → Run B) (x : Result RepoError A × World) {b : B} {w' : World}
      → proceed f x ≡ (ok b, w')
      → (a : A) × (v : World) × (x ≡ (ok a, v)) × (f a v ≡ (ok b, w'))
  proceed-ok f (ok a, v) h = (a, v, refl, h)
  proceed-ok f (err e, v) h = cc (ap (λ (p : Result RepoError B × World). p.0) h)

  -- A run that succeeds went through its first step and then through its second.
  pub run_then :
      (m : Run A) (f : A → Run B) (w : World) {b : B} {w' : World}
      → (m >>= f) w ≡ (ok b, w')
      → (a : A) × (v : World) × (m w ≡ (ok a, v)) × (f a v ≡ (ok b, w'))
  run_then m f w h = proceed-ok f (m w) h

  -- The same, with the second step from a state that equals the one in between
  pub run_after :
      (m : Run A) (f : A → Run B) (w : World) {b : B} {w' : World}
      → (m >>= f) w ≡ (ok b, w')
      → (a : A) × (v : World) × (m w ≡ (ok a, v)) × ((u : World) → v ≡ u → f a u ≡ (ok b, w'))
  run_after m f w {b} {w'} h =
      let (a, v, q, rest) = run_then m f w h in
      (a, v, q, λ u e. subst (λ (x : World). f a x ≡ (ok b, w')) e rest)

  -- A step that only reads leaves the state alone.
  pub reads_then :
      (r : World → Result RepoError A) (f : A → Run B) (w : World) {b : B} {w' : World}
      → (reads r >>= f) w ≡ (ok b, w')
      → (a : A) × (r w ≡ ok a) × (f a w ≡ (ok b, w'))
  reads_then r f w {b} {w'} h =
      let (a, v, q, rest) = proceed-ok f (r w, w) h in
      (
        a,
        ap (λ (p : Result RepoError A × World). p.0) q,
        subst (λ (u : World). f a u ≡ (ok b, w'))
            (sym (ap (λ (p : Result RepoError A × World). p.1) q)) rest,
      )

  pub given_then :
      (r : Result RepoError A) (f : A → Run B) (w : World) {b : B} {w' : World}
      → (given r >>= f) w ≡ (ok b, w')
      → (a : A) × (r ≡ ok a) × (f a w ≡ (ok b, w'))
  given_then r f w h = reads_then (λ _. r) f w h

pub stop_then :
    {B : Type 0} (b : Bool) (e : RepoError) (k : Run B) (w : World) {x : B} {w' : World}
    → (stop_if b e >> k) w ≡ (ok x, w')
    → (b ≡ false) × (k w ≡ (ok x, w'))
stop_then {B = B} true e k w h = cc (ap (λ (p : Result RepoError B × World). p.0) h)
stop_then false e k w h = (refl, h)
