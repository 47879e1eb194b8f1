-- ===== src/Cli/Drawn.antt =====
-- Steps that change no file, or none where they fail (main.rs, run).
use close_common.Common.{
  ℕ, ◌≡◌, refl, ◌∙◌, ap, subst, Bool, true, false, Result, ok, err, if◌then◌else◌,
}
use close_common.World.{World, Run, RepoError, proceed, reads, stop_if, ◌>>=◌}

-- The state differs from another one only in how many random bytes were drawn.
abbrev pub Drawn : World → World → Type 0
Drawn w w' = (n : ℕ) × (w' ≡ record w { drawn = n })

pub Drawn-refl : (w : World) → Drawn w w
Drawn-refl w = (w.drawn, refl)

pub Drawn-trans : (u v w : World) → Drawn u v → Drawn v w → Drawn u w
Drawn-trans u v w (n, p) (m, q) = (m, q ∙ ap (λ (x : World). record x { drawn = m }) p)

-- A step that changes no file, and one that changes none where it fails
abbrev pub Still : {A : Type 0} → Run A → Type 0
Still m = (w : World) → Drawn w (m w).1

abbrev pub Safe : {A : Type 0} → Run A → Type 0
Safe m = (w : World) (e : RepoError) (w' : World) → m w ≡ (err e, w') → Drawn w w'

module _ {A B : Type 0} where
  pub proceed-Drawn :
      (f : A → Run B) (w : World) (x : Result RepoError A × World)
      → Drawn w x.1
      → ((a : A) (v : World) → Drawn v (f a v).1)
      → Drawn w (proceed f x).1
  proceed-Drawn f w (ok a, v) d next = Drawn-trans w v (f a v).1 d (next a v)
  proceed-Drawn f w (err e, v) d next = d

  pub proceed-Safe :
      (f : A → Run B) (w : World) (e : RepoError) (w' : World) (x : Result RepoError A × World)
      → proceed f x ≡ (err e, w')
      → Drawn w x.1
      → ((a : A) (v : World) → f a v ≡ (err e, w') → Drawn v w')
      → Drawn w w'
  proceed-Safe f w e w' (ok a, v) h d next = Drawn-trans w v w' d (next a v h)
  proceed-Safe f w e w' (err d', v) h d next =
      subst (Drawn w) (ap (λ (x : Result RepoError B × World). x.1) h) d

  -- A step that changes no file, and then a safe one
  pub then-Safe :
      (m : Run A) (f : A → Run B) (w : World) (e : RepoError) (w' : World)
      → (m >>= f) w ≡ (err e, w')
      → Still m
      → ((a : A) (v : World) → f a v ≡ (err e, w') → Drawn v w')
      → Drawn w w'
  then-Safe m f w e w' h still next = proceed-Safe f w e w' (m w) h (still w) next

  -- A value that is read or given, and then a safe step
  pub read-Safe :
      (r : World → Result RepoError A) (f : A → Run B) (w : World) (e : RepoError) (w' : World)
      → (reads r >>= f) w ≡ (err e, w')
      → ((a : A) → f a w ≡ (err e, w') → Drawn w w')
      → Drawn w w'
  read-Safe r f w e w' h next = read (r w) h
    where
      read : (x : Result RepoError A) → proceed f (x, w) ≡ (err e, w') → Drawn w w'
      read (ok a) h = next a h
      read (err d) h =
          subst (Drawn w) (ap (λ (x : Result RepoError B × World). x.1) h) (Drawn-refl w)

  -- A safe step, and then one that never fails
  pub Safe-then :
      (m : Run A) (f : A → Run B) (w : World) (e : RepoError) (w' : World)
      → (m >>= f) w ≡ (err e, w')
      → Safe m
      → ((a : A) (v : World) → f a v ≡ (err e, w') → ⊥)
      → Drawn w w'
  Safe-then m f w e w' h safe sure = after (m w) refl h
    where
      after : (x : Result RepoError A × World) → m w ≡ x → proceed f x ≡ (err e, w') → Drawn w w'
      after (ok a, v) q h = absurd (sure a v h)
      after (err d, v) q h =
          subst (Drawn w) (ap (λ (x : Result RepoError B × World). x.1) h) (safe w d v q)

pub wrote :
    {A : Type 0} (a : A) (w : World) (e : RepoError) (w' : World)
    → ◌≡◌ {A = Result RepoError A × World} (ok a, w) (err e, w')
    → ⊥
wrote {A} a w e w' h = cc (ap (λ (x : Result RepoError A × World). x.0) h)

pub stop_if-Still : (b : Bool) (e : RepoError) → Still (stop_if b e)
stop_if-Still true e w = Drawn-refl w
stop_if-Still false e w = Drawn-refl w

pub if-Still :
    {A : Type 0} (b : Bool) (m m' : Run A) → Still m → Still m' → Still (if b then m else m')
if-Still true m m' h h' = h
if-Still false m m' h h' = h'
