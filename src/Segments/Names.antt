-- ===== src/Segments/Names.antt =====
-- The names that a path is cut into (repo.rs, segments).
use close_common.Common.{
  ℕ, ◌≡◌, refl, List, [], ◌∷◌, Bool, true, false, ◌||◌, eqb, if◌then◌else◌, All, arith,
}
use close_common.Common.Bytes.{Text, codes, ◌==◌}
use close_common.Id.{trim}
use close_common.Segments.{
  strip_here, strip_start, strip_end, add_char, split, is_name, keep_names, segments,
}

abbrev pub has_slash : Text → Bool
has_slash [] = false
has_slash (a ∷ s) = eqb a b'/' || has_slash s

abbrev pub IsName : Text → Type 0
IsName s = ((s == []) ≡ false) × ((s == codes ".") ≡ false) × (has_slash s ≡ false)

add_char-All :
    (b : Bool) (a : ℕ) (words : List Text)
    → eqb a b'/' ≡ b
    → All (λ s. has_slash s ≡ false) words
    → All (λ s. has_slash s ≡ false) (add_char b a words)
add_char-All true a words h all = (refl, all)
add_char-All false a [] h all = (rw h, tt)
add_char-All false a (word ∷ words) h (clean, all) = (rw (h, clean), all)

split-All : (s : Text) → All (λ s. has_slash s ≡ false) (split s)
unfolding split
split-All [] = (refl, tt)
split-All (a ∷ s) = add_char-All (eqb a b'/') a (split s) refl (split-All s)

kept-All :
    (b : Bool) (s : Text) (words : List Text)
    → is_name s ≡ b
    → has_slash s ≡ false
    → All IsName words
    → All IsName (if b then s ∷ words else words)
kept-All false s words h clean all = all
kept-All true s words h clean all = ((ground (arith, h), ground (arith, h), clean), all)

keep_names-All :
    (words : List Text) → All (λ s. has_slash s ≡ false) words → All IsName (keep_names words)
unfolding keep_names
keep_names-All [] all = tt
keep_names-All (s ∷ words) (clean, all) =
    let rest = keep_names-All words all in kept-All (is_name s) s (keep_names words) refl clean rest

-- Whatever was typed, each name that a path is cut into is neither empty nor a single dot, and has no
-- slash in it.
pub segments-AreNames : (path : Text) → All IsName (segments path)
unfolding segments
segments-AreNames path =
    let trimmed = strip_end (strip_start (strip_here (trim path))) in
    keep_names-All (split trimmed) (split-All trimmed)
