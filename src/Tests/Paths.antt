-- ===== src/Tests/Paths.antt =====
-- Paths at concrete inputs.
use close_common.Common.{◌≡◌, refl, [], ◌∷◌, All}
use close_common.Common.Bytes.{codes, ◌==◌}
use close_common.Id.{trim}
use close_common.Segments.{segments}
use close_common.Segments.Names.{IsName, segments-AreNames}

cut : segments (codes " ./drafts//old/") ≡ codes "drafts" ∷ codes "old" ∷ []
unfolding segments trim ◌==◌
cut = refl

-- Two dots are a name like any other.
up : segments (codes "../x") ≡ codes ".." ∷ codes "x" ∷ []
unfolding segments trim ◌==◌
up = refl

segments-AreNames_example : All IsName (segments (codes " ./drafts//old/"))
segments-AreNames_example = segments-AreNames (codes " ./drafts//old/")
