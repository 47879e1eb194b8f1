-- ===== src/Facet/Words.antt =====
-- The names of the facets in both registers (facet.rs).
use close_common.Common.{◌≡◌, refl, some}
use close_common.Common.Bytes.{to_ascii_lowercase, ◌==◌}
use close_common.Facet.{Facet, presence, shape, content, plain_name, wizard_name, parse}

-- The plain name and the wizard's name of a facet are both read back as that facet.
pub parse-name : (f : Facet) → (parse (plain_name f) ≡ some f) × (parse (wizard_name f) ≡ some f)
unfolding parse plain_name wizard_name to_ascii_lowercase ◌==◌
parse-name presence = (refl, refl)
parse-name shape = (refl, refl)
parse-name content = (refl, refl)
