-- ===== src/Tests/Words.antt =====
-- Powers at concrete inputs.
use close_common.Common.{◌≡◌, refl, true}
use close_common.Facet.{none_held, invoke, set, union, is_subset_of}

set_in_both : is_subset_of set (union invoke set) ≡ true
unfolding is_subset_of union
set_in_both = refl

none_in_set : is_subset_of none_held set ≡ true
unfolding is_subset_of
none_in_set = refl
