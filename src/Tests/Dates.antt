-- ===== src/Tests/Dates.antt =====
-- Dates at concrete inputs.
use close_common.Common.{suc, ◌≤◌, ◌<◌, ◌/◌, ◌≡◌, refl}
use close_common.Common.Bytes.{codes}
use close_common.Date.{civil, hour, minute, date}
use close_common.Date.Civil.{civil_bounds}
use close_common.Date.Next.{next, civil-suc}

written : date 1709164799 ≡ codes "2024-02-28 23:59"
unfolding date
written = refl

civil-suc_example : civil (suc 19781) ≡ next (civil 19781)
civil-suc_example = civil-suc 19781

civil_bounds_example :
    (1 ≤ (civil (1709164799 / 86400)).month)
    × ((civil (1709164799 / 86400)).month ≤ 12)
    × (1 ≤ (civil (1709164799 / 86400)).day)
    × ((civil (1709164799 / 86400)).day ≤ 31)
    × (hour 1709164799 < 24)
    × (minute 1709164799 < 60)
civil_bounds_example = civil_bounds 1709164799
