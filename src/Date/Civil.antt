-- ===== src/Date/Civil.antt =====
-- The days of civil_from_days (main.rs, date).
use close_common.Common.{ℕ, ◌+◌, ◌-◌, ◌*◌, ◌/◌, ◌%◌, ◌≤◌, ◌<◌, ◌≡◌, arith, leb, if◌then◌else◌, ◌∙◌}
use close_common.Date.{Day, year_of_era, day_of_year, from_march, civil, hour, minute}

day_of_year_bound :
    (doe : ℕ)
    → doe < 146097
    → (365 * year_of_era doe + year_of_era doe / 4 - year_of_era doe / 100 ≤ doe)
day_of_year_bound doe h = omega (arith, h)

pub day_of_year_top : (doe : ℕ) → doe < 146097 → day_of_year doe ≤ 365
day_of_year_top doe h = omega (arith, h)

year_of_era_top : (doe : ℕ) → doe < 146097 → year_of_era doe < 400
year_of_era_top doe h = omega (arith, h)

from_march_bounds :
    (era yoe doy : ℕ)
    → doy ≤ 365
    → (1 ≤ (from_march era yoe doy).month)
      × ((from_march era yoe doy).month ≤ 12)
      × (1 ≤ (from_march era yoe doy).day)
      × ((from_march era yoe doy).day ≤ 31)
from_march_bounds era yoe doy h =
    (ground (arith, h), ground (arith, h), ground (arith, h), ground (arith, h))

-- The days from 1970-01-01 to a day of the calendar, by counting: years from March, the leap days of the
-- years before, the months' days, and the days of the month.
abbrev pub days_to : Day → ℕ
days_to d =
    let y = if leb d.month 2 then d.year - 1 else d.year in
    let mp = if leb d.month 2 then d.month + 9 else d.month - 3 in
    365 * y + y / 4 - y / 100 + y / 400 + ((153 * mp + 2) / 5 + d.day - 1) - 719468

march_back :
    (era yoe doy : ℕ)
    → yoe < 400
    → doy ≤ 365
    → days_to (from_march era yoe doy)
      ≡ era * 146097 + (365 * yoe + yoe / 4 - yoe / 100) + doy - 719468
march_back era yoe doy hy h = ground (arith, hy, h)

back :
    (era doe days : ℕ)
    → 365 * year_of_era doe + year_of_era doe / 4 - year_of_era doe / 100 ≤ doe
    → era * 146097 + doe ≡ days + 719468
    → era * 146097
        + (365 * year_of_era doe + year_of_era doe / 4 - year_of_era doe / 100)
        + day_of_year doe
        - 719468
      ≡ days
back era doe days le h = omega (arith, le, h)

-- The day that a time falls on has a month from 1 to 12 and a day from 1 to 31; its hour is below 24 and
-- its minute below 60.
pub civil_bounds :
    (unix : ℕ)
    → (1 ≤ (civil (unix / 86400)).month)
      × ((civil (unix / 86400)).month ≤ 12)
      × (1 ≤ (civil (unix / 86400)).day)
      × ((civil (unix / 86400)).day ≤ 31)
      × (hour unix < 24)
      × (minute unix < 60)
unfolding civil
civil_bounds unix =
    let days = unix / 86400 in
    let doe = (days + 719468) % 146097 in
    let (m, m', d, d') =
      from_march_bounds ((days + 719468) / 146097) (year_of_era doe) (day_of_year doe)
        (day_of_year_top doe (omega arith)) in
    (m, m', d, d', omega arith, omega arith)

-- Counting the days to the day that is `days` after 1970-01-01 gives `days` back: different days are
-- written differently.
pub days_to-civil : (days : ℕ) → days_to (civil days) ≡ days
unfolding civil
days_to-civil days =
    let era = (days + 719468) / 146097 in
    let doe = (days + 719468) % 146097 in
    let below : doe < 146097 = omega arith in
    march_back era (year_of_era doe) (day_of_year doe) (year_of_era_top doe below)
      (day_of_year_top doe below)
    ∙ back era doe days (day_of_year_bound doe below) (omega arith)
