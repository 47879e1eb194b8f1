-- ===== src/Date.antt =====
-- close/src/main.rs: how the command line writes a time (date), after Howard Hinnant's
-- civil_from_days. Days count from 1970-01-01, and none of the numbers is negative: a `u64` of seconds is
-- less than 2^48 days.
pub mod Civil
pub mod Next
use close_common.Common.{
  ℕ, ◌+◌, ◌-◌, ◌*◌, ◌/◌, ◌%◌, [], ◌++◌, ltb, leb, if◌then◌else◌, length, replicate,
}
use close_common.Common.Bytes.{Text, codes}
use close_common.Cell.{digits}

pub record Day : Type 0 where
  pub year : ℕ
  pub month : ℕ
  pub day : ℕ

abbrev pub year_of_era : ℕ → ℕ
year_of_era doe = (doe - doe / 1460 + doe / 36524 - doe / 146096) / 365

abbrev pub day_of_year : ℕ → ℕ
day_of_year doe = let yoe = year_of_era doe in doe - (365 * yoe + yoe / 4 - yoe / 100)

-- The year, the month and the day in it, from the era, its year and the day in a year from March
abbrev pub from_march : (era yoe doy : ℕ) → Day
from_march era yoe doy =
    let mp = (5 * doy + 2) / 153 in
    let m = if ltb mp 10 then mp + 3 else mp - 9 in
    let y = yoe + era * 400 in
    record { year = if leb m 2 then y + 1 else y; month = m; day = doy - (153 * mp + 2) / 5 + 1 }

-- The day that a number of days after 1970-01-01 is
unfoldable pub civil : ℕ → Day
civil days =
    let z = days + 719468 in
    let era = z / 146097 in
    let doe = z % 146097 in from_march era (year_of_era doe) (day_of_year doe)

-- `{:02}` and `{:04}`
abbrev pad : ℕ → ℕ → Text
pad width n = let text = digits n n [] in replicate (width - length text) b'0' ++ text

abbrev pub hour : ℕ → ℕ
hour unix = unix % 86400 / 3600

abbrev pub minute : ℕ → ℕ
minute unix = unix % 86400 % 3600 / 60

unfoldable pub date : ℕ → Text
unfolding civil
date unix =
    let d = civil (unix / 86400) in
    pad 4 d.year
    ++ (codes "-"
        ++ (pad 2 d.month
            ++ (codes "-"
                ++ (pad 2 d.day
                    ++ (codes " " ++ (pad 2 (hour unix) ++ (codes ":" ++ pad 2 (minute unix))))))))
