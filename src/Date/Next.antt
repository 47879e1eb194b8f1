-- ===== src/Date/Next.antt =====
-- The calendar: the day that follows a day (main.rs, date).
use close_common.Common.{
  ℕ, suc, ◌+◌, ◌*◌, ◌/◌, ◌%◌, ◌≤◌, ◌<◌, ◌≡◌, refl, arith, leb, ltb, eqb, if◌then◌else◌, Bool, true,
  false, not, ◌&&◌, ◌||◌, ap, ap₂, sym, Bool-cases, inl, inr, ◌∙◌,
}
use close_common.Date.{Day, year_of_era, day_of_year, from_march, civil}
use close_common.Date.Civil.{day_of_year_top}

abbrev pub is_leap : ℕ → Bool
is_leap y = eqb (y % 4) 0 && (not (eqb (y % 100) 0) || eqb (y % 400) 0)

abbrev pub month_length : (year month : ℕ) → ℕ
month_length y m =
    if eqb m 2
    then (if is_leap y then 29 else 28)
    else if eqb m 4 || (eqb m 6 || (eqb m 9 || eqb m 11))
    then 30
    else 31

-- The day after a day
abbrev pub next : Day → Day
next d =
    if ltb d.day (month_length d.year d.month)
    then record { year = d.year; month = d.month; day = d.day + 1 }
    else if ltb d.month 12
    then record { year = d.year; month = d.month + 1; day = 1 }
    else record { year = d.year + 1; month = 1; day = 1 }

-- The last day of a year from March: the leap day, if the next January belongs to a leap year
abbrev ends : (yoe doy : ℕ) → Bool
ends yoe doy = if is_leap (yoe + 1) then leb 365 doy else leb 364 doy

is_leap-era : (era y : ℕ) → is_leap (y + era * 400) ≡ is_leap y
is_leap-era era y = ground arith

plain-month :
    (era yoe doy : ℕ)
    → doy < 364
    → (next (from_march era yoe doy)).month ≡ (from_march era yoe (doy + 1)).month
plain-month era yoe doy h = ground (arith, h)

plain-day :
    (era yoe doy : ℕ)
    → doy < 364
    → (next (from_march era yoe doy)).day ≡ (from_march era yoe (doy + 1)).day
plain-day era yoe doy h = ground (arith, h)

plain-year :
    (era yoe doy : ℕ)
    → doy < 364
    → (next (from_march era yoe doy)).year ≡ (from_march era yoe (doy + 1)).year
plain-year era yoe doy h = ground (arith, h)

within :
    (doe : ℕ)
    → doe < 146096
    → ends (year_of_era doe) (day_of_year doe) ≡ false
    → (year_of_era (doe + 1) ≡ year_of_era doe) × (day_of_year (doe + 1) ≡ day_of_year doe + 1)
within doe h e = (ground (arith, h, e), ground (arith, h, e))

over :
    (doe : ℕ)
    → doe < 146096
    → ends (year_of_era doe) (day_of_year doe) ≡ true
    → (year_of_era (doe + 1) ≡ year_of_era doe + 1) × (day_of_year (doe + 1) ≡ 0)
over doe h e = (ground (arith, h, e), ground (arith, h, e))

day_eq : (a b : Day) → a.year ≡ b.year → a.month ≡ b.month → a.day ≡ b.day → a ≡ b
day_eq a b y m d = rw (y, m, d)

plain-next :
    (era yoe doy : ℕ) → doy < 364 → next (from_march era yoe doy) ≡ from_march era yoe (doy + 1)
plain-next era yoe doy h =
    day_eq (next (from_march era yoe doy)) (from_march era yoe (doy + 1)) (plain-year era yoe doy h)
      (plain-month era yoe doy h) (plain-day era yoe doy h)

-- The end of February, by whether the year that it stands in is a leap year
abbrev on_day : (year month day : ℕ) → Day
on_day y m d = record { year = y; month = m; day = d }

abbrev after_february : (year day : ℕ) → Bool → Day
after_february y day leap =
    if ltb day (if leap then 29 else 28) then on_day y 2 (day + 1) else on_day y 3 1

this_year : (era yoe : ℕ) (b : Bool) → is_leap (yoe + 1) ≡ b → is_leap (yoe + era * 400 + 1) ≡ b
this_year era yoe b leap =
    let same : yoe + era * 400 + 1 ≡ yoe + 1 + era * 400 = omega arith in
    ap is_leap same ∙ is_leap-era era (yoe + 1) ∙ leap

first_of_march : (era yoe : ℕ) → on_day (yoe + era * 400 + 1) 3 1 ≡ from_march era (yoe + 1) 0
first_of_march era yoe =
    let same : yoe + era * 400 + 1 ≡ yoe + 1 + era * 400 = omega arith in
    ap (λ (y : ℕ). on_day y 3 1) same

leap_day :
    (era yoe : ℕ)
    → is_leap (yoe + 1) ≡ true
    → next (from_march era yoe 364) ≡ from_march era yoe 365
leap_day era yoe leap = ap (after_february (yoe + era * 400 + 1) 28) (this_year era yoe true leap)

turn_plain :
    (era yoe : ℕ)
    → is_leap (yoe + 1) ≡ false
    → next (from_march era yoe 364) ≡ from_march era (yoe + 1) 0
turn_plain era yoe plain =
    ap (after_february (yoe + era * 400 + 1) 28) (this_year era yoe false plain)
    ∙ first_of_march era yoe

turn_leap :
    (era yoe : ℕ)
    → is_leap (yoe + 1) ≡ true
    → next (from_march era yoe 365) ≡ from_march era (yoe + 1) 0
turn_leap era yoe leap =
    ap (after_february (yoe + era * 400 + 1) 29) (this_year era yoe true leap)
    ∙ first_of_march era yoe

ends-year :
    (era yoe doy : ℕ)
    → doy ≤ 365
    → (is_leap (yoe + 1) ≡ false → doy < 365)
    → ends yoe doy ≡ true
    → next (from_march era yoe doy) ≡ from_march era (yoe + 1) 0
ends-year era yoe doy h plain e = elim (Bool-cases (is_leap (yoe + 1))) [
  | inl leap ↦
      let last : doy ≡ 365 = ground (arith, e, leap, h) in
      ap (λ (x : ℕ). next (from_march era yoe x)) last ∙ turn_leap era yoe leap
  | inr common ↦
      let before = plain common in
      let last : doy ≡ 364 = ground (arith, e, common, before) in
      ap (λ (x : ℕ). next (from_march era yoe x)) last ∙ turn_plain era yoe common
]

stays-year :
    (era yoe doy : ℕ)
    → ends yoe doy ≡ false
    → next (from_march era yoe doy) ≡ from_march era yoe (doy + 1)
stays-year era yoe doy e = elim (Bool-cases (ltb doy 364)) [
  | inl early ↦ plain-next era yoe doy (ground (arith, early))
  | inr late ↦ elim (Bool-cases (is_leap (yoe + 1))) [
    | inl leap ↦
        let last : doy ≡ 364 = ground (arith, e, leap, late) in
        ap (λ (x : ℕ). next (from_march era yoe x)) last
        ∙ leap_day era yoe leap
        ∙ ap (λ (x : ℕ). from_march era yoe (x + 1)) (sym last)
    | inr common ↦ absurd (ground (arith, e, common, late))
  ]
]

day_of_year_plain :
    (doe : ℕ) → doe < 146097 → is_leap (year_of_era doe + 1) ≡ false → day_of_year doe < 365
day_of_year_plain doe h plain = ground (arith, h, plain)

abbrev in_era : (era doe : ℕ) → Day
in_era era doe = from_march era (year_of_era doe) (day_of_year doe)

era-step : (era doe : ℕ) → doe < 146096 → in_era era (doe + 1) ≡ next (in_era era doe)
era-step era doe h = elim (Bool-cases (ends (year_of_era doe) (day_of_year doe))) [
  | inl last ↦
      let (y, d) = over doe h last in
      ap₂ (from_march era) y d
      ∙ sym (
          ends-year era (year_of_era doe) (day_of_year doe) (day_of_year_top doe (omega (arith, h)))
            (day_of_year_plain doe (omega (arith, h))) last)
  | inr more ↦
      let (y, d) = within doe h more in
      ap₂ (from_march era) y d ∙ sym (stays-year era (year_of_era doe) (day_of_year doe) more)
]

era-turn : (era : ℕ) → in_era (era + 1) 0 ≡ next (in_era era 146096)
era-turn era =
    let same : 0 + (era + 1) * 400 ≡ 400 + era * 400 = omega arith in
    ap (λ (y : ℕ). on_day y 3 1) same ∙ sym (turn_leap era 399 refl)

-- The day after the day that `n` days after 1970-01-01 is, is the day that `n + 1` days after it is, by
-- the months' lengths and the leap years of the calendar.
pub civil-suc : (n : ℕ) → civil (suc n) ≡ next (civil n)
unfolding civil
civil-suc n = elim (Bool-cases (ltb ((n + 719468) % 146097) 146096)) [
  | inl inside ↦
      let below : (n + 719468) % 146097 < 146096 = ground (arith, inside) in
      let era : (suc n + 719468) / 146097 ≡ (n + 719468) / 146097 = omega (arith, below) in
      let doe : (suc n + 719468) % 146097 ≡ (n + 719468) % 146097 + 1 = omega (arith, below) in
      ap₂ in_era era doe ∙ era-step ((n + 719468) / 146097) ((n + 719468) % 146097) below
  | inr last ↦
      let top : (n + 719468) % 146097 ≡ 146096 = ground (arith, last) in
      let era : (suc n + 719468) / 146097 ≡ (n + 719468) / 146097 + 1 = omega (arith, top) in
      let doe : (suc n + 719468) % 146097 ≡ 0 = omega (arith, top) in
      ap₂ in_era era doe
      ∙ era-turn ((n + 719468) / 146097)
      ∙ ap (λ (x : ℕ). next (in_era ((n + 719468) / 146097) x)) (sym top)
]

civil-0 : civil 0 ≡ on_day 1970 1 1
unfolding civil
civil-0 = refl
