-- ===== src/Server/Calendar/Laws.antt =====
-- A time stamp against the Gregorian calendar (`epoch_to_calendar` of ws_handler.rs).
use lumencast_rs.Prelude.{
  ℕ, zero, suc, ◌+◌, ◌-◌, ◌*◌, ◌/◌, ◌%◌, ◌^◌, ◌≤◌, ◌<◌, ◌≡◌, refl, ap, subst, ◌∙◌, Bool, not, ◌&&◌,
  ◌||◌, ◌==◌, if◌then◌else◌, arith,
}
use lumencast_rs.Server.Calendar.{
  Calendar, year_of_era, march_month, day_of, month_of, year_of, epoch_to_calendar,
}

-- The Gregorian calendar.
unfoldable pub is_leap : ℕ → Bool
is_leap y = (y % 4 == 0) && (not (y % 100 == 0) || (y % 400 == 0))

abbrev pub leap_day : ℕ → ℕ
leap_day y = if is_leap y then 1 else 0

-- The days from the start of the year 0.
unfoldable pub days_before_year : ℕ → ℕ
days_before_year zero = 0
days_before_year (suc y) = days_before_year y + (365 + leap_day y)

-- The days before the first of March of a year, from that of the year 0.
abbrev march_days : ℕ → ℕ
march_days y = 365 * y + y / 4 - y / 100 + y / 400

march_days-suc : (y : ℕ) → march_days (suc y) ≡ march_days y + (365 + leap_day (suc y))
unfolding is_leap
march_days-suc y = ground arith

march_days-before : (y : ℕ) → days_before_year y + leap_day y ≡ march_days y + 1
unfolding days_before_year is_leap
march_days-before zero = refl
march_days-before (suc y) = omega (arith, march_days-before y, march_days-suc y)

-- The days of a year before a month.
abbrev pub days_before_month : ℕ → ℕ → ℕ
days_before_month y m =
    if m == 1
    then 0
    else if m == 2
    then 31
    else if m == 3
    then 59 + leap_day y
    else if m == 4
    then 90 + leap_day y
    else if m == 5
    then 120 + leap_day y
    else if m == 6
    then 151 + leap_day y
    else if m == 7
    then 181 + leap_day y
    else if m == 8
    then 212 + leap_day y
    else if m == 9
    then 243 + leap_day y
    else if m == 10
    then 273 + leap_day y
    else if m == 11
    then 304 + leap_day y
    else 334 + leap_day y

abbrev pub days_in_month : ℕ → ℕ → ℕ
days_in_month y m =
    if m == 2
    then 28 + leap_day y
    else if (m == 4) || (m == 6) || (m == 9) || (m == 11)
    then 30
    else 31

-- A year of an era of 400 years, and a day of that year, from March on.
module _ (n : ℕ) (h : n < 146097) where
  year_of_era-bound : year_of_era n < 400
  year_of_era-bound = omega arith

  year_of_era-start : march_days (year_of_era n) ≤ n
  year_of_era-start = omega arith

  year_of_era-end : n < march_days (suc (year_of_era n))
  year_of_era-end = omega arith

march_days-era : (e y : ℕ) → march_days (y + e * 400) ≡ e * 146097 + march_days y
march_days-era e y = omega arith

-- A date of the Gregorian calendar, and the days before it from the start of the year 0.
abbrev pub IsDate : ℕ → ℕ → ℕ → Type 0
IsDate y m d = (1 ≤ m) × (m ≤ 12) × (1 ≤ d) × (d ≤ days_in_month y m)

abbrev pub days_before : ℕ → ℕ → ℕ → ℕ
days_before y m d = days_before_year y + days_before_month y m + (d - 1)

month-IsDate :
    (y doy mp : ℕ)
    → doy < 365 + leap_day (suc y)
    → mp < 12
    → 153 * mp ≤ 5 * doy + 2
    → 5 * doy + 2 < 153 * mp + 153
    → let m = month_of mp in
      let d = day_of doy mp in
      let year = year_of y m in IsDate year m d × (days_before year m d ≡ march_days y + 60 + doy)
unfolding days_before_year
month-IsDate y doy mp short h lo hi = let b = march_days-before y in ground arith

-- A year of an era has as many days as its place in the era says.
leap_day-era : (e y : ℕ) → leap_day (suc (y + e * 400)) ≡ leap_day (suc y)
unfolding is_leap
leap_day-era e y = ground arith

module _ (e n : ℕ) (h : n < 146097) where
  abbrev march_year : ℕ
  march_year = year_of_era n + e * 400

  abbrev march_day : ℕ
  march_day = n - (365 * year_of_era n + year_of_era n / 4 - year_of_era n / 100)

  march_day-short : march_day < 365 + leap_day (suc march_year)
  march_day-short = omega (
    arith,
    leap_day-era e (year_of_era n),
    year_of_era-bound n h,
    year_of_era-start n h,
    year_of_era-end n h,
    march_days-suc (year_of_era n),
  )

  -- The date that the code finds for a day of an era.
  era-IsDate :
      let m = month_of (march_month march_day) in
      let d = day_of march_day (march_month march_day) in
      let year = year_of march_year m in
      IsDate year m d × (days_before year m d ≡ e * 146097 + n + 60)
  era-IsDate =
      let small : march_day < 366 = ground (arith, march_day-short) in
      let (is_date, at) =
        month-IsDate march_year march_day (march_month march_day) march_day-short (omega arith)
          (omega arith) (omega arith) in
      (
        is_date,
        at
            ∙ omega (
              arith,
              march_days-era e (year_of_era n),
              year_of_era-bound n h,
              year_of_era-start n h,
            ),
      )

year_of-bound : (y m : ℕ) → year_of y m ≤ y + 1
year_of-bound y m = ground arith

-- A time of the Gregorian calendar, and its seconds from the start of 1970.
abbrev pub IsTime : Calendar → Type 0
IsTime c = IsDate c.year c.month c.day × (c.hour < 24) × (c.minute < 60) × (c.second < 60)

abbrev pub seconds_of : Calendar → ℕ
seconds_of c =
    (days_before c.year c.month c.day - 719528) * 86400 + (c.hour * 3600 + c.minute * 60 + c.second)

-- The clock's seconds become a time of the Gregorian calendar, and that time is the same number of
-- seconds after the start of 1970, as counted by the leap years and the lengths of the months. The
-- clock shows fewer than 2^55 seconds, with which no year leaves an `i32`.
pub epoch_to_calendar-IsTime :
    (secs : ℕ)
    → secs < 2 ^ 55
    → IsTime (epoch_to_calendar secs) × (seconds_of (epoch_to_calendar secs) ≡ secs)
unfolding epoch_to_calendar
epoch_to_calendar-IsTime secs h =
    let z = secs / 86400 + 719468 in
    let e = z / 146097 in
    let n = z - e * 146097 in
    let n_h : n < 146097 = omega arith in
    let mp = march_month (march_day e n n_h) in
    let y = year_of (march_year e n n_h) (month_of mp) in
    let (is_date, at) = era-IsDate e n n_h in
    let wrap : y ≡ y % 2 ^ 32 =
      omega (arith, h, year_of_era-bound n n_h, year_of-bound (march_year e n n_h) (month_of mp)) in
    let (is_date', at') =
      subst
        (λ year.
          IsDate year (month_of mp) (day_of (march_day e n n_h) mp)
          × (days_before year (month_of mp) (day_of (march_day e n n_h) mp) ≡ e * 146097 + n + 60))
        wrap (is_date, at) in
    (
      (is_date', omega arith, omega arith, omega arith),
      ap
            (λ days.
              (days - 719528) * 86400
              + (secs % 86400 / 3600 * 3600 + secs % 86400 % 3600 / 60 * 60 + secs % 86400 % 60))
            at'
          ∙ omega arith,
    )
