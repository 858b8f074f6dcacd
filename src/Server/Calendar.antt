-- ===== src/Server/Calendar.antt =====
-- The date of a time stamp: `epoch_to_calendar` of crates/lumencast-server/src/ws_handler.rs.
pub mod Laws
mod Tests
use lumencast_rs.Prelude.{
  ℕ, zero, suc, ◌+◌, ◌-◌, ◌*◌, ◌/◌, ◌%◌, ◌^◌, ◌≤◌, ◌<◌, ◌≡◌, refl, sym, ap, subst, ◌∙◌, Bool, true,
  false, not, ◌&&◌, ◌||◌, leb, ltb, ◌==◌, if◌then◌else◌, Bool-cases, inl, inr, arith,
}

-- The fields of a time stamp; `year` has the bits of an `i32`.
pub record Calendar : Type 0 where
  pub year : ℕ
  pub month : ℕ
  pub day : ℕ
  pub hour : ℕ
  pub minute : ℕ
  pub second : ℕ

abbrev pub year_of_era : ℕ → ℕ
year_of_era doe = (doe - doe / 1460 + doe / 36524 - doe / 146096) / 365

abbrev pub march_month : ℕ → ℕ
march_month doy = (5 * doy + 2) / 153

abbrev pub day_of : ℕ → ℕ → ℕ
day_of doy mp = doy - (153 * mp + 2) / 5 + 1

abbrev pub month_of : ℕ → ℕ
month_of mp = if ltb mp 10 then mp + 3 else mp - 9

abbrev pub year_of : ℕ → ℕ → ℕ
year_of y m = if leb m 2 then y + 1 else y

-- `secs` is unsigned, so that `z` is never negative.
unfoldable pub epoch_to_calendar : ℕ → Calendar
epoch_to_calendar secs =
    let days = secs / 86400 in
    let rem = secs % 86400 in
    let z = days + 719468 in
    let era = z / 146097 in
    let doe = z - era * 146097 in
    let yoe = year_of_era doe in
    let y = yoe + era * 400 in
    let doy = doe - (365 * yoe + yoe / 4 - yoe / 100) in
    let mp = march_month doy in
    let m = month_of mp in
    record {
      year = year_of y m % 2 ^ 32;
      month = m;
      day = day_of doy mp;
      hour = rem / 3600;
      minute = rem % 3600 / 60;
      second = rem % 60;
    }
