-- ===== src/Server/Rate.antt =====
-- `RateBucket` of crates/lumencast-server/src/ws_handler.rs. Instants are nanoseconds of a
-- monotonic clock.
pub mod Laws
mod Tests
use lumencast_rs.Prelude.{ℕ, ◌+◌, ◌-◌, Bool, true, false, leb, ◌==◌, if◌then◌else◌}

abbrev pub second : ℕ
second = 1_000_000_000

pub record RateBucket : Type 0 where
  pub limit : ℕ
  pub used : ℕ
  pub window_start : ℕ

abbrev pub new_bucket : ℕ → ℕ → RateBucket
new_bucket limit now = record { limit = limit; used = 0; window_start = now }

-- A new window, if the old one is over.
abbrev pub roll : ℕ → RateBucket → RateBucket
roll now r =
    if leb second (now - r.window_start) then record r { window_start = now; used = 0 } else r

abbrev pub admit : RateBucket → RateBucket × Bool
admit r = if leb r.limit r.used then (r, false) else (record r { used = r.used + 1 }, true)

unfoldable pub allow : ℕ → RateBucket → RateBucket × Bool
allow now r = if r.limit == 0 then (r, true) else admit (roll now r)
