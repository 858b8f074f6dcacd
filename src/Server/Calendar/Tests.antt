-- ===== src/Server/Calendar/Tests.antt =====
-- Time stamps at work (ws_handler.rs).
use lumencast_rs.Prelude.{◌≡◌, refl, arith}
use lumencast_rs.Server.Calendar.{epoch_to_calendar}
use lumencast_rs.Server.Calendar.Laws.{IsTime, seconds_of, epoch_to_calendar-IsTime}

-- The leap day of 2024.
leap-epoch_to_calendar :
    epoch_to_calendar 1709210096
    ≡ record { year = 2024; month = 2; day = 29; hour = 12; minute = 34; second = 56 }
unfolding epoch_to_calendar
leap-epoch_to_calendar = refl

epoch_to_calendar-IsTime_example :
    IsTime (epoch_to_calendar 1709210096) × (seconds_of (epoch_to_calendar 1709210096) ≡ 1709210096)
epoch_to_calendar-IsTime_example = epoch_to_calendar-IsTime 1709210096 (omega arith)
