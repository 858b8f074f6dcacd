-- ===== src/Server/Adapters.antt =====
-- crates/lumencast-server/src/adapters/mod.rs. A task is a step function over the events that its
-- `select!` hands over; instants and durations in nanoseconds. A call on a scene is one step: the
-- source takes the locks of store, number and replay buffer and the broadcast one after another, and
-- what calls of several holders do in between is not modelled.
pub mod Flatten
pub mod HttpPoll
pub mod WsSubscribe
pub mod Laws
pub mod Polls
pub mod Backoff
mod Tests
use lumencast_rs.Prelude.{
  ℕ, ◌+◌, Bool, true, false, List, [], ◌∷◌, Option, none, some, Text, is_empty, ltb, if◌then◌else◌,
}
use lumencast_rs.Protocol.Json.{Value}
use lumencast_rs.Server.Scene.{Scene, emit}
use lumencast_rs.Server.Scene.Mirror.{Op, perform}

-- `if !patches.is_empty() && let Err(e) = scene.emit(patches)`: an error is only logged.
unfoldable pub emit_patches : List (Text × Value) → Scene → Scene
emit_patches patches s = if is_empty patches then s else (emit patches s).0

-- `next += period; if next < now { next = now; }`
unfoldable pub next_tick : (period next now : ℕ) → ℕ
next_tick period next now = if ltb (next + period) now then now else next + period

-- The task's variables, with the scene behind the handle that it holds.
pub record Periodic : Type 0 where
  pub scene : Scene
  pub next : ℕ
  pub running : Bool

-- `none` is a cancel channel that has closed. `elsewhere` is a call of another holder of the scene.
pub data PeriodicEvent : Type 0 where
  ticks : (patches : List (Text × Value)) (now : ℕ) → PeriodicEvent
  cancels : Option Bool → PeriodicEvent
  elsewhere : Op → PeriodicEvent

-- `changed.is_err() || *cancel.borrow()`
abbrev pub is_stopped : Option Bool → Bool
is_stopped none = true
is_stopped (some stop) = stop

abbrev pub start_periodic : Scene → (period now : ℕ) → Periodic
start_periodic s period now = record { scene = s; next = now + period; running = true }

-- A round of the loop of `spawn_periodic`; another holder's call is no round.
unfoldable pub periodic_round : ℕ → PeriodicEvent → Periodic → Periodic
periodic_round period (ticks patches now) t = record t {
  scene = emit_patches patches t.scene;
  next = next_tick period t.next now;
}
periodic_round period (cancels changed) t =
    if is_stopped changed then record t { running = false } else t
periodic_round period (elsewhere o) t = record t { scene = perform o t.scene }

-- What happens to the scene when the task has ended.
unfoldable pub after_end : PeriodicEvent → Periodic → Periodic
after_end (elsewhere o) t = record t { scene = perform o t.scene }
after_end _ t = t

unfoldable pub periodic_step : ℕ → PeriodicEvent → Periodic → Periodic
periodic_step period e t = if t.running then periodic_round period e t else after_end e t

unfoldable pub spawn_periodic : ℕ → List PeriodicEvent → Periodic → Periodic
spawn_periodic period [] t = t
spawn_periodic period (e ∷ es) t = spawn_periodic period es (periodic_step period e t)
