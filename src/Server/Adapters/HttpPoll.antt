-- ===== src/Server/Adapters/HttpPoll.antt =====
-- crates/lumencast-server/src/adapters/http_poll.rs. What a request yields is an event. The loop is
-- that of `spawn_periodic`, with `poll_once` for its function.
use lumencast_rs.Prelude.{
  ℕ, Bool, ◌&&◌, List, [], Option, Text, map, ltb, leb, if◌then◌else◌, Result, ok, err,
}
use lumencast_rs.Protocol.Json.{Value}
use lumencast_rs.Protocol.Codec.{SerdeJson}
use lumencast_rs.Server.Scene.Mirror.{Op}
use lumencast_rs.Server.Adapters.{
  Periodic, PeriodicEvent, ticks, cancels, elsewhere, spawn_periodic,
}
use lumencast_rs.Server.Adapters.Flatten.{flatten_into_pairs}

pub record HttpPollConfig : Type 0 where
  pub url : Text
  pub interval : ℕ
  pub writes_to : Text
  pub headers : List (Text × Text)
  pub request_timeout : Option ℕ

-- A request that fails, or a response with its status and body.
pub data Reply : Type 0 where
  request_failed : Reply
  response : (status : ℕ) (body : Text) → Reply

-- `StatusCode::is_success`
abbrev pub is_success : ℕ → Bool
is_success status = leb 200 status && ltb status 300

module _ (sj : SerdeJson) (config : HttpPollConfig) where
  abbrev pub flatten_body : Result Text Value → List (Text × Value)
  flatten_body (err e) = []
  flatten_body (ok body) = flatten_into_pairs config.writes_to body

  unfoldable pub poll_once : Reply → List (Text × Value)
  poll_once request_failed = []
  poll_once (response status body) =
      if is_success status then flatten_body (sj.from_slice body) else []

  pub data PollEvent : Type 0 where
    polls : Reply → (now : ℕ) → PollEvent
    stops : Option Bool → PollEvent
    others : Op → PollEvent

  unfoldable pub round_of : PollEvent → PeriodicEvent
  round_of (polls reply now) = ticks (poll_once reply) now
  round_of (stops changed) = cancels changed
  round_of (others o) = elsewhere o

  -- `spawn`: an adapter whose client could not be built does nothing.
  unfoldable spawn_poll : (built : Bool) → List PollEvent → Periodic → Periodic
  spawn_poll built es t =
      spawn_periodic config.interval (map round_of es) (record t { running = built })
