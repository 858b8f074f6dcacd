-- ===== src/Server/Adapters/WsSubscribe.antt =====
-- crates/lumencast-server/src/adapters/websocket_subscribe.rs. What the network yields, and what other
-- holders of the scene do meanwhile, are events; durations in nanoseconds.
use lumencast_rs.Prelude.{
  ℕ, ◌*◌, ◌-◌, ◌^◌, Bool, true, false, ◌||◌, List, [], ◌∷◌, ◌++◌, Option, none, some, Text,
  is_empty, leb, min, if◌then◌else◌, Result, ok, err,
}
use lumencast_rs.Protocol.Json.{Value}
use lumencast_rs.Protocol.Codec.{SerdeJson}
use lumencast_rs.Server.Scene.{Scene, ServerError, emit}
use lumencast_rs.Server.Scene.Mirror.{Op, perform}
use lumencast_rs.Server.Adapters.{is_stopped}
use lumencast_rs.Server.Adapters.Flatten.{flatten_into_pairs}

pub record WsSubscribeConfig : Type 0 where
  pub url : Text
  pub writes_to : Text
  pub backoff_initial : ℕ
  pub backoff_max : ℕ

abbrev pub default_subscribe : WsSubscribeConfig
default_subscribe = record {
  url = [];
  writes_to = [];
  backoff_initial = 250000000;
  backoff_max = 30000000000;
}

pub data Outcome : Type 0 where
  cancelled disconnected connected : Outcome

pub data Message : Type 0 where
  text : Text → Message
  binary frame ping pong close : Message

-- What `select!` hands over; the end of a list of these is the end of the stream.
pub data ReadEvent : Type 0 where
  cancel_changed : Option Bool → ReadEvent
  message : Message → ReadEvent
  read_error : ReadEvent
  meanwhile : Op → ReadEvent

abbrev pub ended : Bool → Outcome
ended produced = if produced then connected else disconnected

-- `Duration::MAX`: 64 bits of seconds and the nanoseconds of one more.
abbrev pub duration_max : ℕ
duration_max = 2 ^ 64 * 1000000000 - 1

-- `backoff * 2`, which panics past the largest duration.
abbrev pub double_duration : ℕ → Option ℕ
double_duration d = if leb (2 * d) duration_max then some (2 * d) else none

module _ (sj : SerdeJson) (config : WsSubscribeConfig) where
  abbrev pub emitted : Scene × Result ServerError (Unit {0}) → Scene × Bool
  emitted (s, ok done) = (s, true)
  emitted (s, err e) = (s, false)

  abbrev apply_value : Scene → Result Text Value → Scene × Bool
  apply_value s (err e) = (s, false)
  apply_value s (ok value) =
      if is_empty (flatten_into_pairs config.writes_to value)
      then (s, false)
      else emitted (emit (flatten_into_pairs config.writes_to value) s)

  unfoldable pub apply_payload : Text → Scene → Scene × Bool
  apply_payload payload s = apply_value s (sj.from_slice payload)

  -- The loop of `run_once`, with `produced_anything`.
  unfoldable pub read_loop : Bool → List ReadEvent → Scene → Scene × Outcome
  read_loop produced [] s = (s, ended produced)
  read_loop produced (cancel_changed changed ∷ es) s =
      let rest = read_loop produced es s in if is_stopped changed then (s, cancelled) else rest
  read_loop produced (message (text payload) ∷ es) s =
      let (s', applied) = apply_payload payload s in read_loop (produced || applied) es s'
  read_loop produced (message close ∷ es) s = (s, ended produced)
  read_loop produced (message _ ∷ es) s = read_loop produced es s
  read_loop produced (read_error ∷ es) s = (s, ended produced)
  read_loop produced (meanwhile o ∷ es) s = read_loop produced es (perform o s)

  unfoldable pub run_once : (connects : Bool) → List ReadEvent → Scene → Scene × Outcome
  run_once connects es s = if connects then read_loop false es s else (s, disconnected)

  -- How a wait ends: after its time, or early, by a change of the cancel flag to a value.
  pub data Wait : Type 0 where
    slept : Wait
    woken : Bool → Wait

  -- A round of the loop of `spawn`.
  pub record Attempt : Type 0 where
    pub cancelled_before : Bool
    pub connects : Bool
    pub events : List ReadEvent
    pub wait : Wait

  -- The task's variables, and the waits that it has begun.
  pub record Feed : Type 0 where
    pub scene : Scene
    pub backoff : ℕ
    pub running : Bool
    pub panicked : Bool
    pub waits : List ℕ

  abbrev pub start_feed : Scene → Feed
  start_feed s = record {
    scene = s;
    backoff = config.backoff_initial;
    running = true;
    panicked = false;
    waits = [];
  }

  abbrev pub with_doubled : Feed → Option ℕ → Feed
  with_doubled f none = record f { running = false; panicked = true }
  with_doubled f (some d) = record f { backoff = min d config.backoff_max }

  abbrev pub after_wait : Wait → Feed → Feed
  after_wait (woken true) f = record f { running = false }
  after_wait _ f = with_doubled f (double_duration f.backoff)

  unfoldable pub after_run : Wait → Feed → Scene × Outcome → Feed
  after_run w f (s, cancelled) = record f { scene = s; running = false }
  after_run w f (s, disconnected) =
      after_wait w (record f { scene = s; waits = f.waits ++ f.backoff ∷ [] })
  after_run w f (s, connected) = record f { scene = s; backoff = config.backoff_initial }

  unfoldable pub feed_round : Attempt → Feed → Feed
  feed_round a f =
      if a.cancelled_before
      then record f { running = false }
      else after_run a.wait f (run_once a.connects a.events f.scene)

  unfoldable pub spawn_feed : List Attempt → Feed → Feed
  spawn_feed [] f = f
  spawn_feed (a ∷ as_) f =
      let rest = spawn_feed as_ (feed_round a f) in if f.running then rest else f
