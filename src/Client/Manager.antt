-- ===== src/Client/Manager.antt =====
-- crates/lumencast-client/src/manager.rs and events.rs: the task that owns the socket. What the
-- network and the commands do is given as lists, consumed from the front.
pub mod Tracking
pub mod Contiguous
pub mod Retry
mod Tests
use lumencast_rs.Prelude.{
  ℕ, ◌+◌, ◌%◌, ◌^◌, Bool, true, false, List, [], ◌∷◌, ◌++◌, Option, none, some, Text, leb, ltb,
  if◌then◌else◌, Result, ok, err,
}
use lumencast_rs.Protocol.Errors.{LumencastError}
use lumencast_rs.Protocol.Types.{Token, SceneId, SessionId}
use lumencast_rs.Protocol.Frames.{
  Snapshot, Delta, SceneChanged, ErrorFrame, ServerFrame, pong, seq_of,
}
use lumencast_rs.Protocol.Codec.{SerdeJson, Derived, decode_server_str}
use lumencast_rs.Protocol.Sequence.{
  SequenceTracker, new_tracker, Observation, accepted, duplicate, heartbeat, observe_seq,
  reset_tracker,
}
use lumencast_rs.Client.Connection.{ConnectError}
use lumencast_rs.Client.Backoff.{backoff_for_attempt}

pub data Status : Type 0 where
  disconnected connecting is_live : Status

pub data Event : Type 0 where
  status : Status → Event
  snapshot : Snapshot → Event
  delta : Delta → Event
  scene_changed : SceneChanged → Event
  error : ErrorFrame → Event

-- The tracker and the events that were sent, oldest first; `true` asks for a reconnection.
pub record Dispatch : Type 0 where
  pub tracker : SequenceTracker
  pub events : List Event
  pub gap : Bool

-- The second half of `handle_frame`.
abbrev pub dispatch : ServerFrame → SequenceTracker → List Event → Dispatch
dispatch (ServerFrame.snapshot s) t es = record {
  tracker = t;
  events = es ++ Event.snapshot s ∷ [];
  gap = false;
}
dispatch (ServerFrame.delta d) t es = record {
  tracker = t;
  events = es ++ Event.delta d ∷ [];
  gap = false;
}
dispatch (ServerFrame.scene_changed c) t es = record {
  tracker = reset_tracker t;
  events = es ++ Event.scene_changed c ∷ [];
  gap = false;
}
dispatch (ServerFrame.error e) t es = record {
  tracker = t;
  events = es ++ Event.error e ∷ [];
  gap = false;
}
dispatch (pong p) t es = record { tracker = t; events = es; gap = false }

-- The first half: what the tracker says of the frame's number.
abbrev pub on_observed :
    ServerFrame → List Event → SequenceTracker × Result LumencastError Observation → Dispatch
on_observed f es (t, ok accepted) = dispatch f t es
on_observed f es (t, ok heartbeat) = dispatch f t es
on_observed f es (t, ok duplicate) = record { tracker = t; events = es; gap = false }
on_observed f es (t, err e) = record { tracker = t; events = es; gap = true }

abbrev pub numbered : ServerFrame → SequenceTracker → List Event → Option ℕ → Dispatch
numbered f t es none = dispatch f t es
numbered f t es (some seq) = on_observed f es (observe_seq t seq)

unfoldable pub handle_frame : ServerFrame → SequenceTracker → List Event → Dispatch
handle_frame f t es = numbered f t es (seq_of f)

pub record ManagerState : Type 0 where
  pub token : Token
  pub scene : Option SceneId
  pub session : Option SessionId
  pub max_reconnect_attempts : Option ℕ

-- How a wait between two attempts ends.
pub data Wait : Type 0 where
  elapsed other_command disconnect_command commands_closed : Wait

-- One attempt: what `Connection::open` returns, and the wait that follows a failure.
pub record Attempt : Type 0 where
  pub opened : Result ConnectError Snapshot
  pub wait : Wait

pub data ConnectOutcome : Type 0 where
  connected : Snapshot → ConnectOutcome
  cancelled exhausted : ConnectOutcome
  -- The given attempts have run out.
  retrying : ConnectOutcome

abbrev gives_up : Option ℕ → ℕ → Bool
gives_up none attempt = false
gives_up (some max) attempt = leb max attempt

abbrev pub add_u32 : ℕ → ℕ → ℕ
add_u32 a b = (a + b) % (2 ^ 32)

abbrev pub announce : Event → List Event × ConnectOutcome → List Event × ConnectOutcome
announce e (es, o) = (e ∷ es, o)

abbrev pub is_cancelled : Wait → Bool
is_cancelled disconnect_command = true
is_cancelled commands_closed = true
is_cancelled elapsed = false
is_cancelled other_command = false

-- After a failed attempt: `rest` is the outcome of the attempts that follow.
abbrev after_failure :
    (ℕ → ℕ) → Option ℕ → ℕ → Wait → List Event × ConnectOutcome → List Event × ConnectOutcome
after_failure jitter max attempt wait rest =
    if gives_up max attempt
    then ([], exhausted)
    else if ltb 0 (backoff_for_attempt jitter (add_u32 attempt 1))
    then (if is_cancelled wait then ([], cancelled) else rest)
    else rest

abbrev pub after_open :
    (ℕ → ℕ)
    → Option ℕ
    → ℕ
    → Wait
    → List Event × ConnectOutcome
    → Result ConnectError Snapshot
    → List Event × ConnectOutcome
after_open jitter max attempt wait rest (ok s) =
    (status is_live ∷ Event.snapshot s ∷ [], connected s)
after_open jitter max attempt wait rest (err e) = after_failure jitter max attempt wait rest

-- `connect_with_retry` from the given attempt on: the events that it sends, and its outcome.
unfoldable pub connect_from : (ℕ → ℕ) → Option ℕ → ℕ → List Attempt → List Event × ConnectOutcome
connect_from jitter max attempt [] = (status connecting ∷ [], retrying)
connect_from jitter max attempt (a ∷ attempts) =
    let rest = connect_from jitter max (add_u32 attempt 1) attempts in
    announce (status connecting) (after_open jitter max attempt a.wait rest a.opened)

unfoldable pub connect_with_retry :
    (ℕ → ℕ) → ManagerState → List Attempt → List Event × ConnectOutcome
connect_with_retry jitter state attempts =
    connect_from jitter state.max_reconnect_attempts 1 attempts

-- What `select!` hands to `drive`.
pub data DriveEvent : Type 0 where
  disconnect : DriveEvent
  set_token : Token → Result ConnectError Snapshot → DriveEvent
  text : Text → DriveEvent
  ws_ping ws_pong ws_ended ws_failed : DriveEvent

pub record Driving : Type 0 where
  pub state : ManagerState
  pub tracker : SequenceTracker
  pub events : List Event
  pub replies : List (Option ConnectError)

pub data DriveOutcome : Type 0 where
  driving disconnecting reconnecting : Driving → DriveOutcome

-- The tracker that `drive` starts with.
unfoldable pub tracker_at : ℕ → SequenceTracker
tracker_at seq = (observe_seq new_tracker seq).0

unfoldable pub swap_token : Token → Result ConnectError Snapshot → Driving → Driving
swap_token token (err e) d = record d { replies = d.replies ++ some e ∷ [] }
swap_token token (ok s) d = record {
  state = record d.state { token = token };
  tracker = tracker_at s.seq;
  events = d.events ++ Event.snapshot s ∷ [];
  replies = d.replies ++ none ∷ [];
}

abbrev dispatched : Driving → Dispatch → DriveOutcome
dispatched d r =
    if r.gap
    then reconnecting (record d { tracker = r.tracker; events = r.events })
    else driving (record d { tracker = r.tracker; events = r.events })

abbrev pub on_decoded : Driving → Result LumencastError ServerFrame → DriveOutcome
on_decoded d (err e) = reconnecting d
on_decoded d (ok f) = dispatched d (handle_frame f d.tracker d.events)

module _ (json : SerdeJson) (server_frames : Derived ServerFrame) where
  -- One round of the loop of `drive`.
  unfoldable pub drive_step : DriveEvent → Driving → DriveOutcome
  drive_step disconnect d = disconnecting d
  drive_step (set_token token opened) d = driving (swap_token token opened d)
  drive_step (text t) d = on_decoded d (decode_server_str json server_frames t)
  drive_step ws_ping d = driving d
  drive_step ws_pong d = driving d
  drive_step ws_ended d = reconnecting d
  drive_step ws_failed d = reconnecting d

  unfoldable pub drive : List DriveEvent → DriveOutcome → DriveOutcome
  drive [] o = o
  drive (e ∷ es) (driving d) = drive es (drive_step e d)
  drive (e ∷ es) (disconnecting d) = disconnecting d
  drive (e ∷ es) (reconnecting d) = reconnecting d

  -- `drive` starts with the snapshot that the connection was opened with.
  abbrev start_driving : ManagerState → Snapshot → Driving
  start_driving state s = record {
    state = state;
    tracker = tracker_at s.seq;
    events = [];
    replies = [];
  }

  abbrev driven : DriveOutcome → Driving
  driven (driving d) = d
  driven (disconnecting d) = d
  driven (reconnecting d) = d

  -- The end of a round of the outer loop: `rest` is what the rounds that follow send.
  abbrev after_drive : DriveOutcome → List Event → List Event
  after_drive (driving d) rest = d.events
  after_drive (disconnecting d) rest = d.events ++ status disconnected ∷ []
  after_drive (reconnecting d) rest = d.events ++ rest

  abbrev drive_all : ManagerState → List DriveEvent → ConnectOutcome → DriveOutcome
  drive_all state es (connected s) = drive es (driving (start_driving state s))
  drive_all state es _ =
      disconnecting (record { state = state; tracker = new_tracker; events = []; replies = [] })

  abbrev after_connect : ConnectOutcome → DriveOutcome → List Event → List Event
  after_connect (connected s) o rest = after_drive o rest
  after_connect cancelled o rest = status disconnected ∷ []
  after_connect exhausted o rest = status disconnected ∷ status disconnected ∷ []
  after_connect retrying o rest = []

  -- `run`, over the rounds of its outer loop: the events that it sends.
  unfoldable pub run : (ℕ → ℕ) → ManagerState → List (List Attempt × List DriveEvent) → List Event
  unfolding connect_with_retry
  run jitter state [] = []
  run jitter state ((attempts, es) ∷ rounds) =
      let (opening, o) = connect_with_retry jitter state attempts in
      let d = drive_all state es o in
      let rest = run jitter (driven d).state rounds in opening ++ after_connect o d rest
