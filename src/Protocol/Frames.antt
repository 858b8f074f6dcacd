-- ===== src/Protocol/Frames.antt =====
-- crates/lumencast-protocol/src/frames.rs and envelope.rs
use lumencast_rs.Prelude.{ℕ, Bool, List, Option, none, some, Text, codes, Map}
use lumencast_rs.Protocol.Json.{Value}
use lumencast_rs.Protocol.Errors.{ErrorCode, Message}
use lumencast_rs.Protocol.Types.{
  Token, SceneId, SceneVersion, SessionId, Patch, Cause, SceneTransition,
}

abbrev pub protocol_version : ℕ
protocol_version = 1

abbrev pub websocket_subprotocol : Text
websocket_subprotocol = codes "lsdp.v1"

abbrev pub websocket_subprotocol_v1_1 : Text
websocket_subprotocol_v1_1 = codes "lsdp.v1.1"

abbrev pub State : Type 0
State = Map Value

pub record Snapshot : Type 0 where
  pub seq : ℕ
  pub scene_id : SceneId
  pub scene_version : SceneVersion
  pub state : State
  pub ts : Option Text

pub record Delta : Type 0 where
  pub seq : ℕ
  pub patches : List Patch
  pub ts : Option Text
  pub cause : Option Cause

pub record SceneChanged : Type 0 where
  pub seq : ℕ
  pub scene_id : SceneId
  pub scene_version : SceneVersion
  pub ts : Option Text
  pub from_scene_id : Option SceneId
  pub transition : Option SceneTransition

pub record ErrorFrame : Type 0 where
  pub seq : ℕ
  pub code : ErrorCode
  pub message : Message
  pub recoverable : Bool
  pub retry_after_ms : Option ℕ
  pub path : Option Text
  pub ts : Option Text

pub record Pong : Type 0 where
  pub nonce : Option Text

pub data ServerFrame : Type 0 where
  snapshot : Snapshot → ServerFrame
  delta : Delta → ServerFrame
  scene_changed : SceneChanged → ServerFrame
  error : ErrorFrame → ServerFrame
  pong : Pong → ServerFrame

-- `ServerFrame::seq` and `ServerFrame::type_str`.
abbrev pub seq_of : ServerFrame → Option ℕ
seq_of (snapshot f) = some f.seq
seq_of (delta f) = some f.seq
seq_of (scene_changed f) = some f.seq
seq_of (error f) = some f.seq
seq_of (pong f) = none

unfoldable pub server_type_str : ServerFrame → Text
server_type_str (snapshot f) = codes "snapshot"
server_type_str (delta f) = codes "delta"
server_type_str (scene_changed f) = codes "scene_changed"
server_type_str (error f) = codes "error"
server_type_str (pong f) = codes "pong"

pub record Subscribe : Type 0 where
  pub token : Token
  pub scene : Option SceneId
  pub session : Option SessionId
  pub since_sequence : Option ℕ

pub record Input : Type 0 where
  pub patches : List Patch
  pub client_msg_id : Option Text

pub record Ping : Type 0 where
  pub nonce : Option Text

pub data ClientFrame : Type 0 where
  subscribe : Subscribe → ClientFrame
  input : Input → ClientFrame
  ping : Ping → ClientFrame
  unsubscribe : ClientFrame

unfoldable pub client_type_str : ClientFrame → Text
client_type_str (subscribe f) = codes "subscribe"
client_type_str (input f) = codes "input"
client_type_str (ping f) = codes "ping"
client_type_str unsubscribe = codes "unsubscribe"
