-- ===== src/Server/Connection.antt =====
-- `Connection` of crates/lumencast-server/src/ws_handler.rs: what is sent, and how an `input` and
-- any other text frame is handled. A send that fails ends the handler at that point; here every
-- send succeeds, and a run that ends early is a prefix.
pub mod Session
pub mod Inputs
pub mod Confined
pub mod Handshake
pub mod Resume
pub mod Resolve
mod Tests
use lumencast_rs.Prelude.{
  ℕ, Bool, true, false, not, List, [], ◌∷◌, ◌++◌, Option, none, some, Text, codes, is_empty, map,
  head?, if◌then◌else◌, Result, ok, err, ◌>>=◌, ◌>>◌,
}
use lumencast_rs.Protocol.Json.{Number, Value}
use lumencast_rs.Protocol.Errors.{
  ErrorCode, LumencastError, Message, plain, filled, within, measured, opaque, error_message,
}
use lumencast_rs.Protocol.LeafPath.{LeafPath}
use lumencast_rs.Protocol.Types.{Patch, Cause, is_value_legal}
use lumencast_rs.Protocol.Frames.{
  Delta, ErrorFrame, ServerFrame, ClientFrame, Input, Ping, subscribe, input, ping, unsubscribe,
}
use lumencast_rs.Protocol.Codec.{SerdeJson, Derived, decode_client_str}
use lumencast_rs.Server.Role.{can_input, can_write, role_str}
use lumencast_rs.Server.Auth.{Identity, Authenticator}
use lumencast_rs.Server.Rate.{RateBucket, allow}
use lumencast_rs.Protocol.Bundle.{bundle_error_message}
use lumencast_rs.Server.Scene.{
  Scene, ServerError, protocol, bundle_error, unknown_scene, duplicate_scene, builder_missing,
  InputRejection, pair_of, check_input_patch, emit_with_cause, current_seq,
}
use lumencast_rs.Server.Registry.{ServerInner, deref, scene_at, put}

-- The code that the handler calls and that is not of this repository: JSON, the conversion of
-- numbers to doubles, and the deployment's authenticator.
pub record Env : Type 0 where
  pub json : SerdeJson
  pub client_frames : Derived ClientFrame
  pub to_f64 : Number → Option ℕ
  pub auth : Authenticator

-- What a step reads of the clock: the monotonic instant, and the text of the wall clock.
pub record Clock : Type 0 where
  pub now : ℕ
  pub iso : Text

-- What is written to the socket.
pub data Sent : Type 0 where
  frame : ServerFrame → Sent
  ws_pong : Text → Sent
  close_normal : Sent

pub record Connection : Type 0 where
  pub current_scene : Option ℕ
  pub rate : RateBucket
  pub out : List Sent

unfoldable pub send : ServerFrame → Connection → Connection
send f c = record c { out = c.out ++ frame f ∷ [] }

abbrev pub seq_or_zero : Option Scene → ℕ
seq_or_zero none = 0
seq_or_zero (some sc) = current_seq sc

-- The frame that `send_error_with_path` writes.
unfoldable pub error_frame :
    ServerInner → Connection → Clock → ErrorCode → Message → Bool → Option Text → ErrorFrame
error_frame s c t code message recoverable path = record {
  seq = seq_or_zero (scene_at s c.current_scene);
  code = code;
  message = message;
  recoverable = recoverable;
  retry_after_ms = none;
  path = path;
  ts = some t.iso;
}

unfoldable pub send_error_with_path :
    ServerInner → Clock → ErrorCode → Message → Bool → Option Text → Connection → Connection
unfolding send error_frame
send_error_with_path s t code message recoverable path c =
    send (ServerFrame.error (error_frame s c t code message recoverable path)) c

abbrev pub send_error : ServerInner → Clock → ErrorCode → Message → Bool → Connection → Connection
send_error s t code message recoverable c = send_error_with_path s t code message recoverable none c

unfoldable pub send_delta : ℕ → List Patch → Option Cause → Connection → Connection
unfolding send
send_delta seq patches cause c =
    send (ServerFrame.delta (record { seq = seq; patches = patches; ts = none; cause = cause })) c

unfoldable pub check_value : Patch → Result InputRejection (Unit {0})
check_value p =
    if not (is_value_legal p)
    then err (record {
      code = ErrorCode.invalid_value;
      message = filled "path {} value MUST NOT be a JSON object" (p.path.text ∷ []);
      path = p.path.text;
    })
    else ok tt

-- One round of the loop of `handle_input`, in the order role, declared inputs, value.
unfoldable pub check_patch : Env → Scene → Identity → Patch → Result InputRejection (Unit {0})
check_patch env sc identity p =
    if not (can_write identity.role p.path identity.paths)
    then err (record {
      code = ErrorCode.write_forbidden;
      message =
          filled "path {} not writable by role {}" (p.path.text ∷ role_str identity.role ∷ []);
      path = p.path.text;
    })
    else (check_input_patch env.to_f64 sc p >> check_value p)

unfoldable pub check_patches :
    Env → Scene → Identity → List Patch → Result InputRejection (Unit {0})
check_patches env sc identity [] = ok tt
check_patches env sc identity (p ∷ ps) =
    check_patch env sc identity p >> check_patches env sc identity ps

-- The provenance of an operator's delta.
abbrev pub subject_of : Identity → Text
subject_of identity = if is_empty identity.subject then role_str identity.role else identity.subject

unfoldable pub cause_of : Identity → Option Text → Option Cause
cause_of identity none = none
cause_of identity (some msg_id) = some (record {
  source = role_str identity.role ++ (codes ":" ++ subject_of identity);
  input_id = some msg_id;
})

-- `Display` of a server error.
unfoldable pub server_error_message : ServerError → Message
server_error_message (protocol e) = within "protocol: {0}" (error_message e)
server_error_message (bundle_error e) = within "bundle: {0}" (bundle_error_message e)
server_error_message (unknown_scene id) = filled "unknown scene: {0}" (id ∷ [])
server_error_message (duplicate_scene id) = filled "scene already exists: {0}" (id ∷ [])
server_error_message (ServerError.invalid_value m) = within "invalid value: {0}" (plain m)
server_error_message (builder_missing m) = within "server builder is missing: {0}" (plain m)

-- What follows the emission of `handle_input`.
abbrev pub after_emission :
    Clock
    → ℕ
    → ServerInner
    → Connection
    → Scene × Result ServerError (Unit {0})
    → ServerInner × Connection
after_emission t h s c (sc, ok _) = (put s h sc, c)
after_emission t h s c (sc, err e) =
    (put s h sc, send_error (put s h sc) t ErrorCode.internal (server_error_message e) true c)

-- The end of `handle_input`, once all patches are legal.
unfoldable pub apply_input :
    Clock → ℕ → Identity → Input → Scene → ServerInner → Connection → ServerInner × Connection
apply_input t h identity i sc s c =
    after_emission t h s c
      (emit_with_cause (map pair_of i.patches) (cause_of identity i.client_msg_id) sc)

abbrev pub first_path : List Patch → Option Text
first_path [] = none
first_path (p ∷ ps) = some p.path.text

-- The validation of all patches, and the emission.
abbrev pub judged :
    Clock
    → ℕ
    → Identity
    → Input
    → Scene
    → ServerInner
    → Connection
    → Result InputRejection (Unit {0})
    → ServerInner × Connection
judged t h identity i sc s c (err r) =
    (s, send_error_with_path s t r.code r.message true (some r.path) c)
judged t h identity i sc s c (ok _) = apply_input t h identity i sc s c

unfoldable pub judge_input :
    Env → Clock → ℕ → Identity → Input → Scene → ServerInner → Connection → ServerInner × Connection
judge_input env t h identity i sc s c =
    judged t h identity i sc s c (check_patches env sc identity i.patches)

unfoldable pub handle_input :
    Env → Clock → ℕ → Identity → Input → Scene → ServerInner → Connection → ServerInner × Connection
handle_input env t h identity i sc s c =
    if not (can_input identity.role)
    then (
      s,
      send_error_with_path s t ErrorCode.write_forbidden (plain "role cannot send input") true
          (first_path i.patches) c,
    )
    else if is_empty i.patches
    then (
      s,
      send_error s t ErrorCode.invalid_value (plain "input patches MUST NOT be empty") true c,
    )
    else let (rate', allowed) = allow t.now c.rate in
      let c' = record c { rate = rate' } in
      if not allowed
      then (s, send_error s t ErrorCode.rate_limit (plain "input rate limit exceeded") true c')
      else judge_input env t h identity i sc s c'

pub data Action : Type 0 where
  continue stop : Action

pub record Turn : Type 0 where
  pub server : ServerInner
  pub conn : Connection
  pub action : Action

-- A frame that `decode_client_str` refuses.
unfoldable pub refuse_frame : Clock → LumencastError → ServerInner → Connection → Turn
refuse_frame t (LumencastError.invalid_value code message path) s c = record {
  server = s;
  conn = send_error_with_path s t ErrorCode.invalid_value message true path c;
  action = continue;
}
refuse_frame t (LumencastError.json e) s c = record {
  server = s;
  conn = send_error s t ErrorCode.invalid_value (within "malformed JSON: {e}" (opaque e)) false c;
  action = stop;
}
refuse_frame t other s c = record {
  server = s;
  conn = send_error s t ErrorCode.internal (error_message other) false c;
  action = stop;
}

abbrev pub input_turn : ServerInner × Connection → Turn
input_turn r = record { server = r.0; conn = r.1; action = continue }

unfoldable pub handle_frame :
    Env → Clock → ℕ → Identity → ClientFrame → Scene → ServerInner → Connection → Turn
handle_frame env t h identity (ping p) sc s c = record {
  server = s;
  conn = send (ServerFrame.pong (record { nonce = p.nonce })) c;
  action = continue;
}
handle_frame env t h identity (subscribe f) sc s c = record {
  server = s;
  conn = send_error s t ErrorCode.internal (plain "duplicate subscribe") false c;
  action = stop;
}
handle_frame env t h identity (input i) sc s c = input_turn (handle_input env t h identity i sc s c)
handle_frame env t h identity unsubscribe sc s c = record { server = s; conn = c; action = stop }

abbrev pub on_decoded :
    Env
    → Clock
    → ℕ
    → Identity
    → Scene
    → ServerInner
    → Connection
    → Result LumencastError ClientFrame
    → Turn
on_decoded env t h identity sc s c (err e) = refuse_frame t e s c
on_decoded env t h identity sc s c (ok f) = handle_frame env t h identity f sc s c

unfoldable pub handle_text_frame :
    Env → Clock → ℕ → Identity → Text → Scene → ServerInner → Connection → Turn
handle_text_frame env t h identity text sc s c =
    on_decoded env t h identity sc s c (decode_client_str env.json env.client_frames text)
