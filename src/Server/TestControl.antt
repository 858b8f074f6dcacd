-- ===== src/Server/TestControl.antt =====
-- crates/lumencast-server/src/test_control.rs. The handlers are functions of the server's state and the
-- tokens; the routes and the derived conversions of the bodies are axum's and serde's.
pub mod Specs
pub mod Laws
pub mod Tokens
pub mod Emission
mod Tests
use lumencast_rs.Prelude.{
  ℕ, Bool, true, false, not, ◌&&◌, List, [], ◌∷◌, ◌++◌, String, Option, none, some, Text, codes,
  text_eq, Map, head?, is_empty, is_some, strip_prefix, ltb, if◌then◌else◌, Result, ok, err, ◌^◌,
}
use lumencast_rs.Protocol.Json.{
  Number, Value, number, string, array, object, Items, nil, cons, Members, end, member, get, as_str,
  as_u64, as_array, as_object,
}
use lumencast_rs.Protocol.Errors.{ErrorCode, Message, plain, filled, within, opaque}
use lumencast_rs.Protocol.LeafPath.{LeafPath}
use lumencast_rs.Protocol.Types.{SceneId, SceneVersion}
use lumencast_rs.Protocol.Bundle.{BundleError, bundle_error_message}
use lumencast_rs.Protocol.Layout.{check_zab_capture_nodes}
use lumencast_rs.Server.Role.{Role}
use lumencast_rs.Server.Role
use lumencast_rs.Server.Auth.{Identity, MapAuthenticator, insert_identity, clear_tokens}
use lumencast_rs.Server.Input.{
  InputType, InputSpec, new_spec, with_kind, with_max_length, with_min, with_max, with_values,
}
use lumencast_rs.Server.Scene.{
  Scene, ServerError, protocol, reject, with_operator_inputs, seed, snapshot_state, emit,
}
use lumencast_rs.Server.Scene
use lumencast_rs.Server.Connection.{server_error_message}
use lumencast_rs.Server.Registry.{
  ServerInner, scene, deref, put, new_scene_with_version, set_active_scene, active_scene,
  clear_scenes,
}
use lumencast_rs.Server.TestControl.Specs.{
  install_tokens, member_of, str_of, Readers, extract_input_specs,
}

pub record SetupBundle : Type 0 where
  pub id : Text
  pub hash : Text
  pub inline : Option Value

pub record SetupRequest : Type 0 where
  pub scenario : Option Text
  pub tokens : Map Text
  pub bundles : List SetupBundle
  pub initial_state : Map Value

pub record TestControlState : Type 0 where
  pub server : ServerInner
  pub auth : MapAuthenticator
  pub ws_url : Text

abbrev pub control_plane_version : ℕ
control_plane_version = 1

abbrev server_id : Text
server_id = codes "lumencast-rs"

-- What a handler answers; `problem` has a status, a code and a detail.
pub data Response : Type 0 where
  problem : (status : ℕ) (code : String) (detail : Message) → Response
  setup_done : (ws_url scene_id scene_version : Text) → Response
  no_content : Response
  state_of : (scene_id scene_version : Text) (state : Map Value) → Response
  emit_error : (code : String) (message : Message) → Response
  healthy : (status : String) (control_plane_version : ℕ) (server : Text) → Response

-- `deser_btreemap_or_null` and `deser_vec_or_null`.
abbrev or_empty {ℓ} : {A : Type ℓ} → Option (List A) → List A
or_empty none = []
or_empty (some xs) = xs

-- The parts of `inline`, if there is one.
abbrev pub inline_member : Text → Option Value → Option Value
inline_member k none = none
inline_member k (some v) = member_of k v

abbrev pub text_or : Text → Option Text → Text
text_or default none = default
text_or default (some s) = s

-- `inline.scene_id` wins over the id of the bundle.
abbrev pub effective_id : SetupBundle → SceneId
effective_id b = text_or b.id (str_of (inline_member (codes "scene_id") b.inline))

-- The changes of the new scene, one after another.
abbrev pub reject_unless : Result BundleError (Unit {0}) → Scene → Scene
reject_unless (ok done) s = s
reject_unless (err e) s = reject ErrorCode.invalid_value (bundle_error_message e) s

abbrev pub check_layout : Option Value → Scene → Scene
check_layout none s = s
check_layout (some layout) s = reject_unless (check_zab_capture_nodes layout) s

abbrev pub declare : Option (List InputSpec) → Scene → Scene
declare none s = s
declare (some specs) s = with_operator_inputs specs s

abbrev pub pairs_of_members : Members → List (Text × Value)
pairs_of_members end = []
pairs_of_members (member k v ms) = (k, v) ∷ pairs_of_members ms

abbrev pub seed_defaults : Option Value → Scene → Scene
seed_defaults (some (object defaults)) s = seed (pairs_of_members defaults) s
seed_defaults _ s = s

abbrev pub seed_initial : Map Value → Option Value → Scene → Scene
seed_initial [] defaults s = seed_defaults defaults s
seed_initial (kv ∷ kvs) defaults s = seed (kv ∷ kvs) s

-- The state that every setup starts from: no scene, and the request's tokens.
unfoldable pub cleared : Map Text → TestControlState → TestControlState
cleared tokens t = record t {
  server = clear_scenes t.server;
  auth = install_tokens tokens (clear_tokens t.auth);
}

module _ (readers : Readers) where
  abbrev pub specs_of_inline : Option Value → Option (List InputSpec)
  specs_of_inline none = none
  specs_of_inline (some inline) = extract_input_specs readers inline

  unfoldable pub prime : SetupRequest → SetupBundle → Scene → Scene
  prime req b s = seed_initial req.initial_state (inline_member (codes "defaults") b.inline) (
      declare (specs_of_inline b.inline) (check_layout (inline_member (codes "layout") b.inline) s))

  -- An operation on the scene behind a handle.
  abbrev modify : (Scene → Scene) → ℕ → Option Scene → ServerInner → ServerInner
  modify f h none s = s
  modify f h (some sc) s = put s h (f sc)

  abbrev pub finish :
      SetupRequest
      → SetupBundle
      → TestControlState
      → ServerInner × Result ServerError ℕ
      → TestControlState × Response
  finish req b t (s, err e) =
      (record t { server = s }, problem 500 "scene-register-failed" (server_error_message e))
  finish req b t (s, ok h) = (
    record t {
      server = (set_active_scene (effective_id b) (modify (prime req b) h (deref s h) s)).0;
    },
    setup_done t.ws_url (effective_id b) b.hash,
  )

  abbrev pub setup_bundle :
      SetupRequest → TestControlState → Option SetupBundle → TestControlState × Response
  setup_bundle req t none =
      (t, problem 400 "missing-bundle" (plain "setup requires at least one bundle"))
  setup_bundle req t (some b) =
      if is_empty b.id
      then (t, problem 400 "invalid-bundle" (plain "bundle id is empty"))
      else if not (is_some (strip_prefix (codes "sha256:") b.hash))
      then (t, problem 400 "invalid-hash" (plain "bundle.hash must be sha256-prefixed"))
      else finish req b t (new_scene_with_version (effective_id b) b.hash t.server)

  unfoldable pub handle_setup : SetupRequest → TestControlState → TestControlState × Response
  handle_setup req t = setup_bundle req (cleared req.tokens t) (head? req.bundles)

unfoldable pub handle_reset : TestControlState → TestControlState × Response
handle_reset t =
    (record t { server = clear_scenes t.server; auth = clear_tokens t.auth }, no_content)

abbrev scene_behind : ServerInner → Option ℕ → Option Scene
scene_behind s none = none
scene_behind s (some h) = deref s h

abbrev state_body : Option Scene → Response
state_body none = problem 409 "active-scene-missing" (plain "active scene reference is stale")
state_body (some sc) = state_of sc.id sc.version (snapshot_state sc)

abbrev state_response : ServerInner → Option SceneId → Response
state_response s none =
    problem 409 "no-active-scene" (plain "no scene is currently active; call /test/setup first")
state_response s (some id) = state_body (scene_behind s (scene id s))

unfoldable pub handle_state : TestControlState → Response
handle_state t = state_response t.server (active_scene t.server)

abbrev error_code : ServerError → String
error_code (ServerError.invalid_value m) = "INVALID_VALUE"
error_code (protocol e) = "INVALID_VALUE"
error_code _ = "INTERNAL"

abbrev pub after_emit :
    TestControlState → ℕ → Scene × Result ServerError (Unit {0}) → TestControlState × Response
after_emit t h (sc, ok done) = (record t { server = put t.server h sc }, no_content)
after_emit t h (sc, err e) =
    (record t { server = put t.server h sc }, emit_error (error_code e) (server_error_message e))

abbrev pub emit_behind :
    List (Text × Value) → TestControlState → ℕ → Option Scene → TestControlState × Response
emit_behind patches t h none =
    (t, problem 409 "active-scene-missing" (plain "active scene reference is stale"))
emit_behind patches t h (some sc) =
    if is_empty patches then (t, no_content) else after_emit t h (emit patches sc)

abbrev emit_at : List (Text × Value) → TestControlState → Option ℕ → TestControlState × Response
emit_at patches t none =
    (t, problem 409 "active-scene-missing" (plain "active scene reference is stale"))
emit_at patches t (some h) = emit_behind patches t h (deref t.server h)

abbrev emit_active :
    List (Text × Value) → TestControlState → Option SceneId → TestControlState × Response
emit_active patches t none =
    (t, problem 409 "no-active-scene" (plain "no scene is currently active"))
emit_active patches t (some id) = emit_at patches t (scene id t.server)

unfoldable pub handle_emit : List (Text × Value) → TestControlState → TestControlState × Response
handle_emit patches t = emit_active patches t (active_scene t.server)

abbrev handle_health : Response
handle_health = healthy "ok" control_plane_version server_id
