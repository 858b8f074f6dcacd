-- ===== src/Server/Registry.antt =====
-- crates/lumencast-server/src/server.rs and bundle_route.rs. A handle to a scene is an index of
-- the heap: a connection may keep one after the map has dropped it. Each call here is one step;
-- between the `contains_key` and the `insert` of a registration no other call runs.
pub mod Laws
pub mod Calls
pub mod Route
mod Tests
use lumencast_rs.Prelude.{
  ℕ, ◌+◌, Bool, true, false, not, List, [], ◌∷◌, ◌++◌, Option, none, some, Text, codes, Map, lookup,
  insert, contains_key, length, get_elem?, set, text_eq, if◌then◌else◌, Result, ok, err,
}
use lumencast_rs.Protocol.Json.{Value}
use lumencast_rs.Protocol.Types.{SceneId, SceneVersion}
use lumencast_rs.Protocol.Codec.{SerdeJson, Derived}
use lumencast_rs.Protocol.Bundle.{
  Bundle, BundleError, placeholder_hash, with_computed_version, to_canonical_bytes,
}
use lumencast_rs.Server.Scene.{Scene, bundle_error, ServerError, duplicate_scene, unknown_scene}
use lumencast_rs.Server.Scene

-- crates/lumencast-server/src/config.rs; times in milliseconds.
pub record ServerConfig : Type 0 where
  pub max_frame_bytes : ℕ
  pub input_rate_per_sec : ℕ
  pub heartbeat : ℕ
  pub subscribe_timeout : ℕ
  pub test_session_ttl : ℕ

abbrev pub default_config : ServerConfig
default_config = record {
  max_frame_bytes = 65536;
  input_rate_per_sec = 60;
  heartbeat = 30000;
  subscribe_timeout = 5000;
  test_session_ttl = 300000;
}

pub data ServerEvent : Type 0 where
  scene_swap : SceneId → ServerEvent

-- `ServerInner`, with the heap of scenes and the events that were broadcast, oldest first.
pub record ServerInner : Type 0 where
  pub heap : List Scene
  pub scenes : Map ℕ
  pub active : Option SceneId
  pub events : List ServerEvent
  pub config : ServerConfig

abbrev pub new_server : ServerConfig → ServerInner
new_server config = record { heap = []; scenes = []; active = none; events = []; config = config }

-- `ServerInner::scene`
abbrev pub scene : Text → ServerInner → Option ℕ
scene id s = lookup id s.scenes

abbrev pub deref : ServerInner → ℕ → Option Scene
deref s h = get_elem? s.heap h

-- Run an operation of the scene behind a handle.
abbrev pub put : ServerInner → ℕ → Scene → ServerInner
put s h sc = record s { heap = set s.heap h sc }

abbrev pub set_if_none : Option SceneId → SceneId → Option SceneId
set_if_none none id = some id
set_if_none (some old) id = some old

-- The end of a registration: the scene enters the map, and is active if none was.
unfoldable pub register : Scene → ServerInner → ServerInner
register sc s = record s {
  heap = s.heap ++ sc ∷ [];
  scenes = insert sc.id (length s.heap) s.scenes;
  active = set_if_none s.active sc.id;
}

unfoldable pub new_scene_with_version :
    SceneId → SceneVersion → ServerInner → ServerInner × Result ServerError ℕ
new_scene_with_version id version s =
    if contains_key id s.scenes
    then (s, err (duplicate_scene id))
    else (register (Scene.new_scene id version) s, ok (length s.heap))

unfoldable pub new_scene : SceneId → ServerInner → ServerInner × Result ServerError ℕ
new_scene id s = new_scene_with_version id placeholder_hash s

-- The scene that a bundle's defaults and canonical bytes make.
unfoldable pub scene_of_bundle : Bundle → Text → Scene
scene_of_bundle b bytes =
    Scene.attach_bundle_bytes bytes
      (Scene.seed b.defaults (Scene.new_scene b.scene_id b.scene_version))

module _ (sj : SerdeJson) (d : Derived Bundle) (sha256 : Text → Text) where
  abbrev pub registered :
      Bundle → ServerInner → Result BundleError Text → ServerInner × Result ServerError ℕ
  registered b s (err e) = (s, err (bundle_error e))
  registered b s (ok bytes) = (register (scene_of_bundle b bytes) s, ok (length s.heap))

  abbrev pub on_versioned :
      ServerInner → Result BundleError Bundle → ServerInner × Result ServerError ℕ
  on_versioned s (err e) = (s, err (bundle_error e))
  on_versioned s (ok b) =
      if contains_key b.scene_id s.scenes
      then (s, err (duplicate_scene b.scene_id))
      else registered b s (to_canonical_bytes sj d sha256 b)

  unfoldable pub register_bundle : Bundle → ServerInner → ServerInner × Result ServerError ℕ
  register_bundle b s = on_versioned s (with_computed_version sj d sha256 b)

unfoldable pub set_active_scene :
    SceneId → ServerInner → ServerInner × Result ServerError (Unit {0})
set_active_scene id s =
    if not (contains_key id s.scenes)
    then (s, err (unknown_scene id))
    else (record s { active = some id; events = s.events ++ scene_swap id ∷ [] }, ok tt)

abbrev pub active_scene : ServerInner → Option SceneId
active_scene s = s.active

unfoldable pub clear_scenes : ServerInner → ServerInner
clear_scenes s = record s { scenes = []; active = none }

-- `GET /scenes/:scene_id/:version_hex`: the body, or 404.
abbrev pub served : Text → Option Scene → Option Text
served expected none = none
served expected (some sc) = if not (text_eq sc.version expected) then none else sc.bundle_bytes

abbrev pub scene_at : ServerInner → Option ℕ → Option Scene
scene_at s none = none
scene_at s (some h) = deref s h

unfoldable pub scene_bundle_route : Text → Text → ServerInner → Option Text
scene_bundle_route scene_id version_hex s =
    served (codes "sha256:" ++ version_hex) (scene_at s (scene scene_id s))
