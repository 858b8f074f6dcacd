-- ===== src/Server/Scene.antt =====
-- crates/lumencast-server/src/scene.rs. A `Scene` handle is an index of the registry's heap
-- (Server/Registry.antt); this is the state behind it. What the broadcast channel was sent is kept
-- as a list, oldest first.
pub mod Laws
pub mod Mirror
pub mod Converge
pub mod Extends
mod Tests
use lumencast_rs.Prelude.{
  ℕ, String, Bool, true, false, List, [], ◌∷◌, ◌++◌, Option, none, some, Text, Map, lookup, insert,
  insert_all, map, is_some, is_empty, if◌then◌else◌, Result, ok, err, ◌>>=◌, ◌>>◌, map_err,
}
use lumencast_rs.Protocol.Json.{Number, Value}
use lumencast_rs.Protocol.Errors.{ErrorCode, unknown_path, LumencastError, Message, filled, plain}
use lumencast_rs.Protocol.LeafPath.{LeafPath, parse}
use lumencast_rs.Protocol.Types.{SceneId, SceneVersion, Patch, Cause, new_patch, check_leaf_value}
use lumencast_rs.Protocol.Frames.{State}
use lumencast_rs.Protocol.Sequence.{add_u64}
use lumencast_rs.Protocol.Bundle.{BundleError}
use lumencast_rs.Server.Store.{Store, new_store, set_value, apply}
use lumencast_rs.Server.Store
use lumencast_rs.Server.Replay.{
  ReplayRecord, ReplaySlice, ReplayBuffer, new_buffer, push, since, default_replay_buffer_size,
}
use lumencast_rs.Server.Input.{InputSpec, new_spec, check_constraint}

-- crates/lumencast-server/src/error.rs, less the errors of I/O.
pub data ServerError : Type 0 where
  protocol : LumencastError → ServerError
  bundle_error : BundleError → ServerError
  unknown_scene duplicate_scene : Text → ServerError
  invalid_value : String → ServerError
  builder_missing : String → ServerError

pub record DeltaPayload : Type 0 where
  pub seq : ℕ
  pub patches : List Patch
  pub cause : Option Cause

pub record SceneRejection : Type 0 where
  pub code : ErrorCode
  pub message : Message

pub record InputRejection : Type 0 where
  pub code : ErrorCode
  pub message : Message
  pub path : Text

pub record Scene : Type 0 where
  pub id : SceneId
  pub version : SceneVersion
  pub store : Store
  pub sent : List DeltaPayload
  pub seq : ℕ
  pub replay : ReplayBuffer
  pub bundle_bytes : Option Text
  pub declared_inputs : Option (Map InputSpec)
  pub rejection : Option SceneRejection

unfoldable pub new_scene : SceneId → SceneVersion → Scene
unfolding new_buffer
new_scene id version = record {
  id = id;
  version = version;
  store = new_store;
  sent = [];
  seq = 1;
  replay = new_buffer default_replay_buffer_size;
  bundle_bytes = none;
  declared_inputs = none;
  rejection = none;
}

abbrev pub current_seq : Scene → ℕ
current_seq s = s.seq

unfoldable pub replay_since : Scene → ℕ → ReplaySlice
replay_since s since_seq = since since_seq s.replay

abbrev pub attach_bundle_bytes : Text → Scene → Scene
attach_bundle_bytes bytes s = record s { bundle_bytes = some bytes }

abbrev pub reject : ErrorCode → Message → Scene → Scene
reject code message s = record s { rejection = some (record { code = code; message = message }) }

unfoldable pub advance_seq : Scene → Scene × ℕ
advance_seq s = (record s { seq = add_u64 s.seq 1 }, add_u64 s.seq 1)

-- The end of `set` and of `emit_with_cause`: a number, a replay record and a broadcast.
unfoldable pub publish : List Patch → Option Cause → Scene → Scene
unfolding advance_seq
publish patches cause s =
    let (s', n) = advance_seq s in
    record s' {
      replay = push (record { seq = n; patches = patches; cause = cause }) s'.replay;
      sent = s'.sent ++ record { seq = n; patches = patches; cause = cause } ∷ [];
    }

-- One pair of `set` and of the loop of `emit_with_cause`: a leaf path and a leaf value.
unfoldable pub check_pair : Text × Value → Result ServerError Patch
check_pair (path, value) = do
  p ← map_err protocol (parse path)
  map_err ServerError.invalid_value (check_leaf_value value)
  ok (new_patch p value)

-- `Scene::set`, once the pair is checked: the scene after the call, and the result.
abbrev pub set_checked : Scene → Result ServerError Patch → Scene × Result ServerError (Unit {0})
set_checked s (err e) = (s, err e)
set_checked s (ok p) =
    (publish (p ∷ []) none (record s { store = (set_value p.path.text p.value s.store).0 }), ok tt)

unfoldable pub set : Text → Value → Scene → Scene × Result ServerError (Unit {0})
set path value s = set_checked s (check_pair (path, value))

unfoldable pub check_pairs : List (Text × Value) → Result ServerError (List Patch)
unfolding check_pair
check_pairs [] = ok []
check_pairs (kv ∷ kvs) = do p ← check_pair kv; ps ← check_pairs kvs; ok (p ∷ ps)

abbrev pub pair_of : Patch → Text × Value
pair_of p = (p.path.text, p.value)

-- `emit_with_cause`, once the pairs are checked.
abbrev pub emit_checked :
    Option Cause → Scene → Result ServerError (List Patch) → Scene × Result ServerError (Unit {0})
emit_checked cause s (err e) = (s, err e)
emit_checked cause s (ok parsed) =
    if is_empty parsed
    then (s, ok tt)
    else (publish parsed cause (record s { store = apply (map pair_of parsed) s.store }), ok tt)

unfoldable pub emit_with_cause :
    List (Text × Value) → Option Cause → Scene → Scene × Result ServerError (Unit {0})
emit_with_cause pairs cause s = emit_checked cause s (check_pairs pairs)

unfoldable pub emit : List (Text × Value) → Scene → Scene × Result ServerError (Unit {0})
emit pairs s = emit_with_cause pairs none s

unfoldable pub seed : List (Text × Value) → Scene → Scene
seed defaults s = record s { store = Store.seed defaults s.store }

unfoldable pub snapshot_state : Scene → State
snapshot_state s = Store.snapshot s.store

abbrev pub keyed : InputSpec → Text × InputSpec
keyed spec = (spec.path.text, spec)

unfoldable pub with_operator_inputs : List InputSpec → Scene → Scene
with_operator_inputs specs s = record s { declared_inputs = some (insert_all (map keyed specs) []) }

unfoldable pub with_declared_inputs : List LeafPath → Scene → Scene
with_declared_inputs paths s = with_operator_inputs (map new_spec paths) s

abbrev pub enforces_declared_inputs : Scene → Bool
enforces_declared_inputs s = is_some s.declared_inputs

abbrev pub check_message : Patch → Option Message → Result InputRejection (Unit {0})
check_message patch none = ok tt
check_message patch (some message) =
    err (record { code = ErrorCode.invalid_value; message = message; path = patch.path.text })

abbrev pub check_declared :
    (Number → Option ℕ) → Patch → Option InputSpec → Result InputRejection (Unit {0})
check_declared to_f64 patch none = err (record {
  code = unknown_path;
  message = filled "path {:?} not declared in operator_inputs" (patch.path.text ∷ []);
  path = patch.path.text;
})
check_declared to_f64 patch (some spec) =
    check_message patch (check_constraint to_f64 spec patch.value)

abbrev pub check_against :
    (Number → Option ℕ) → Patch → Option (Map InputSpec) → Result InputRejection (Unit {0})
check_against to_f64 patch none = ok tt
check_against to_f64 patch (some declared) =
    check_declared to_f64 patch (lookup patch.path.text declared)

unfoldable pub check_input_patch :
    (Number → Option ℕ) → Scene → Patch → Result InputRejection (Unit {0})
check_input_patch to_f64 s patch = check_against to_f64 patch s.declared_inputs
