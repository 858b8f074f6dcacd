-- ===== src/Conformance/Player.antt =====
-- The step interpreter of crates/lumencast-conformance/src/player.rs. The WebSocket connection to the
-- server under test is a parameter, `Socket`; times in milliseconds.
pub mod Laws
pub mod Steps
pub mod Sound
mod Tests
use lumencast_rs.Prelude.{
  ℕ, ◌+◌, Bool, true, false, not, ◌&&◌, ◌||◌, String, List, [], ◌∷◌, Option, none, some, Text,
  codes, text_eq, Map, lookup, ◌==◌, if◌then◌else◌, Result, ok, err, map_err,
}
use lumencast_rs.Protocol.Json.{
  Value, string, array, object, Items, nil, cons, Members, as_str, as_array,
}
use lumencast_rs.Protocol.Codec.{SerdeJson}
use lumencast_rs.Conformance.Placeholders.{
  Substitutions, new_substitutions, apply, apply_to_map, contains,
}
use lumencast_rs.Conformance.Scenario.{
  Scenario, Step, client_sends, server_sends, expect_runtime_state, expect_server_state,
  expect_no_frame_for, expect_client_action, server_emits, unsupported, ClientAction, str_of,
}
use lumencast_rs.Conformance.Matching.{
  Mismatch, any_sentinel, value_eq, structural_match, get_of, update_shadow_from_frame,
}
use lumencast_rs.Conformance.Effects.{Eff, ◌>>=◌, ◌>>◌, pure, lift, fail, mapping}
use lumencast_rs.Conformance.Control.{
  ControlError, Client, Bodies, SetupResponse, StateResponse, setup, reset, state, emit,
}
use lumencast_rs.Conformance.Setup.{setup_request, collect_hashes, is_text, text_or}

-- What a step that fails says.
pub data Failure : Type 0 where
  no_frame_within : ℕ → Failure
  mismatch : Mismatch → Failure
  missing_path : Text → Failure
  differs : (path : Text) (expected actual : Value) → Failure
  abnormal_close : (code : ℕ) → Failure
  frame_arrived : Failure
  close_reason : (want got : Text) → Failure
  no_close not_a_delta missing_patches patch_path patch_value : Failure
  unsupported_action unsupported_kind : Text → Failure

pub data PlayerError : Type 0 where
  control : ControlError → PlayerError
  ws json : Text → PlayerError
  step_failed : (step_index : ℕ) → Failure → PlayerError
  closed expected_text : PlayerError

pub data Incoming : Type 0 where
  timed_out ended : Incoming
  failed : Text → Incoming
  text : Text → Incoming
  close : Option (ℕ × Text) → Incoming
  other : Incoming

pub record Socket (W : Type 0) : Type 0 where
  pub connect : Text → Eff W PlayerError (Unit {0})
  pub send : Text → Eff W Text (Unit {0})
  -- `ws.next()`, with a limit of time or without.
  pub next : Option ℕ → W → W × Incoming

-- The first path of a map that another lacks, or has with another value.
abbrev pub check_value : ℕ → Text → Value → Option Value → Result PlayerError (Unit {0})
check_value idx k v none = err (step_failed idx (missing_path k))
check_value idx k v (some actual) =
    if not (value_eq actual v) then err (step_failed idx (differs k v actual)) else ok tt

abbrev pub check_then :
    Result PlayerError (Unit {0}) → Result PlayerError (Unit {0}) → Result PlayerError (Unit {0})
check_then (ok done) rest = rest
check_then (err e) rest = err e

unfoldable pub check_state : ℕ → Map Value → Map Value → Result PlayerError (Unit {0})
check_state idx [] actual = ok tt
check_state idx ((k, v) ∷ expected) actual =
    check_then (check_value idx k v (lookup k actual)) (check_state idx expected actual)

abbrev pub match_frame : ℕ → Value → Value → Result PlayerError (Unit {0})
match_frame idx expected actual =
    map_err (λ d. step_failed idx (mismatch d)) (structural_match expected actual)

-- Codes 1000, 1001 and 1005 close cleanly; a close frame without a code counts as 1005.
abbrev pub close_code : Option (ℕ × Text) → ℕ
close_code none = 1005
close_code (some (code, reason)) = code

abbrev pub is_clean : ℕ → Bool
is_clean code = code == 1000 || (code == 1001 || code == 1005)

abbrev pub on_silence : ℕ → Incoming → Result PlayerError (Unit {0})
on_silence idx timed_out = ok tt
on_silence idx ended = ok tt
on_silence idx (close frame) =
    if not (is_clean (close_code frame))
    then err (step_failed idx (abnormal_close (close_code frame)))
    else ok tt
on_silence idx _ = err (step_failed idx frame_arrived)

abbrev pub on_close : ℕ → Text → Incoming → Result PlayerError (Unit {0})
on_close idx want (close (some (code, got))) =
    if not (text_eq want any_sentinel) && not (contains got want)
    then err (step_failed idx (close_reason want got))
    else ok tt
on_close idx want (failed e) = err (ws e)
on_close idx want ended = err closed
on_close idx want _ = err (step_failed idx no_close)

module _ (sj : SerdeJson) (subs : Substitutions) where
  abbrev patch_of : ℕ → Option Text → Option Value → Result PlayerError (Text × Value)
  patch_of idx none value = err (step_failed idx patch_path)
  patch_of idx (some path) none = err (step_failed idx patch_value)
  patch_of idx (some path) (some value) = ok (path, apply subs value)

  abbrev cons_ok :
      Result PlayerError (Text × Value)
      → Result PlayerError (List (Text × Value))
      → Result PlayerError (List (Text × Value))
  cons_ok (err e) rest = err e
  cons_ok (ok p) (err e) = err e
  cons_ok (ok p) (ok ps) = ok (p ∷ ps)

  unfoldable pub collect_patches : ℕ → Items → Result PlayerError (List (Text × Value))
  collect_patches idx nil = ok []
  collect_patches idx (cons p ps) =
      cons_ok (patch_of idx (str_of (get_of (codes "path") p)) (get_of (codes "value") p))
        (collect_patches idx ps)

  abbrev pub patches_of : ℕ → Option Value → Result PlayerError (List (Text × Value))
  patches_of idx (some (array items)) = collect_patches idx items
  patches_of idx _ = err (step_failed idx missing_patches)

  -- The pairs that `server-emits` posts.
  unfoldable pub emitted_pairs : ℕ → Value → Result PlayerError (List (Text × Value))
  emitted_pairs idx frame =
      if not (is_text (codes "delta") (str_of (get_of (codes "type") frame)))
      then err (step_failed idx not_a_delta)
      else patches_of idx (get_of (codes "patches") frame)

  -- `reason` with its placeholders resolved, or the empty text.
  abbrev pub wanted_reason : ClientAction → Text
  wanted_reason action =
      let reason = text_or [] (str_of (lookup (codes "reason") action.fields)) in
      text_or reason (as_str (apply subs (string reason)))

  module _ {W : Type 0} (socket : Socket W) (client : Client W) (bodies : Bodies)
      (base : Text) where
    abbrev pub parsed : ℕ → ℕ → Incoming → Result PlayerError Value
    parsed idx timeout timed_out = err (step_failed idx (no_frame_within timeout))
    parsed idx timeout ended = err closed
    parsed idx timeout (failed e) = err (ws e)
    parsed idx timeout (text t) = map_err json (sj.from_slice t)
    parsed idx timeout _ = err expected_text

    -- The world after a frame was awaited, and what is made of it.
    abbrev pub received :
        {A : Type 0} → (Incoming → Result PlayerError A) → W × Incoming → W × Result PlayerError A
    received f (w, incoming) = (w, f incoming)

    unfoldable pub read_text_frame : ℕ → ℕ → Eff W PlayerError Value
    read_text_frame idx timeout w = received (parsed idx timeout) (socket.next (some timeout) w)

    -- A frame is read, enters the shadow, and is compared.
    abbrev pub compared : ℕ → Value → Map Value → Value → Eff W PlayerError (Map Value)
    compared idx frame shadow actual =
        lift (match_frame idx (apply subs frame) actual)
        >> pure (update_shadow_from_frame actual shadow)

    unfoldable pub expect_frame : ℕ → Value → Map Value → Eff W PlayerError (Map Value)
    expect_frame idx frame shadow = read_text_frame idx 5000 >>= compared idx frame shadow

    unfoldable pub await_silence : ℕ → ℕ → Eff W PlayerError (Unit {0})
    await_silence idx duration w = received (on_silence idx) (socket.next (some duration) w)

    unfoldable pub run_action : ℕ → ClientAction → Eff W PlayerError (Unit {0})
    run_action idx action w =
        if text_eq action.action (codes "close-with-reason")
        then received (on_close idx (wanted_reason action)) (socket.next none w)
        else if text_eq action.action (codes "reconnect")
        then (w, ok tt)
        else (w, err (step_failed idx (unsupported_action action.action)))

    -- A step, with the shadow state before it and after it.
    unfoldable pub run_step : ℕ → Step → Map Value → Eff W PlayerError (Map Value)
    run_step idx (client_sends frame) shadow = do
      t ← lift (map_err json (sj.to_string (apply subs frame)))
      mapping ws (socket.send t)
      pure shadow
    run_step idx (server_sends frame) shadow = expect_frame idx frame shadow
    run_step idx (expect_runtime_state expected) shadow = do
      lift (check_state idx (apply_to_map subs expected) shadow)
      pure shadow
    run_step idx (expect_server_state expected) shadow = do
      resp ← mapping control (state client sj bodies base)
      lift (check_state idx (apply_to_map subs expected) resp.state)
      pure shadow
    run_step idx (expect_no_frame_for duration) shadow = do await_silence idx duration; pure shadow
    run_step idx (expect_client_action action) shadow = do run_action idx action; pure shadow
    run_step idx (server_emits frame) shadow = do
      pairs ← lift (emitted_pairs idx frame)
      mapping control (emit client sj bodies base pairs)
      expect_frame idx frame shadow
    run_step idx (unsupported kind body) shadow = fail (step_failed idx (unsupported_kind kind))

    unfoldable pub run_steps : ℕ → List Step → Map Value → Eff W PlayerError (Map Value)
    run_steps idx [] shadow = pure shadow
    run_steps idx (step ∷ steps) shadow = do
      shadow' ← run_step idx step shadow
      run_steps (idx + 1) steps shadow'

module _ {W : Type 0} (socket : Socket W) (client : Client W) (sj : SerdeJson) (bodies : Bodies)
    (sha256 : Text → Text) (base : Text) where
  abbrev pub substitutions_of : Scenario → Map Text → Substitutions
  substitutions_of scenario tokens =
      new_substitutions tokens (collect_hashes sj sha256 scenario.bundles [])

  unfoldable pub run_scenario : Scenario → Map Text → Eff W PlayerError (Unit {0})
  run_scenario scenario tokens = do
    resp ← mapping control (setup client sj bodies base (setup_request sj sha256 scenario tokens))
    socket.connect resp.ws_url
    shadow ←
        run_steps sj (substitutions_of scenario tokens) socket client bodies base 0 scenario.steps
          []
    mapping control (reset client sj bodies base)
