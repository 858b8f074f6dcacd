-- ===== src/Server/TestControl/Tests.antt =====
-- The control plane at work (test_control.rs).
use lumencast_rs.Prelude.{
  ◌≡◌, refl, ◌⊎◌, false, true, ℕ, String, List, [], ◌∷◌, none, some, Any, All, IsUnique, Text,
  codes, text_eq, Map, lookup, last_value, ok,
}
use lumencast_rs.Protocol.Json.{Value, number, positive}
use lumencast_rs.Protocol.Errors.{Message}
use lumencast_rs.Server.Role.{operator}
use lumencast_rs.Server.Auth.{Identity, new_authenticator, insert_token, authenticate_map}
use lumencast_rs.Server.Scene.{Scene, new_scene}
use lumencast_rs.Server.Scene.Laws.{IsLegalPair}
use lumencast_rs.Server.Registry.{default_config, new_server, register}
use lumencast_rs.Server.TestControl.Specs.{Readers}
use lumencast_rs.Server.TestControl.{
  SetupBundle, SetupRequest, TestControlState, Response, problem, setup_done, no_content, state_of,
  emit_error, handle_setup, handle_state, handle_emit,
}
use lumencast_rs.Server.TestControl.Laws.{idle, Shows, seeds_of, is_accepted, handle_setup-Outcome}
use lumencast_rs.Server.TestControl.Tokens.{Grants, handle_setup-Grants}
use lumencast_rs.Server.TestControl.Emission.{handle_emit-state}

abbrev one : Value
one = number (positive 1)

abbrev readers : Readers
readers = record { input_type = λ t. none; to_f64 = λ n. none }

abbrev studio_bundle : SetupBundle
studio_bundle = record { id = codes "studio"; hash = codes "sha256:0"; inline = none }

abbrev request : SetupRequest
request = record {
  scenario = none;
  tokens = (codes "$TOKEN_INVALID", codes "bad") ∷ (codes "$TOKEN_OPERATOR", codes "op") ∷ [];
  bundles = studio_bundle ∷ [];
  initial_state = (codes "a", one) ∷ [];
}

-- A server that was used before: a scene is active, and a token is known.
abbrev used : TestControlState
used = record {
  server = record {
    heap = new_scene (codes "old") (codes "v") ∷ [];
    scenes = (codes "old", 0) ∷ [];
    active = some (codes "old");
    events = [];
    config = default_config;
  };
  auth = new_authenticator;
  ws_url = codes "ws:";
}

handle_setup-Outcome_example :
    let (t', r) = handle_setup readers request used in
    ((is_accepted readers request studio_bundle used ≡ true)
      × (r ≡ setup_done (codes "ws:") (codes "studio") (codes "sha256:0"))
      × Shows t' (codes "studio") (codes "sha256:0") (seeds_of readers request studio_bundle))
    ⊎ ((is_accepted readers request studio_bundle used ≡ false)
        × (code : String) × (detail : Message) × (r ≡ problem 400 code detail)
        × (handle_state t' ≡ idle))
handle_setup-Outcome_example = handle_setup-Outcome readers request studio_bundle used refl

abbrev op : Identity
op = record { subject = codes "$TOKEN_OPERATOR"; role = operator; paths = none }

op-accepted : authenticate_map (handle_setup readers request used).0.auth (codes "op") ≡ ok op
unfolding handle_setup authenticate_map lumencast_rs.Server.TestControl.cleared
    lumencast_rs.Server.Registry.clear_scenes lumencast_rs.Server.Registry.new_scene_with_version
    lumencast_rs.Server.TestControl.Specs.install_tokens lumencast_rs.Server.Auth.insert_identity
    lumencast_rs.Server.Auth.clear_tokens lumencast_rs.Server.TestControl.Specs.role_for_placeholder
    lookup lumencast_rs.Prelude.insert text_eq lumencast_rs.Prelude.strip_prefix
op-accepted = refl

handle_setup-Grants_example : Any (Grants (codes "op") op) request.tokens
handle_setup-Grants_example = handle_setup-Grants readers request used (codes "op") op op-accepted

abbrev pairs : List (Text × Value)
pairs = (codes "a", one) ∷ []

abbrev old : Scene
old = new_scene (codes "old") (codes "v")

old-IsUnique : IsUnique old.store.inner
unfolding new_scene
old-IsUnique = tt

handle_emit-state_example :
    let (t', r) = handle_emit pairs used in
    ((All IsLegalPair pairs)
      × (r ≡ no_content)
      × (state : Map Value) × (handle_state t' ≡ state_of old.id old.version state)
      × ((path : Text) → lookup path state ≡ last_value path pairs (lookup path old.store.inner)))
    ⊎ ((¬ All IsLegalPair pairs)
        × (code : String) × (message : Message) × (r ≡ emit_error code message)
        × (handle_state t' ≡ handle_state used))
unfolding lookup text_eq
handle_emit-state_example =
    handle_emit-state used (codes "old") 0 old pairs (refl, refl, refl) old-IsUnique
