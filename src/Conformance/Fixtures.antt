-- ===== src/Conformance/Fixtures.antt =====
-- Test data of the conformance suite: a server that accepts everything and sends one snapshot, and a
-- scenario for it. The world counts the requests to the control plane.
use lumencast_rs.Prelude.{
  ℕ, suc, ◌==◌, if◌then◌else◌, List, [], ◌∷◌, Option, none, some, codes, ok, err,
}
use lumencast_rs.Protocol.Json.{Value, null, number, positive, string, object, end, member}
use lumencast_rs.Protocol.Codec.{SerdeJson, Derived}
use lumencast_rs.Conformance.Scenario.{
  Scenario, Step, client_sends, server_sends, expect_runtime_state, expect_server_state,
  expect_no_frame_for, required, server, runtime,
}
use lumencast_rs.Conformance.Control.{Client, Bodies}
use lumencast_rs.Conformance.Player.{Socket, Incoming, timed_out, text}
use lumencast_rs.Conformance.Harness.{Config, Files, empty}

abbrev pub one : Value
one = number (positive 1)

abbrev pub snapshot : Value
snapshot = object (
    member (codes "type") (string (codes "snapshot"))
      (member (codes "state") (object (member (codes "a") one end)) end))

-- What a snapshot of any state looks like.
abbrev pub template : Value
template = object (
    member (codes "type") (string (codes "snapshot"))
      (member (codes "state") (string (codes "$ANY")) end))

abbrev pub toy_json : SerdeJson
toy_json = record { from_slice = λ t. ok snapshot; to_vec = λ v. ok []; to_string = λ v. ok [] }

abbrev pub answers : {A : Type 0} → A → Derived A
answers a = record { to_value = λ b. ok null; from_value = λ v. ok a }

abbrev pub toy_bodies : Bodies
toy_bodies = record {
  setup_requests =
      answers (record { scenario = []; tokens = []; bundles = []; initial_state = [] });
  setup_responses =
      answers (record { ws_url = codes "ws:"; scene_id = codes "s"; scene_version = codes "v" });
  state_responses =
      answers
        (record { scene_id = codes "s"; scene_version = codes "v"; state = (codes "a", one) ∷ [] });
  health_responses =
      answers (record { status = codes "ok"; control_plane_version = 1; server = none });
  emits = answers [];
}

abbrev pub toy_client : Client ℕ
toy_client = record { send = λ method url body w. (suc w, ok (record { status = 200; body = [] })) }

-- A frame is there for who waits for five seconds.
abbrev after_limit : Option ℕ → Incoming
after_limit none = timed_out
after_limit (some n) = if n == 5000 then text [] else timed_out

abbrev pub toy_socket : Socket ℕ
toy_socket = record {
  connect = λ url w. (w, ok tt);
  send = λ t w. (w, ok tt);
  next = λ limit w. (w, after_limit limit);
}

abbrev pub steps : List Step
steps =
    client_sends null
    ∷ server_sends template
    ∷ expect_runtime_state ((codes "a", one) ∷ [])
    ∷ expect_server_state ((codes "a", one) ∷ [])
    ∷ expect_no_frame_for 100
    ∷ []

abbrev pub scenario : Scenario
scenario = record {
  name = codes "snapshot";
  description = none;
  tag = required;
  target = server;
  bundles = [];
  initial_state = [];
  steps = steps;
}

abbrev pub in_browser : Scenario
in_browser = record scenario { name = codes "browser"; target = runtime }

abbrev pub no_files : Files
no_files = record { read_dir = λ d. err d; read_to_string = λ d f. err f; parse_yaml = λ t. err t }

abbrev pub config : Config
config = record {
  ws_url = codes "ws:";
  control_url = codes "http:";
  tags = required ∷ [];
  scenario_filter = none;
  tokens = [];
  scenarios = empty;
}
