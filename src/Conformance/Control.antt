-- ===== src/Conformance/Control.antt =====
-- crates/lumencast-conformance/src/control.rs. The HTTP client, JSON and the derived conversions are
-- parameters.
use lumencast_rs.Prelude.{
  ℕ, Bool, ◌&&◌, List, [], ◌++◌, Option, Text, codes, Map, ltb, leb, if◌then◌else◌, Result, ok, err,
  map_err,
}
use lumencast_rs.Protocol.Json.{Value}
use lumencast_rs.Protocol.Codec.{SerdeJson, Derived}
use lumencast_rs.Conformance.Effects.{Eff, ◌>>=◌, lift, pure, mapping}

pub data ControlError : Type 0 where
  http : Text → ControlError
  status : (status : ℕ) (body : Text) → ControlError

pub record SetupBundle : Type 0 where
  pub id : Text
  pub hash : Text
  pub inline : Option Value

pub record SetupRequest : Type 0 where
  pub scenario : Text
  pub tokens : Map Text
  pub bundles : List SetupBundle
  pub initial_state : Map Value

pub record SetupResponse : Type 0 where
  pub ws_url : Text
  pub scene_id : Text
  pub scene_version : Text

pub record StateResponse : Type 0 where
  pub scene_id : Text
  pub scene_version : Text
  pub state : Map Value

pub record HealthResponse : Type 0 where
  pub status : Text
  pub control_plane_version : ℕ
  pub server : Option Text

pub record Response : Type 0 where
  pub status : ℕ
  pub body : Text

pub data Method : Type 0 where
  get post : Method

-- `reqwest::Client`: a request by its method, URL and body.
pub record Client (W : Type 0) : Type 0 where
  pub send : Method → Text → Text → Eff W Text Response

-- The derived conversions of the bodies.
pub record Bodies : Type 0 where
  pub setup_requests : Derived SetupRequest
  pub setup_responses : Derived SetupResponse
  pub state_responses : Derived StateResponse
  pub health_responses : Derived HealthResponse
  pub emits : Derived (List (Text × Value))

abbrev pub is_success : ℕ → Bool
is_success s = leb 200 s && ltb s 300

-- `if !status.is_success() { return Err(…) }`
abbrev pub checked : Response → Result ControlError Text
checked r = if is_success r.status then ok r.body else err (status r.status r.body)

module _ {W : Type 0} (client : Client W) (sj : SerdeJson) (bodies : Bodies) (base : Text) where
  abbrev pub bytes_of : Result Text Value → Result Text Text
  bytes_of (err e) = err e
  bytes_of (ok v) = sj.to_vec v

  -- `.json(body)`, and `resp.json()`.
  abbrev write_json : {A : Type 0} → Derived A → A → Eff W ControlError Text
  write_json d a = lift (map_err http (bytes_of (d.to_value a)))

  abbrev pub value_of : {A : Type 0} → Derived A → Result Text Value → Result Text A
  value_of d (err e) = err e
  value_of d (ok v) = d.from_value v

  abbrev read_json : {A : Type 0} → Derived A → Text → Eff W ControlError A
  read_json d body = lift (map_err http (value_of d (sj.from_slice body)))

  abbrev send_checked : Method → Text → Text → Eff W ControlError Text
  send_checked method route body =
      mapping http (client.send method (base ++ route) body) >>= λ r. lift (checked r)

  unfoldable pub setup : SetupRequest → Eff W ControlError SetupResponse
  setup request = do
    bytes ← write_json bodies.setup_requests request
    body ← send_checked post (codes "/test/setup") bytes
    read_json bodies.setup_responses body

  unfoldable pub reset : Eff W ControlError (Unit {0})
  reset = send_checked post (codes "/test/reset") [] >>= λ body. pure tt

  unfoldable pub state : Eff W ControlError StateResponse
  state = send_checked get (codes "/test/state") [] >>= read_json bodies.state_responses

  unfoldable pub emit : List (Text × Value) → Eff W ControlError (Unit {0})
  emit patches = do
    bytes ← write_json bodies.emits patches
    body ← send_checked post (codes "/test/emit") bytes
    pure tt

  unfoldable health : Eff W ControlError HealthResponse
  health = send_checked get (codes "/test/health") [] >>= read_json bodies.health_responses
