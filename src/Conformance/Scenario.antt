-- ===== src/Conformance/Scenario.antt =====
-- crates/lumencast-conformance/src/scenario.rs. YAML and the derived conversions are parameters.
use lumencast_rs.Prelude.{
  ℕ, String, List, [], ◌∷◌, Option, none, some, Text, codes, text_eq, Map, lookup, remove,
  if◌then◌else◌, Result, ok, err, ◌>>=◌, map_err,
}
use lumencast_rs.Protocol.Json.{Value, object, Members, end, member, as_str, as_u64}
use lumencast_rs.Protocol.Errors.{Message, plain, opaque}
use lumencast_rs.Protocol.Codec.{Derived}

pub data Tag : Type 0 where
  required recommended extended : Tag

pub data Target : Type 0 where
  server runtime any : Target

pub record InlineBundle : Type 0 where
  pub id : Text
  pub inline : Value

pub record ClientAction : Type 0 where
  pub action : Text
  pub fields : Map Value

pub data Step : Type 0 where
  client_sends server_sends : (frame : Value) → Step
  expect_runtime_state expect_server_state : (state : Map Value) → Step
  expect_no_frame_for : (duration_ms : ℕ) → Step
  expect_client_action : ClientAction → Step
  server_emits : (frame : Value) → Step
  unsupported : (kind : Text) (body : Map Value) → Step

pub record Scenario : Type 0 where
  pub name : Text
  pub description : Option Text
  pub tag : Tag
  pub target : Target
  pub bundles : List InlineBundle
  pub initial_state : Map Value
  pub steps : List Step

abbrev default_tag : Tag
default_tag = required

abbrev default_target : Target
default_target = any

-- `ok_or_else`
abbrev field_or {ℓ} : {A : Type ℓ} → Option A → String → Result Message A
field_or none message = err (plain message)
field_or (some a) message = ok a

unfoldable frame_field : Map Value → Result Message Value
frame_field raw = field_or (lookup (codes "frame") raw) "step missing `frame` field"

-- The body of an action: all but the kind, as the members of an object.
unfoldable action_body : Map Value → Members
action_body [] = end
action_body ((k, v) ∷ raw) =
    if text_eq k (codes "kind") then action_body raw else member k v (action_body raw)

abbrev pub u64_of : Option Value → Option ℕ
u64_of none = none
u64_of (some v) = as_u64 v

abbrev pub str_of : Option Value → Option Text
str_of none = none
str_of (some v) = as_str v

module _ (states : Derived (Map Value)) (actions : Derived ClientAction) where
  unfoldable state_field : Map Value → Result Message (Map Value)
  state_field raw = do
    v ← field_or (lookup (codes "state") raw) "step missing `state` field"
    map_err opaque (states.from_value v)

  unfoldable step_from_kind : Text → Map Value → Result Message Step
  step_from_kind kind raw =
      if text_eq kind (codes "client-sends")
      then (frame_field raw >>= λ frame. ok (client_sends frame))
      else if text_eq kind (codes "server-sends")
      then (frame_field raw >>= λ frame. ok (server_sends frame))
      else if text_eq kind (codes "server-emits")
      then (frame_field raw >>= λ frame. ok (server_emits frame))
      else if text_eq kind (codes "expect-runtime-state")
      then (state_field raw >>= λ state. ok (expect_runtime_state state))
      else if text_eq kind (codes "expect-server-state")
      then (state_field raw >>= λ state. ok (expect_server_state state))
      else if text_eq kind (codes "expect-no-frame-for")
      then (field_or (u64_of (lookup (codes "duration_ms") raw))
            "expect-no-frame-for missing `duration_ms`"
          >>= λ duration. ok (expect_no_frame_for duration))
      else if text_eq kind (codes "expect-client-action")
      then (map_err opaque (actions.from_value (object (action_body raw))) >>= λ action.
          ok (expect_client_action action))
      else ok (unsupported kind (remove (codes "kind") raw))

  -- `Deserialize for Step`, from the map that the document has.
  unfoldable deserialize_step : Map Value → Result Message Step
  deserialize_step raw = do
    kind ← field_or (str_of (lookup (codes "kind") raw)) "step is missing required `kind` field"
    step_from_kind kind raw

-- `Scenario::parse`: `serde_yaml_ng::from_str`, with its derived conversion, is a parameter.
abbrev parse_scenario : (Text → Result Text Scenario) → Text → Result Message Scenario
parse_scenario from_str text = map_err opaque (from_str text)
