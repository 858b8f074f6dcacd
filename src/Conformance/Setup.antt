-- ===== src/Conformance/Setup.antt =====
-- What the player sends to `/test/setup`: the end of crates/lumencast-conformance/src/player.rs.
use lumencast_rs.Prelude.{
  Bool, false, not, ◌&&◌, ◌||◌, List, [], ◌∷◌, ◌++◌, Option, none, some, Text, codes, text_eq, Map,
  lookup, insert, is_empty, is_some, if◌then◌else◌, map, replicate, strip_prefix,
}
use lumencast_rs.Protocol.Json.{
  Value, string, array, object, Items, nil, cons, Members, end, member, as_str,
}
use lumencast_rs.Protocol.Codec.{SerdeJson}
use lumencast_rs.Conformance.Placeholders.{hash_inline_bundle}
use lumencast_rs.Conformance.Scenario.{InlineBundle, Scenario, Step, server_sends, str_of}
use lumencast_rs.Conformance.Matching.{any_sentinel, hash_sentinel, get_of, pairs_of_members}
use lumencast_rs.Conformance.Control.{SetupBundle, SetupRequest}

abbrev pub text_or : Text → Option Text → Text
text_or default none = default
text_or default (some s) = s

abbrev or_if_empty : Text → Text → Text
or_if_empty s default = if is_empty s then default else s

-- The state of a snapshot, less the sentinels.
abbrev is_sentinel : Option Text → Bool
is_sentinel none = false
is_sentinel (some s) = text_eq s any_sentinel || text_eq s hash_sentinel

unfoldable pub literal_state : List (Text × Value) → Map Value → Map Value
literal_state [] out = out
literal_state ((k, v) ∷ kvs) out =
    literal_state kvs (if is_sentinel (as_str v) then out else insert k v out)

abbrev pub is_text : Text → Option Text → Bool
is_text t none = false
is_text t (some s) = text_eq s t

abbrev pub has_type : Text → Value → Bool
has_type t frame = is_text t (str_of (get_of (codes "type") frame))

abbrev state_or : Option Value → Map Value → Map Value
state_or (some (object state)) later = literal_state (pairs_of_members state) []
state_or _ later = later

unfoldable pub initial_state_of : List Step → Map Value
initial_state_of [] = []
initial_state_of (server_sends frame ∷ steps) =
    let later = initial_state_of steps in
    if not (has_type (codes "snapshot") frame)
    then later
    else state_or (get_of (codes "state") frame) later
initial_state_of (_ ∷ steps) = initial_state_of steps

abbrev extract_initial_state : Scenario → Map Value
extract_initial_state scenario = initial_state_of scenario.steps

-- A variable that is still empty takes a text that is no sentinel.
abbrev take_literal : Text → Option Text → Text → Text
take_literal old none sentinel = old
take_literal old (some v) sentinel = if is_empty old && not (text_eq v sentinel) then v else old

unfoldable pub scan_ids : List Step → Text → Text → Text × Text
scan_ids [] id hash = (id, hash)
scan_ids (server_sends frame ∷ steps) id hash =
    let id' = take_literal id (str_of (get_of (codes "scene_id") frame)) any_sentinel in
    let hash' = take_literal hash (str_of (get_of (codes "scene_version") frame)) hash_sentinel in
    let rest = scan_ids steps id' hash' in
    if not (is_empty id') && not (is_empty hash') then (id', hash') else rest
scan_ids (_ ∷ steps) id hash = scan_ids steps id hash

abbrev first_scene_id_and_hash : Scenario → Text × Text
first_scene_id_and_hash scenario = scan_ids scenario.steps [] []

abbrev zero_hash : Text
zero_hash = codes "sha256:" ++ replicate 64 b'0'

-- `serde_json::json!({"path": path})` for each input path of the state.
unfoldable pub input_items : Map Value → Items
input_items [] = nil
input_items ((path, v) ∷ state) =
    if is_some (strip_prefix (codes "__inputs.") path)
    then cons (object (member (codes "path") (string path) end)) (input_items state)
    else input_items state

abbrev inline_inputs : Items → Members
inline_inputs nil = end
inline_inputs (cons v vs) = member (codes "operator_inputs") (array (cons v vs)) end

unfoldable pub declared_bundle : Map Text → InlineBundle → SetupBundle
declared_bundle bundle_hashes b = record {
  id = text_or b.id (str_of (get_of (codes "scene_id") b.inline));
  hash = text_or (codes "sha256:") (lookup b.id bundle_hashes);
  inline = some b.inline;
}

unfoldable pub synthetic_bundle : Scenario → SetupBundle
synthetic_bundle scenario =
    let (id, hash) = first_scene_id_and_hash scenario in
    record {
      id = or_if_empty id scenario.name;
      hash = or_if_empty hash zero_hash;
      inline = some (object (inline_inputs (input_items (extract_initial_state scenario))));
    }

unfoldable pub build_setup_bundles : Scenario → Map Text → List SetupBundle
build_setup_bundles scenario bundle_hashes =
    if is_empty scenario.bundles
    then synthetic_bundle scenario ∷ []
    else map (declared_bundle bundle_hashes) scenario.bundles

module _ (sj : SerdeJson) (sha256 : Text → Text) where
  -- `iter().map(…).collect()`: a later bundle with an id replaces an earlier one.
  unfoldable pub collect_hashes : List InlineBundle → Map Text → Map Text
  collect_hashes [] hashes = hashes
  collect_hashes (b ∷ bs) hashes =
      collect_hashes bs (insert b.id (hash_inline_bundle sj sha256 b.inline) hashes)

  abbrev initial_state_or : Map Value → Scenario → Map Value
  initial_state_or [] scenario = extract_initial_state scenario
  initial_state_or (kv ∷ kvs) scenario = kv ∷ kvs

  unfoldable pub setup_request : Scenario → Map Text → SetupRequest
  setup_request scenario tokens = record {
    scenario = scenario.name;
    tokens = tokens;
    bundles = build_setup_bundles scenario (collect_hashes scenario.bundles []);
    initial_state = initial_state_or scenario.initial_state scenario;
  }
