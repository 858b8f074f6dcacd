-- ===== src/Conformance/Player/Tests.antt =====
-- The player at work (player.rs).
use lumencast_rs.Prelude.{◌≡◌, refl, ℕ, zero, suc, List, [], ◌∷◌, Text, codes, Map, ok, Result}
use lumencast_rs.Protocol.Json.{Value}
use lumencast_rs.Conformance.Control.{SetupResponse, setup, reset, state}
use lumencast_rs.Conformance.Setup.{setup_request}
use lumencast_rs.Conformance.Player.{
  substitutions_of, run_scenario, run_steps, run_step, expect_frame, read_text_frame, check_state,
  await_silence,
}
use lumencast_rs.Conformance.Player.Sound.{PassAll, run_scenario_sound}
use lumencast_rs.Conformance.Fixtures.{
  toy_json, toy_bodies, toy_client, toy_socket, steps, scenario,
}

abbrev base : Text
base = codes "http:"

abbrev same : Text → Text
same t = t

scenario-passes :
    run_scenario toy_socket toy_client toy_json toy_bodies same base scenario [] 0 ≡ (3, ok tt)
unfolding run_scenario setup reset state setup_request run_steps run_step expect_frame
    read_text_frame lumencast_rs.Conformance.Matching.structural_match
    lumencast_rs.Conformance.Matching.match_members lumencast_rs.Conformance.Matching.match_string
    lumencast_rs.Conformance.Matching.value_eq
    lumencast_rs.Conformance.Matching.update_shadow_from_frame check_state await_silence
    lumencast_rs.Prelude.text_eq lumencast_rs.Prelude.lookup lumencast_rs.Prelude.insert
    lumencast_rs.Prelude.insert_all lumencast_rs.Protocol.Json.get
    lumencast_rs.Protocol.Json.insert_member lumencast_rs.Conformance.Placeholders.apply
    lumencast_rs.Conformance.Placeholders.apply_members
    lumencast_rs.Conformance.Placeholders.apply_to_map
    lumencast_rs.Conformance.Placeholders.replace_str
    lumencast_rs.Conformance.Placeholders.new_substitutions
    lumencast_rs.Conformance.Placeholders.insert_sorted_all
    lumencast_rs.Conformance.Placeholders.replace_each
    lumencast_rs.Conformance.Placeholders.longest_first
    lumencast_rs.Conformance.Setup.collect_hashes
scenario-passes = refl

run_scenario_sound_example :
    (resp : SetupResponse) × (w₁ : ℕ) × (w₂ : ℕ) × (w₃ : ℕ) × (shadow : Map Value) × (setup
        toy_client toy_json toy_bodies base
        (setup_request toy_json same scenario [])
        0
      ≡ (w₁, ok resp))
    × (toy_socket.connect resp.ws_url w₁ ≡ (w₂, ok tt))
    × (PassAll toy_json
        (substitutions_of toy_socket toy_client toy_json toy_bodies same base scenario [])
        toy_socket
        toy_client
        toy_bodies
        base
        0
        steps
        []
        w₂
        shadow
        w₃)
    × (reset toy_client toy_json toy_bodies base w₃ ≡ (3, ok tt))
run_scenario_sound_example =
    run_scenario_sound toy_socket toy_client toy_json toy_bodies same base scenario [] 0 3
      scenario-passes
