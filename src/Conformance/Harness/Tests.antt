-- ===== src/Conformance/Harness/Tests.antt =====
-- The harness at work (harness.rs).
use lumencast_rs.Prelude.{◌≡◌, ◌↔◌, ◌+◌, ◌≤◌, true, [], ◌∷◌, Text, map, All}
use lumencast_rs.Conformance.Harness.{Report, all_passed, run_filtered}
use lumencast_rs.Conformance.Harness.Laws.{
  name_of, is_passed, is_skipped, count_if, IsFine, run_filtered-Counts,
}
use lumencast_rs.Conformance.Fixtures.{
  toy_json, toy_bodies, toy_client, toy_socket, no_files, scenario, in_browser, config,
}

abbrev same : Text → Text
same t = t

abbrev ran : Report
ran =
    run_filtered toy_socket toy_client toy_json toy_bodies same no_files config 0
      (scenario ∷ in_browser ∷ [])

run_filtered-Counts_example :
    (map name_of ran.outcomes ≡ scenario.name ∷ in_browser.name ∷ [])
    × (ran.total ≡ 2)
    × (ran.passed ≡ count_if is_passed ran.outcomes)
    × (ran.skipped ≡ count_if is_skipped ran.outcomes)
    × (ran.passed + ran.skipped ≤ ran.total)
    × ((all_passed ran ≡ true) ↔ All IsFine ran.outcomes)
run_filtered-Counts_example =
    run_filtered-Counts toy_socket toy_client toy_json toy_bodies same no_files config 0
      (scenario ∷ in_browser ∷ [])
