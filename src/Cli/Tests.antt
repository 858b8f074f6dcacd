-- ===== src/Cli/Tests.antt =====
-- The command at work (main.rs).
use lumencast_rs.Prelude.{◌≡◌, refl, ◌↔◌, false, [], ◌∷◌, none, some, Any, codes, err, ok, arith}
use lumencast_rs.Conformance.Harness.{run_filtered}
use lumencast_rs.Conformance.Fixtures.{
  toy_json, toy_bodies, toy_client, toy_socket, no_files, in_browser, config,
}
use lumencast_rs.Cli.{DirPath, World, scenario_dir_candidates, verdict, exit_code}
use lumencast_rs.Cli.Bases.{IsBase}
use lumencast_rs.Cli.Candidates.{IsDistinct, IsPlace, scenario_dir_candidates_iff}
use lumencast_rs.Cli.Exit.{exit_code-skipped}

abbrev home : DirPath
home = codes "home" ∷ codes "rs" ∷ []

scenario_dir_candidates_iff_example :
    IsDistinct (scenario_dir_candidates (some home) (some home))
    × ((c : DirPath)
        → Any (λ d. d ≡ c) (scenario_dir_candidates (some home) (some home))
          ↔ ((b : DirPath) × IsBase (some home) (some home) b × IsPlace c b))
scenario_dir_candidates_iff_example = scenario_dir_candidates_iff (some home) (some home)

abbrev nowhere : World
nowhere = record {
  is_dir = λ d. false;
  protocol_repo = none;
  cwd = none;
  exe_dir = none;
  read_tokens = λ p. err (codes "no");
  path_text = λ p. [];
}

exit_code-skipped_example :
    ((run_filtered toy_socket toy_client toy_json toy_bodies
        (λ t. t)
        no_files
        config
        0
        (in_browser ∷ [])).passed
      ≡ 0)
    × (exit_code toy_socket toy_client toy_json toy_bodies
          (λ t. t)
          no_files
          nowhere
          (verdict toy_socket toy_client toy_json toy_bodies
            (λ t. t)
            no_files
            nowhere
            (ok (
              run_filtered toy_socket toy_client toy_json toy_bodies
                (λ t. t)
                no_files
                config
                0
                (in_browser ∷ []))))
        ≡ 0)
exit_code-skipped_example =
    exit_code-skipped toy_socket toy_client toy_json toy_bodies (λ t. t) no_files nowhere config 0
      (in_browser ∷ []) (refl, tt) (omega arith)
