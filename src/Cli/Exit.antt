-- ===== src/Cli/Exit.antt =====
-- When the command reports success (main.rs).
use lumencast_rs.Prelude.{
  ℕ, ◌+◌, ◌<◌, ◌≡◌, refl, sym, subst, true, List, [], ◌∷◌, Text, Map, All, length, ok, arith,
}
use lumencast_rs.Protocol.Codec.{SerdeJson}
use lumencast_rs.Conformance.Scenario.{Scenario}
use lumencast_rs.Conformance.Control.{Client, Bodies}
use lumencast_rs.Conformance.Player.{Socket}
use lumencast_rs.Conformance.Harness.{
  Files, Config, Tally, all_passed, is_runtime, skip, run_one, run_all, run_filtered, start_tally,
}
use lumencast_rs.Cli.{verdict, exit_code, World}

module _ {W : Type 0} (socket : Socket W) (client : Client W) (sj : SerdeJson) (bodies : Bodies)
    (sha256 : Text → Text) (files : Files) where
  -- The tally after scenarios that are only skipped.
  abbrev IsSkipping :
      ℕ
      → Tally socket client sj bodies sha256 files
      → Tally socket client sj bodies sha256 files
      → Type 0
  IsSkipping n t u = (u.passed ≡ t.passed) × (u.skipped ≡ t.skipped + n) × (u.world ≡ t.world)

  run_one-skip :
      (base : Text) (tokens : Map Text) (s : Scenario)
      (t : Tally socket client sj bodies sha256 files)
      → is_runtime s.target ≡ true
      → run_one socket client sj bodies sha256 files base tokens s t
        ≡ skip socket client sj bodies sha256 files s t
  unfolding run_one
  run_one-skip base tokens s t h = rw h refl

  skipped_all :
      (base : Text) (tokens : Map Text) (ss : List Scenario)
      (t : Tally socket client sj bodies sha256 files)
      → All (λ s. is_runtime s.target ≡ true) ss
      → IsSkipping (length ss) t (run_all socket client sj bodies sha256 files base tokens ss t)
  unfolding run_all
  skipped_all base tokens [] t h = (refl, omega arith, refl)
  skipped_all base tokens (s ∷ ss) t h =
      let (p, k, w) =
        skipped_all base tokens ss (skip socket client sj bodies sha256 files s t) h.1 in
      subst
        (λ u.
          IsSkipping (length (s ∷ ss)) t
            (run_all socket client sj bodies sha256 files base tokens ss u))
        (sym (run_one-skip base tokens s t h.0)) (p, omega (arith, k), w)

  -- A run of which every scenario targets the runtime, and is skipped, succeeds: the exit code is 0,
  -- although nothing was executed and nothing passed.
  pub exit_code-skipped :
      (world : World) (config : Config) (w : W) (ss : List Scenario)
      → All (λ s. is_runtime s.target ≡ true) ss
      → 0 < length ss
      → ((run_filtered socket client sj bodies sha256 files config w ss).passed ≡ 0)
        × (exit_code socket client sj bodies sha256 files world (
              verdict socket client sj bodies sha256 files world
                (ok (run_filtered socket client sj bodies sha256 files config w ss)))
            ≡ 0)
  unfolding exit_code all_passed
  exit_code-skipped world config w ss h some_ =
      let (p, k, same) =
        skipped_all config.control_url config.tokens ss
          (start_tally socket client sj bodies sha256 files w) h in
      (p, ground (arith, p, k, some_))
