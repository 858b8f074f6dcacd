-- ===== src/Cli.antt =====
-- crates/lumencast-cli/src/main.rs: the `conformance` command. A path is the list of its components;
-- the file system, the environment and the arguments that clap has read are parameters.
pub mod Bases
pub mod Candidates
pub mod Directory
pub mod Exit
mod Tests
use lumencast_rs.Prelude.{
  ℕ, zero, suc, ◌==◌, Bool, true, false, not, ◌&&◌, List, [], ◌∷◌, ◌++◌, Option, none, some, Text,
  codes, text_eq, Map, map, any, is_empty, if◌then◌else◌, Result, ok, err,
}
use lumencast_rs.Protocol.Codec.{SerdeJson}
use lumencast_rs.Conformance.Scenario.{Tag, required, recommended, extended}
use lumencast_rs.Conformance.Control.{Client, Bodies}
use lumencast_rs.Conformance.Player.{Socket}
use lumencast_rs.Conformance.Harness.{
  Files, Config, directory, Report, HarnessError, all_passed, run,
}

abbrev pub DirPath : Type 0
DirPath = List Text

unfoldable pub path_eq : DirPath → DirPath → Bool
path_eq [] [] = true
path_eq (a ∷ p) (b ∷ q) = text_eq a b && path_eq p q
path_eq _ _ = false

abbrev scenarios_rel : DirPath
scenarios_rel = codes "conformance" ∷ codes "v1" ∷ codes "scenarios" ∷ []

-- `Path::ancestors`: the path, its parent and so on to the root.
unfoldable pub ancestors : DirPath → List DirPath
ancestors [] = [] ∷ []
ancestors (a ∷ p) = map (◌∷◌ a) (ancestors p) ++ [] ∷ []

abbrev pub take {ℓ} : {A : Type ℓ} → ℕ → List A → List A
take zero xs = []
take (suc n) [] = []
take (suc n) (x ∷ xs) = x ∷ take n xs

abbrev pub ancestors_of : ℕ → Option DirPath → List DirPath
ancestors_of n none = []
ancestors_of n (some p) = take n (ancestors p)

unfoldable pub bases : (cwd exe_dir : Option DirPath) → List DirPath
bases cwd exe_dir = ancestors_of 4 cwd ++ ancestors_of 6 exe_dir

-- Inside a checkout of the protocol, or next to one.
abbrev pub direct : DirPath → DirPath
direct base = base ++ scenarios_rel

abbrev pub sibling : DirPath → DirPath
sibling base = (base ++ codes "lumencast-protocol" ∷ []) ++ scenarios_rel

unfoldable pub push_new : DirPath → List DirPath → List DirPath
push_new c out = if any (path_eq c) out then out else out ++ c ∷ []

unfoldable pub push_candidates : List DirPath → List DirPath → List DirPath
push_candidates [] out = out
push_candidates (base ∷ rest) out =
    push_candidates rest (push_new (sibling base) (push_new (direct base) out))

unfoldable pub scenario_dir_candidates : (cwd exe_dir : Option DirPath) → List DirPath
scenario_dir_candidates cwd exe_dir = push_candidates (bases cwd exe_dir) []

pub data CliError : Type 0 where
  no_control_url : CliError
  tokens_error : Text → CliError
  not_a_directory : DirPath → CliError
  repo_not_a_directory : DirPath → CliError
  no_directory : (tried : List DirPath) → CliError
  harness : HarnessError → CliError
  nothing_executed : CliError

-- What the process is given.
pub record World : Type 0 where
  pub is_dir : DirPath → Bool
  pub protocol_repo : Option DirPath
  pub cwd : Option DirPath
  pub exe_dir : Option DirPath
  pub read_tokens : DirPath → Result Text (Map Text)
  pub path_text : DirPath → Text

unfoldable pub first_dir : (DirPath → Bool) → List DirPath → Option DirPath
first_dir is_dir [] = none
first_dir is_dir (c ∷ cs) = if is_dir c then some c else first_dir is_dir cs

abbrev pub or_no_directory : List DirPath → Option DirPath → Result CliError DirPath
or_no_directory tried none = err (no_directory tried)
or_no_directory tried (some dir) = ok dir

abbrev pub discover : World → Option DirPath → Result CliError DirPath
discover world (some repo) =
    if not (world.is_dir (direct repo))
    then err (repo_not_a_directory (direct repo))
    else ok (direct repo)
discover world none =
    let candidates = scenario_dir_candidates world.cwd world.exe_dir in
    or_no_directory candidates (first_dir world.is_dir candidates)

unfoldable pub resolve_scenarios_dir : World → Option DirPath → Result CliError DirPath
resolve_scenarios_dir world (some dir) =
    if not (world.is_dir dir) then err (not_a_directory dir) else ok dir
resolve_scenarios_dir world none = discover world world.protocol_repo

abbrev default_tokens : Map Text
default_tokens =
    (codes "$TOKEN_INVALID", codes "interop-tok-invalid-7f3a")
    ∷ (codes "$TOKEN_OPERATOR", codes "interop-tok-operator-7f3a")
    ∷ (codes "$TOKEN_SERVICE", codes "interop-tok-service-7f3a")
    ∷ (codes "$TOKEN_TEST", codes "interop-tok-test-7f3a")
    ∷ (codes "$TOKEN_VIEWER", codes "interop-tok-viewer-7f3a")
    ∷ []

abbrev or_tokens_error : Result Text (Map Text) → Result CliError (Map Text)
or_tokens_error (ok tokens) = ok tokens
or_tokens_error (err e) = err (tokens_error e)

unfoldable load_tokens : World → Option DirPath → Result CliError (Map Text)
load_tokens world none = ok default_tokens
load_tokens world (some p) = or_tokens_error (world.read_tokens p)

pub record ConformanceArgs : Type 0 where
  pub server : Text
  pub control_url : Option Text
  pub scenarios : Option DirPath
  pub scenario : Option Text
  pub tag : List Tag
  pub tokens : Option DirPath

abbrev tags_or_required : List Tag → List Tag
tags_or_required [] = required ∷ []
tags_or_required (t ∷ ts) = t ∷ ts

module _ {W : Type 0} (socket : Socket W) (client : Client W) (sj : SerdeJson) (bodies : Bodies)
    (sha256 : Text → Text) (files : Files) (world : World) where
  -- An empty run is an error.
  abbrev pub verdict : Result HarnessError Report → Result CliError Bool
  verdict (err e) = err (harness e)
  verdict (ok report) = if report.total == 0 then err nothing_executed else ok (all_passed report)

  abbrev with_dir :
      ConformanceArgs → Text → Map Text → W → Result CliError DirPath → Result CliError Bool
  with_dir args url tokens w (err e) = err e
  with_dir args url tokens w (ok dir) = verdict (
      run socket client sj bodies sha256 files
        (record {
          ws_url = args.server;
          control_url = url;
          tags = tags_or_required args.tag;
          scenario_filter = args.scenario;
          tokens = tokens;
          scenarios = directory (world.path_text dir);
        })
        w)

  abbrev with_tokens :
      ConformanceArgs → Text → W → Result CliError (Map Text) → Result CliError Bool
  with_tokens args url w (err e) = err e
  with_tokens args url w (ok tokens) =
      with_dir args url tokens w (resolve_scenarios_dir world args.scenarios)

  abbrev with_control : ConformanceArgs → W → Option Text → Result CliError Bool
  with_control args w none = err no_control_url
  with_control args w (some url) = with_tokens args url w (load_tokens world args.tokens)

  unfoldable run_conformance : ConformanceArgs → W → Result CliError Bool
  run_conformance args w = with_control args w args.control_url

  -- The exit code of the command in `main`.
  unfoldable pub exit_code : Result CliError Bool → ℕ
  exit_code (ok true) = 0
  exit_code (ok false) = 1
  exit_code (err e) = 2
