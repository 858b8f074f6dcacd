-- ===== src/Conformance/Harness.antt =====
-- crates/lumencast-conformance/src/harness.rs. The file system and the parser of a scenario file are
-- parameters. `filter_map(Result::ok)` has dropped the entries of a directory that cannot be read.
pub mod Laws
mod Tests
use lumencast_rs.Prelude.{
  ℕ, ◌+◌, ◌-◌, Bool, true, false, not, ◌&&◌, ◌||◌, List, [], ◌∷◌, ◌++◌, Option, none, some, Text,
  codes, text_eq, Map, map, length, drop, keep, is_empty, ltb, ◌==◌, if◌then◌else◌, Result, ok, err,
}
use lumencast_rs.Protocol.Codec.{SerdeJson}
use lumencast_rs.Conformance.Placeholders.{text_lt}
use lumencast_rs.Conformance.Scenario.{
  Tag, required, recommended, extended, Target, server, runtime, any, Scenario,
}
use lumencast_rs.Prelude.{any as has_tag}
use lumencast_rs.Conformance.Effects.{Eff}
use lumencast_rs.Conformance.Control.{Client, Bodies, reset}
use lumencast_rs.Conformance.Player.{PlayerError, Socket, run_scenario}

pub data ScenariosSource : Type 0 where
  directory : Text → ScenariosSource
  inline : List (Text × Text) → ScenariosSource
  empty : ScenariosSource

pub record Config : Type 0 where
  pub ws_url : Text
  pub control_url : Text
  pub tags : List Tag
  pub scenario_filter : Option Text
  pub tokens : Map Text
  pub scenarios : ScenariosSource

pub data Note : Type 0 where
  runtime_targeted : Note
  player_failed : PlayerError → Note

pub record Outcome : Type 0 where
  pub name : Text
  pub passed : Bool
  pub skipped : Bool
  pub message : Option Note

pub record Report : Type 0 where
  pub total : ℕ
  pub passed : ℕ
  pub skipped : ℕ
  pub outcomes : List Outcome

unfoldable pub all_passed : Report → Bool
all_passed r = r.passed + r.skipped == r.total

pub data HarnessError : Type 0 where
  parse driver : Text → HarnessError

pub record Files : Type 0 where
  pub read_dir : Text → Result Text (List Text)
  pub read_to_string : Text → Text → Result Text Text
  pub parse_yaml : Text → Result Text Scenario

-- `extension() == Some("yaml")` of a file name: a stem stands before the dot.
abbrev is_yaml : Text → Bool
is_yaml name = ltb 5 (length name) && text_eq (drop (length name - 5) name) (codes ".yaml")

unfoldable pub insert_name : Text → List Text → List Text
insert_name n [] = n ∷ []
insert_name n (m ∷ ms) = if text_lt m n then m ∷ insert_name n ms else n ∷ m ∷ ms

unfoldable pub sort_names : List Text → List Text
sort_names [] = []
sort_names (n ∷ ns) = insert_name n (sort_names ns)

-- `collect` of results: the first error wins.
abbrev pub collected {ℓ} :
    {A : Type ℓ}
    → Result HarnessError A
    → Result HarnessError (List A)
    → Result HarnessError (List A)
collected (err e) rest = err e
collected (ok a) (err e) = err e
collected (ok a) (ok rest) = ok (a ∷ rest)

module _ (files : Files) where
  abbrev or_parse {ℓ} : {A : Type ℓ} → Result Text A → Result HarnessError A
  or_parse (ok a) = ok a
  or_parse (err e) = err (parse e)

  abbrev parse_read : Result Text Text → Result HarnessError Scenario
  parse_read (err e) = err (driver e)
  parse_read (ok t) = or_parse (files.parse_yaml t)

  unfoldable pub load_inline : List (Text × Text) → Result HarnessError (List Scenario)
  load_inline [] = ok []
  load_inline ((name, yaml) ∷ list) =
      collected (or_parse (files.parse_yaml yaml)) (load_inline list)

  unfoldable pub load_files : Text → List Text → Result HarnessError (List Scenario)
  load_files dir [] = ok []
  load_files dir (path ∷ paths) =
      collected (parse_read (files.read_to_string dir path)) (load_files dir paths)

  abbrev load_entries : Text → Result Text (List Text) → Result HarnessError (List Scenario)
  load_entries dir (err e) = err (driver e)
  load_entries dir (ok entries) = load_files dir (sort_names (keep is_yaml entries))

  unfoldable pub load_scenarios : ScenariosSource → Result HarnessError (List Scenario)
  load_scenarios empty = ok []
  load_scenarios (inline list) = load_inline list
  load_scenarios (directory dir) = load_entries dir (files.read_dir dir)

abbrev tag_eq : Tag → Tag → Bool
tag_eq required required = true
tag_eq recommended recommended = true
tag_eq extended extended = true
tag_eq _ _ = false

abbrev is_named : Option Text → Scenario → Bool
is_named none s = true
is_named (some name) s = text_eq s.name name

unfoldable pub filter_scenarios : List Scenario → Config → List Scenario
filter_scenarios scenarios config =
    keep (is_named config.scenario_filter)
      (keep (λ s. is_empty config.tags || has_tag (tag_eq s.tag) config.tags) scenarios)

abbrev pub is_runtime : Target → Bool
is_runtime runtime = true
is_runtime _ = false

module _ {W : Type 0} (socket : Socket W) (client : Client W) (sj : SerdeJson) (bodies : Bodies)
    (sha256 : Text → Text) (files : Files) where
  -- The counters and the outcomes of `run`, with the world.
  pub record Tally : Type 0 where
    pub world : W
    pub passed : ℕ
    pub skipped : ℕ
    pub outcomes : List Outcome

  abbrev pub skip : Scenario → Tally → Tally
  skip s t = record t {
    skipped = t.skipped + 1;
    outcomes =
        t.outcomes
        ++ record { name = s.name; passed = false; skipped = true; message = some runtime_targeted }
          ∷ [];
  }

  -- A scenario that failed is followed by a reset, whose result is ignored.
  abbrev pub tally : Text → Scenario → Tally → W × Result PlayerError (Unit {0}) → Tally
  tally base s t (w, ok done) = record t {
    world = w;
    passed = t.passed + 1;
    outcomes =
        t.outcomes ++ record { name = s.name; passed = true; skipped = false; message = none } ∷ [];
  }
  tally base s t (w, err e) = record t {
    world = (reset client sj bodies base w).0;
    outcomes =
        t.outcomes
        ++ record {
          name = s.name;
          passed = false;
          skipped = false;
          message = some (player_failed e);
        }
          ∷ [];
  }

  unfoldable pub run_one : Text → Map Text → Scenario → Tally → Tally
  run_one base tokens s t =
      if is_runtime s.target
      then skip s t
      else tally base s t (run_scenario socket client sj bodies sha256 base s tokens t.world)

  unfoldable pub run_all : Text → Map Text → List Scenario → Tally → Tally
  run_all base tokens [] t = t
  run_all base tokens (s ∷ ss) t = run_all base tokens ss (run_one base tokens s t)

  abbrev report_of : ℕ → Tally → Report
  report_of total t = record {
    total = total;
    passed = t.passed;
    skipped = t.skipped;
    outcomes = t.outcomes;
  }

  abbrev pub start_tally : W → Tally
  start_tally w = record { world = w; passed = 0; skipped = 0; outcomes = [] }

  abbrev pub run_filtered : Config → W → List Scenario → Report
  run_filtered config w scenarios =
      report_of (length scenarios)
        (run_all config.control_url config.tokens scenarios (start_tally w))

  abbrev run_loaded : Config → W → Result HarnessError (List Scenario) → Result HarnessError Report
  run_loaded config w (err e) = err e
  run_loaded config w (ok scenarios) =
      ok (run_filtered config w (filter_scenarios scenarios config))

  unfoldable pub run : Config → W → Result HarnessError Report
  run config w = run_loaded config w (load_scenarios files config.scenarios)
