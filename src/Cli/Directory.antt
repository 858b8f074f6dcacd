-- ===== src/Cli/Directory.antt =====
-- The directory of scenarios that the command chooses (`resolve_scenarios_dir`, main.rs).
use lumencast_rs.Prelude.{
  ◌≡◌, inl, inr, sym, ap, ◌∙◌, Bool, true, Bool-cases, List, [], ◌∷◌, Option, none, some, Any,
  Result, ok, err-ne-ok,
}
use lumencast_rs.Cli.{
  DirPath, direct, scenario_dir_candidates, World, CliError, first_dir, or_no_directory, discover,
  resolve_scenarios_dir,
}

first_dir_sound :
    (is_dir : DirPath → Bool) (cs : List DirPath) (d : DirPath)
    → first_dir is_dir cs ≡ some d
    → (is_dir d ≡ true) × Any (λ c. c ≡ d) cs
unfolding first_dir
first_dir_sound is_dir [] d h = absurd (cc)
first_dir_sound is_dir (c ∷ cs) d h = elim (Bool-cases (is_dir c)) [
  | inl there ↦
      let found : some c ≡ some d = rw there at h in
      let same : c ≡ d = cc in (ap is_dir (sym same) ∙ there, inl same)
  | inr missing ↦
      let (there, later) = first_dir_sound is_dir cs d (rw missing at h) in (there, inr later)
]

-- The directory that the arguments and the environment call for.
abbrev IsFound : World → Option DirPath → DirPath → Type 0
IsFound world (some repo) d = d ≡ direct repo
IsFound world none d = Any (λ c. c ≡ d) (scenario_dir_candidates world.cwd world.exe_dir)

abbrev IsChosen : World → Option DirPath → DirPath → Type 0
IsChosen world (some flag) d = d ≡ flag
IsChosen world none d = IsFound world world.protocol_repo d

abbrev found : DirPath → Result CliError DirPath
found d = ok d

discover-IsDir :
    (world : World) (repo : Option DirPath) (d : DirPath)
    → discover world repo ≡ ok d
    → (world.is_dir d ≡ true) × IsFound world repo d
discover-IsDir world (some r) d h = elim (Bool-cases (world.is_dir (direct r))) [
  | inl there ↦
      let same : found (direct r) ≡ ok d = rw there at h in
      let at : direct r ≡ d = cc in (ap world.is_dir (sym at) ∙ there, sym at)
  | inr missing ↦ absurd (err-ne-ok (rw missing at h))
]
discover-IsDir world none d h =
    let cs = scenario_dir_candidates world.cwd world.exe_dir in
    first_dir_sound world.is_dir cs d (chosen cs (first_dir world.is_dir cs) h)
  where
    chosen : (cs : List DirPath) (o : Option DirPath) → or_no_directory cs o ≡ ok d → o ≡ some d
    chosen cs none e = absurd (err-ne-ok e)
    chosen cs (some c) e = cc

-- Whatever directory of scenarios is chosen is a directory. It is the one that the flag names, if it
-- names one; else the one below the repository that the environment names, if it names one; else one
-- of the candidates: a wrong flag or variable is never made up for.
resolve_scenarios_dir-IsDir :
    (world : World) (flag : Option DirPath) (d : DirPath)
    → resolve_scenarios_dir world flag ≡ ok d
    → (world.is_dir d ≡ true) × IsChosen world flag d
unfolding resolve_scenarios_dir
resolve_scenarios_dir-IsDir world (some f) d h = elim (Bool-cases (world.is_dir f)) [
  | inl there ↦
      let same : found f ≡ ok d = rw there at h in
      let at : f ≡ d = cc in (ap world.is_dir (sym at) ∙ there, sym at)
  | inr missing ↦ absurd (err-ne-ok (rw missing at h))
]
resolve_scenarios_dir-IsDir world none d h = discover-IsDir world world.protocol_repo d h
