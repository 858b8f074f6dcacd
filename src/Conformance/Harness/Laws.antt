-- ===== src/Conformance/Harness/Laws.antt =====
-- The report of a conformance run counts its outcomes (harness.rs).
use lumencast_rs.Prelude.{
  ℕ, suc, ◌+◌, ◌≤◌, ◌≡◌, ◌↔◌, refl, sym, ap, subst, ◌∙◌, Bool, true, false, ◌&&◌, ◌||◌, List, [],
  ◌∷◌, ◌++◌, append_assoc, append-nil, none, some, Text, Map, map, length, All, All-append, ==_iff,
  if◌then◌else◌, if-cases, Result, ok, err, arith,
}
use lumencast_rs.Protocol.Codec.{SerdeJson}
use lumencast_rs.Conformance.Scenario.{Scenario}
use lumencast_rs.Conformance.Control.{Client, Bodies}
use lumencast_rs.Conformance.Player.{PlayerError, Socket, run_scenario}
use lumencast_rs.Conformance.Harness.{
  Files, Config, runtime_targeted, player_failed, Outcome, all_passed, Tally, is_runtime, tally,
  run_one, run_all, run_filtered, start_tally,
}

-- How many outcomes pass a test.
abbrev pub count_if : (Outcome → Bool) → List Outcome → ℕ
count_if p [] = 0
count_if p (o ∷ os) = (if p o then 1 else 0) + count_if p os

abbrev pub is_passed : Outcome → Bool
is_passed o = o.passed

abbrev pub is_skipped : Outcome → Bool
is_skipped o = o.skipped

-- Not both passed and skipped; and either.
abbrev IsExclusive : Outcome → Type 0
IsExclusive o = (o.passed && o.skipped) ≡ false

abbrev pub IsFine : Outcome → Type 0
IsFine o = (o.passed || o.skipped) ≡ true

abbrev pub name_of : Outcome → Text
name_of o = o.name

abbrev scenario_name : Scenario → Text
scenario_name s = s.name

count_if-snoc :
    (p : Outcome → Bool) (xs : List Outcome) (o : Outcome)
    → count_if p (xs ++ o ∷ []) ≡ count_if p xs + (if p o then 1 else 0)
count_if-snoc p [] o = omega arith
count_if-snoc p (x ∷ xs) o = omega (arith, count_if-snoc p xs o)

map-snoc {ℓ κ} :
    {A : Type ℓ} {B : Type κ} (f : A → B) (xs : List A) (a : A)
    → map f (xs ++ a ∷ []) ≡ map f xs ++ f a ∷ []
map-snoc f [] a = refl
map-snoc f (x ∷ xs) a = ap (◌∷◌ (f x)) (map-snoc f xs a)

-- Outcomes that are passed or skipped are as many as there are, exactly if none failed.
IsFine-iff :
    (os : List Outcome)
    → All IsExclusive os
    → (count_if is_passed os + count_if is_skipped os ≤ length os)
      × ((count_if is_passed os + count_if is_skipped os ≡ length os) ↔ All IsFine os)
IsFine-iff [] h = (omega arith, (λ e. tt, λ a. refl))
IsFine-iff (o ∷ os) h = step o os h.0 (IsFine-iff os h.1)
  where
    step :
        (o : Outcome) (os : List Outcome)
        → IsExclusive o
        → (count_if is_passed os + count_if is_skipped os ≤ length os)
          × ((count_if is_passed os + count_if is_skipped os ≡ length os) ↔ All IsFine os)
        → (count_if is_passed (o ∷ os) + count_if is_skipped (o ∷ os) ≤ length (o ∷ os))
          × ((count_if is_passed (o ∷ os) + count_if is_skipped (o ∷ os) ≡ length (o ∷ os))
              ↔ All IsFine (o ∷ os))
    step o os x (le, rest) = (
      ground (arith, le),
      (
        λ e. (ground (arith, le), rest.0 (ground (arith, le))),
        λ a. let same = rest.1 a.1 in let fine = a.0 in ground arith,
      ),
    )

length-map {ℓ κ} :
    {A : Type ℓ} {B : Type κ} (f : A → B) (xs : List A) → length (map f xs) ≡ length xs
length-map f [] = refl
length-map f (x ∷ xs) = ap suc (length-map f xs)

module _ {W : Type 0} (socket : Socket W) (client : Client W) (sj : SerdeJson) (bodies : Bodies)
    (sha256 : Text → Text) (files : Files) where
  -- The counters are those of the outcomes, which are of the scenarios run so far.
  record Counts (names : List Text) (t : Tally socket client sj bodies sha256 files) : Type 0 where
    passes : t.passed ≡ count_if is_passed t.outcomes
    skips : t.skipped ≡ count_if is_skipped t.outcomes
    exclusive : All IsExclusive t.outcomes
    named : map name_of t.outcomes ≡ names

  run_one-Counts :
      (base : Text) (tokens : Map Text) (s : Scenario) (names : List Text)
      (t : Tally socket client sj bodies sha256 files)
      → Counts names t
      → Counts (names ++ s.name ∷ []) (run_one socket client sj bodies sha256 files base tokens s t)
  unfolding run_one
  run_one-Counts base tokens s names t c =
      if-cases (Counts (names ++ s.name ∷ [])) (is_runtime s.target) _ _
        (λ skips_. record {
          passes = omega (arith, c.passes, count_if-snoc is_passed t.outcomes (skipped_ s));
          skips = omega (arith, c.skips, count_if-snoc is_skipped t.outcomes (skipped_ s));
          exclusive = All-append IsExclusive t.outcomes _ c.exclusive (refl, tt);
          named = map-snoc name_of t.outcomes (skipped_ s) ∙ ap (λ ns. ns ++ s.name ∷ []) c.named;
        })
        (λ runs. tallied (run_scenario socket client sj bodies sha256 base s tokens t.world))
    where
      skipped_ : Scenario → Outcome
      skipped_ s = record {
        name = s.name;
        passed = false;
        skipped = true;
        message = some runtime_targeted;
      }

      tallied :
          (r : W × Result PlayerError (Unit {0}))
          → Counts (names ++ s.name ∷ []) (tally socket client sj bodies sha256 files base s t r)
      tallied (w, ok done) =
          let o : Outcome = record {
            name = s.name;
            passed = true;
            skipped = false;
            message = none;
          } in
          record {
            passes = omega (arith, c.passes, count_if-snoc is_passed t.outcomes o);
            skips = omega (arith, c.skips, count_if-snoc is_skipped t.outcomes o);
            exclusive = All-append IsExclusive t.outcomes _ c.exclusive (refl, tt);
            named = map-snoc name_of t.outcomes o ∙ ap (λ ns. ns ++ s.name ∷ []) c.named;
          }
      tallied (w, err e) =
          let o : Outcome = record {
            name = s.name;
            passed = false;
            skipped = false;
            message = some (player_failed e);
          } in
          record {
            passes = omega (arith, c.passes, count_if-snoc is_passed t.outcomes o);
            skips = omega (arith, c.skips, count_if-snoc is_skipped t.outcomes o);
            exclusive = All-append IsExclusive t.outcomes _ c.exclusive (refl, tt);
            named = map-snoc name_of t.outcomes o ∙ ap (λ ns. ns ++ s.name ∷ []) c.named;
          }

  run_all-Counts :
      (base : Text) (tokens : Map Text) (ss : List Scenario) (names : List Text)
      (t : Tally socket client sj bodies sha256 files)
      → Counts names t
      → Counts
          (names ++ map scenario_name ss)
          (run_all socket client sj bodies sha256 files base tokens ss t)
  unfolding run_all
  run_all-Counts base tokens [] names t c = subst (λ ns. Counts ns t) (sym (append-nil names)) c
  run_all-Counts base tokens (s ∷ ss) names t c =
      let u = run_one socket client sj bodies sha256 files base tokens s t in
      subst (λ ns. Counts ns (run_all socket client sj bodies sha256 files base tokens ss u))
        (append_assoc names (s.name ∷ []) (map scenario_name ss))
        (run_all-Counts base tokens ss (names ++ s.name ∷ []) u
          (run_one-Counts base tokens s names t c))

  -- A report has an outcome for each scenario that was run, in order; its counters are those of its
  -- outcomes and never exceed the total; and it says that all passed exactly if no outcome is a failure.
  pub run_filtered-Counts :
      (config : Config) (w : W) (ss : List Scenario)
      → let r = run_filtered socket client sj bodies sha256 files config w ss in
        (map name_of r.outcomes ≡ map scenario_name ss)
        × (r.total ≡ length ss)
        × (r.passed ≡ count_if is_passed r.outcomes)
        × (r.skipped ≡ count_if is_skipped r.outcomes)
        × (r.passed + r.skipped ≤ r.total)
        × ((all_passed r ≡ true) ↔ All IsFine r.outcomes)
  unfolding all_passed
  run_filtered-Counts config w ss =
      let t =
        run_all socket client sj bodies sha256 files config.control_url config.tokens ss
          (start_tally socket client sj bodies sha256 files w) in
      let c =
        run_all-Counts config.control_url config.tokens ss []
          (start_tally socket client sj bodies sha256 files w)
          (record { passes = refl; skips = refl; exclusive = tt; named = refl }) in
      let (le, iff) = IsFine-iff t.outcomes c.exclusive in
      let same : length t.outcomes ≡ length ss =
        sym (length-map name_of t.outcomes) ∙ ap length c.named ∙ length-map scenario_name ss in
      (
        c.named,
        refl,
        c.passes,
        c.skips,
        omega (arith, le, same, c.passes, c.skips),
        (
          λ e. iff.0 (omega (arith, (==_iff _ _).0 e, same, c.passes, c.skips)),
          λ a. (==_iff _ _).1 (omega (arith, iff.1 a, same, c.passes, c.skips)),
        ),
      )
