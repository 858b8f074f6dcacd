-- ===== src/Conformance/Player/Sound.antt =====
-- A scenario passes only if each of its steps does (`run_scenario` of player.rs).
use lumencast_rs.Prelude.{ℕ, ◌+◌, ◌≡◌, List, [], ◌∷◌, Text, Map, ok}
use lumencast_rs.Protocol.Json.{Value}
use lumencast_rs.Protocol.Codec.{SerdeJson}
use lumencast_rs.Conformance.Placeholders.{Substitutions}
use lumencast_rs.Conformance.Scenario.{Scenario, Step}
use lumencast_rs.Conformance.Effects.{
  ◌>>=◌, mapping, after-eq-ok, mapping_then, pure-eq-ok, mapping-eq-ok,
}
use lumencast_rs.Conformance.Control.{Client, Bodies, SetupResponse, setup, reset}
use lumencast_rs.Conformance.Setup.{setup_request}
use lumencast_rs.Conformance.Player.{
  control, Socket, run_step, run_steps, substitutions_of, run_scenario,
}
use lumencast_rs.Conformance.Player.Steps.{Passes, run_step_sound}

module _ (sj : SerdeJson) (subs : Substitutions) {W : Type 0} (socket : Socket W)
    (client : Client W) (bodies : Bodies) (base : Text) where
  -- Each step passes, in order, each in the world that the one before it left.
  unfoldable pub PassAll : ℕ → List Step → Map Value → W → Map Value → W → Type 0
  unfolding Passes
  PassAll idx [] shadow w shadow' w' = (w ≡ w') × (shadow' ≡ shadow)
  PassAll idx (step ∷ steps) shadow w shadow' w' =
      (mid : Map Value) × (w₁ : W) × Passes sj subs socket client bodies base idx step shadow w mid
        w₁
      × PassAll (idx + 1) steps mid w₁ shadow' w'

  run_steps_sound :
      (idx : ℕ) (steps : List Step) (shadow shadow' : Map Value) (w w' : W)
      → run_steps sj subs socket client bodies base idx steps shadow w ≡ (w', ok shadow')
      → PassAll idx steps shadow w shadow' w'
  unfolding run_steps PassAll
  run_steps_sound idx [] shadow shadow' w w' h = pure-eq-ok shadow shadow' w w' h
  run_steps_sound idx (step ∷ steps) shadow shadow' w w' h =
      let (mid, w₁, one, rest) =
        after-eq-ok (run_steps sj subs socket client bodies base (idx + 1) steps) w w' shadow'
          (run_step sj subs socket client bodies base idx step shadow w) h in
      (
        mid,
        w₁,
        run_step_sound sj subs socket client bodies base idx step shadow mid w w₁ one,
        run_steps_sound (idx + 1) steps mid shadow' w₁ w' rest,
      )

module _ {W : Type 0} (socket : Socket W) (client : Client W) (sj : SerdeJson) (bodies : Bodies)
    (sha256 : Text → Text) (base : Text) where
  -- A scenario passes only if the server accepted the setup, the connection was opened where the
  -- server said, every step passed in order, and the server was reset. A frame that the server was to
  -- send was read and matches its template; an expected state agrees with the shadow that the frames
  -- make, or with the state that the server reports; where no frame was to come none came.
  pub run_scenario_sound :
      (scenario : Scenario) (tokens : Map Text) (w w' : W)
      → run_scenario socket client sj bodies sha256 base scenario tokens w ≡ (w', ok tt)
      → (resp : SetupResponse) × (w₁ : W) × (w₂ : W) × (w₃ : W) × (shadow : Map Value) × (setup
            client sj bodies base
            (setup_request sj sha256 scenario tokens)
            w
          ≡ (w₁, ok resp))
        × (socket.connect resp.ws_url w₁ ≡ (w₂, ok tt))
        × (PassAll sj
            (substitutions_of socket client sj bodies sha256 base scenario tokens)
            socket
            client
            bodies
            base
            0
            scenario.steps
            []
            w₂
            shadow
            w₃)
        × (reset client sj bodies base w₃ ≡ (w', ok tt))
  unfolding run_scenario
  run_scenario_sound scenario tokens w w' h =
      let subs = substitutions_of socket client sj bodies sha256 base scenario tokens in
      let steps =
        λ (u : Unit {0}). run_steps sj subs socket client bodies base 0 scenario.steps [] in
      let ends = λ (m : Map Value). mapping control (reset client sj bodies base) in
      let (resp, w₁, accepted, h₁) =
        mapping_then (λ (r : SetupResponse). socket.connect r.ws_url >>= λ u. (steps u >>= ends)) w
          w' tt control (setup client sj bodies base (setup_request sj sha256 scenario tokens)) h in
      let (done, w₂, opened, h₂) =
        after-eq-ok (λ u. (steps u >>= ends)) w₁ w' tt (socket.connect resp.ws_url w₁) h₁ in
      let (shadow, w₃, passed, h₃) =
        after-eq-ok ends w₂ w' tt
          (run_steps sj subs socket client bodies base 0 scenario.steps [] w₂) h₂ in
      (
        resp,
        w₁,
        w₂,
        w₃,
        shadow,
        accepted,
        opened,
        run_steps_sound sj subs socket client bodies base 0 scenario.steps [] shadow w₂ w₃ passed,
        mapping-eq-ok control (reset client sj bodies base) w₃ w' tt h₃,
      )
