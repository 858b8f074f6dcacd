-- ===== src/Conformance/Player/Steps.antt =====
-- A step passes only if the server did what the step says (`run_step` of player.rs).
use lumencast_rs.Prelude.{
  ℕ, ◌≡◌, refl, ap, ap₂, ◌∙◌, ◌⊎◌, inl, inr, true, Bool-cases, List, none, some, Text, codes,
  text_eq, text_eq_iff, Map, Result, ok, err-ne-ok, map_err, map_err-eq-ok,
}
use lumencast_rs.Protocol.Json.{Value}
use lumencast_rs.Protocol.Codec.{SerdeJson}
use lumencast_rs.Conformance.Placeholders.{Substitutions, apply, apply_to_map, contains}
use lumencast_rs.Conformance.Scenario.{
  Step, client_sends, server_sends, expect_runtime_state, expect_server_state, expect_no_frame_for,
  expect_client_action, server_emits, unsupported, ClientAction,
}
use lumencast_rs.Conformance.Matching.{any_sentinel, structural_match, update_shadow_from_frame}
use lumencast_rs.Conformance.Matching.Laws.{Matches, structural_match_iff}
use lumencast_rs.Conformance.Effects.{
  ◌>>◌, pure, lift, mapping, after-eq-ok, lift_then, mapping_then, pure-eq-ok,
}
use lumencast_rs.Conformance.Control.{Client, Bodies, StateResponse, state, emit}
use lumencast_rs.Conformance.Player.{
  PlayerError, mismatch, control, ws, json, step_failed, Incoming, timed_out, ended, failed, text,
  close, other, Socket, check_state, match_frame, on_silence, on_close, emitted_pairs, parsed,
  received, read_text_frame, compared, expect_frame, await_silence, wanted_reason, run_action,
  run_step,
}
use lumencast_rs.Conformance.Player.Laws.{
  Agrees, IsQuiet, check_state_sound, on_silence_sound, on_close_sound,
}

module _ (sj : SerdeJson) (subs : Substitutions) {W : Type 0} (socket : Socket W)
    (client : Client W) (bodies : Bodies) (base : Text) where
  -- A text frame was read that reads as a value which matches the template, and the shadow has it.
  abbrev FrameMatches : Value → Map Value → W → Map Value → W → Type 0
  FrameMatches frame shadow w shadow' w' =
      (t : Text) × (v : Value) × (socket.next (some 5000) w ≡ (w', text t))
      × (sj.from_slice t ≡ ok v)
      × Matches (apply subs frame) v
      × (shadow' ≡ update_shadow_from_frame v shadow)

  -- The socket was closed for the reason that the action wants.
  abbrev ClosesFor : ClientAction → W → W → Type 0
  ClosesFor action w w' =
      (code : ℕ) × (got : Text) × (socket.next none w ≡ (w', close (some (code, got))))
      × ((wanted_reason sj subs action ≡ any_sentinel)
          ⊎ (contains got (wanted_reason sj subs action) ≡ true))

  -- What a step claims of the server, with the world and the shadow before and after.
  unfoldable pub Passes : ℕ → Step → Map Value → W → Map Value → W → Type 0
  Passes idx (client_sends frame) shadow w shadow' w' =
      (t : Text) × (sj.to_string (apply subs frame) ≡ ok t)
      × (socket.send t w ≡ (w', ok tt))
      × (shadow' ≡ shadow)
  Passes idx (server_sends frame) shadow w shadow' w' = FrameMatches frame shadow w shadow' w'
  Passes idx (expect_runtime_state expected) shadow w shadow' w' =
      Agrees (apply_to_map subs expected) shadow × (w ≡ w') × (shadow' ≡ shadow)
  Passes idx (expect_server_state expected) shadow w shadow' w' =
      (resp : StateResponse) × (state client sj bodies base w ≡ (w', ok resp))
      × Agrees (apply_to_map subs expected) resp.state
      × (shadow' ≡ shadow)
  Passes idx (expect_no_frame_for duration) shadow w shadow' w' =
      (i : Incoming) × (socket.next (some duration) w ≡ (w', i)) × IsQuiet i × (shadow' ≡ shadow)
  Passes idx (expect_client_action action) shadow w shadow' w' =
      (ClosesFor action w w' ⊎ ((action.action ≡ codes "reconnect") × (w ≡ w')))
      × (shadow' ≡ shadow)
  Passes idx (server_emits frame) shadow w shadow' w' =
      (pairs : List (Text × Value)) × (w₁ : W) × (emitted_pairs sj subs idx frame ≡ ok pairs)
      × (emit client sj bodies base pairs w ≡ (w₁, ok tt))
      × FrameMatches frame shadow w₁ shadow' w'
  Passes idx (unsupported kind body) shadow w shadow' w' = ⊥

  received_inv :
      {A : Type 0} (f : Incoming → Result PlayerError A) (p : W × Incoming) (w' : W) (a : A)
      → received sj subs socket client bodies base f p ≡ (w', ok a)
      → (i : Incoming) × (p ≡ (w', i)) × (f i ≡ ok a)
  received_inv f (w₁, i) w' a h = (i, cc, cc)

  parsed_inv :
      (idx timeout : ℕ) (i : Incoming) (v : Value)
      → parsed sj subs socket client bodies base idx timeout i ≡ ok v
      → (t : Text) × (i ≡ text t) × (sj.from_slice t ≡ ok v)
  parsed_inv idx timeout (text t) v h = (t, refl, map_err-eq-ok json (sj.from_slice t) h)
  parsed_inv idx timeout timed_out v h = absurd (err-ne-ok h)
  parsed_inv idx timeout ended v h = absurd (err-ne-ok h)
  parsed_inv idx timeout (failed e) v h = absurd (err-ne-ok h)
  parsed_inv idx timeout (close frame) v h = absurd (err-ne-ok h)
  parsed_inv idx timeout other v h = absurd (err-ne-ok h)

  expect_frame_sound :
      (idx : ℕ) (frame : Value) (shadow shadow' : Map Value) (w w' : W)
      → expect_frame sj subs socket client bodies base idx frame shadow w ≡ (w', ok shadow')
      → FrameMatches frame shadow w shadow' w'
  unfolding expect_frame read_text_frame
  expect_frame_sound idx frame shadow shadow' w w' h =
      let (v, w₁, read, h₁) =
        after-eq-ok (compared sj subs socket client bodies base idx frame shadow) w w' shadow'
          (read_text_frame sj subs socket client bodies base idx 5000 w) h in
      let (done, good, h₂) =
        lift_then (λ u. pure (update_shadow_from_frame v shadow)) w₁ w' shadow'
          (match_frame idx (apply subs frame) v) h₁ in
      let (there, same) = pure-eq-ok (update_shadow_from_frame v shadow) shadow' w₁ w' h₂ in
      let (i, at, h₃) =
        received_inv (parsed sj subs socket client bodies base idx 5000) _ w₁ v read in
      let (t, is_text_, from) = parsed_inv idx 5000 i v h₃ in
      (
        t,
        v,
        at ∙ ap₂ (λ a b. (a, b)) there is_text_,
        from,
        (structural_match_iff (apply subs frame) v).0 (
            map_err-eq-ok (λ d. step_failed idx (mismatch d))
              (structural_match (apply subs frame) v) good),
        same,
      )

  run_action_sound :
      (idx : ℕ) (action : ClientAction) (w w' : W)
      → run_action sj subs socket client bodies base idx action w ≡ (w', ok tt)
      → ClosesFor action w w' ⊎ ((action.action ≡ codes "reconnect") × (w ≡ w'))
  unfolding run_action
  run_action_sound idx action w w' h =
      elim (Bool-cases (text_eq action.action (codes "close-with-reason"))) [
        | inl closes ↦
            let (i, at, done) =
              received_inv (on_close idx (wanted_reason sj subs action)) (socket.next none w) w' tt
                (rw closes at h) in
            let (code, got, is_close, meets) =
              on_close_sound idx (wanted_reason sj subs action) i done in
            inl (code, got, at ∙ ap (λ j. (w', j)) is_close, meets)
        | inr not_close ↦ elim (Bool-cases (text_eq action.action (codes "reconnect"))) [
          | inl again ↦
              let stays : (w, ok tt) ≡ (w', nothing_failed) = rw (not_close, again) at h in
              inr ((text_eq_iff action.action (codes "reconnect")).0 again, ap (λ q. q.0) stays)
          | inr neither ↦ absurd (err-ne-ok (ap (λ q. q.1) (rw (not_close, neither) at h)))
        ]
      ]
    where
      nothing_failed : Result PlayerError (Unit {0})
      nothing_failed = ok tt

  -- A step passes only if the server did what the step says.
  pub run_step_sound :
      (idx : ℕ) (step : Step) (shadow shadow' : Map Value) (w w' : W)
      → run_step sj subs socket client bodies base idx step shadow w ≡ (w', ok shadow')
      → Passes idx step shadow w shadow' w'
  unfolding run_step Passes
  run_step_sound idx (client_sends frame) shadow shadow' w w' h =
      let (t, wrote, h₁) =
        lift_then (λ t. mapping ws (socket.send t) >> pure shadow) w w' shadow'
          (map_err json (sj.to_string (apply subs frame))) h in
      let (done, w₁, sent, h₂) =
        mapping_then (λ u. pure shadow) w w' shadow' ws (socket.send t) h₁ in
      let (there, same) = pure-eq-ok shadow shadow' w₁ w' h₂ in
      (
        t,
        map_err-eq-ok json (sj.to_string (apply subs frame)) wrote,
        sent ∙ ap (λ u. (u, ok tt)) there,
        same,
      )
  run_step_sound idx (server_sends frame) shadow shadow' w w' h =
      expect_frame_sound idx frame shadow shadow' w w' h
  run_step_sound idx (expect_runtime_state expected) shadow shadow' w w' h =
      let (done, good, h₁) =
        lift_then (λ u. pure shadow) w w' shadow'
          (check_state idx (apply_to_map subs expected) shadow) h in
      let (there, same) = pure-eq-ok shadow shadow' w w' h₁ in
      (check_state_sound idx (apply_to_map subs expected) shadow good, there, same)
  run_step_sound idx (expect_server_state expected) shadow shadow' w w' h =
      let (resp, w₁, got, h₁) =
        mapping_then
          (λ (r : StateResponse).
            lift (check_state idx (apply_to_map subs expected) r.state) >> pure shadow)
          w w' shadow' control (state client sj bodies base) h in
      let (done, good, h₂) =
        lift_then (λ u. pure shadow) w₁ w' shadow'
          (check_state idx (apply_to_map subs expected) resp.state) h₁ in
      let (there, same) = pure-eq-ok shadow shadow' w₁ w' h₂ in
      (
        resp,
        got ∙ ap (λ u. (u, ok resp)) there,
        check_state_sound idx (apply_to_map subs expected) resp.state good,
        same,
      )
  run_step_sound idx (expect_no_frame_for duration) shadow shadow' w w' h =
      let (done, w₁, quiet, h₁) =
        after-eq-ok (λ u. pure shadow) w w' shadow'
          (await_silence sj subs socket client bodies base idx duration w) h in
      let (there, same) = pure-eq-ok shadow shadow' w₁ w' h₁ in
      let (i, at, good) =
        received_inv (on_silence idx) (socket.next (some duration) w) w₁ tt
          (unfold await_silence in quiet) in
      (i, at ∙ ap (λ u. (u, i)) there, on_silence_sound idx i good, same)
  run_step_sound idx (expect_client_action action) shadow shadow' w w' h =
      let (done, w₁, acted, h₁) =
        after-eq-ok (λ u. pure shadow) w w' shadow'
          (run_action sj subs socket client bodies base idx action w) h in
      let (there, same) = pure-eq-ok shadow shadow' w₁ w' h₁ in
      (run_action_sound idx action w w' (acted ∙ ap (λ u. (u, ok tt)) there), same)
  run_step_sound idx (server_emits frame) shadow shadow' w w' h =
      let (pairs, collected, h₁) =
        lift_then
          (λ pairs.
            mapping control (emit client sj bodies base pairs)
            >> expect_frame sj subs socket client bodies base idx frame shadow)
          w w' shadow' (emitted_pairs sj subs idx frame) h in
      let (done, w₁, posted, h₂) =
        mapping_then (λ u. expect_frame sj subs socket client bodies base idx frame shadow) w w'
          shadow' control (emit client sj bodies base pairs) h₁ in
      (pairs, w₁, collected, posted, expect_frame_sound idx frame shadow shadow' w₁ w' h₂)
  run_step_sound idx (unsupported kind body) shadow shadow' w w' h =
      absurd (err-ne-ok (ap (λ q. q.1) h))
