-- ===== src/Server/Connection/Inputs.antt =====
-- `handle_input` of crates/lumencast-server/src/ws_handler.rs: whole or nothing, and within the
-- role of the client.
use lumencast_rs.Prelude.{
  ℕ, zero, suc, ◌≡◌, refl, sym, ap, subst, ◌∙◌, inl, inr, true, false, not, List, [], ◌∷◌, ◌++◌,
  Option, none, some, Text, text_eq, text_eq_iff, lookup, is_empty, map, All, get_elem?, set,
  Bool-cases, if-cases, Result, ok, Result-cases, >>=-eq-ok, arith,
}
use lumencast_rs.Protocol.Json.{Value}
use lumencast_rs.Protocol.Errors.{ErrorCode, Message}
use lumencast_rs.Protocol.Types.{Patch}
use lumencast_rs.Protocol.Frames.{ErrorFrame, ServerFrame, Input}
use lumencast_rs.Server.Role.{can_input, can_write}
use lumencast_rs.Server.Auth.{Identity}
use lumencast_rs.Server.Rate.{allow}
use lumencast_rs.Server.Scene.{Scene, ServerError, pair_of}
use lumencast_rs.Server.Scene.Laws.{emit_atomic, IsLegalPair, emitted, emit_legal}
use lumencast_rs.Server.Registry.{ServerInner, deref, put}
use lumencast_rs.Server.Connection.{
  Env, Clock, frame, Connection, send, error_frame, send_error, send_error_with_path, check_patch,
  check_patches, cause_of, apply_input, after_emission, judged, judge_input, handle_input,
  server_error_message,
}

-- The value of a leaf of the scene behind a handle.
abbrev pub value_of : Text → Option Scene → Option Value
value_of path none = none
value_of path (some sc) = lookup path sc.store.inner

abbrev pub value_at : ServerInner → ℕ → Text → Option Value
value_at s h path = value_of path (deref s h)

set-same :
    (heap : List Scene) (h : ℕ) (sc : Scene) → get_elem? heap h ≡ some sc → set heap h sc ≡ heap
set-same [] h sc e = refl
set-same (x ∷ xs) zero sc e = ap (λ y. y ∷ xs) (ground arith)
set-same (x ∷ xs) (suc h) sc e = ap (◌∷◌ x) (set-same xs h sc e)

value-set :
    (path : Text) (heap : List Scene) (h k : ℕ) (sc sc' : Scene)
    → get_elem? heap h ≡ some sc
    → lookup path sc'.store.inner ≡ lookup path sc.store.inner
    → value_of path (get_elem? (set heap h sc') k) ≡ value_of path (get_elem? heap k)
value-set path [] h k sc sc' e same = refl
value-set path (x ∷ xs) zero zero sc sc' e same = same ∙ ap (value_of path) (sym e)
value-set path (x ∷ xs) zero (suc k) sc sc' e same = refl
value-set path (x ∷ xs) (suc h) zero sc sc' e same = refl
value-set path (x ∷ xs) (suc h) (suc k) sc sc' e same = value-set path xs h k sc sc' e same

-- A write to the scene behind a handle that keeps a leaf keeps it behind every handle.
pub value_at-put :
    (s : ServerInner) (h k : ℕ) (sc sc' : Scene) (path : Text)
    → deref s h ≡ some sc
    → lookup path sc'.store.inner ≡ lookup path sc.store.inner
    → value_at (put s h sc') k path ≡ value_at s k path
value_at-put s h k sc sc' path e same = value-set path s.heap h k sc sc' e same

put-same : (s : ServerInner) (h : ℕ) (sc : Scene) → deref s h ≡ some sc → put s h sc ≡ s
put-same s h sc e = ap (λ heap. record s { heap = heap }) (set-same s.heap h sc e)

module _ (env : Env) (sc : Scene) (identity : Identity) where
  check_patch_writable :
      (p : Patch)
      → check_patch env sc identity p ≡ ok tt
      → can_write identity.role p.path identity.paths ≡ true
  unfolding check_patch
  check_patch_writable p h = ground arith

  check_patches_writable :
      (ps : List Patch)
      → check_patches env sc identity ps ≡ ok tt
      → All (λ p. can_write identity.role p.path identity.paths ≡ true) ps
  unfolding check_patches
  check_patches_writable [] h = tt
  check_patches_writable (p ∷ ps) h =
      let (u, here, rest) = >>=-eq-ok (check_patch env sc identity p) _ h in
      (check_patch_writable p here, check_patches_writable ps rest)

  pub not_named :
      (path : Text) (ps : List Patch)
      → can_write identity.role (record { text = path }) identity.paths ≡ false
      → All (λ p. can_write identity.role p.path identity.paths ≡ true) ps
      → All (λ kv. text_eq kv.0 path ≡ false) (map pair_of ps)
  not_named path [] closed h = tt
  not_named path (p ∷ ps) closed h = (
    elim (Bool-cases (text_eq p.path.text path)) [
      | inl same ↦
          let e = (text_eq_iff p.path.text path).0 same in
          absurd (
            cc (
              h.0,
              closed,
              ap (λ q. can_write identity.role (record { text = q }) identity.paths) e,
            ))
      | inr other ↦ other
    ],
    not_named path ps closed h.1,
  )

-- What an input does: it is refused with one error frame and the server as it was, or it is
-- applied whole to the scene, and nothing is answered.
pub data Outcome (s s' : ServerInner) (c c' : Connection) (sc : Scene) (h : ℕ) (identity : Identity)
    (i : Input) : Type 0 where
  refused :
      (e : ErrorFrame)
      → s' ≡ s
      → c'.out ≡ c.out ++ frame (ServerFrame.error e) ∷ []
      → Outcome s s' c c' sc h identity i
  applied :
      is_empty i.patches ≡ false
      → All (λ p. can_write identity.role p.path identity.paths ≡ true) i.patches
      → All IsLegalPair (map pair_of i.patches)
      → s' ≡ put s h (emitted (map pair_of i.patches) (cause_of identity i.client_msg_id) sc).0
      → c'.out ≡ c.out
      → Outcome s s' c c' sc h identity i

module _ (env : Env) (t : Clock) (h : ℕ) (identity : Identity) (i : Input) (sc : Scene)
    (s : ServerInner) (at : deref s h ≡ some sc) where
  -- An outcome of the pair that a handler returns, for a connection that stood at `c₀`.
  abbrev pub OutcomeOf : Connection → ServerInner × Connection → Type 0
  OutcomeOf c₀ r = Outcome s r.0 c₀ r.1 sc h identity i

  abbrev emission : Scene × Result ServerError (Unit {0})
  emission = emitted (map pair_of i.patches) (cause_of identity i.client_msg_id) sc

  refuse-Outcome :
      (code : ErrorCode) (message : Message) (path : Option Text) (c c₀ : Connection)
      → c.out ≡ c₀.out
      → OutcomeOf c₀ (s, send_error_with_path s t code message true path c)
  unfolding send_error_with_path send
  refuse-Outcome code message path c c₀ same =
      refused (error_frame s c t code message true path) refl (
        ap (λ out. out ++ frame (ServerFrame.error (error_frame s c t code message true path)) ∷ [])
          same)

  apply_input-Outcome :
      (c c₀ : Connection)
      → c.out ≡ c₀.out
      → is_empty i.patches ≡ false
      → check_patches env sc identity i.patches ≡ ok tt
      → OutcomeOf c₀ (apply_input t h identity i sc s c)
  unfolding apply_input
  apply_input-Outcome c c₀ same some_patch checked =
      elim (emit_atomic (map pair_of i.patches) (cause_of identity i.client_msg_id) sc) [
        | inl (legal, won, values) ↦
            let is_emitted =
              emit_legal (map pair_of i.patches) (cause_of identity i.client_msg_id) sc legal in
            let is_pair : emission ≡ (emission.0, ok tt) =
              ap (λ r. (emission.0, r)) (ap (λ x. x.1) (sym is_emitted) ∙ won) in
            subst (λ x. OutcomeOf c₀ (after_emission t h s c x)) (sym (is_emitted ∙ is_pair))
              (applied some_patch (check_patches_writable env sc identity i.patches checked) legal
                refl same)
        | inr (illegal, e, failed) ↦
            subst (λ x. OutcomeOf c₀ (after_emission t h s c x)) (sym failed)
              (subst
                (λ s'.
                  OutcomeOf c₀
                    (s', send_error s' t ErrorCode.internal (server_error_message e) true c))
                (sym (put-same s h sc at))
                (refuse-Outcome ErrorCode.internal (server_error_message e) none c c₀ same))
      ]

  judge_input-Outcome :
      (c c₀ : Connection)
      → c.out ≡ c₀.out
      → is_empty i.patches ≡ false
      → OutcomeOf c₀ (judge_input env t h identity i sc s c)
  unfolding judge_input
  judge_input-Outcome c c₀ same some_patch =
      elim (Result-cases (check_patches env sc identity i.patches)) [
        | inl (u, passed) ↦
            subst (λ x. OutcomeOf c₀ (judged t h identity i sc s c x)) (sym passed)
              (apply_input-Outcome c c₀ same some_patch passed)
        | inr (r, failed) ↦
            subst (λ x. OutcomeOf c₀ (judged t h identity i sc s c x)) (sym failed)
              (refuse-Outcome r.code r.message (some r.path) c c₀ same)
      ]

  -- An `input` frame to the scene behind a handle is refused or applied, never a part of it.
  -- Refused: the server is as it was and one error frame is sent. Applied: the role may write every
  -- path, every pair is legal, the scene has emitted all patches with the client's message id as
  -- their cause, and nothing is answered.
  pub handle_input-Outcome :
      (c : Connection)
      → Outcome s
          (handle_input env t h identity i sc s c).0
          c
          (handle_input env t h identity i sc s c).1
          sc
          h
          identity
          i
  unfolding handle_input
  handle_input-Outcome c =
      if-cases (OutcomeOf c) (not (can_input identity.role)) _ _
        (λ barred. refuse-Outcome ErrorCode.write_forbidden _ _ c c refl)
        (λ may.
          if-cases (OutcomeOf c) (is_empty i.patches) _ _
            (λ none_sent. refuse-Outcome ErrorCode.invalid_value _ _ c c refl)
            (λ some_patch.
              if-cases (OutcomeOf c) (not (allow t.now c.rate).1) _ _
                (λ over.
                  refuse-Outcome ErrorCode.rate_limit _ _
                    (record c { rate = (allow t.now c.rate).0 }) c refl)
                (λ within_rate.
                  judge_input-Outcome (record c { rate = (allow t.now c.rate).0 }) c refl
                    some_patch)))
