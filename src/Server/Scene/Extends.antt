-- ===== src/Server/Scene/Extends.antt =====
-- What calls add to the history of a scene (scene.rs).
use lumencast_rs.Prelude.{
  append_laws, ◌+◌, ◌%◌, ◌≤◌, ◌<◌, ◌≡◌, refl, sym, subst, List, [], ◌∷◌, ◌++◌, append-nil, Option,
  none, Text, map, All, All-append, All-mono, length, arith,
}
use lumencast_rs.Protocol.Json.{Value}
use lumencast_rs.Protocol.Types.{Patch, Cause}
use lumencast_rs.Protocol.Sequence.{u64_mod}
use lumencast_rs.Server.Store.{apply}
use lumencast_rs.Server.Replay.{ReplayRecord}
use lumencast_rs.Server.Scene.{
  Scene, publish, pair_of, emit_with_cause, emit, advance_seq, with_operator_inputs,
  with_declared_inputs,
}
use lumencast_rs.Server.Scene.Laws.{emit_checked_cases, set-emit}
use lumencast_rs.Server.Scene.Mirror.{
  Op, sets, emits, advances, attaches, rejects, declares, declares_paths, perform, perform_all,
  history, record_at, history-publish,
}

-- What the calls after a moment add to what a scene has broadcast.
pub record Extends (s s' : Scene) : Type 0 where
  pub news : List ReplayRecord
  pub split : history s' ≡ history s ++ news
  pub above : All (λ r. s.seq < r.seq) news
  pub low : s.seq ≤ s'.seq

Extends-same : (s s' : Scene) → s'.sent ≡ s.sent → s.seq ≤ s'.seq → Extends s s'
Extends-same s s' same le = record {
  news = [];
  split = rw (same, append-nil) refl;
  above = tt;
  low = le;
}

publish-Extends :
    (s : Scene) (ps : List Patch) (cause : Option Cause)
    → s.seq + 1 < u64_mod
    → Extends s (publish ps cause (record s { store = apply (map pair_of ps) s.store }))
unfolding publish advance_seq
publish-Extends s ps cause small =
    let e : (s.seq + 1) % u64_mod ≡ s.seq + 1 = omega arith in
    record {
      news = record_at (s.seq + 1) ps cause ∷ [];
      split = history-publish s ps cause small;
      above = (omega arith, tt);
      low = rw e (omega arith);
    }

emit-Extends :
    (pairs : List (Text × Value)) (cause : Option Cause) (s : Scene)
    → s.seq + 1 < u64_mod
    → Extends s (emit_with_cause pairs cause s).0
emit-Extends pairs cause s small =
    emit_checked_cases (Extends s) pairs cause s (Extends-same s s refl (omega arith))
      (λ ps. publish-Extends s ps cause small)

perform-Extends : (o : Op) (s : Scene) → s.seq + 1 < u64_mod → Extends s (perform o s)
unfolding perform emit with_operator_inputs with_declared_inputs advance_seq
perform-Extends (sets path value) s small =
    subst (λ r. Extends s r.0) (sym (set-emit path value s))
      (emit-Extends ((path, value) ∷ []) none s small)
perform-Extends (emits pairs cause) s small = emit-Extends pairs cause s small
perform-Extends advances s small = Extends-same s _ refl (omega arith)
perform-Extends (attaches bytes) s small = Extends-same s _ refl (omega arith)
perform-Extends (rejects code message) s small = Extends-same s _ refl (omega arith)
perform-Extends (declares specs) s small = Extends-same s _ refl (omega arith)
perform-Extends (declares_paths paths) s small = Extends-same s _ refl (omega arith)

pub perform-seq : (o : Op) (s : Scene) → s.seq + 1 < u64_mod → (perform o s).seq ≤ s.seq + 1
unfolding perform emit with_operator_inputs with_declared_inputs advance_seq publish
perform-seq (sets path value) s small =
    subst (λ r. r.0.seq ≤ s.seq + 1) (sym (set-emit path value s))
      (emit_checked_cases (λ s'. s'.seq ≤ s.seq + 1) ((path, value) ∷ []) none s (omega arith)
        (λ ps. omega arith))
perform-seq (emits pairs cause) s small =
    emit_checked_cases (λ s'. s'.seq ≤ s.seq + 1) pairs cause s (omega arith) (λ ps. omega arith)
perform-seq advances s small = omega arith
perform-seq (attaches bytes) s small = omega arith
perform-seq (rejects code message) s small = omega arith
perform-seq (declares specs) s small = omega arith
perform-seq (declares_paths paths) s small = omega arith

Extends-trans : (s s' s'' : Scene) → Extends s s' → Extends s' s'' → Extends s s''
Extends-trans s s' s'' e f = record {
  news = e.news ++ f.news;
  split = rw (f.split, e.split) (simp append_laws);
  above =
      All-append _ e.news f.news e.above
        (All-mono _ _ (λ r lt. omega (arith, lt, e.low)) f.news f.above);
  low = omega (arith, e.low, f.low);
}

pub perform_all-Extends :
    (os : List Op) (s : Scene) → s.seq + length os < u64_mod → Extends s (perform_all os s)
unfolding perform_all
perform_all-Extends [] s small = Extends-same s s refl (omega arith)
perform_all-Extends (o ∷ os) s small =
    let step = perform-seq o s (omega arith) in
    Extends-trans s (perform o s) _ (perform-Extends o s (omega arith))
      (perform_all-Extends os (perform o s) (omega arith))

pub perform_all-seq :
    (os : List Op) (s : Scene)
    → s.seq + length os < u64_mod
    → (perform_all os s).seq ≤ s.seq + length os
unfolding perform_all
perform_all-seq [] s small = omega arith
perform_all-seq (o ∷ os) s small =
    let step = perform-seq o s (omega arith) in
    omega (arith, step, perform_all-seq os (perform o s) (omega arith))
