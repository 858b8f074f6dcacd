-- ===== src/Conformance/Player/Laws.antt =====
-- What the checks of a step accept (player.rs).
use lumencast_rs.Prelude.{
  ℕ, ◌≡◌, refl, ◌⊎◌, inl, inr, true, Bool-cases, [], ◌∷◌, Option, none, some, Text, text_eq,
  text_eq_iff, Map, lookup, All, Result, ok, err, err-ne-ok, arith,
}
use lumencast_rs.Protocol.Json.{Value}
use lumencast_rs.Conformance.Placeholders.{contains}
use lumencast_rs.Conformance.Matching.{any_sentinel, value_eq}
use lumencast_rs.Conformance.Player.{
  PlayerError, Incoming, timed_out, ended, failed, text, close, other, check_value, check_then,
  check_state, close_code, is_clean, on_silence, on_close,
}

-- Each path of a map has an equal value in another.
abbrev pub Agrees : Map Value → Map Value → Type 0
Agrees expected actual =
    All (λ q. (v : Value) × (lookup q.0 actual ≡ some v) × (value_eq v q.1 ≡ true)) expected

-- Nothing arrived, or a clean close.
abbrev pub IsQuiet : Incoming → Type 0
IsQuiet timed_out = Unit
IsQuiet ended = Unit
IsQuiet (close frame) = is_clean (close_code frame) ≡ true
IsQuiet _ = ⊥

pub check_state_sound :
    (idx : ℕ) (expected actual : Map Value)
    → check_state idx expected actual ≡ ok tt
    → Agrees expected actual
unfolding check_state
check_state_sound idx [] actual h = tt
check_state_sound idx ((k, v) ∷ expected) actual h =
    let (here, rest) = both (check_value idx k v (lookup k actual)) _ h in
    (found (lookup k actual) here, check_state_sound idx expected actual rest)
  where
    both :
        (a b : Result PlayerError (Unit {0})) → check_then a b ≡ ok tt → (a ≡ ok tt) × (b ≡ ok tt)
    both (ok tt) b e = (refl, e)
    both (err x) b e = absurd (cc)

    found :
        (o : Option Value)
        → check_value idx k v o ≡ ok tt
        → (u : Value) × (o ≡ some u) × (value_eq u v ≡ true)
    found none e = absurd (cc)
    found (some u) e = (u, refl, ground arith)

pub on_silence_sound : (idx : ℕ) (i : Incoming) → on_silence idx i ≡ ok tt → IsQuiet i
on_silence_sound idx timed_out h = tt
on_silence_sound idx ended h = tt
on_silence_sound idx (close frame) h = elim (Bool-cases (is_clean (close_code frame))) [
  | inl clean ↦ clean
  | inr abnormal ↦ absurd (err-ne-ok (rw abnormal at h))
]
on_silence_sound idx (failed e) h = absurd (cc)
on_silence_sound idx (text t) h = absurd (cc)
on_silence_sound idx other h = absurd (cc)

pub on_close_sound :
    (idx : ℕ) (want : Text) (i : Incoming)
    → on_close idx want i ≡ ok tt
    → (code : ℕ) × (got : Text) × (i ≡ close (some (code, got)))
      × ((want ≡ any_sentinel) ⊎ (contains got want ≡ true))
on_close_sound idx want (close (some (code, got))) h =
    elim (Bool-cases (text_eq want any_sentinel)) [
      | inl is_any ↦ (code, got, refl, inl ((text_eq_iff want any_sentinel).0 is_any))
      | inr not_any ↦ elim (Bool-cases (contains got want)) [
        | inl found ↦ (code, got, refl, inr found)
        | inr missing ↦ absurd (err-ne-ok (rw (not_any, missing) at h))
      ]
    ]
on_close_sound idx want (close none) h = absurd (err-ne-ok h)
on_close_sound idx want (failed e) h = absurd (err-ne-ok h)
on_close_sound idx want ended h = absurd (err-ne-ok h)
on_close_sound idx want timed_out h = absurd (err-ne-ok h)
on_close_sound idx want (text t) h = absurd (err-ne-ok h)
on_close_sound idx want other h = absurd (err-ne-ok h)
