-- ===== src/Protocol/Layout/Checks.antt =====
-- What `check_node` of bundle.rs checks of the members of an object.
use lumencast_rs.Prelude.{
  ℕ, ◌≡◌, refl, sym, ◌↔◌, ◌⊎◌, inl, inr, Bool, true, false, not, ◌&&◌, ◌||◌, List, [], ◌∷◌, Option,
  none, some, is_some, Text, codes, text_eq, text_eq_iff, any_sound, any_complete, all_sound,
  all_complete, All-mono, Bool-cases, ok, >>=-eq-ok, arith,
}
use lumencast_rs.Protocol.Json.{
  Value, null, boolean, number, string, array, object, Members, end, member, get,
}
use lumencast_rs.Protocol.Bundle.{BundleError}
use lumencast_rs.Protocol.Layout.{
  contains, str_of, has, some_or, require, is_alias_byte, is_logical_device_ref, check_zab_capture,
  is_one_of, animate_allowed, check_keys, check_animate,
}
use lumencast_rs.Protocol.Layout.Nodes.{
  IsOneOf, SaysOneOf, IsAliasByte, IsAlias, visual_kinds, audio_kinds, IsCapture, AnimatesOnly,
}

pub require_iff : (b : Bool) (e : BundleError) → (require b e ≡ ok tt) ↔ (b ≡ true)
require_iff true e = (λ h. refl, λ h. refl)
require_iff false e = (λ h. absurd (cc), λ h. absurd (cc))

pub contains_iff : (t : Text) (ts : List Text) → (contains t ts ≡ true) ↔ IsOneOf ts t
contains_iff t ts = (
  any_sound (text_eq t) (λ w. w ≡ t) (λ w e. sym ((text_eq_iff t w).0 e))
      (λ w e. (text_eq_iff t w).1 (sym e)) ts,
  any_complete (text_eq t) (λ w. w ≡ t) (λ w e. sym ((text_eq_iff t w).0 e))
      (λ w e. (text_eq_iff t w).1 (sym e)) ts,
)

pub str_of_iff : (o : Option Value) (t : Text) → (str_of o ≡ some t) ↔ (o ≡ some (string t))
str_of_iff none t = (λ h. absurd (cc), λ h. absurd (cc))
str_of_iff (some (string s)) t = (λ h. cc, λ h. cc)
str_of_iff (some null) t = (λ h. absurd (cc), λ h. absurd (cc))
str_of_iff (some (boolean b)) t = (λ h. absurd (cc), λ h. absurd (cc))
str_of_iff (some (number n)) t = (λ h. absurd (cc), λ h. absurd (cc))
str_of_iff (some (array vs)) t = (λ h. absurd (cc), λ h. absurd (cc))
str_of_iff (some (object ms)) t = (λ h. absurd (cc), λ h. absurd (cc))

pub is_some_iff {ℓ} : {A : Type ℓ} (o : Option A) → (is_some o ≡ true) ↔ ((v : A) × (o ≡ some v))
is_some_iff none = (λ h. absurd (cc), λ (v, e). absurd (cc))
is_some_iff (some v) = (λ h. (v, refl), λ h. refl)

pub is_one_of_iff :
    (o : Option Text) (ts : List Text)
    → (is_one_of o ts ≡ true) ↔ ((t : Text) × (o ≡ some t) × IsOneOf ts t)
is_one_of_iff none ts = (λ h. absurd (cc), λ (t, e, _). absurd (cc))
is_one_of_iff (some s) ts = (
  λ h. (s, refl, (contains_iff s ts).0 h),
  λ (t, e, m). let same : s ≡ t = cc in rw same ((contains_iff t ts).1 m),
)

pub SaysOneOf-iff :
    (obj : Members) (key : Text) (ts : List Text)
    → (is_one_of (str_of (get key obj)) ts ≡ true) ↔ SaysOneOf obj key ts
SaysOneOf-iff obj key ts =
    let (to, from) = is_one_of_iff (str_of (get key obj)) ts in
    (
      λ h. let (t, e, m) = to h in (t, (str_of_iff (get key obj) t).0 e, m),
      λ (t, e, m). from (t, (str_of_iff (get key obj) t).1 e, m),
    )

IsAliasByte-iff : (b : ℕ) → (is_alias_byte b ≡ true) ↔ IsAliasByte b
IsAliasByte-iff b = ground arith

IsAlias-iff : (r : Text) → (is_logical_device_ref r ≡ true) ↔ IsAlias r
unfolding is_logical_device_ref
IsAlias-iff [] = (λ h. absurd (cc), λ h. elim h [ ])
IsAlias-iff (b ∷ s) = (
  λ h. (
    ground arith,
    All-mono (λ x. is_alias_byte x ≡ true) IsAliasByte (λ x. (IsAliasByte-iff x).0) s
        (all_sound is_alias_byte s (ground arith)),
    ground arith,
  ),
  λ (low, bytes, short).
      let rest =
        all_complete is_alias_byte s (
          All-mono IsAliasByte (λ x. is_alias_byte x ≡ true) (λ x. (IsAliasByte-iff x).1) s
            bytes) in
      ground arith,
)

pub check_keys_iff : (ms : Members) → (check_keys ms ≡ ok tt) ↔ AnimatesOnly ms
unfolding check_keys
check_keys_iff end = (λ h. tt, λ h. refl)
check_keys_iff (member key v ms) =
    let (to, from) = check_keys_iff ms in
    (
      λ h.
          let (u, here, later_) = >>=-eq-ok (require (contains key animate_allowed) _) _ h in
          ((contains_iff key animate_allowed).0 ((require_iff _ _).0 here), to later_),
      λ (here, rest). rw ((contains_iff key animate_allowed).1 here) (from rest),
    )

pub check_animate_iff :
    (o : Option Value)
    → (check_animate o ≡ ok tt) ↔ ((ms : Members) → o ≡ some (object ms) → AnimatesOnly ms)
check_animate_iff none = (λ _ ms e. absurd (cc), λ _. refl)
check_animate_iff (some (object ms)) =
    let (to, from) = check_keys_iff ms in
    (λ h ns e. let same : ms ≡ ns = cc in rw (← same) (to h), λ h. from (h ms refl))
check_animate_iff (some null) = (λ _ ms e. absurd (cc), λ _. refl)
check_animate_iff (some (boolean b)) = (λ _ ms e. absurd (cc), λ _. refl)
check_animate_iff (some (number n)) = (λ _ ms e. absurd (cc), λ _. refl)
check_animate_iff (some (string s)) = (λ _ ms e. absurd (cc), λ _. refl)
check_animate_iff (some (array vs)) = (λ _ ms e. absurd (cc), λ _. refl)

pub some_or_iff :
    (o : Option Value) (e : BundleError) (t : Text)
    → (some_or (str_of o) e ≡ ok t) ↔ (o ≡ some (string t))
some_or_iff o e t =
    let (to, from) = str_of_iff o t in (λ h. to (given (str_of o) h), λ h. rw (from h) refl)
  where
    given : (r : Option Text) → some_or r e ≡ ok t → r ≡ some t
    given none h = absurd (cc)
    given (some u) h = cc

or_iff :
    (t : Text)
    → ((contains t visual_kinds || contains t audio_kinds) ≡ true)
      ↔ (IsOneOf visual_kinds t ⊎ IsOneOf audio_kinds t)
or_iff t =
    let (to, from) = contains_iff t visual_kinds in
    let (into, back) = contains_iff t audio_kinds in
    (
      λ h. elim (Bool-cases (contains t visual_kinds)) [
        | inl kind ↦ inl (to kind)
        | inr other ↦ inr (into (rw other at h))
      ],
      λ h. elim h [
        | inl kind ↦ rw (from kind) refl
        | inr kind ↦ elim (Bool-cases (contains t visual_kinds)) [
          | inl both ↦ rw both refl
          | inr other ↦ rw other (back kind)
        ]
      ],
    )

needs_iff : (b c : Bool) → (not (b && not c) ≡ true) ↔ (b ≡ true → c ≡ true)
needs_iff true true = (λ _ _. refl, λ _. refl)
needs_iff true false = (λ h _. absurd (cc), λ h. h refl)
needs_iff false c = (λ h e. absurd (cc), λ _. refl)

pub check_zab_capture_iff : (obj : Members) → (check_zab_capture obj ≡ ok tt) ↔ IsCapture obj
unfolding check_zab_capture
check_zab_capture_iff obj = (
  λ h.
      let (t, kind, h₁) = >>=-eq-ok (some_or _ _) _ h in
      let (_, known, h₂) = >>=-eq-ok (require _ _) _ h₁ in
      let (r, device, h₃) = >>=-eq-ok (some_or _ _) _ h₂ in
      let (_, logical, sized) = >>=-eq-ok (require _ _) _ h₃ in
      (
        (
          t,
          (some_or_iff _ _ t).0 kind,
          (or_iff t).0 ((require_iff _ _).0 known),
          λ visual. (is_some_iff (get (codes "size") obj)).0 (
              (needs_iff _ _).0 ((require_iff _ _).0 sized)
                ((contains_iff t visual_kinds).1 visual)),
        ),
        r,
        (some_or_iff _ _ r).0 device,
        (IsAlias-iff r).0 ((require_iff _ _).0 logical),
      ),
  λ ((t, kind, known, sized), r, device, logical).
      rw (kind, (or_iff t).1 known, device, (IsAlias-iff r).1 logical)
        ((require_iff _ _).1 (
          (needs_iff (contains t visual_kinds) (has (codes "size") obj)).1 (λ visual.
            (is_some_iff (get (codes "size") obj)).1
              (sized ((contains_iff t visual_kinds).0 visual))))),
)
