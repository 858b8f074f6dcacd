-- ===== src/Server/Input/Laws.antt =====
-- When a value meets a declared input's constraints (input.rs).
use lumencast_rs.Prelude.{
  ℕ, ◌≤◌, ◌≡◌, refl, ◌↔◌, Bool, false, List, [], ◌∷◌, Option, none, some, Text, text_eq,
  text_eq_iff, Any, any_sound, any_complete, arith,
}
use lumencast_rs.Protocol.Json.{Number, Value, is_string}
use lumencast_rs.Server.Input.Doubles.{IsAtMost, f64_lt_iff}
use lumencast_rs.Server.Input.{
  InputType, string, number, boolean, enum, color, date, time, path_ref, image_ref, InputSpec,
  chars_count, has_type, check_type, length_check, check_string, below, above, range_check,
  check_number, check_enum, check_kind, check_kind?, check_constraint,
}

abbrev pub IsText : Value → Type 0
IsText v = (s : Text) × (v ≡ Value.string s)

-- No longer than the limit, counted in characters.
abbrev pub IsShort : Option ℕ → Text → Type 0
IsShort none s = Unit
IsShort (some max) s = chars_count s ≤ max

-- At least the minimum and at most the maximum, themselves included, where they are declared.
abbrev pub IsAbove : Option ℕ → ℕ → Type 0
IsAbove none x = Unit
IsAbove (some min) x = IsAtMost min x

abbrev pub IsBelow : Option ℕ → ℕ → Type 0
IsBelow none x = Unit
IsBelow (some max) x = IsAtMost x max

-- A number without a double is not compared.
abbrev pub IsInRange : InputSpec → Option ℕ → Type 0
IsInRange spec none = Unit
IsInRange spec (some x) = IsAbove spec.min x × IsBelow spec.max x

abbrev pub IsListed : List Text → Text → Type 0
IsListed [] s = Unit
IsListed (v ∷ vs) s = Any (λ w. w ≡ s) (v ∷ vs)

-- What a spec of each kind asks of a value.
abbrev pub Meets : (Number → Option ℕ) → InputSpec → Option InputType → Value → Type 0
Meets to_f64 spec none v = Unit
Meets to_f64 spec (some string) v = (s : Text) × (v ≡ Value.string s) × IsShort spec.max_length s
Meets to_f64 spec (some number) v = (n : Number) × (v ≡ Value.number n) × IsInRange spec (to_f64 n)
Meets to_f64 spec (some boolean) v = (b : Bool) × (v ≡ Value.boolean b)
Meets to_f64 spec (some enum) v = (s : Text) × (v ≡ Value.string s) × IsListed spec.values s
Meets to_f64 spec (some _) v = IsText v

length_check_iff : (max : Option ℕ) (s : Text) → (length_check max s ≡ none) ↔ IsShort max s
length_check_iff none s = (λ _. tt, λ _. refl)
length_check_iff (some max) s = ground arith

below_iff : (x : ℕ) (o : Option ℕ) → (below x o ≡ false) ↔ IsAbove o x
below_iff x none = (λ _. tt, λ _. refl)
below_iff x (some min) = f64_lt_iff min x

above_iff : (x : ℕ) (o : Option ℕ) → (above x o ≡ false) ↔ IsBelow o x
above_iff x none = (λ _. tt, λ _. refl)
above_iff x (some max) = f64_lt_iff x max

range_check_iff : (spec : InputSpec) (x : Option ℕ) → (range_check spec x ≡ none) ↔ IsInRange spec x
range_check_iff spec none = (λ _. tt, λ _. refl)
range_check_iff spec (some x) = (
  λ h. ((below_iff x spec.min).0 (low h), (above_iff x spec.max).0 (high h)),
  λ (low, high). rw ((below_iff x spec.min).1 low, (above_iff x spec.max).1 high) refl,
)
  where
    low : range_check spec (some x) ≡ none → below x spec.min ≡ false
    low h = ground arith

    high : range_check spec (some x) ≡ none → above x spec.max ≡ false
    high h = ground arith

any_value_iff :
    (spec : InputSpec) (vs : List Text) (s : Text)
    → spec.values ≡ vs
    → (check_enum spec (Value.string s) ≡ none) ↔ IsListed vs s
unfolding check_enum
any_value_iff spec [] s e = rw e (λ _. tt, λ _. refl)
any_value_iff spec (v ∷ vs) s e =
    let to =
      any_sound (λ x. text_eq x s) (λ w. w ≡ s) (λ w. (text_eq_iff w s).0)
        (λ w. (text_eq_iff w s).1) (v ∷ vs) in
    let from =
      any_complete (λ x. text_eq x s) (λ w. w ≡ s) (λ w. (text_eq_iff w s).0)
        (λ w. (text_eq_iff w s).1) (v ∷ vs) in
    rw e (λ h. to (ground arith), λ m. rw (from m))

module _ (to_f64 : Number → Option ℕ) (spec : InputSpec) where
  string_iff :
      (v : Value)
      → (check_kind? to_f64 (some string) spec v ≡ none) ↔ Meets to_f64 spec (some string) v
  unfolding check_type check_string
  string_iff (Value.string s) =
      let (to, from) = length_check_iff spec.max_length s in
      (λ h. (s, refl, to h), λ (t, e, m). from (rw (string-injective s t e) m))
    where
      string-injective : (s t : Text) → Value.string s ≡ Value.string t → s ≡ t
      string-injective s t e = cc
  string_iff _ = (λ h. absurd (cc), λ (t, e, _). absurd (cc))

  number_iff :
      (v : Value)
      → (check_kind? to_f64 (some number) spec v ≡ none) ↔ Meets to_f64 spec (some number) v
  unfolding check_type check_number
  number_iff (Value.number n) =
      let (to, from) = range_check_iff spec (to_f64 n) in
      (λ h. (n, refl, to h), λ (k, e, m). from (rw (number-injective n k e) m))
    where
      number-injective : (n k : Number) → Value.number n ≡ Value.number k → n ≡ k
      number-injective n k e = cc
  number_iff _ = (λ h. absurd (cc), λ (t, e, _). absurd (cc))

  enum_iff :
      (v : Value) → (check_kind? to_f64 (some enum) spec v ≡ none) ↔ Meets to_f64 spec (some enum) v
  unfolding check_type
  enum_iff (Value.string s) =
      let (to, from) = any_value_iff spec spec.values s refl in
      (λ h. (s, refl, to h), λ (t, e, m). from (rw (string-injective s t e) m))
    where
      string-injective : (s t : Text) → Value.string s ≡ Value.string t → s ≡ t
      string-injective s t e = cc
  enum_iff _ = (λ h. absurd (cc), λ (t, e, _). absurd (cc))

  boolean_iff :
      (v : Value)
      → (check_kind? to_f64 (some boolean) spec v ≡ none) ↔ Meets to_f64 spec (some boolean) v
  unfolding check_type
  boolean_iff (Value.boolean b) = (λ h. (b, refl), λ _. refl)
  boolean_iff _ = (λ h. absurd (cc), λ (t, e). absurd (cc))

  string_type_iff :
      (kind : InputType) (v : Value)
      → has_type kind ≡ is_string
      → check_kind to_f64 kind spec v ≡ none
      → (check_kind? to_f64 (some kind) spec v ≡ none) ↔ IsText v
  unfolding check_type
  string_type_iff kind (Value.string s) e k = (λ h. (s, refl), λ _. rw (e, k))
  string_type_iff kind _ e k = (λ h. absurd (cc (rw e at h)), λ (t, f). absurd (cc))

-- An input value passes the constraint check exactly if it is of the declared type and within the
-- declared bounds: a string no longer than its limit in characters, a number that is at least the
-- minimum and at most the maximum, both included, an enum value that is listed, if any is; a spec
-- without a type takes any value. Numbers are compared by the values that their doubles stand for;
-- what has no double, and a bound that is no number, restricts nothing.
pub check_constraint_iff :
    (to_f64 : Number → Option ℕ) (spec : InputSpec) (v : Value)
    → (check_constraint to_f64 spec v ≡ none) ↔ Meets to_f64 spec spec.kind v
unfolding check_constraint
check_constraint_iff to_f64 spec v = go spec.kind
  where
    go :
        (kind : Option InputType)
        → (check_kind? to_f64 kind spec v ≡ none) ↔ Meets to_f64 spec kind v
    go none = (λ _. tt, λ _. refl)
    go (some string) = string_iff to_f64 spec v
    go (some number) = number_iff to_f64 spec v
    go (some enum) = enum_iff to_f64 spec v
    go (some boolean) = boolean_iff to_f64 spec v
    go (some color) = string_type_iff to_f64 spec color v refl refl
    go (some date) = string_type_iff to_f64 spec date v refl refl
    go (some time) = string_type_iff to_f64 spec time v refl refl
    go (some path_ref) = string_type_iff to_f64 spec path_ref v refl refl
    go (some image_ref) = string_type_iff to_f64 spec image_ref v refl refl
