-- ===== src/Server/Input/Tests.antt =====
-- Input constraints at work (input.rs).
use lumencast_rs.Prelude.{ℕ, ◌≡◌, refl, ◌↔◌, Option, none, some, codes}
use lumencast_rs.Protocol.Json.{Number, number, positive}
use lumencast_rs.Server.Input.{
  InputType, InputSpec, new_spec, with_kind, with_min, with_max, check_constraint,
}
use lumencast_rs.Server.Input.Laws.{Meets, check_constraint_iff}

-- A speed of at least 1.0 and at most 3.0.
abbrev speed : InputSpec
speed = with_max 0x4008000000000000 (
    with_min 0x3ff0000000000000
      (with_kind InputType.number (new_spec (record { text = codes "__inputs.speed" }))))

-- The double of each number that is compared here: 3.0.
abbrev three : Number → Option ℕ
three n = some 0x4008000000000000

check_constraint_iff_example :
    (check_constraint three speed (number (positive 3)) ≡ none)
    ↔ Meets three speed speed.kind (number (positive 3))
check_constraint_iff_example = check_constraint_iff three speed (number (positive 3))

three-fits : check_constraint three speed (number (positive 3)) ≡ none
unfolding check_constraint lumencast_rs.Server.Input.check_number
    lumencast_rs.Server.Input.check_type lumencast_rs.Server.Input.f64_lt
three-fits = refl
