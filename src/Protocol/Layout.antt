-- ===== src/Protocol/Layout.antt =====
-- crates/lumencast-protocol/src/bundle.rs: the static checks of a bundle (`Bundle::parse`,
-- `Bundle::validate`, `check_layout_invariants`, `check_zab_capture_nodes`). The walk keeps its stack
-- as a list, the top first, and takes as fuel the number of values in the layout. A message has its
-- template and the arguments that vary.
pub mod Walk
pub mod Loop
pub mod Size
pub mod Checks
pub mod Kinds
pub mod Major
pub mod Nodes
pub mod Validate
mod Tests
use lumencast_rs.Prelude.{
  ℕ, zero, suc, ◌+◌, ◌*◌, ◌^◌, ◌-◌, Bool, true, false, not, ◌&&◌, ◌||◌, List, [], ◌∷◌, ◌++◌, Option,
  none, some, is_some, Text, codes, text_eq, strip_prefix, split, head?, all, any, is_empty, length,
  ltb, leb, ◌==◌, if◌then◌else◌, Result, ok, err, ◌>>=◌, ◌>>◌, map_err,
}
use lumencast_rs.Protocol.Json.{
  Value, null, boolean, number, string, array, object, Items, nil, cons, Members, end, member,
  as_str, as_object, get,
}
use lumencast_rs.Protocol.Errors.{plain, filled}
use lumencast_rs.Protocol.LeafPath.{is_ascii_digit, dot}
use lumencast_rs.Protocol.Codec.{SerdeJson, Derived}
use lumencast_rs.Protocol.Bundle.{BundleError, json, invalid, incompatible, OperatorInput, Bundle}

abbrev pub contains : Text → List Text → Bool
contains t = any (text_eq t)

abbrev pub str_of : Option Value → Option Text
str_of none = none
str_of (some v) = as_str v

abbrev pub has : Text → Members → Bool
has k ms = is_some (get k ms)

abbrev pub zab_capture_kind : Text
zab_capture_kind = codes "x-zab.capture"

abbrev pub animate_allowed : List Text
animate_allowed = codes "transition" ∷ codes "transform" ∷ codes "opacity" ∷ codes "filter" ∷ []

abbrev pub primitive_kinds : List Text
primitive_kinds =
    codes "stack"
    ∷ codes "grid"
    ∷ codes "frame"
    ∷ codes "text"
    ∷ codes "image"
    ∷ codes "shape"
    ∷ codes "media"
    ∷ codes "repeat"
    ∷ []

abbrev pub capture_visual_kinds : List Text
capture_visual_kinds =
    codes "media.webcam"
    ∷ codes "media.screen"
    ∷ codes "media.window"
    ∷ codes "media.file"
    ∷ codes "media.game"
    ∷ []

abbrev pub capture_audio_kinds : List Text
capture_audio_kinds = codes "media.app_audio" ∷ codes "media.system_audio" ∷ codes "media.mic" ∷ []

-- `let Some(x) = … else { return Err(…) }` and `if … { return Err(…) }`.
abbrev pub some_or : Option Text → BundleError → Result BundleError Text
some_or none e = err e
some_or (some t) e = ok t

abbrev pub require : Bool → BundleError → Result BundleError (Unit {0})
require true e = ok tt
require false e = err e

abbrev pub is_ascii_lowercase : ℕ → Bool
is_ascii_lowercase b = leb b'a' b && leb b b'z'

abbrev pub is_alias_byte : ℕ → Bool
is_alias_byte b = (is_ascii_lowercase b || is_ascii_digit b) || b == b'-'

unfoldable pub is_logical_device_ref : Text → Bool
is_logical_device_ref [] = false
is_logical_device_ref (b ∷ s) =
    leb (length (b ∷ s)) 64 && (is_ascii_lowercase b && all is_alias_byte s)

unfoldable pub check_zab_capture : Members → Result BundleError (Unit {0})
check_zab_capture obj = do
  source_kind ←
      some_or (str_of (get (codes "x-zab.sourceKind") obj))
        (invalid (plain "`x-zab.capture` MUST declare `x-zab.sourceKind` (RFC-0001)"))
  require (contains source_kind capture_visual_kinds || contains source_kind capture_audio_kinds) (
      invalid (
        filled "unknown `x-zab.sourceKind` {source_kind:?} (RFC-0001 A2 §A2.2: {}, {})"
          (source_kind ∷ [])))
  device_ref ←
      some_or (str_of (get (codes "x-zab.deviceRef") obj))
        (invalid (plain "`x-zab.capture` MUST declare `x-zab.deviceRef` (RFC-0001)"))
  require (is_logical_device_ref device_ref) (
      invalid (
        filled
          "`x-zab.deviceRef` {device_ref:?} MUST be a logical alias matching ^[a-z][a-z0-9-]{{0,63}}$ — never a physical device id (RFC-0001)"
          (device_ref ∷ [])))
  require (not (contains source_kind capture_visual_kinds && not (has (codes "size") obj))) (
      invalid (
        filled
          "`x-zab.capture` of visual kind {source_kind:?} MUST declare `size` (RFC-0001 Amendment 2 §A2.2)"
          (source_kind ∷ [])))

abbrev pub is_one_of : Option Text → List Text → Bool
is_one_of none ts = false
is_one_of (some t) ts = contains t ts

-- The arms of the `match` of `check_per_kind`, by the kind.
unfoldable pub check_per_kind : Text → Members → Result BundleError (Unit {0})
check_per_kind kind obj =
    if text_eq kind (codes "image")
    then require (has (codes "alt") obj)
        (invalid (plain "`image` primitive MUST declare `alt` (LSML 1.0 §13)"))
    else if text_eq kind (codes "stack")
    then require
        (is_one_of (str_of (get (codes "direction") obj))
          (codes "horizontal" ∷ codes "vertical" ∷ []))
        (invalid (plain "`stack.direction` MUST be \"horizontal\" or \"vertical\""))
    else if text_eq kind (codes "grid")
    then require (has (codes "columns") obj) (invalid (plain "`grid.columns` is required"))
    else if text_eq kind (codes "shape")
    then if is_one_of (str_of (get (codes "geometry") obj)) (codes "rect" ∷ codes "circle" ∷ [])
      then ok tt
      else if is_one_of (str_of (get (codes "geometry") obj)) (codes "path" ∷ [])
      then require (has (codes "pathData") obj)
          (invalid (plain "`shape` with geometry=\"path\" requires `pathData`"))
      else err (invalid (plain "`shape.geometry` MUST be \"rect\", \"circle\" or \"path\""))
    else if text_eq kind (codes "media")
    then require
        (is_one_of (str_of (get (codes "kind_hint") obj)) (codes "video" ∷ codes "audio" ∷ []))
        (invalid (plain "`media.kind_hint` MUST be \"video\" or \"audio\""))
    else if text_eq kind (codes "repeat")
    then (require (has (codes "scope") obj) (invalid (plain "`repeat.scope` is required"))
        >> require (has (codes "template") obj) (invalid (plain "`repeat.template` is required")))
    else ok tt

unfoldable pub check_keys : Members → Result BundleError (Unit {0})
check_keys end = ok tt
check_keys (member key v ms) =
    require (contains key animate_allowed)
      (invalid (filled "animate.{key} is not animatable (allowed: {})" (key ∷ [])))
    >> check_keys ms

abbrev pub check_animate : Option Value → Result BundleError (Unit {0})
check_animate (some (object ms)) = check_keys ms
check_animate _ = ok tt

abbrev pub check_catalogue : Text → Members → Result BundleError (Unit {0})
check_catalogue kind obj =
    if text_eq kind zab_capture_kind
    then check_zab_capture obj
    else require (contains kind primitive_kinds)
        (invalid (filled "unknown primitive kind {kind:?} (LSML 1.0 catalogue: {})" (kind ∷ [])))

-- What a round of `check_layout_invariants` checks of an object.
unfoldable pub check_node : Members → Result BundleError (Unit {0})
check_node obj = do
  kind ←
      some_or (str_of (get (codes "kind") obj))
        (invalid (plain "primitive node MUST declare a `kind` field"))
  check_catalogue kind obj
  check_animate (get (codes "animate") obj)
  check_per_kind kind obj

-- What a round of `check_zab_capture_nodes` checks of an object.
unfoldable pub check_capture_node : Members → Result BundleError (Unit {0})
check_capture_node obj =
    if is_one_of (str_of (get (codes "kind") obj)) (zab_capture_kind ∷ [])
    then check_zab_capture obj
    else ok tt

-- `stack.extend(children.iter())` and `stack.push(template)`.
abbrev pub push_items : Items → List Value → List Value
push_items nil stack = stack
push_items (cons v vs) stack = push_items vs (v ∷ stack)

abbrev pub push_children : Option Value → List Value → List Value
push_children (some (array items)) stack = push_items items stack
push_children _ stack = stack

abbrev pub push_template : Option Value → List Value → List Value
push_template none stack = stack
push_template (some v) stack = v ∷ stack

abbrev pub next_nodes : Members → List Value → List Value
next_nodes obj stack =
    push_template (get (codes "template") obj) (push_children (get (codes "children") obj) stack)

module _ (check : Members → Result BundleError (Unit {0})) where
  -- The loop, with a check for each object.
  unfoldable pub walk : ℕ → List Value → Result BundleError (Unit {0})
  walk fuel [] = ok tt
  walk zero (node ∷ stack) = ok tt
  walk (suc fuel) (object obj ∷ stack) = check obj >> walk fuel (next_nodes obj stack)
  walk (suc fuel) (_ ∷ stack) = walk fuel stack

-- The number of values in a value.
unfoldable mutual
  pub size : Value → ℕ
  size (array items) = suc (size_items items)
  size (object ms) = suc (size_members ms)
  size _ = 1

  pub size_items : Items → ℕ
  size_items nil = 0
  size_items (cons v vs) = size v + size_items vs

  pub size_members : Members → ℕ
  size_members end = 0
  size_members (member k v ms) = size v + size_members ms

unfoldable pub check_layout_invariants : Value → Result BundleError (Unit {0})
check_layout_invariants root = walk check_node (size root) (root ∷ [])

unfoldable pub check_zab_capture_nodes : Value → Result BundleError (Unit {0})
check_zab_capture_nodes root = walk check_capture_node (size root) (root ∷ [])

-- `str::parse` of a `u32`: digits, with a plus sign before them or none, within range.
abbrev pub digits_value : ℕ → Text → ℕ
digits_value n [] = n
digits_value n (b ∷ s) = digits_value (10 * n + (b - 48)) s

abbrev pub parse_digits : Text → Option ℕ
parse_digits s =
    if is_empty s || not (all is_ascii_digit s)
    then none
    else if ltb (digits_value 0 s) (2 ^ 32)
    then some (digits_value 0 s)
    else none

abbrev pub parse_u32 : Text → Option ℕ
parse_u32 [] = none
parse_u32 (b ∷ s) = if b == b'+' then parse_digits s else parse_digits (b ∷ s)

abbrev pub parse_first : Option Text → Option ℕ
parse_first none = none
parse_first (some s) = parse_u32 s

unfoldable pub parse_major : Text → Option ℕ
parse_major lsml = parse_first (head? (split dot lsml))

abbrev pub check_major : Text → Option ℕ → Result BundleError (Unit {0})
check_major lsml none = err (invalid (filled "malformed `lsml` version: {:?}" (lsml ∷ [])))
check_major lsml (some major) = if major == 1 then ok tt else err (incompatible lsml)

abbrev pub is_input_path : Text → Bool
is_input_path path =
    text_eq path (codes "__inputs") || is_some (strip_prefix (codes "__inputs.") path)

unfoldable pub check_operator_inputs : List OperatorInput → Result BundleError (Unit {0})
check_operator_inputs [] = ok tt
check_operator_inputs (op ∷ ops) =
    require (is_input_path op.path)
      (invalid (filled "operator_inputs[{:?}].path MUST live under `__inputs.*`" (op.path ∷ [])))
    >> check_operator_inputs ops

unfoldable pub validate : Bundle → Result BundleError (Unit {0})
validate b = do
  check_major b.lsml (parse_major b.lsml)
  require (not (is_empty b.scene_id)) (invalid (plain "scene_id MUST NOT be empty"))
  check_operator_inputs b.operator_inputs
  check_layout_invariants b.layout

unfoldable pub parse : SerdeJson → Derived Bundle → Text → Result BundleError Bundle
parse s d bytes = do
  value ← map_err json (s.from_slice bytes)
  bundle ← map_err json (d.from_value value)
  validate bundle
  ok bundle
