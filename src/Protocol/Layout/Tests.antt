-- ===== src/Protocol/Layout/Tests.antt =====
-- The checks of a bundle at work (bundle.rs).
use lumencast_rs.Prelude.{
  ℕ, ◌≡◌, refl, ◌↔◌, Bool, false, is_empty, List, [], ◌∷◌, Option, none, some, Text, codes, Result,
  ok, err,
}
use lumencast_rs.Protocol.Json.{
  Value, null, string, array, object, Items, nil, cons, Members, end, member,
}
use lumencast_rs.Protocol.Errors.{plain}
use lumencast_rs.Protocol.Bundle.{Bundle, invalid}
use lumencast_rs.Protocol.Layout.{
  check_node, check_capture_node, check_layout_invariants, check_zab_capture_nodes, validate,
  parse_major,
}
use lumencast_rs.Protocol.Layout.Loop.{Returns, layout_loops-Returns}
use lumencast_rs.Protocol.Layout.Validate.{IsLoadable, validate_iff}

abbrev image : Value
image = object (member (codes "kind") (string (codes "image")) end)

abbrev text_ : Value
text_ = object (member (codes "kind") (string (codes "text")) end)

-- A row of a text and of an image without an `alt`.
abbrev row : Value
row = object (
    member (codes "kind") (string (codes "stack")) (
      member (codes "direction") (string (codes "horizontal"))
        (member (codes "children") (array (cons text_ (cons image nil))) end)))

row-check :
    check_layout_invariants row
    ≡ err (invalid (plain "`image` primitive MUST declare `alt` (LSML 1.0 §13)"))
unfolding check_layout_invariants lumencast_rs.Protocol.Layout.walk
    lumencast_rs.Protocol.Layout.size check_node lumencast_rs.Protocol.Json.get
    lumencast_rs.Prelude.text_eq lumencast_rs.Protocol.Layout.check_per_kind
row-check = refl

abbrev toy_bundle : Bundle
toy_bundle = record {
  lsml = codes "1.0";
  scene_id = codes "studio";
  scene_version = codes "sha256:0";
  layout = row;
  operator_inputs = [];
  external_adapters = [];
  defaults = [];
  assets = none;
  i18n = none;
  metadata = none;
}

lsml-parse_major : parse_major (codes "+1.2") ≡ some 1
unfolding parse_major lumencast_rs.Prelude.split
lsml-parse_major = refl

validate_iff_example : (validate toy_bundle ≡ ok tt) ↔ IsLoadable toy_bundle
validate_iff_example = validate_iff toy_bundle

layout_loops-Returns_example :
    Returns check_node (row ∷ []) (check_layout_invariants row)
    × Returns check_capture_node (row ∷ []) (check_zab_capture_nodes row)
layout_loops-Returns_example = layout_loops-Returns row
