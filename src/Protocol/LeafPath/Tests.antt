-- ===== src/Protocol/LeafPath/Tests.antt =====
-- Leaf paths at work (leaf_path.rs).
use lumencast_rs.Prelude.{
  ◌≡◌, refl, ◌↔◌, Bool, true, false, List, [], ◌∷◌, Text, codes, All, Result, ok, err,
}
use lumencast_rs.Protocol.LeafPath.{
  LeafPath, Namespace, inputs, starts_with_prefix, namespace, placeholder, substitute, parse,
}
use lumencast_rs.Protocol.LeafPath.Grammar.{IsLeafPath, parse_iff}

abbrev speed : Text
speed = codes "__inputs.camera.speed"

speed-namespace : namespace (record { text = speed }) ≡ inputs
unfolding namespace lumencast_rs.Prelude.strip_prefix
    lumencast_rs.Protocol.LeafPath.namespace_of_head lumencast_rs.Prelude.text_eq
    lumencast_rs.Protocol.LeafPath.first_segment lumencast_rs.Prelude.split
speed-namespace = refl

parse_iff_example : (parse speed ≡ ok (record { text = speed })) ↔ IsLeafPath speed
parse_iff_example = parse_iff speed
