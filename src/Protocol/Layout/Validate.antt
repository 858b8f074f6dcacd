-- ===== src/Protocol/Layout/Validate.antt =====
-- What `Bundle::validate` and `Bundle::parse` of bundle.rs accept.
use lumencast_rs.Prelude.{
  ℕ, ◌≡◌, refl, ap, ◌∙◌, ◌↔◌, inl, inr, true, false, not, List, [], ◌∷◌, Option, none, some,
  is_some, is_empty, Text, codes, text_eq, text_eq_iff, strip_prefix, strip_prefix_iff, All,
  Bool-cases, ok, ◌>>◌, >>=-eq-ok, arith,
}
use lumencast_rs.Protocol.LeafPath.Prefix.{IsUnder}
use lumencast_rs.Protocol.Bundle.{OperatorInput, Bundle}
use lumencast_rs.Protocol.Json.{object, Members}
use lumencast_rs.Protocol.Layout.Checks.{require_iff}
use lumencast_rs.Protocol.Layout.Kinds.{check_node_iff}
use lumencast_rs.Protocol.Layout.Major.{IsMajorOne, parse_major_iff}
use lumencast_rs.Protocol.Layout.Nodes.{IsLegalNode}
use lumencast_rs.Protocol.Layout.{
  require, is_input_path, check_major, parse_major, check_operator_inputs, check_node, validate,
}
use lumencast_rs.Protocol.Layout.Walk.{IsNode, AllNodesPass, check_layout_invariants_iff}

abbrev inputs : Text
inputs = codes "__inputs"

is_input_path_iff : (path : Text) → (is_input_path path ≡ true) ↔ IsUnder inputs path
is_input_path_iff path = (sound, complete)
  where
    after :
        (o : Option Text)
        → strip_prefix (codes "__inputs.") path ≡ o
        → is_some o ≡ true
        → IsUnder inputs path
    after none e h = absurd (cc)
    after (some rest) e h = inr (rest, (strip_prefix_iff (codes "__inputs.") path rest).0 e)

    sound : is_input_path path ≡ true → IsUnder inputs path
    sound h = elim (Bool-cases (text_eq path inputs)) [
      | inl same ↦ inl ((text_eq_iff path inputs).0 same)
      | inr other ↦ after (strip_prefix (codes "__inputs.") path) refl (rw other at h)
    ]

    complete : IsUnder inputs path → is_input_path path ≡ true
    complete (inl same) = rw ((text_eq_iff path inputs).1 same) refl
    complete (inr (rest, e)) =
        rw ((strip_prefix_iff (codes "__inputs.") path rest).1 e) (ground arith)

check_major_iff : (lsml : Text) (o : Option ℕ) → (check_major lsml o ≡ ok tt) ↔ (o ≡ some 1)
check_major_iff lsml none = (λ h. absurd (cc), λ h. absurd (cc))
check_major_iff lsml (some n) = ground arith

check_operator_inputs_iff :
    (ops : List OperatorInput)
    → (check_operator_inputs ops ≡ ok tt) ↔ All (λ op. IsUnder inputs op.path) ops
unfolding check_operator_inputs
check_operator_inputs_iff [] = (λ h. tt, λ h. refl)
check_operator_inputs_iff (op ∷ ops) =
    let (to, from) = check_operator_inputs_iff ops in
    (
      λ h.
          let (u, here, later_) = >>=-eq-ok (require (is_input_path op.path) _) _ h in
          ((is_input_path_iff op.path).0 ((require_iff _ _).0 here), to later_),
      λ h.
          ap (λ r. r >> check_operator_inputs ops)
            ((require_iff _ _).1 ((is_input_path_iff op.path).1 h.0))
          ∙ from h.1,
    )

-- A bundle that an LSML 1 runtime may load.
abbrev pub IsLoadable : Bundle → Type 0
IsLoadable b =
    IsMajorOne b.lsml
    × (is_empty b.scene_id ≡ false)
    × (All (λ op. IsUnder (codes "__inputs") op.path) b.operator_inputs)
    × ((obj : Members) → IsNode (object obj) b.layout → IsLegalNode obj)

-- A bundle is valid exactly if its major version reads as the number 1, its scene id is not empty,
-- the path of every operator input is `__inputs` or below it, and every object among the nodes of its
-- layout is a legal node. The version reads so if the text before its first dot, or the whole where
-- it has none, is the digit 1 after any number of zeros, with a plus sign before them or none. A
-- legal node names a kind of the catalogue or a capture, has the members that its kind asks for, and
-- animates nothing but `transition`, `transform`, `opacity` and `filter`: a stack says a direction, an
-- image has an `alt`, a capture names a known source and a logical device, and so on for each kind.
pub validate_iff : (b : Bundle) → (validate b ≡ ok tt) ↔ IsLoadable b
unfolding validate
validate_iff b = (
  λ h.
      let (u, major, h') = >>=-eq-ok (check_major b.lsml (parse_major b.lsml)) _ h in
      let (v, named, h'') = >>=-eq-ok (require (not (is_empty b.scene_id)) _) _ h' in
      let (w, ops, layout) = >>=-eq-ok (check_operator_inputs b.operator_inputs) _ h'' in
      (
        (parse_major_iff b.lsml).0 ((check_major_iff b.lsml _).0 major),
        ground (arith, (require_iff (not (is_empty b.scene_id)) _).0 named),
        (check_operator_inputs_iff b.operator_inputs).0 ops,
        λ obj node.
            (check_node_iff obj).0 ((check_layout_invariants_iff b.layout).0 layout obj node),
      ),
  λ (major, named, ops, nodes).
      let layout : AllNodesPass check_node b.layout =
        λ obj node. (check_node_iff obj).1 (nodes obj node) in
      rw
        (
          (parse_major_iff b.lsml).1 major,
          named,
          (check_operator_inputs_iff b.operator_inputs).1 ops,
        )
        ((check_layout_invariants_iff b.layout).1 layout),
)
