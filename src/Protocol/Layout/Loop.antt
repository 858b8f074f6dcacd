-- ===== src/Protocol/Layout/Loop.antt =====
-- The loops `while let Some(node) = stack.pop()` of bundle.rs as a step relation: they end, and
-- `check_zab_capture_nodes` has judged every node when its loop does.
use lumencast_rs.Prelude.{
  ℕ, zero, suc, ◌≤◌, ◌≡◌, refl, sym, subst, ◌↔◌, false, List, [], ◌∷◌, Result, Result-cases, inl,
  inr, ok, err, ◌>>◌, arith,
}
use lumencast_rs.Protocol.Json.{
  Value, null, boolean, number, string, array, object, Members, is_object,
}
use lumencast_rs.Protocol.Bundle.{BundleError}
use lumencast_rs.Protocol.Layout.{
  next_nodes, walk, size, check_node, check_capture_node, check_layout_invariants,
  check_zab_capture_nodes,
}
use lumencast_rs.Protocol.Layout.Size.{size_all, size_all-next_nodes, size_positive}
use lumencast_rs.Protocol.Layout.Walk.{IsNode, walk_sound, walk_complete}

-- The loop from a stack, without a bound on its rounds, returns a result.
pub data Returns (check : Members → Result BundleError (Unit {0}))
    : List Value → Result BundleError (Unit {0}) → Type 0 where
  emptied : Returns check [] (ok tt)
  stopped :
      {obj : Members} {stack : List Value} (e : BundleError)
      → check obj ≡ err e
      → Returns check (object obj ∷ stack) (err e)
  visited :
      {obj : Members} {stack : List Value} {r : Result BundleError (Unit {0})}
      → check obj ≡ ok tt
      → Returns check (next_nodes obj stack) r
      → Returns check (object obj ∷ stack) r
  passed_over :
      {v : Value} {stack : List Value} {r : Result BundleError (Unit {0})}
      → is_object v ≡ false
      → Returns check stack r
      → Returns check (v ∷ stack) r

module _ (check : Members → Result BundleError (Unit {0})) where
  walk-Returns :
      (fuel : ℕ) (stack : List Value)
      → size_all stack ≤ fuel
      → Returns check stack (walk check fuel stack)
  unfolding walk size
  walk-Returns fuel [] enough = emptied
  walk-Returns zero (v ∷ stack) enough = absurd (omega (arith, size_positive v))
  walk-Returns (suc fuel) (object obj ∷ stack) enough =
      let rest =
        walk-Returns fuel (next_nodes obj stack) (omega (arith, size_all-next_nodes obj stack)) in
      elim (Result-cases (check obj)) [
        | inl (done, passes) ↦
            subst
              (λ r.
                Returns check (object obj ∷ stack) (r >> walk check fuel (next_nodes obj stack)))
              (sym passes) (visited passes rest)
        | inr (e, fails) ↦
            subst
              (λ r.
                Returns check (object obj ∷ stack) (r >> walk check fuel (next_nodes obj stack)))
              (sym fails) (stopped e fails)
      ]
  walk-Returns (suc fuel) (null ∷ stack) enough =
      passed_over refl (walk-Returns fuel stack (omega arith))
  walk-Returns (suc fuel) (boolean b ∷ stack) enough =
      passed_over refl (walk-Returns fuel stack (omega arith))
  walk-Returns (suc fuel) (number n ∷ stack) enough =
      passed_over refl (walk-Returns fuel stack (omega arith))
  walk-Returns (suc fuel) (string s ∷ stack) enough =
      passed_over refl (walk-Returns fuel stack (omega arith))
  walk-Returns (suc fuel) (array items ∷ stack) enough =
      passed_over refl (walk-Returns fuel stack (omega arith))

-- Both loops over a layout end, whatever the layout, with the result of the bounded walks: the fuel of
-- these, the number of values in the layout, never runs out.
pub layout_loops-Returns :
    (root : Value)
    → Returns check_node (root ∷ []) (check_layout_invariants root)
      × Returns check_capture_node (root ∷ []) (check_zab_capture_nodes root)
unfolding check_layout_invariants check_zab_capture_nodes
layout_loops-Returns root = (
  walk-Returns check_node (size root) (root ∷ []) (omega arith),
  walk-Returns check_capture_node (size root) (root ∷ []) (omega arith),
)

-- A layout passes the checks of the capture nodes exactly if every object among its nodes does: the
-- root, the children of a node and the template of a node.
check_zab_capture_nodes_iff :
    (root : Value)
    → (check_zab_capture_nodes root ≡ ok tt)
      ↔ ((obj : Members) → IsNode (object obj) root → check_capture_node obj ≡ ok tt)
unfolding check_zab_capture_nodes
check_zab_capture_nodes_iff root = (
  λ h. (walk_sound check_capture_node (size root) (root ∷ []) (omega arith) h).0,
  λ h. walk_complete check_capture_node (size root) (root ∷ []) (h, tt),
)
