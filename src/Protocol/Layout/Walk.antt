-- ===== src/Protocol/Layout/Walk.antt =====
-- The walk over a layout (`check_layout_invariants` and `check_zab_capture_nodes` of bundle.rs) reaches
-- every node: its fuel is enough.
use lumencast_rs.Prelude.{
  ℕ, zero, suc, ◌≤◌, ◌≡◌, refl, sym, ap, subst, ◌∙◌, ◌↔◌, false, List, [], ◌∷◌, Option, none, some,
  codes, All, Result, ok, ◌>>◌, >>=-eq-ok, arith,
}
use lumencast_rs.Protocol.Json.{
  Value, null, boolean, number, string, array, object, Items, nil, cons, Members, get, is_object,
}
use lumencast_rs.Protocol.Bundle.{BundleError}
use lumencast_rs.Protocol.Layout.{
  push_items, push_children, push_template, next_nodes, walk, size, check_node,
  check_layout_invariants,
}
use lumencast_rs.Protocol.Layout.Size.{size_all, size_all-next_nodes, size_positive}

-- An item of an array.
pub data IsItem (v : Value) : Items → Type 0 where
  first : {vs : Items} → IsItem v (cons v vs)
  later : {w : Value} {vs : Items} → IsItem v vs → IsItem v (cons w vs)

-- A node of the layout `root`: itself, or a node of a child or of a repeat template.
pub data IsNode (node : Value) : Value → Type 0 where
  itself : IsNode node node
  child :
      (obj : Members) (items : Items) (v : Value)
      → get (codes "children") obj ≡ some (array items)
      → IsItem v items
      → IsNode node v
      → IsNode node (object obj)
  template :
      (obj : Members) (v : Value)
      → get (codes "template") obj ≡ some v
      → IsNode node v
      → IsNode node (object obj)

leaf-IsNode : (v node : Value) → is_object v ≡ false → IsNode node v → node ≡ v
leaf-IsNode v node e itself = refl
leaf-IsNode v node e (child obj items w at item below) = absurd (cc)
leaf-IsNode v node e (template obj w at below) = absurd (cc)

module _ (check : Members → Result BundleError (Unit {0})) where
  -- Every object among the nodes of a layout passes the check.
  abbrev pub AllNodesPass : Value → Type 0
  AllNodesPass root = (obj : Members) → IsNode (object obj) root → check obj ≡ ok tt

  item_cons :
      (w : Value) (ws : Items)
      → AllNodesPass w
      → ((v : Value) → IsItem v ws → AllNodesPass v)
      → (v : Value) → IsItem v (cons w ws)
      → AllNodesPass v
  item_cons w ws hw hs v first = hw
  item_cons w ws hw hs v (later i) = hs v i

  push_items_sound :
      (items : Items) (stack : List Value)
      → All AllNodesPass (push_items items stack)
      → ((v : Value) → IsItem v items → AllNodesPass v) × All AllNodesPass stack
  push_items_sound nil stack h = (λ v i. elim i [ ], h)
  push_items_sound (cons w ws) stack h =
      let (hs, (hw, below)) = push_items_sound ws (w ∷ stack) h in (item_cons w ws hw hs, below)

  push_items_complete :
      (items : Items) (stack : List Value)
      → ((v : Value) → IsItem v items → AllNodesPass v)
      → All AllNodesPass stack
      → All AllNodesPass (push_items items stack)
  push_items_complete nil stack h hs = hs
  push_items_complete (cons w ws) stack h hs =
      push_items_complete ws (w ∷ stack) (λ v i. h v (later i)) (h w first, hs)

  push_children_sound :
      (o : Option Value) (stack : List Value)
      → All AllNodesPass (push_children o stack)
      → ((items : Items) (v : Value) → o ≡ some (array items) → IsItem v items → AllNodesPass v)
        × All AllNodesPass stack
  push_children_sound none stack h = (λ items v e i. absurd (cc), h)
  push_children_sound (some (array items)) stack h =
      let (hs, below) = push_items_sound items stack h in
      (
        λ items' v e i. let same : items ≡ items' = cc in hs v (subst (IsItem v) (sym same) i),
        below,
      )
  push_children_sound (some null) stack h = (λ items v e i. absurd (cc), h)
  push_children_sound (some (boolean b)) stack h = (λ items v e i. absurd (cc), h)
  push_children_sound (some (number n)) stack h = (λ items v e i. absurd (cc), h)
  push_children_sound (some (string s)) stack h = (λ items v e i. absurd (cc), h)
  push_children_sound (some (object ms)) stack h = (λ items v e i. absurd (cc), h)

  push_children_complete :
      (o : Option Value) (stack : List Value)
      → ((items : Items) (v : Value) → o ≡ some (array items) → IsItem v items → AllNodesPass v)
      → All AllNodesPass stack
      → All AllNodesPass (push_children o stack)
  push_children_complete none stack h hs = hs
  push_children_complete (some (array items)) stack h hs =
      push_items_complete items stack (λ v i. h items v refl i) hs
  push_children_complete (some null) stack h hs = hs
  push_children_complete (some (boolean b)) stack h hs = hs
  push_children_complete (some (number n)) stack h hs = hs
  push_children_complete (some (string s)) stack h hs = hs
  push_children_complete (some (object ms)) stack h hs = hs

  push_template_sound :
      (o : Option Value) (stack : List Value)
      → All AllNodesPass (push_template o stack)
      → ((v : Value) → o ≡ some v → AllNodesPass v) × All AllNodesPass stack
  push_template_sound none stack h = (λ v e. absurd (cc), h)
  push_template_sound (some w) stack h =
      (λ v e. let same : w ≡ v = cc in subst AllNodesPass same h.0, h.1)

  push_template_complete :
      (o : Option Value) (stack : List Value)
      → ((v : Value) → o ≡ some v → AllNodesPass v)
      → All AllNodesPass stack
      → All AllNodesPass (push_template o stack)
  push_template_complete none stack h hs = hs
  push_template_complete (some w) stack h hs = (h w refl, hs)

  object-pass :
      (obj : Members)
      → check obj ≡ ok tt
      → ((items : Items) (v : Value)
          → get (codes "children") obj ≡ some (array items)
          → IsItem v items
          → AllNodesPass v)
      → ((v : Value) → get (codes "template") obj ≡ some v → AllNodesPass v)
      → AllNodesPass (object obj)
  object-pass obj here below inside ms itself = here
  object-pass obj here below inside ms (child _ items v at item node) =
      below items v at item ms node
  object-pass obj here below inside ms (template _ v at node) = inside v at ms node

  leaf-pass : (v : Value) → is_object v ≡ false → AllNodesPass v
  leaf-pass v leaf ms node =
      let e = leaf-IsNode v (object ms) leaf node in absurd (cc (ap is_object e, leaf))

  pub walk_sound :
      (fuel : ℕ) (stack : List Value)
      → size_all stack ≤ fuel
      → walk check fuel stack ≡ ok tt
      → All AllNodesPass stack
  unfolding walk size
  walk_sound fuel [] enough h = tt
  walk_sound zero (v ∷ stack) enough h = absurd (omega (arith, size_positive v))
  walk_sound (suc fuel) (object obj ∷ stack) enough h =
      let (u, here, later_) = >>=-eq-ok (check obj) _ h in
      let (inside, above) = push_template_sound (get (codes "template") obj) _ (
        walk_sound fuel (next_nodes obj stack) (omega (arith, size_all-next_nodes obj stack))
          later_) in
      let (below, rest) = push_children_sound (get (codes "children") obj) stack above in
      (object-pass obj here below inside, rest)
  walk_sound (suc fuel) (null ∷ stack) enough h =
      (leaf-pass null refl, walk_sound fuel stack (omega arith) h)
  walk_sound (suc fuel) (boolean b ∷ stack) enough h =
      (leaf-pass (boolean b) refl, walk_sound fuel stack (omega arith) h)
  walk_sound (suc fuel) (number n ∷ stack) enough h =
      (leaf-pass (number n) refl, walk_sound fuel stack (omega arith) h)
  walk_sound (suc fuel) (string s ∷ stack) enough h =
      (leaf-pass (string s) refl, walk_sound fuel stack (omega arith) h)
  walk_sound (suc fuel) (array items ∷ stack) enough h =
      (leaf-pass (array items) refl, walk_sound fuel stack (omega arith) h)

  pub walk_complete :
      (fuel : ℕ) (stack : List Value) → All AllNodesPass stack → walk check fuel stack ≡ ok tt
  unfolding walk
  walk_complete fuel [] h = refl
  walk_complete zero (v ∷ stack) h = refl
  walk_complete (suc fuel) (object obj ∷ stack) h =
      ap (λ r. r >> walk check fuel (next_nodes obj stack)) (h.0 obj itself)
      ∙ walk_complete fuel (next_nodes obj stack) (
          push_template_complete (get (codes "template") obj) _
            (λ v e ms node. h.0 ms (template obj v e node))
            (push_children_complete (get (codes "children") obj) stack
              (λ items v e i ms node. h.0 ms (child obj items v e i node)) h.1))
  walk_complete (suc fuel) (null ∷ stack) h = walk_complete fuel stack h.1
  walk_complete (suc fuel) (boolean b ∷ stack) h = walk_complete fuel stack h.1
  walk_complete (suc fuel) (number n ∷ stack) h = walk_complete fuel stack h.1
  walk_complete (suc fuel) (string s ∷ stack) h = walk_complete fuel stack h.1
  walk_complete (suc fuel) (array items ∷ stack) h = walk_complete fuel stack h.1

-- A layout passes the static checks exactly if every object among its nodes does: the root, the
-- children of a node, and the template of a node. Every node is reached, whatever the shape.
pub check_layout_invariants_iff :
    (root : Value)
    → (check_layout_invariants root ≡ ok tt)
      ↔ ((obj : Members) → IsNode (object obj) root → check_node obj ≡ ok tt)
unfolding check_layout_invariants
check_layout_invariants_iff root = (
  λ h. (walk_sound check_node (size root) (root ∷ []) (omega arith) h).0,
  λ h. walk_complete check_node (size root) (root ∷ []) (h, tt),
)
