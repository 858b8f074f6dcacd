-- ===== src/Protocol/Layout/Size.antt =====
-- The size of the stack of the walk over a layout (bundle.rs): each round leaves it smaller.
use lumencast_rs.Prelude.{
  ℕ, ◌+◌, ◌≤◌, ◌<◌, ◌≡◌, refl, ap, ◌∙◌, false, List, [], ◌∷◌, Option, none, some, Text, codes,
  text_eq, text_eq_iff, Bool-cases, inl, inr, arith,
}
use lumencast_rs.Protocol.Json.{
  Value, null, boolean, number, string, array, object, Items, nil, cons, Members, end, member, get,
}
use lumencast_rs.Protocol.Layout.{
  push_items, push_children, push_template, next_nodes, size, size_items, size_members,
}

-- The number of values on a stack.
abbrev pub size_all : List Value → ℕ
size_all [] = 0
size_all (v ∷ vs) = size v + size_all vs

size_all-push_items :
    (items : Items) (stack : List Value)
    → size_all (push_items items stack) ≡ size_items items + size_all stack
unfolding size_items
size_all-push_items nil stack = omega arith
size_all-push_items (cons v vs) stack = omega (arith, size_all-push_items vs (v ∷ stack))

size-get : (k : Text) (ms : Members) (v : Value) → get k ms ≡ some v → size v ≤ size_members ms
unfolding get size_members
size-get k end v e = absurd (cc)
size-get k (member j w ms) v e = elim (Bool-cases (text_eq j k)) [
  | inl same ↦
      let hit : some w ≡ some v = rw same at e in
      let is_v : w ≡ v = cc in omega (arith, ap size is_v)
  | inr other ↦ let rest : get k ms ≡ some v = rw other at e in omega (arith, size-get k ms v rest)
]

-- Two different keys lead to two different members.
size-get_two :
    (j k : Text) (ms : Members) (v w : Value)
    → text_eq j k ≡ false
    → get j ms ≡ some v
    → get k ms ≡ some w
    → size v + size w ≤ size_members ms
unfolding get size_members
size-get_two j k end v w apart ev ew = absurd (cc)
size-get_two j k (member i u ms) v w apart ev ew = elim (Bool-cases (text_eq i j)) [
  | inl here ↦
      let is_j = (text_eq_iff i j).0 here in
      let other : text_eq i k ≡ false = ap (λ x. text_eq x k) is_j ∙ apart in
      let hit : some u ≡ some v = rw here at ev in
      let is_v : u ≡ v = cc in
      let rest : get k ms ≡ some w = rw other at ew in
      omega (arith, ap size is_v, size-get k ms w rest)
  | inr other ↦
      let rest : get j ms ≡ some v = rw other at ev in
      elim (Bool-cases (text_eq i k)) [
        | inl there ↦
            let hit : some u ≡ some w = rw there at ew in
            let is_w : u ≡ w = cc in omega (arith, ap size is_w, size-get j ms v rest)
        | inr neither ↦
            let rest' : get k ms ≡ some w = rw neither at ew in
            omega (arith, size-get_two j k ms v w apart rest rest')
      ]
]

abbrev size_of : Option Value → ℕ
size_of none = 0
size_of (some v) = size v

size_all-push_children :
    (o : Option Value) (stack : List Value)
    → size_all (push_children o stack) ≤ size_of o + size_all stack
unfolding size
size_all-push_children none stack = omega arith
size_all-push_children (some (array items)) stack = omega (arith, size_all-push_items items stack)
size_all-push_children (some null) stack = omega arith
size_all-push_children (some (boolean b)) stack = omega arith
size_all-push_children (some (number n)) stack = omega arith
size_all-push_children (some (string s)) stack = omega arith
size_all-push_children (some (object ms)) stack = omega arith

size_all-push_template :
    (o : Option Value) (stack : List Value)
    → size_all (push_template o stack) ≡ size_of o + size_all stack
size_all-push_template none stack = omega arith
size_all-push_template (some v) stack = refl

size_links :
    (obj : Members) (o p : Option Value)
    → get (codes "children") obj ≡ o
    → get (codes "template") obj ≡ p
    → size_of o + size_of p ≤ size_members obj
size_links obj none none eo ep = omega arith
size_links obj none (some w) eo ep = omega (arith, size-get (codes "template") obj w ep)
size_links obj (some v) none eo ep = omega (arith, size-get (codes "children") obj v eo)
size_links obj (some v) (some w) eo ep =
    size-get_two (codes "children") (codes "template") obj v w (unfold text_eq in refl) eo ep

-- A round of the walk leaves a smaller stack.
pub size_all-next_nodes :
    (obj : Members) (stack : List Value)
    → size_all (next_nodes obj stack) ≤ size_members obj + size_all stack
size_all-next_nodes obj stack = omega (
  arith,
  size_all-push_template (get (codes "template") obj)
      (push_children (get (codes "children") obj) stack),
  size_all-push_children (get (codes "children") obj) stack,
  size_links obj (get (codes "children") obj) (get (codes "template") obj) refl refl,
)

pub size_positive : (v : Value) → 0 < size v
unfolding size
size_positive null = omega arith
size_positive (boolean b) = omega arith
size_positive (number n) = omega arith
size_positive (string s) = omega arith
size_positive (array items) = omega arith
size_positive (object ms) = omega arith
