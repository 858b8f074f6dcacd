-- ===== src/Server/Role/Laws.antt =====
-- What each role may write (role.rs), against LSDP/1 §9.
use lumencast_rs.Prelude.{
  ◌≡◌, ◌↔◌, ◌⊎◌, inl, inr, true, List, [], ◌∷◌, Option, none, some, Text, Any, any_sound,
  any_complete, arith, Empty,
}
use lumencast_rs.Protocol.LeafPath.{LeafPath, Namespace, namespace}
use lumencast_rs.Protocol.LeafPath.Prefix.{IsUnder, starts_with_prefix_iff, namespace_iff}
use lumencast_rs.Server.Role.{
  Role, viewer, operator, service, test, inputs_prefix, test_prefix, in_scope, can_write,
}

-- A scope claim that is absent or empty restricts nothing; another one names prefixes.
abbrev pub IsInScope : LeafPath → Option (List Text) → Type 0
IsInScope path none = Unit
IsInScope path (some []) = Unit
IsInScope path (some (p ∷ ps)) = Any (λ q. IsUnder q path.text) (p ∷ ps)

abbrev pub MayWrite : Role → LeafPath → Option (List Text) → Type 0
MayWrite viewer path scoped = Empty
MayWrite operator path scoped = IsUnder inputs_prefix path.text
MayWrite service path scoped = IsUnder inputs_prefix path.text × IsInScope path scoped
MayWrite test path scoped = IsUnder test_prefix path.text

in_scope_iff :
    (path : LeafPath) (scoped : Option (List Text))
    → (in_scope path scoped ≡ true) ↔ IsInScope path scoped
in_scope_iff path none = (λ _. tt, λ _. cc)
in_scope_iff path (some []) = (λ _. tt, λ _. cc)
in_scope_iff path (some (p ∷ ps)) = (
  any_sound _ _ (λ q. (starts_with_prefix_iff path q).0) (λ q. (starts_with_prefix_iff path q).1)
      (p ∷ ps),
  any_complete _ _ (λ q. (starts_with_prefix_iff path q).0) (λ q. (starts_with_prefix_iff path q).1)
      (p ∷ ps),
)

-- A viewer writes nothing; an operator the paths under `__inputs`; a service those of them that are
-- under a prefix which its scope claim names, or all of them if it has no claim or a claim that names
-- no prefix; a test session the paths under `__test`.
pub can_write_iff :
    (role : Role) (path : LeafPath) (scoped : Option (List Text))
    → (can_write role path scoped ≡ true) ↔ MayWrite role path scoped
unfolding can_write
can_write_iff viewer path scoped = (λ h. absurd (cc), λ h. elim h [ ])
can_write_iff operator path scoped = starts_with_prefix_iff path inputs_prefix
can_write_iff test path scoped = starts_with_prefix_iff path test_prefix
can_write_iff service path scoped =
    let (to, from) = starts_with_prefix_iff path inputs_prefix in
    let (into, back) = in_scope_iff path scoped in
    (λ h. (to (ground arith), into (ground arith)), λ m. ground (arith, from m.0, back m.1))

-- Whatever its scope, a write goes to the operator inputs or to the test sandbox, and never to
-- the system's, the schema's or the show's own paths.
pub can_write-namespace :
    (role : Role) (path : LeafPath) (scoped : Option (List Text))
    → can_write role path scoped ≡ true
    → (namespace path ≡ Namespace.inputs) ⊎ ((role ≡ test) × (namespace path ≡ Namespace.test))
unfolding can_write
can_write-namespace viewer path scoped h = absurd (cc)
can_write-namespace operator path scoped h =
    inl ((namespace_iff Namespace.inputs path (λ e. cc)).1 h)
can_write-namespace service path scoped h =
    inl ((namespace_iff Namespace.inputs path (λ e. cc)).1 (ground arith))
can_write-namespace test path scoped h = inr (cc, (namespace_iff Namespace.test path (λ e. cc)).1 h)
