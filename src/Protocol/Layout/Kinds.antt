-- ===== src/Protocol/Layout/Kinds.antt =====
-- What `check_node` of bundle.rs asks of the objects of each kind.
use lumencast_rs.Prelude.{
  ◌≡◌, refl, sym, subst, ◌↔◌, ◌⊎◌, inl, inr, Bool, List, [], ◌∷◌, Text, codes, text_eq, text_eq_iff,
  Bool-cases, ok, >>=-eq-ok,
}
use lumencast_rs.Protocol.Json.{Members, get}
use lumencast_rs.Protocol.Bundle.{BundleError}
use lumencast_rs.Protocol.Layout.{
  str_of, has, require, primitive_kinds, zab_capture_kind, is_one_of, some_or, check_per_kind,
  check_animate, check_catalogue, check_node,
}
use lumencast_rs.Protocol.Layout.Nodes.{
  IsOneOf, Says, SaysOneOf, Has, Fits, a_stack, a_grid, a_frame, a_text, an_image, a_plain_shape,
  a_path, a_medium, a_repeat, a_capture, IsLegalNode,
}
use lumencast_rs.Protocol.Layout.Checks.{
  require_iff, contains_iff, is_some_iff, SaysOneOf-iff, some_or_iff, check_animate_iff,
  check_zab_capture_iff,
}

module _ (obj : Members) where
  abbrev Passes : Text → Type 0
  Passes kind = (check_catalogue kind obj ≡ ok tt) × (check_per_kind kind obj ≡ ok tt)

  has_iff : (key : Text) (e : BundleError) → (require (has key obj) e ≡ ok tt) ↔ Has obj key
  has_iff key e =
      let (to, from) = is_some_iff (get key obj) in
      (λ h. to ((require_iff _ _).0 h), λ h. (require_iff _ _).1 (from h))

  one_of_iff :
      (key : Text) (ts : List Text) (e : BundleError)
      → (require (is_one_of (str_of (get key obj)) ts) e ≡ ok tt) ↔ SaysOneOf obj key ts
  one_of_iff key ts e =
      let (to, from) = SaysOneOf-iff obj key ts in
      (λ h. to ((require_iff _ _).0 h), λ h. (require_iff _ _).1 (from h))

  stack_iff :
      (check_per_kind (codes "stack") obj ≡ ok tt)
      ↔ SaysOneOf obj (codes "direction") (codes "horizontal" ∷ codes "vertical" ∷ [])
  unfolding check_per_kind text_eq
  stack_iff = one_of_iff (codes "direction") (codes "horizontal" ∷ codes "vertical" ∷ []) _

  grid_iff : (check_per_kind (codes "grid") obj ≡ ok tt) ↔ Has obj (codes "columns")
  unfolding check_per_kind text_eq
  grid_iff = has_iff (codes "columns") _

  image_iff : (check_per_kind (codes "image") obj ≡ ok tt) ↔ Has obj (codes "alt")
  unfolding check_per_kind text_eq
  image_iff = has_iff (codes "alt") _

  media_iff :
      (check_per_kind (codes "media") obj ≡ ok tt)
      ↔ SaysOneOf obj (codes "kind_hint") (codes "video" ∷ codes "audio" ∷ [])
  unfolding check_per_kind text_eq
  media_iff = one_of_iff (codes "kind_hint") (codes "video" ∷ codes "audio" ∷ []) _

  repeat_iff :
      (check_per_kind (codes "repeat") obj ≡ ok tt)
      ↔ (Has obj (codes "scope") × Has obj (codes "template"))
  unfolding check_per_kind text_eq
  repeat_iff = (
    λ h.
        let (_, scope, template) = >>=-eq-ok (require (has (codes "scope") obj) _) _ h in
        ((has_iff (codes "scope") _).0 scope, (has_iff (codes "template") _).0 template),
    λ (scope, template).
        rw ((is_some_iff (get (codes "scope") obj)).1 scope)
          ((has_iff (codes "template") _).1 template),
  )

  abbrev plain_shapes : List Text
  plain_shapes = codes "rect" ∷ codes "circle" ∷ []

  abbrev IsShape : Type 0
  IsShape =
      SaysOneOf obj (codes "geometry") plain_shapes
      ⊎ (Says obj (codes "geometry") (codes "path") × Has obj (codes "pathData"))

  abbrev is_geometry : List Text → Bool
  is_geometry ts = is_one_of (str_of (get (codes "geometry") obj)) ts

  only_path :
      SaysOneOf obj (codes "geometry") (codes "path" ∷ [])
      → Says obj (codes "geometry") (codes "path")
  only_path (t, says, inl e) = rw (sym e) at says
  only_path (t, says, inr h) = elim h [ ]

  shape_sound : check_per_kind (codes "shape") obj ≡ ok tt → IsShape
  unfolding check_per_kind text_eq
  shape_sound h = elim (Bool-cases (is_geometry plain_shapes)) [
    | inl plain ↦ inl ((SaysOneOf-iff obj (codes "geometry") plain_shapes).0 plain)
    | inr other ↦ elim (Bool-cases (is_geometry (codes "path" ∷ []))) [
      | inl path ↦ inr (
        only_path ((SaysOneOf-iff obj (codes "geometry") (codes "path" ∷ [])).0 path),
        (has_iff (codes "pathData") _).0 (rw (other, path) at h),
      )
      | inr none_ ↦ absurd (cc (rw (other, none_) at h))
    ]
  ]

  shape_complete : IsShape → check_per_kind (codes "shape") obj ≡ ok tt
  unfolding check_per_kind text_eq
  shape_complete (inl plain) = rw ((SaysOneOf-iff obj (codes "geometry") plain_shapes).1 plain) refl
  shape_complete (inr (path, data_)) = rw path ((has_iff (codes "pathData") _).1 data_)

  kind_sound :
      (kind : Text) → IsOneOf primitive_kinds kind → check_per_kind kind obj ≡ ok tt → Fits kind obj
  kind_sound kind known h = elim known [
    | inl e ↦ a_stack (sym e) (stack_iff.0 (at e))
    | inr (inl e) ↦ a_grid (sym e) (grid_iff.0 (at e))
    | inr (inr (inl e)) ↦ a_frame (sym e)
    | inr (inr (inr (inl e))) ↦ a_text (sym e)
    | inr (inr (inr (inr (inl e)))) ↦ an_image (sym e) (image_iff.0 (at e))
    | inr (inr (inr (inr (inr (inl e))))) ↦ elim (shape_sound (at e)) [
      | inl plain ↦ a_plain_shape (sym e) plain
      | inr (path, data_) ↦ a_path (sym e) path data_
    ]
    | inr (inr (inr (inr (inr (inr (inl e)))))) ↦ a_medium (sym e) (media_iff.0 (at e))
    | inr (inr (inr (inr (inr (inr (inr (inl e))))))) ↦
        let (scope, template) = repeat_iff.0 (at e) in a_repeat (sym e) scope template
    | inr (inr (inr (inr (inr (inr (inr (inr h))))))) ↦ elim h [ ]
  ]
    where
      at : {k : Text} → k ≡ kind → check_per_kind k obj ≡ ok tt
      at e = subst (λ k. check_per_kind k obj ≡ ok tt) (sym e) h

  Passes-sound : (kind : Text) → Passes kind → Fits kind obj
  Passes-sound kind (catalogue, per_kind) = elim (Bool-cases (text_eq kind zab_capture_kind)) [
    | inl capture ↦
        a_capture ((text_eq_iff kind zab_capture_kind).0 capture)
          ((check_zab_capture_iff obj).0 (rw capture at catalogue))
    | inr other ↦
        kind_sound kind
          ((contains_iff kind primitive_kinds).0 ((require_iff _ _).0 (rw other at catalogue)))
          per_kind
  ]

  Passes-complete : (kind : Text) → Fits kind obj → Passes kind
  unfolding check_per_kind text_eq
  Passes-complete kind (a_stack e m) = subst Passes (sym e) (refl, stack_iff.1 m)
  Passes-complete kind (a_grid e m) = subst Passes (sym e) (refl, grid_iff.1 m)
  Passes-complete kind (a_frame e) = subst Passes (sym e) (refl, refl)
  Passes-complete kind (a_text e) = subst Passes (sym e) (refl, refl)
  Passes-complete kind (an_image e m) = subst Passes (sym e) (refl, image_iff.1 m)
  Passes-complete kind (a_plain_shape e m) = subst Passes (sym e) (refl, shape_complete (inl m))
  Passes-complete kind (a_path e path data_) =
      subst Passes (sym e) (refl, shape_complete (inr (path, data_)))
  Passes-complete kind (a_medium e m) = subst Passes (sym e) (refl, media_iff.1 m)
  Passes-complete kind (a_repeat e scope template) =
      subst Passes (sym e) (refl, repeat_iff.1 (scope, template))
  Passes-complete kind (a_capture e m) =
      subst Passes (sym e) ((check_zab_capture_iff obj).1 m, refl)

  pub check_node_iff : (check_node obj ≡ ok tt) ↔ IsLegalNode obj
  unfolding check_node
  check_node_iff = (
    λ h.
        let (kind, says, h₁) = >>=-eq-ok (some_or _ _) _ h in
        let (_, catalogue, h₂) = >>=-eq-ok (check_catalogue kind obj) _ h₁ in
        let (_, animate, per_kind) = >>=-eq-ok (check_animate (get (codes "animate") obj)) _ h₂ in
        (
          (kind, (some_or_iff _ _ kind).0 says, Passes-sound kind (catalogue, per_kind)),
          (check_animate_iff _).0 animate,
        ),
    λ ((kind, says, fits), animate).
        let (catalogue, per_kind) = Passes-complete kind fits in
        rw (says, catalogue, (check_animate_iff (get (codes "animate") obj)).1 animate) per_kind,
  )
