-- ===== src/Server/Registry/Route.antt =====
-- A registered bundle is served by its content hash (server.rs, bundle_route.rs).
use lumencast_rs.Prelude.{
  ℕ, ◌≡◌, refl, sym, ap, ◌∙◌, inl, inr, ◌++◌, none, some, Text, codes, text_eq, text_eq_iff, lookup,
  lookup-insert, contains_key, length, Bool-cases, if◌then◌else◌, Result, ok, err, arith,
}
use lumencast_rs.Protocol.Codec.{SerdeJson, Derived}
use lumencast_rs.Protocol.Bundle.{Bundle, BundleError, with_computed_version, to_canonical_bytes}
use lumencast_rs.Server.Scene.{Scene, ServerError, seed}
use lumencast_rs.Server.Scene
use lumencast_rs.Server.Registry.{
  ServerInner, scene, register, scene_of_bundle, registered, on_versioned, register_bundle, served,
  scene_bundle_route, scene_at,
}
use lumencast_rs.Server.Registry.Laws.{get_elem?-end}

module _ (b : Bundle) (bytes : Text) (s : ServerInner) where
  registered-scene :
      scene_at
        (register (scene_of_bundle b bytes) s)
        (scene b.scene_id (register (scene_of_bundle b bytes) s))
      ≡ some (scene_of_bundle b bytes)
  unfolding register scene_of_bundle seed Scene.new_scene
  registered-scene =
      ap (scene_at (register (scene_of_bundle b bytes) s)) (
        lookup-insert b.scene_id b.scene_id (length s.heap) s.scenes
        ∙ ap (λ t. if t then some (length s.heap) else lookup b.scene_id s.scenes)
            ((text_eq_iff b.scene_id b.scene_id).1 refl))
      ∙ get_elem?-end s.heap (scene_of_bundle b bytes)

  registered-served :
      (hex : Text)
      → scene_bundle_route b.scene_id hex (register (scene_of_bundle b bytes) s)
        ≡ (if text_eq b.scene_version (codes "sha256:" ++ hex) then some bytes else none)
  unfolding scene_bundle_route scene_of_bundle seed Scene.new_scene
  registered-served hex = ap (served (codes "sha256:" ++ hex)) registered-scene ∙ ground arith

module _ (sj : SerdeJson) (d : Derived Bundle) (sha256 : Text → Text) where
  -- What a successful registration leaves behind.
  abbrev pub IsServed : Bundle → ServerInner → Type 0
  IsServed b s' =
      (b' : Bundle) × (bytes : Text) × (with_computed_version sj d sha256 b ≡ ok b')
      × (to_canonical_bytes sj d sha256 b' ≡ ok bytes)
      × ((hex : Text)
          → scene_bundle_route b'.scene_id hex s'
            ≡ (if text_eq b'.scene_version (codes "sha256:" ++ hex) then some bytes else none))

  -- After a bundle is registered successfully, its canonical bytes are served under its scene id
  -- and under the version that its content hash gives it, and under no other version.
  pub register_bundle-IsServed :
      (b : Bundle) (s s' : ServerInner) (h : ℕ)
      → register_bundle sj d sha256 b s ≡ (s', ok h)
      → IsServed b s'
  unfolding register_bundle
  register_bundle-IsServed b s s' h e = versioned (with_computed_version sj d sha256 b) refl e
    where
      written :
          (b' : Bundle) (r : Result BundleError Text)
          → with_computed_version sj d sha256 b ≡ ok b'
          → to_canonical_bytes sj d sha256 b' ≡ r
          → registered sj d sha256 b' s r ≡ (s', ok h)
          → IsServed b s'
      written b' (err x) v w e = absurd (cc (ap (λ r. r.1) e))
      written b' (ok bytes) v w e = (
        b',
        bytes,
        v,
        w,
        λ hex.
            ap (scene_bundle_route b'.scene_id hex) (sym (ap (λ r. r.0) e))
            ∙ registered-served b' bytes s hex,
      )

      versioned :
          (r : Result BundleError Bundle)
          → with_computed_version sj d sha256 b ≡ r
          → on_versioned sj d sha256 s r ≡ (s', ok h)
          → IsServed b s'
      versioned (err x) v e = absurd (cc (ap (λ r. r.1) e))
      versioned (ok b') v e = elim (Bool-cases (contains_key b'.scene_id s.scenes)) [
        | inl taken ↦ absurd (cc (ap (λ r. r.1) (rw taken at e)))
        | inr free ↦ written b' (to_canonical_bytes sj d sha256 b') v refl (rw free at e)
      ]
