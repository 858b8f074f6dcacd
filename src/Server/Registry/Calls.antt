-- ===== src/Server/Registry/Calls.antt =====
-- The server over any sequence of calls (server.rs, with the calls of scene.rs on the scenes that it
-- holds), and the handshake's choice of a scene (`resolve_scene` of ws_handler.rs).
use lumencast_rs.Prelude.{
  ℕ, ◌≡◌, refl, sym, subst, true, not, List, [], ◌∷◌, Option, none, some, Text, lookup,
  contains_key, if-cases, Result, ok, err, arith,
}
use lumencast_rs.Protocol.Types.{SceneId, SceneVersion}
use lumencast_rs.Protocol.Codec.{SerdeJson, Derived}
use lumencast_rs.Protocol.Bundle.{Bundle, BundleError, with_computed_version, to_canonical_bytes}
use lumencast_rs.Server.Scene.{
  Scene, ServerError, set, emit, emit_with_cause, publish, advance_seq, with_operator_inputs,
  with_declared_inputs, seed,
}
use lumencast_rs.Server.Scene
use lumencast_rs.Server.Scene.Laws.{emit_checked_cases, set-emit}
use lumencast_rs.Server.Scene.Mirror.{
  Op, sets, emits, advances, attaches, rejects, declares, declares_paths, perform,
}
use lumencast_rs.Server.Registry.{
  ServerInner, deref, put, new_scene_with_version, new_scene, scene_of_bundle, registered,
  on_versioned, register_bundle, set_active_scene, clear_scenes,
}
use lumencast_rs.Server.Registry.Laws.{IsValid, register-IsValid, put-IsValid}

module _ (sj : SerdeJson) (d : Derived Bundle) (sha256 : Text → Text) where
  -- A call on the server, or on a scene behind one of its handles.
  pub data Call : Type 0 where
    creates : SceneId → Call
    creates_version : SceneId → SceneVersion → Call
    registers : Bundle → Call
    activates : SceneId → Call
    clears : Call
    operates : ℕ → Op → Call

  abbrev pub operate : ServerInner → ℕ → Op → Option Scene → ServerInner
  operate s h o none = s
  operate s h o (some sc) = put s h (perform o sc)

  unfoldable pub serve : Call → ServerInner → ServerInner
  serve (creates id) s = (new_scene id s).0
  serve (creates_version id version) s = (new_scene_with_version id version s).0
  serve (registers b) s = (register_bundle sj d sha256 b s).0
  serve (activates id) s = (set_active_scene id s).0
  serve clears s = clear_scenes s
  serve (operates h o) s = operate s h o (deref s h)

  unfoldable pub serve_all : List Call → ServerInner → ServerInner
  serve_all [] s = s
  serve_all (c ∷ cs) s = serve_all cs (serve c s)

perform-id : (o : Op) (sc : Scene) → (perform o sc).id ≡ sc.id
unfolding perform emit with_operator_inputs with_declared_inputs advance_seq publish
perform-id (sets path value) sc =
    subst (λ r. r.0.id ≡ sc.id) (sym (set-emit path value sc))
      (emit_checked_cases (λ s'. s'.id ≡ sc.id) ((path, value) ∷ []) none sc refl (λ ps. refl))
perform-id (emits pairs cause) sc =
    emit_checked_cases (λ s'. s'.id ≡ sc.id) pairs cause sc refl (λ ps. refl)
perform-id advances sc = refl
perform-id (attaches bytes) sc = refl
perform-id (rejects code message) sc = refl
perform-id (declares specs) sc = refl
perform-id (declares_paths paths) sc = refl

abbrev IsValidAfter {ℓ} : {A : Type ℓ} → ServerInner × A → Type 0
IsValidAfter r = IsValid r.0

new_scene_with_version-IsValid :
    (id : SceneId) (version : SceneVersion) (s : ServerInner)
    → IsValid s
    → IsValid (new_scene_with_version id version s).0
unfolding new_scene_with_version
new_scene_with_version-IsValid id version s v =
    if-cases IsValidAfter (contains_key id s.scenes) _ _ (λ taken. v)
      (λ free. register-IsValid (Scene.new_scene id version) s v)

module _ (sj : SerdeJson) (d : Derived Bundle) (sha256 : Text → Text) where
  register_bundle-IsValid :
      (b : Bundle) (s : ServerInner) → IsValid s → IsValid (register_bundle sj d sha256 b s).0
  unfolding register_bundle
  register_bundle-IsValid b s v = versioned (with_computed_version sj d sha256 b)
    where
      registered_ :
          (b' : Bundle) (r : Result BundleError Text) → IsValidAfter (registered sj d sha256 b' s r)
      registered_ b' (err e) = v
      registered_ b' (ok bytes) = register-IsValid (scene_of_bundle b' bytes) s v

      versioned : (r : Result BundleError Bundle) → IsValidAfter (on_versioned sj d sha256 s r)
      versioned (err e) = v
      versioned (ok b') =
          if-cases IsValidAfter (contains_key b'.scene_id s.scenes) _ _ (λ taken. v)
            (λ free. registered_ b' (to_canonical_bytes sj d sha256 b'))

  serve-IsValid :
      (c : Call sj d sha256) (s : ServerInner) → IsValid s → IsValid (serve sj d sha256 c s)
  unfolding serve new_scene set_active_scene clear_scenes lookup
  serve-IsValid (creates id) s v = new_scene_with_version-IsValid id _ s v
  serve-IsValid (creates_version id version) s v = new_scene_with_version-IsValid id version s v
  serve-IsValid (registers b) s v = register_bundle-IsValid b s v
  serve-IsValid (activates id) s v =
      if-cases IsValidAfter (not (contains_key id s.scenes)) _ _ (λ unknown. v)
        (λ known. record {
          unique = v.unique;
          named = v.named;
          current = λ k (e : some id ≡ some k).
              let same : id ≡ k = cc in
              subst (λ j. contains_key j s.scenes ≡ true) same (ground arith);
        })
  serve-IsValid clears s v = record {
    unique = tt;
    named = λ id h e. absurd (cc);
    current = λ id e. absurd (cc);
  }
  serve-IsValid (operates h o) s v = go (deref s h) refl
    where
      go : (x : Option Scene) → deref s h ≡ x → IsValid (operate sj d sha256 s h o x)
      go none at = v
      go (some sc) at = put-IsValid s h sc (perform o sc) at (perform-id o sc) v

  pub serve_all-IsValid :
      (cs : List (Call sj d sha256)) (s : ServerInner)
      → IsValid s
      → IsValid (serve_all sj d sha256 cs s)
  unfolding serve_all
  serve_all-IsValid [] s v = v
  serve_all-IsValid (c ∷ cs) s v = serve_all-IsValid cs _ (serve-IsValid c s v)
