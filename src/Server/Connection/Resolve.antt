-- ===== src/Server/Connection/Resolve.antt =====
-- The scene that a session enters (`resolve_scene` of ws_handler.rs), on a server that has answered any
-- calls (server.rs).
use lumencast_rs.Prelude.{
  ℕ, ◌≡◌, refl, sym, ap, ◌∙◌, inl, inr, List, Option, none, some, Option-cases, Text, is_some,
}
use lumencast_rs.Protocol.Types.{SceneId}
use lumencast_rs.Protocol.Frames.{Subscribe}
use lumencast_rs.Protocol.Codec.{SerdeJson, Derived}
use lumencast_rs.Protocol.Bundle.{Bundle}
use lumencast_rs.Server.Scene.{Scene}
use lumencast_rs.Server.Registry.{ServerConfig, ServerInner, new_server, scene, deref}
use lumencast_rs.Server.Registry.Laws.{IsNamed, IsValid, new_server-IsValid}
use lumencast_rs.Server.Registry.Calls.{Call, serve_all, serve_all-IsValid}
use lumencast_rs.Server.Connection.Session.{scene_of?, asked_or_active, resolve_scene}

named_scene :
    (id : SceneId) (o : Option Scene) → IsNamed id o → (sc : Scene) × (o ≡ some sc) × (sc.id ≡ id)
named_scene id none named = absurd (cc)
named_scene id (some sc) named = (sc, refl, named)

-- What a session finds in a valid server.
found_scene :
    (s : ServerInner) (o : Option SceneId) (h : ℕ)
    → IsValid s
    → scene_of? s o ≡ some h
    → (sc : Scene) × (deref s h ≡ some sc) × (o ≡ some sc.id)
found_scene s none h v e = absurd (cc)
found_scene s (some id) h v e =
    let (sc, at, is) = named_scene id (deref s h) (v.named id h e) in (sc, at, ap some (sym is))

module _ (sj : SerdeJson) (d : Derived Bundle) (sha256 : Text → Text) where
  -- Whatever calls a server has answered since its start, a scene that a session resolves is there
  -- and has the name that the `subscribe` frame asks for, or is the active scene when it asks for
  -- none; and a session that asks for none finds a scene as soon as one is active.
  pub resolve_scene-named :
      (config : ServerConfig) (cs : List (Call sj d sha256)) (sub : Subscribe)
      → ((h : ℕ)
          → resolve_scene (serve_all sj d sha256 cs (new_server config)) sub ≡ some h
          → (sc : Scene) × (deref (serve_all sj d sha256 cs (new_server config)) h ≡ some sc)
            × (asked_or_active sub.scene (serve_all sj d sha256 cs (new_server config)).active
                ≡ some sc.id))
        × ((id : SceneId)
            → sub.scene ≡ none
            → (serve_all sj d sha256 cs (new_server config)).active ≡ some id
            → (h : ℕ) × (resolve_scene (serve_all sj d sha256 cs (new_server config)) sub ≡ some h))
  unfolding resolve_scene
  resolve_scene-named config cs sub =
      let s = serve_all sj d sha256 cs (new_server config) in
      let v = serve_all-IsValid sj d sha256 cs (new_server config) (new_server-IsValid config) in
      (
        λ h e. found_scene s (asked_or_active sub.scene s.active) h v e,
        λ id nothing active. elim (Option-cases (scene id s)) [
          | inl gone ↦ absurd (cc (v.current id active, ap is_some gone))
          | inr (h, found) ↦ (
            h,
            ap (λ o. scene_of? s (asked_or_active o s.active)) nothing
                ∙ ap (scene_of? s) active
                ∙ found,
          )
        ],
      )
