-- ===== src/Server/Connection/Handshake.antt =====
-- The handshake (`Connection::run`, steps 1 to 5, of ws_handler.rs): who is let in.
use lumencast_rs.Prelude.{ℕ, ◌≡◌, refl, false, [], ◌∷◌, Option, none, some, Result, ok, err}
use lumencast_rs.Protocol.Errors.{ErrorCode}
use lumencast_rs.Protocol.Frames.{ErrorFrame, ServerFrame, Subscribe}
use lumencast_rs.Server.Auth.{AuthError, Identity}
use lumencast_rs.Server.Scene.{Scene, SceneRejection}
use lumencast_rs.Server.Registry.{ServerInner, deref}
use lumencast_rs.Server.Connection.{
  Env, Clock, frame, Connection, send, error_frame, send_error_with_path,
}
use lumencast_rs.Server.Connection.Session.{
  HandlerError, Received, recv_subscribe, resolve_scene, send_initial, Run, live, done, welcome,
  unknown, enter_scene, enter, new_connection, admit, on_subscribe, handshake,
}

-- Why a `subscribe` is turned away, with the code of the error: the token is not accepted, no scene is
-- found, the scene is gone, or the scene is rejected.
pub data IsRefused (env : Env) (s : ServerInner) (sub : Subscribe) : ErrorCode → Type 0 where
  token_denied :
      (e : AuthError)
      → env.auth.authenticate sub.token ≡ err e
      → IsRefused env s sub ErrorCode.auth_denied
  no_scene :
      (identity : Identity)
      → env.auth.authenticate sub.token ≡ ok identity
      → resolve_scene s sub ≡ none
      → IsRefused env s sub ErrorCode.scene_not_found
  scene_gone :
      (identity : Identity) (h : ℕ)
      → env.auth.authenticate sub.token ≡ ok identity
      → resolve_scene s sub ≡ some h
      → deref s h ≡ none
      → IsRefused env s sub ErrorCode.scene_not_found
  scene_rejected :
      (identity : Identity) (h : ℕ) (sc : Scene) (x : SceneRejection)
      → env.auth.authenticate sub.token ≡ ok identity
      → resolve_scene s sub ≡ some h
      → deref s h ≡ some sc
      → sc.rejection ≡ some x
      → IsRefused env s sub x.code

-- What a handshake leads to: a session of the identity that the token stands for, in the scene that
-- was asked for, or the active one; an end without a frame if there was no `subscribe`; or an end
-- with one error, for a reason that holds.
pub data Greeting (env : Env) (t : Clock) (r : Received) (s : ServerInner) : Run → Type 0 where
  admitted :
      (sub : Subscribe) (identity : Identity) (h : ℕ) (sc : Scene)
      → recv_subscribe env r ≡ ok sub
      → env.auth.authenticate sub.token ≡ ok identity
      → resolve_scene s sub ≡ some h
      → deref s h ≡ some sc
      → sc.rejection ≡ none
      → Greeting env t r s (
          live (record {
            server = s;
            conn =
                send_initial t sc sub.since_sequence
                  (record (new_connection t s) { current_scene = some h });
            current = h;
            identity = identity;
          }))
  silent :
      (c : Connection) (e : HandlerError)
      → recv_subscribe env r ≡ err e
      → c.out ≡ []
      → Greeting env t r s (done s c (err e))
  turned_away :
      (sub : Subscribe) (c : Connection) (e : ErrorFrame)
      → recv_subscribe env r ≡ ok sub
      → IsRefused env s sub e.code
      → e.recoverable ≡ false
      → c.out ≡ frame (ServerFrame.error e) ∷ []
      → Greeting env t r s (done s c (ok tt))

module _ (env : Env) (t : Clock) (r : Received) (s : ServerInner) where
  unknown-Greeting :
      (sub : Subscribe)
      → recv_subscribe env r ≡ ok sub
      → IsRefused env s sub ErrorCode.scene_not_found
      → Greeting env t r s (unknown t s (new_connection t s))
  unfolding send_error_with_path send error_frame
  unknown-Greeting sub got why = turned_away sub _ _ got why refl refl

  welcome-Greeting :
      (sub : Subscribe) (identity : Identity) (h : ℕ) (sc : Scene)
      → recv_subscribe env r ≡ ok sub
      → env.auth.authenticate sub.token ≡ ok identity
      → resolve_scene s sub ≡ some h
      → deref s h ≡ some sc
      → (o : Option SceneRejection) → sc.rejection ≡ o
      → Greeting env t r s
          (welcome t s identity sub h sc o (record (new_connection t s) { current_scene = some h }))
  unfolding send_error_with_path send error_frame
  welcome-Greeting sub identity h sc got known found at none fine =
      admitted sub identity h sc got known found at fine
  welcome-Greeting sub identity h sc got known found at (some x) rejected =
      turned_away sub _ _ got (scene_rejected identity h sc x known found at rejected) refl refl

  scene-Greeting :
      (sub : Subscribe) (identity : Identity) (h : ℕ)
      → recv_subscribe env r ≡ ok sub
      → env.auth.authenticate sub.token ≡ ok identity
      → resolve_scene s sub ≡ some h
      → (o : Option Scene) → deref s h ≡ o
      → Greeting env t r s (enter_scene t s identity sub h (new_connection t s) o)
  scene-Greeting sub identity h got known found none at =
      unknown-Greeting sub got (scene_gone identity h known found at)
  scene-Greeting sub identity h got known found (some sc) at =
      welcome-Greeting sub identity h sc got known found at sc.rejection refl

  enter-Greeting :
      (sub : Subscribe) (identity : Identity)
      → recv_subscribe env r ≡ ok sub
      → env.auth.authenticate sub.token ≡ ok identity
      → (o : Option ℕ) → resolve_scene s sub ≡ o
      → Greeting env t r s (enter t s identity sub o (new_connection t s))
  enter-Greeting sub identity got known none found =
      unknown-Greeting sub got (no_scene identity known found)
  enter-Greeting sub identity got known (some h) found =
      scene-Greeting sub identity h got known found (deref s h) refl

  admit-Greeting :
      (sub : Subscribe)
      → recv_subscribe env r ≡ ok sub
      → (a : Result AuthError Identity) → env.auth.authenticate sub.token ≡ a
      → Greeting env t r s (admit t s sub a)
  unfolding send_error_with_path send error_frame
  admit-Greeting sub got (err e) denied_ =
      turned_away sub _ _ got (token_denied e denied_) refl refl
  admit-Greeting sub got (ok identity) known =
      enter-Greeting sub identity got known (resolve_scene s sub) refl

  -- A handshake changes nothing of the server. It goes live only for a `subscribe` frame whose
  -- token the authenticator accepts and whose scene exists and is not rejected, as the identity
  -- that the authenticator returns and in that scene. It ends without a frame only if no `subscribe`
  -- came; after a `subscribe` that is refused it ends with one error that the client cannot recover
  -- from, whose code says why: the token, the scene that is missing, or the scene's own rejection.
  pub handshake-Greeting : Greeting env t r s (handshake env t r s)
  unfolding handshake
  handshake-Greeting = go (recv_subscribe env r) refl
    where
      go :
          (x : Result HandlerError Subscribe)
          → recv_subscribe env r ≡ x
          → Greeting env t r s (on_subscribe env t s x)
      go (err e) got = silent _ e got refl
      go (ok sub) got = admit-Greeting sub got (env.auth.authenticate sub.token) refl
