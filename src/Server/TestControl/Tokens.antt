-- ===== src/Server/TestControl/Tokens.antt =====
-- Who may log in after a setup (test_control.rs).
use lumencast_rs.Prelude.{
  ◌≡◌, refl, sym, ap, subst, ◌∙◌, ◌⊎◌, inl, inr, false, not, Bool-cases, [], ◌∷◌, Option, none,
  some, Text, codes, text_eq, text_eq_iff, Map, lookup, lookup-insert, head?, is_empty, is_some,
  strip_prefix, Any, if-cases, ℕ, Result, ok, err,
}
use lumencast_rs.Server.Role.{Role}
use lumencast_rs.Server.Auth.{
  Identity, MapAuthenticator, insert_identity, clear_tokens, authenticate_map, or_denied,
}
use lumencast_rs.Server.Registry.{ServerInner, new_scene_with_version}
use lumencast_rs.Server.Scene.{ServerError}
use lumencast_rs.Server.TestControl.Specs.{Readers, role_for_placeholder, install, install_tokens}
use lumencast_rs.Server.TestControl.{
  SetupBundle, SetupRequest, TestControlState, Response, effective_id, finish, setup_bundle,
  cleared, handle_setup,
}

-- The pair of a request gives this identity to this token.
abbrev pub Grants : Text → Identity → Text × Text → Type 0
Grants token i kv =
    (text_eq kv.0 (codes "$TOKEN_INVALID") ≡ false)
    × (kv.1 ≡ token)
    × (role_for_placeholder kv.0 ≡ some i.role)
    × (i ≡ record { subject = kv.0; role = i.role; paths = none })

install_sound :
    (placeholder value token : Text) (r : Option Role) (auth : MapAuthenticator) (i : Identity)
    → lookup token (install placeholder value r auth).inner ≡ some i
    → ((value ≡ token)
        × (r ≡ some i.role)
        × (i ≡ record { subject = placeholder; role = i.role; paths = none }))
      ⊎ (lookup token auth.inner ≡ some i)
unfolding insert_identity
install_sound placeholder value token none auth i h = inr h
install_sound placeholder value token (some role) auth i h =
    let new : Identity = record { subject = placeholder; role = role; paths = none } in
    let found = sym (lookup-insert value token new auth.inner) ∙ h in
    elim (Bool-cases (text_eq value token)) [
      | inl same ↦
          let now : some new ≡ some i = rw same at found in
          let is_new : new ≡ i = cc in
          inl (
            (text_eq_iff value token).0 same,
            ap (λ (j : Identity). some j.role) is_new,
            subst
                (λ (j : Identity).
                  j ≡ record { subject = placeholder; role = j.role; paths = none })
                is_new refl,
          )
      | inr other ↦ inr (rw other at found)
    ]

-- The pairs of the request before this one may have given the token as well.
install_tokens_sound :
    (tokens : Map Text) (token : Text) (auth : MapAuthenticator) (i : Identity)
    → lookup token (install_tokens tokens auth).inner ≡ some i
    → Any (Grants token i) tokens ⊎ (lookup token auth.inner ≡ some i)
unfolding install_tokens
install_tokens_sound [] token auth i h = inr h
install_tokens_sound ((placeholder, value) ∷ tokens) token auth i h =
    elim (Bool-cases (text_eq placeholder (codes "$TOKEN_INVALID"))) [
      | inl invalid ↦
          elim (install_tokens_sound tokens token auth i (rw (install_tokens, invalid) at h)) [
            | inl later ↦ inl (inr later)
            | inr before ↦ inr before
          ]
      | inr valid ↦
          elim (install_tokens_sound tokens token
            (install placeholder value (role_for_placeholder placeholder) auth) i
            (rw (install_tokens, valid) at h)) [
              | inl later ↦ inl (inr later)
              | inr now ↦
                  elim (install_sound placeholder value token (role_for_placeholder placeholder)
                    auth i now) [
                      | inl (same, role, is_i) ↦ inl (inl (valid, same, role, is_i))
                      | inr before ↦ inr before
                    ]
            ]
    ]

or_denied-ok : (i : Identity) (o : Option Identity) → or_denied o ≡ ok i → o ≡ some i
or_denied-ok i none h = absurd cc
or_denied-ok i (some j) h = cc

module _ (readers : Readers) (req : SetupRequest) where
  finish-auth :
      (b : SetupBundle) (t : TestControlState) (r : ServerInner × Result ServerError ℕ)
      → (finish readers req b t r).0.auth ≡ t.auth
  finish-auth b t (s, ok h) = refl
  finish-auth b t (s, err e) = refl

  setup_bundle-auth :
      (t : TestControlState) (o : Option SetupBundle)
      → (setup_bundle readers req t o).0.auth ≡ t.auth
  setup_bundle-auth t none = refl
  setup_bundle-auth t (some b) =
      if-cases HasAuth (is_empty b.id) _ _ (λ no_id. refl)
        (λ named.
          if-cases HasAuth (not (is_some (strip_prefix (codes "sha256:") b.hash))) _ _
            (λ other. refl)
            (λ hashed. finish-auth b t (new_scene_with_version (effective_id b) b.hash t.server)))
    where
      HasAuth : TestControlState × Response → Type 0
      HasAuth r = r.0.auth ≡ t.auth

  -- After a setup, successful or not, a token is accepted only if the request gives it for a
  -- placeholder that names a role, which is not `$TOKEN_INVALID`; its holder has this role, the
  -- placeholder for a subject and no path claim. No token from before the setup is accepted.
  pub handle_setup-Grants :
      (t : TestControlState) (token : Text) (i : Identity)
      → authenticate_map (handle_setup readers req t).0.auth token ≡ ok i
      → Any (Grants token i) req.tokens
  unfolding handle_setup authenticate_map cleared clear_tokens lookup
  handle_setup-Grants t token i h =
      let a = setup_bundle-auth (cleared req.tokens t) (head? req.bundles) in
      let h' = rw a at h in
      elim (install_tokens_sound req.tokens token (clear_tokens t.auth) i (or_denied-ok i _ h')) [
        | inl granted ↦ granted
        | inr before ↦ absurd cc
      ]
