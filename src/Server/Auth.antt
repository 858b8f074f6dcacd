-- ===== src/Server/Auth.antt =====
-- crates/lumencast-server/src/auth.rs. The lock of the map is held for a whole operation.
pub mod Laws
use lumencast_rs.Prelude.{
  ℕ, Bool, List, [], ◌∷◌, Option, none, some, Text, Map, lookup, insert, remove, length, is_empty,
  Result, ok, err,
}
use lumencast_rs.Server.Role.{Role}

pub record Identity : Type 0 where
  pub subject : Text
  pub role : Role
  pub paths : Option (List Text)

pub data AuthError : Type 0 where
  denied : AuthError
  unavailable : Text → AuthError

-- The trait: how a token is validated is the deployment's choice.
pub record Authenticator : Type 0 where
  pub authenticate : Text → Result AuthError Identity

pub record MapAuthenticator : Type 0 where
  pub inner : Map Identity

abbrev pub new_authenticator : MapAuthenticator
new_authenticator = record { inner = [] }

unfoldable pub insert_token : Text → Role → MapAuthenticator → MapAuthenticator
insert_token token role a = record {
  inner = insert token (record { subject = token; role = role; paths = none }) a.inner;
}

unfoldable pub insert_identity : Text → Identity → MapAuthenticator → MapAuthenticator
insert_identity token identity a = record { inner = insert token identity a.inner }

unfoldable pub remove_token : Text → MapAuthenticator → MapAuthenticator × Option Identity
remove_token token a = (record { inner = remove token a.inner }, lookup token a.inner)

unfoldable pub clear_tokens : MapAuthenticator → MapAuthenticator
clear_tokens a = record { inner = [] }

abbrev pub token_count : MapAuthenticator → ℕ
token_count a = length a.inner

-- `ok_or(AuthError::Denied)`
abbrev pub or_denied : Option Identity → Result AuthError Identity
or_denied none = err denied
or_denied (some i) = ok i

unfoldable pub authenticate_map : MapAuthenticator → Text → Result AuthError Identity
authenticate_map a token = or_denied (lookup token a.inner)

abbrev pub map_authenticator : MapAuthenticator → Authenticator
map_authenticator a = record { authenticate = authenticate_map a }
