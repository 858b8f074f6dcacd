-- ===== src/Server/Auth/Laws.antt =====
-- Which tokens the in-memory authenticator accepts (auth.rs).
use lumencast_rs.Prelude.{
  ◌≡◌, none, Text, text_eq, IsUnique, lookup-insert, lookup-remove, insert-IsUnique, if◌then◌else◌,
  Bool-cases, inl, inr, ok, err,
}
use lumencast_rs.Server.Role.{Role}
use lumencast_rs.Server.Auth.{
  denied, MapAuthenticator, insert_token, remove_token, authenticate_map,
}

abbrev pub IsValid : MapAuthenticator → Type 0
IsValid a = IsUnique a.inner

-- A registered token authenticates as its own subject with the role that it was given, and no
-- other token is affected.
pub authenticate-insert_token :
    (a : MapAuthenticator) (token other : Text) (role : Role)
    → authenticate_map (insert_token token role a) other ≡ (
        if text_eq token other
        then ok (record { subject = token; role = role; paths = none })
        else authenticate_map a other)
unfolding authenticate_map insert_token
authenticate-insert_token a token other role =
    rw (lookup-insert token other (record { subject = token; role = role; paths = none }) a.inner)
      (elim (Bool-cases (text_eq token other)) [ inl e ↦ rw e | inr e ↦ rw e ])

-- A token that is dropped from an authenticator with no token twice is denied, and no other token
-- is affected.
pub authenticate-remove_token :
    (a : MapAuthenticator) (token other : Text)
    → IsValid a
    → authenticate_map (remove_token token a).0 other
      ≡ (if text_eq token other then err denied else authenticate_map a other)
unfolding authenticate_map remove_token
authenticate-remove_token a token other u =
    rw (lookup-remove token other a.inner u)
      (elim (Bool-cases (text_eq token other)) [ inl e ↦ rw e | inr e ↦ rw e ])

insert_token-IsValid :
    (token : Text) (role : Role) (a : MapAuthenticator)
    → IsValid a
    → IsValid (insert_token token role a)
unfolding insert_token
insert_token-IsValid token role a u = insert-IsUnique token _ a.inner u
