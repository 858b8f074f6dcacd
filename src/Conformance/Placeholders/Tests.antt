-- ===== src/Conformance/Placeholders/Tests.antt =====
-- Placeholders at work (placeholders.rs).
use lumencast_rs.Prelude.{
  ◌≡◌, refl, false, true, [], ◌∷◌, some, Text, codes, text_eq, Map, lookup, All,
}
use lumencast_rs.Protocol.Json.{string}
use lumencast_rs.Conformance.Placeholders.{bundle_key, new_substitutions, has_dollar, apply}
use lumencast_rs.Conformance.Placeholders.Laws.{apply_resolves}

abbrev tokens : Map Text
tokens = (codes "$T", codes "tok") ∷ []

abbrev hashes : Map Text
hashes = (codes "b", codes "sha256:0") ∷ []

apply_resolves_example :
    ((id hash : Text)
      → lookup id hashes ≡ some hash
      → apply (new_substitutions tokens hashes) (string (bundle_key id)) ≡ string hash)
    × ((k token : Text)
        → has_dollar k ≡ true
        → All (λ q. text_eq (bundle_key q.0) k ≡ false) hashes
        → lookup k tokens ≡ some token
        → apply (new_substitutions tokens hashes) (string k) ≡ string token)
unfolding lookup
apply_resolves_example = apply_resolves tokens hashes (refl, tt) (refl, tt)
