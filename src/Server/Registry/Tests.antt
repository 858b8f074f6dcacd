-- ===== src/Server/Registry/Tests.antt =====
-- The registry at work (server.rs, bundle_route.rs), with a JSON library and a hash function that give
-- one answer.
use lumencast_rs.Prelude.{
  ℕ, ◌≡◌, refl, Bool, List, [], ◌∷◌, ◌++◌, Option, none, some, Text, codes, replicate, Result, ok,
  err,
}
use lumencast_rs.Protocol.Json.{null, object, end}
use lumencast_rs.Protocol.Codec.{SerdeJson, Derived}
use lumencast_rs.Protocol.Bundle.{Bundle}
use lumencast_rs.Server.Registry.{ServerInner, new_server, default_config, register_bundle}
use lumencast_rs.Server.Registry.Route.{IsServed, register_bundle-IsServed}

abbrev toy_json : SerdeJson
toy_json = record {
  from_slice = λ bytes. ok null;
  to_vec = λ v. ok (codes "{}");
  to_string = λ v. ok (codes "{}");
}

abbrev bundle : Bundle
bundle = record {
  lsml = codes "1.0";
  scene_id = codes "studio";
  scene_version = codes "sha256:0";
  layout = null;
  operator_inputs = [];
  external_adapters = [];
  defaults = (codes "a", null) ∷ [];
  assets = none;
  i18n = none;
  metadata = none;
}

abbrev bundles : Derived Bundle
bundles = record { to_value = λ b. ok (object end); from_value = λ v. ok bundle }

abbrev toy_hash : Text → Text
toy_hash bytes = replicate 32 171

abbrev empty : ServerInner
empty = new_server default_config

abbrev with_bundle : ServerInner
with_bundle = (register_bundle toy_json bundles toy_hash bundle empty).0

bundle-registers : register_bundle toy_json bundles toy_hash bundle empty ≡ (with_bundle, ok 0)
unfolding register_bundle lumencast_rs.Protocol.Bundle.with_computed_version
    lumencast_rs.Protocol.Bundle.compute_content_hash lumencast_rs.Prelude.lookup
    lumencast_rs.Protocol.Bundle.to_canonical_bytes
bundle-registers = refl

register_bundle-IsServed_example : IsServed toy_json bundles toy_hash bundle with_bundle
register_bundle-IsServed_example =
    register_bundle-IsServed toy_json bundles toy_hash bundle empty with_bundle 0 bundle-registers
