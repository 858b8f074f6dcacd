-- ===== src/Protocol/Bundle/Tests.antt =====
-- Content hashes at work (bundle.rs), with a hash function and a JSON library that give one answer.
use lumencast_rs.Prelude.{
  ◌<◌, ◌≡◌, refl, true, [], none, Text, codes, All-replicate, replicate, ok, arith,
}
use lumencast_rs.Protocol.Json.{null, string, object, end, insert_member}
use lumencast_rs.Protocol.Types.{is_well_formed}
use lumencast_rs.Protocol.Codec.{SerdeJson, Derived}
use lumencast_rs.Protocol.Bundle.{
  Bundle, hash_to_scene_version, scene_version_key, with_computed_version, is_self_consistent,
}
use lumencast_rs.Protocol.Bundle.Hash.{
  SerialisesVersion, hash_to_scene_version-IsWellFormed, with_computed_version-IsConsistent,
}

abbrev toy_hash : Text → Text
toy_hash bytes = replicate 32 171

hash_to_scene_version-IsWellFormed_example :
    is_well_formed (hash_to_scene_version toy_hash (codes "{}")) ≡ true
hash_to_scene_version-IsWellFormed_example =
    hash_to_scene_version-IsWellFormed toy_hash (codes "{}") refl
      (All-replicate (λ b. b < 256) 32 171 (omega arith))

abbrev toy_json : SerdeJson
toy_json = record {
  from_slice = λ bytes. ok null;
  to_vec = λ v. ok (codes "{}");
  to_string = λ v. ok (codes "{}");
}

abbrev toy_bundle : Bundle
toy_bundle = record {
  lsml = codes "1.0";
  scene_id = codes "studio";
  scene_version = codes "sha256:0";
  layout = null;
  operator_inputs = [];
  external_adapters = [];
  defaults = [];
  assets = none;
  i18n = none;
  metadata = none;
}

abbrev bundles : Derived Bundle
bundles = record {
  to_value = λ b. ok (object (insert_member scene_version_key (string b.scene_version) end));
  from_value = λ v. ok toy_bundle;
}

bundles-SerialisesVersion : SerialisesVersion bundles
bundles-SerialisesVersion = record {
  fields = λ b. ok end;
  same_fields = λ b v. refl;
  as_object = λ b. refl;
}

with_computed_version-IsConsistent_example :
    is_self_consistent toy_json bundles toy_hash
      (record toy_bundle { scene_version = hash_to_scene_version toy_hash (codes "{}") })
    ≡ ok true
unfolding with_computed_version lumencast_rs.Protocol.Bundle.compute_content_hash
with_computed_version-IsConsistent_example =
    with_computed_version-IsConsistent toy_json bundles toy_hash bundles-SerialisesVersion
      toy_bundle (record toy_bundle { scene_version = hash_to_scene_version toy_hash (codes "{}") })
      refl
