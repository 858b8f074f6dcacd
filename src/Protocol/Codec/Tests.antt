-- ===== src/Protocol/Codec/Tests.antt =====
-- The codec at work (codec.rs), with a JSON library that knows one document.
use lumencast_rs.Prelude.{
  ◌≡◌, refl, ◌↔◌, Bool, true, false, List, [], ◌∷◌, ◌++◌, Option, none, some, Text, codes, Result,
  ok, err,
}
use lumencast_rs.Protocol.Json.{Value, number, positive, object, string, Members, end, member}
use lumencast_rs.Protocol.Types.{Patch, new_patch}
use lumencast_rs.Protocol.Frames.{ServerFrame, delta, ClientFrame, input}
use lumencast_rs.Protocol.Codec.{
  SerdeJson, Derived, type_key, encode_server, decode_server, decode_client,
}
use lumencast_rs.Protocol.Codec.Laws.{
  IsAccepted, IsClientLegal, with_version, decode_client_iff, decode-encode_server,
}

abbrev document : Members
document = member type_key (string (codes "delta")) end

abbrev wire : Text
wire = codes "wire"

abbrev toy_json : SerdeJson
toy_json = record {
  from_slice = λ bytes. ok (with_version document);
  to_vec = λ v. ok wire;
  to_string = λ v. ok wire;
}

abbrev good : Patch
good = new_patch (record { text = codes "a" }) (number (positive 1))

abbrev a_delta : ServerFrame
a_delta = delta (record { seq = 2; patches = good ∷ []; ts = none; cause = none })

abbrev an_input : ClientFrame
an_input = input (record { patches = good ∷ []; client_msg_id = none })

abbrev server_frames : Derived ServerFrame
server_frames = record { to_value = λ f. ok (object document); from_value = λ v. ok a_delta }

abbrev client_frames : Derived ClientFrame
client_frames = record { to_value = λ f. ok (object document); from_value = λ v. ok an_input }

decode-encode_server_example :
    (encode_server toy_json server_frames a_delta ≡ ok wire)
    × (decode_server toy_json server_frames wire ≡ ok a_delta)
unfolding lumencast_rs.Protocol.Json.get lumencast_rs.Prelude.text_eq
decode-encode_server_example =
    decode-encode_server toy_json server_frames a_delta document wire refl refl refl refl refl
      (refl, tt)

decode_client_iff_example :
    (decode_client toy_json client_frames wire ≡ ok an_input)
    ↔ (IsAccepted toy_json client_frames wire an_input × IsClientLegal an_input)
decode_client_iff_example = decode_client_iff toy_json client_frames wire an_input
