-- ===== src/Packets/Packet/Publish.antt =====
-- packets/packets.go: PublishEncode, PublishDecode and PublishValidate.
pub mod RoundTrip
use mqtt_server.Prelude.{
  ℕ, ◌+◌, Bool, true, false, ◌&&◌, List, [], ◌∷◌, ◌++◌, ltb, ◌==◌, if◌then◌else◌, length, drop,
}
use mqtt_server.Packets.Codes
use mqtt_server.Packets.Codes.{Code, Result, ok, err, ◌>>=◌, or_code}
use mqtt_server.Packets.Codec.{Bytes, encode_uint16, encode_string, decode_uint16, decode_string}
use mqtt_server.Packets.Properties.Encode.{has_wildcard}
use mqtt_server.Packets.Packet.{Packet}
use mqtt_server.Packets.Packet.Frame.{write_frame, write_properties, read_properties}

-- The packet id, which only a quality of service above 0 has.
unfoldable pub write_id : Packet → Bytes
write_id pk = if ltb 0 (pk.fixed_header.qos) then encode_uint16 pk.packet_id else []

-- What the encoder writes behind the fixed header.
unfoldable pub publish_body : Packet → Bytes
unfolding write_id
publish_body pk =
    let nb = encode_string pk.topic_name ++ write_id pk in
    (nb ++ write_properties pk (length nb + length pk.payload)) ++ pk.payload

unfoldable pub publish_encode : Packet → Bytes → Result (Packet × Bytes)
publish_encode pk buf =
    if ltb 0 (pk.fixed_header.qos) && (pk.packet_id == 0)
    then err Codes.err_protocol_violation_no_packet_id
    else ok (write_frame pk (publish_body pk) buf)

unfoldable pub read_id : Packet → Bytes → ℕ → Result (Packet × ℕ)
read_id pk buf offset =
    if ltb 0 (pk.fixed_header.qos)
    then (do
      (id, next) ← or_code (decode_uint16 buf offset) Codes.err_malformed_packet_id
      ok (record pk { packet_id = id }, next))
    else ok (pk, offset)

unfoldable pub publish_decode : Packet → Bytes → Result Packet
unfolding read_id
publish_decode pk buf = do
  (topic, offset₁) ← or_code (decode_string buf 0) Codes.err_malformed_topic
  (pk₁, offset₂) ← read_id (record pk { topic_name = topic }) buf offset₁
  (pk₂, offset₃) ← read_properties pk₁ buf offset₂
  ok (record pk₂ { payload = drop offset₃ buf })

unfoldable pub publish_validate : Packet → ℕ → Code
publish_validate pk topic_alias_maximum =
    if ltb 0 (pk.fixed_header.qos) && (pk.packet_id == 0)
    then Codes.err_protocol_violation_no_packet_id
    else if (pk.fixed_header.qos == 0) && ltb 0 pk.packet_id
    then Codes.err_protocol_violation_surplus_packet_id
    else if has_wildcard pk.topic_name
    then Codes.err_protocol_violation_surplus_wildcard
    else if ltb topic_alias_maximum (pk.properties.topic_alias)
    then Codes.err_topic_alias_invalid
    else if (length pk.topic_name == 0) && (pk.properties.topic_alias == 0)
    then Codes.err_protocol_violation_no_topic
    else if pk.properties.topic_alias_flag && (pk.properties.topic_alias == 0)
    then Codes.err_topic_alias_invalid
    else if ltb 0 (length (pk.properties.subscription_identifier))
    then Codes.err_protocol_violation_surplus_sub_id
    else Codes.code_success
