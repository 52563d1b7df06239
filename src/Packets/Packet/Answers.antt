-- ===== src/Packets/Packet/Answers.antt =====
-- packets/packets.go: Connack, Puback, Pubrec, Pubrel, Pubcomp, Suback, Unsuback, Disconnect, Auth,
-- Pingreq and Pingresp.
pub mod RoundTrip
pub mod Acks
use mqtt_server.Prelude.{
  ℕ, ◌+◌, Bool, true, false, not, ◌&&◌, ◌||◌, List, [], ◌∷◌, ◌++◌, ltb, leb, ◌==◌, if◌then◌else◌,
  length, drop,
}
use mqtt_server.Packets.Codes
use mqtt_server.Packets.Codes.{Code, code_byte, Result, ok, err, ◌>>=◌, or_code}
use mqtt_server.Packets.Codec.{
  Bytes, encode_bool, encode_uint16, decode_uint16, decode_byte, decode_byte_bool,
}
use mqtt_server.Packets.Header.{encode_header}
use mqtt_server.Packets.Packet.{Packet}
use mqtt_server.Packets.Packet.Frame.{
  write_frame, write_properties, read_properties, read_properties_of,
}
use mqtt_server.Packets.Properties.Encode.{when, encode_properties}

unfoldable pub connack_encode : Packet → Bytes → Result (Packet × Bytes)
connack_encode pk buf =
    let nb = encode_bool pk.session_present ∷ pk.reason_code ∷ [] in
    ok (write_frame pk (nb ++ write_properties pk (length nb + 2)) buf)

unfoldable pub connack_decode : Packet → Bytes → Result Packet
connack_decode pk buf = do
  (present, offset₁) ← or_code (decode_byte_bool buf 0) Codes.err_malformed_session_present
  (code, offset₂) ← or_code (decode_byte buf offset₁) Codes.err_malformed_reason_code
  (pk', _) ←
      read_properties (record pk { session_present = present; reason_code = code }) buf offset₂
  ok pk'

unfoldable pub disconnect_encode : Packet → Bytes → Result (Packet × Bytes)
disconnect_encode pk buf = ok (
    write_frame pk (if pk.protocol_version == 5 then pk.reason_code ∷ write_properties pk 1 else [])
      buf)

unfoldable pub disconnect_decode : Packet → Bytes → Result Packet
disconnect_decode pk buf =
    if (pk.protocol_version == 5) && ltb 1 (pk.fixed_header.remaining)
    then (do
      (code, offset) ← or_code (decode_byte buf 0) Codes.err_malformed_reason_code
      let pk₁ = record pk { reason_code = code }
      if ltb 2 (pk.fixed_header.remaining)
          then (do (pk₂, _) ← read_properties_of pk₁ buf offset; ok pk₂)
          else ok pk₁)
    else ok pk

-- Pingreq and Pingresp are a fixed header; their decoders read nothing.
unfoldable pub ping_encode : Packet → Bytes → Result (Packet × Bytes)
ping_encode pk buf = ok (pk, encode_header pk.fixed_header buf)

unfoldable pub ping_decode : Packet → Bytes → Result Packet
ping_decode pk buf = ok pk

-- `encodePubAckRelRecComp` writes the properties only if there are any, and the reason code if it is
-- an error or properties follow.
unfoldable pub ack_body : Packet → Bytes
ack_body pk =
    let nb = encode_uint16 pk.packet_id in
    let pb = encode_properties (pk.fixed_header.type) pk.mods (length nb) pk.properties in
    if pk.protocol_version == 5
    then (nb
        ++ when (leb (code_byte Codes.err_unspecified_error) pk.reason_code || ltb 1 (length pb))
            (pk.reason_code ∷ []))
      ++ when (ltb 1 (length pb)) pb
    else nb

unfoldable pub ack_encode : Packet → Bytes → Result (Packet × Bytes)
ack_encode pk buf = ok (write_frame pk (ack_body pk) buf)

unfoldable pub ack_decode : Packet → Bytes → Result Packet
ack_decode pk buf = do
  (id, offset₁) ← or_code (decode_uint16 buf 0) Codes.err_malformed_packet_id
  let pk₁ = record pk { packet_id = id }
  if (pk.protocol_version == 5) && ltb 2 (pk.fixed_header.remaining)
      then (do
        (code, offset₂) ← or_code (decode_byte buf offset₁) Codes.err_malformed_reason_code
        let pk₂ = record pk₁ { reason_code = code }
        if ltb 3 (pk.fixed_header.remaining)
            then (do (pk₃, _) ← read_properties_of pk₂ buf offset₂; ok pk₃)
            else ok pk₂)
      else ok pk₁

unfoldable pub suback_encode : Packet → Bytes → Result (Packet × Bytes)
suback_encode pk buf =
    let nb = encode_uint16 pk.packet_id in
    ok (
      write_frame pk
        ((nb ++ write_properties pk (length nb + length pk.reason_codes)) ++ pk.reason_codes) buf)

unfoldable pub suback_decode : Packet → Bytes → Result Packet
suback_decode pk buf = do
  (id, offset₁) ← or_code (decode_uint16 buf 0) Codes.err_malformed_packet_id
  (pk', offset₂) ← read_properties (record pk { packet_id = id }) buf offset₁
  ok (record pk' { reason_codes = drop offset₂ buf })

unfoldable pub unsuback_encode : Packet → Bytes → Result (Packet × Bytes)
unsuback_encode pk buf =
    let nb = encode_uint16 pk.packet_id in
    ok (
      write_frame pk
        (if pk.protocol_version == 5
          then (nb ++ write_properties pk (length nb)) ++ pk.reason_codes
          else nb)
        buf)

unfoldable pub unsuback_decode : Packet → Bytes → Result Packet
unsuback_decode pk buf = do
  (id, offset₁) ← or_code (decode_uint16 buf 0) Codes.err_malformed_packet_id
  let pk₁ = record pk { packet_id = id }
  if pk.protocol_version == 5
      then (do
        (pk₂, offset₂) ← read_properties_of pk₁ buf offset₁
        ok (record pk₂ { reason_codes = drop offset₂ buf }))
      else ok pk₁

unfoldable pub auth_encode : Packet → Bytes → Result (Packet × Bytes)
auth_encode pk buf =
    let pb = encode_properties (pk.fixed_header.type) pk.mods 1 pk.properties in
    ok (write_frame pk (pk.reason_code ∷ pb) buf)

unfoldable pub auth_decode : Packet → Bytes → Result Packet
auth_decode pk buf = do
  (code, offset) ← or_code (decode_byte buf 0) Codes.err_malformed_reason_code
  (pk', _) ← read_properties_of (record pk { reason_code = code }) buf offset
  ok pk'

unfoldable pub auth_validate : Packet → Code
auth_validate pk =
    if not (pk.reason_code == code_byte Codes.code_success)
      && not (pk.reason_code == code_byte Codes.code_continue_authentication)
      && not (pk.reason_code == code_byte Codes.code_re_authenticate)
    then Codes.err_protocol_violation_invalid_reason
    else Codes.code_success
