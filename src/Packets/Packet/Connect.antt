-- ===== src/Packets/Packet/Connect.antt =====
-- packets/packets.go: ConnectEncode, ConnectDecode and ConnectValidate.
pub mod Flags
pub mod Valid
pub mod Will
pub mod RoundTrip
use mqtt_server.Prelude.{
  ℕ, ◌+◌, ◌*◌, ◌/◌, ◌%◌, ◌^◌, Bool, not, ◌&&◌, ◌||◌, [], ◌∷◌, ◌++◌, ltb, leb, ◌==◌, bytes_eq,
  if◌then◌else◌, length, drop,
}
use mqtt_server.Packets.Codes
use mqtt_server.Packets.Codes.{Code, Result, ok, err, ◌>>=◌, or_code}
use mqtt_server.Packets.Codec.{
  Bytes, encode_bool, encode_uint16, encode_bytes, encode_string, decode_uint16, decode_bytes,
  decode_string, decode_byte,
}
use mqtt_server.Packets.Types
use mqtt_server.Packets.Packet.{Packet, ConnectParams}
use mqtt_server.Packets.Packet.Frame.{write_frame, write_properties, read_properties, or_fail}
use mqtt_server.Packets.Properties.Encode.{when, encode_properties}
use mqtt_server.Packets.Properties.Decode.{decode_properties}
use Prim.Native.Nat.{bit_and, bit_or}

-- The flags byte; the quality of service is a byte that is shifted.
unfoldable pub connect_flags : ConnectParams → ℕ
connect_flags c =
    bit_or
      (bit_or
        (bit_or
          (bit_or (bit_or (encode_bool c.clean * 2 ^ 1) (encode_bool c.will_flag * 2 ^ 2))
            (c.will_qos * 2 ^ 3 % 256))
          (encode_bool c.will_retain * 2 ^ 5))
        (encode_bool c.password_flag * 2 ^ 6))
      (encode_bool c.username_flag * 2 ^ 7)

-- The part under `if pk.Connect.WillFlag`.
unfoldable pub write_will : Packet → Bytes
write_will pk =
    let c = pk.connect in
    (if pk.protocol_version == 5
      then encode_properties Types.will_properties pk.mods 0 c.will_properties
      else [])
    ++ (encode_string c.will_topic ++ encode_bytes c.will_payload)

-- What the encoder writes behind the fixed header.
unfoldable pub connect_body : Packet → Bytes
unfolding write_will
connect_body pk =
    let c = pk.connect in
    encode_bytes c.protocol_name
    ++ (pk.protocol_version
        ∷ connect_flags c
        ∷ (encode_uint16 c.keepalive
            ++ (write_properties pk 0
                ++ (encode_string c.client_identifier
                    ++ (when c.will_flag (write_will pk)
                        ++ (when c.username_flag (encode_bytes c.username)
                            ++ when c.password_flag (encode_bytes c.password)))))))

unfoldable pub connect_encode : Packet → Bytes → Result (Packet × Bytes)
connect_encode pk buf = ok (write_frame pk (connect_body pk) buf)

-- `1&(flags>>i) > 0`
abbrev pub flag_at : ℕ → ℕ → Bool
flag_at flags i = ltb 0 (bit_and 1 (flags / 2 ^ i))

unfoldable pub set_flags : ConnectParams → ℕ → ConnectParams
set_flags c flags = record c {
  clean = flag_at flags 1;
  will_flag = flag_at flags 2;
  will_qos = bit_and 3 (flags / 2 ^ 3);
  will_retain = flag_at flags 5;
  password_flag = flag_at flags 6;
  username_flag = flag_at flags 7;
}

-- `pk.Connect.… = v`
abbrev pub set_connect : Packet → ConnectParams → Packet
set_connect pk c = record pk { connect = c }

unfoldable pub read_will_properties : Packet → Bytes → ℕ → Result (Packet × ℕ)
read_will_properties pk buf offset =
    if pk.protocol_version == 5
    then (do
      (q, n) ←
          or_fail
            (decode_properties Types.will_properties (drop offset buf) (pk.connect.will_properties))
            Codes.err_malformed_will_properties
      ok (set_connect pk (record pk.connect { will_properties = q }), offset + n))
    else ok (pk, offset)

unfoldable pub read_will : Packet → Bytes → ℕ → Result (Packet × ℕ)
read_will pk buf offset =
    if pk.connect.will_flag
    then (do
      (pk₁, offset₁) ← read_will_properties pk buf offset
      (topic, offset₂) ← or_code (decode_string buf offset₁) Codes.err_malformed_will_topic
      (payload, offset₃) ← or_code (decode_bytes buf offset₂) Codes.err_malformed_will_payload
      ok (
        set_connect pk₁ (record pk₁.connect { will_topic = topic; will_payload = payload }),
        offset₃,
      ))
    else ok (pk, offset)

unfoldable pub read_username : Packet → Bytes → ℕ → Result (Packet × ℕ)
read_username pk buf offset =
    if pk.connect.username_flag
    then (if leb (length buf) offset then err Codes.err_protocol_violation_flag_no_username else (do
      (name, next) ← or_code (decode_bytes buf offset) Codes.err_malformed_username
      ok (set_connect pk (record pk.connect { username = name }), next)))
    else ok (pk, offset)

unfoldable pub read_password : Packet → Bytes → ℕ → Result Packet
read_password pk buf offset =
    if pk.connect.password_flag
    then (do
      (word, _) ← or_code (decode_bytes buf offset) Codes.err_malformed_password
      ok (set_connect pk (record pk.connect { password = word })))
    else ok pk

unfoldable pub connect_decode : Packet → Bytes → Result Packet
connect_decode pk buf = do
  (name, offset₁) ← or_code (decode_bytes buf 0) Codes.err_malformed_protocol_name
  (version, offset₂) ← or_code (decode_byte buf offset₁) Codes.err_malformed_protocol_version
  (flags, offset₃) ← or_code (decode_byte buf offset₂) Codes.err_malformed_flags
  (keepalive, offset₄) ← or_code (decode_uint16 buf offset₃) Codes.err_malformed_keepalive
  let c = record (set_flags pk.connect flags) { protocol_name = name; keepalive = keepalive }
  let pk₁ = record pk { connect = c; protocol_version = version; reserved_bit = bit_and 1 flags }
  (pk₂, offset₅) ← read_properties pk₁ buf offset₄
  (id, offset₆) ← or_code (decode_string buf offset₅) Codes.err_client_identifier_not_valid
  let pk₃ = set_connect pk₂ (record pk₂.connect { client_identifier = id })
  (pk₄, offset₇) ← read_will pk₃ buf offset₆
  (pk₅, offset₈) ← read_username pk₄ buf offset₇
  read_password pk₅ buf offset₈

-- "MQIsdp" and "MQTT"
abbrev pub mqisdp : Bytes
mqisdp = b'M' ∷ b'Q' ∷ b'I' ∷ b's' ∷ b'd' ∷ b'p' ∷ []

abbrev pub mqtt : Bytes
mqtt = b'M' ∷ b'Q' ∷ b'T' ∷ b'T' ∷ []

unfoldable pub connect_validate : Packet → Code
connect_validate pk =
    let c = pk.connect in
    if not (bytes_eq c.protocol_name mqisdp) && not (bytes_eq c.protocol_name mqtt)
    then Codes.err_protocol_violation_protocol_name
    else if (bytes_eq c.protocol_name mqisdp && not (pk.protocol_version == 3))
        || (bytes_eq c.protocol_name mqtt
            && not (pk.protocol_version == 4)
            && not (pk.protocol_version == 5))
    then Codes.err_protocol_violation_protocol_version
    else if not (pk.reserved_bit == 0)
    then Codes.err_protocol_violation_reserved_bit
    else if ltb 65535 (length c.password)
    then Codes.err_protocol_violation_password_too_long
    else if ltb 65535 (length c.username)
    then Codes.err_protocol_violation_username_too_long
    else if not c.username_flag && ltb 0 (length c.username)
    then Codes.err_protocol_violation_username_no_flag
    else if c.password_flag && (length c.password == 0)
    then Codes.err_protocol_violation_flag_no_password
    else if not c.password_flag && ltb 0 (length c.password)
    then Codes.err_protocol_violation_password_no_flag
    else if ltb 65535 (length c.client_identifier)
    then Codes.err_client_identifier_not_valid
    else if c.will_flag && ((length c.will_payload == 0) || (length c.will_topic == 0))
    then Codes.err_protocol_violation_will_flag_no_payload
    else if c.will_flag && ltb 2 c.will_qos
    then Codes.err_protocol_violation_qos_out_of_range
    else if not c.will_flag && c.will_retain
    then Codes.err_protocol_violation_will_flag_surplus_retain
    else Codes.code_success
