-- ===== src/Packets/Properties/Decode.antt =====
-- packets/properties.go: `Properties.Decode`. A call on an error gives the error alone, as no
-- caller reads the struct then; the loop recurs on fuel, one round for each byte of the properties.
pub mod Termination
pub mod Within
use mqtt_server.Prelude.{
  ℕ, zero, suc, ◌+◌, ◌≤◌, Bool, true, false, List, [], ◌∷◌, ◌++◌, ltb, ◌==◌, if◌then◌else◌, drop,
}
use mqtt_server.Prelude.Int.{pos}
use mqtt_server.Packets.Codes.{
  Result, ok, err, Code, err_malformed_variable_byte_integer,
  err_protocol_violation_unsupported_property,
}
use mqtt_server.Packets.Codec.{
  Bytes, Length, decoded, too_large, end_of_input, decode_uint16, decode_uint32, decode_bytes,
  decode_string, decode_byte, decode_length,
}
use mqtt_server.Packets.Properties.{Properties}
use mqtt_server.Packets.Properties.Valid
use mqtt_server.Packets.Properties.Valid.{can_encode}

-- The outcome of a read: `eof` is the `io.EOF` of a buffer's `ReadByte`, `no_fuel` is no Go value.
pub data Read {ℓ} (A : Type ℓ) : Type ℓ where
  read : A → Read A
  failed : Code → Read A
  eof no_fuel : Read A

infixl 5 ◌>>=◌
abbrev pub ◌>>=◌ {ℓ κ} : {A : Type ℓ} {B : Type κ} → Read A → (A → Read B) → Read B
read a >>= f = f a
failed e >>= f = failed e
eof >>= f = eof
no_fuel >>= f = no_fuel

abbrev pub lift {ℓ} : {A : Type ℓ} → Result A → Read A
lift (ok a) = read a
lift (err e) = failed e

-- `DecodeLength`, with the number of bytes that it used.
abbrev pub lift_length : Length → Read (ℕ × ℕ)
lift_length (decoded n bu rest) = read (n, bu)
lift_length (too_large bu) = failed err_malformed_variable_byte_integer
lift_length (end_of_input bu) = eof

-- The switch, in the order of the source: the struct with the property set, and the next offset. A
-- key that stands in no case changes nothing.
unfoldable pub read_property : ℕ → Bytes → ℕ → Properties → Read (Properties × ℕ)
read_property k bt offset p =
    if k == Valid.prop_payload_format
    then (do
      (v, next) ← lift (decode_byte bt offset)
      read (record p { payload_format = v; payload_format_flag = true }, next))
    else if k == Valid.prop_message_expiry_interval
    then (do
      (v, next) ← lift (decode_uint32 bt offset)
      read (record p { message_expiry_interval = v }, next))
    else if k == Valid.prop_content_type
    then (do (v, next) ← lift (decode_string bt offset); read (record p { content_type = v }, next))
    else if k == Valid.prop_response_topic
    then (do
      (v, next) ← lift (decode_string bt offset)
      read (record p { response_topic = v }, next))
    else if k == Valid.prop_correlation_data
    then (do
      (v, next) ← lift (decode_bytes bt offset)
      read (record p { correlation_data = v }, next))
    else if k == Valid.prop_subscription_identifier
    then (do
      (n, bu) ← lift_length (decode_length (drop offset bt))
      read (
        record p { subscription_identifier = p.subscription_identifier ++ (pos n ∷ []) },
        offset + bu,
      ))
    else if k == Valid.prop_session_expiry_interval
    then (do
      (v, next) ← lift (decode_uint32 bt offset)
      read (record p { session_expiry_interval = v; session_expiry_interval_flag = true }, next))
    else if k == Valid.prop_assigned_client_id
    then (do
      (v, next) ← lift (decode_string bt offset)
      read (record p { assigned_client_id = v }, next))
    else if k == Valid.prop_server_keep_alive
    then (do
      (v, next) ← lift (decode_uint16 bt offset)
      read (record p { server_keep_alive = v; server_keep_alive_flag = true }, next))
    else if k == Valid.prop_authentication_method
    then (do
      (v, next) ← lift (decode_string bt offset)
      read (record p { authentication_method = v }, next))
    else if k == Valid.prop_authentication_data
    then (do
      (v, next) ← lift (decode_bytes bt offset)
      read (record p { authentication_data = v }, next))
    else if k == Valid.prop_request_problem_info
    then (do
      (v, next) ← lift (decode_byte bt offset)
      read (record p { request_problem_info = v; request_problem_info_flag = true }, next))
    else if k == Valid.prop_will_delay_interval
    then (do
      (v, next) ← lift (decode_uint32 bt offset)
      read (record p { will_delay_interval = v }, next))
    else if k == Valid.prop_request_response_info
    then (do
      (v, next) ← lift (decode_byte bt offset)
      read (record p { request_response_info = v }, next))
    else if k == Valid.prop_response_info
    then (do
      (v, next) ← lift (decode_string bt offset)
      read (record p { response_info = v }, next))
    else if k == Valid.prop_server_reference
    then (do
      (v, next) ← lift (decode_string bt offset)
      read (record p { server_reference = v }, next))
    else if k == Valid.prop_reason_string
    then (do
      (v, next) ← lift (decode_string bt offset)
      read (record p { reason_string = v }, next))
    else if k == Valid.prop_receive_maximum
    then (do
      (v, next) ← lift (decode_uint16 bt offset)
      read (record p { receive_maximum = v }, next))
    else if k == Valid.prop_topic_alias_maximum
    then (do
      (v, next) ← lift (decode_uint16 bt offset)
      read (record p { topic_alias_maximum = v }, next))
    else if k == Valid.prop_topic_alias
    then (do
      (v, next) ← lift (decode_uint16 bt offset)
      read (record p { topic_alias = v; topic_alias_flag = true }, next))
    else if k == Valid.prop_maximum_qos
    then (do
      (v, next) ← lift (decode_byte bt offset)
      read (record p { maximum_qos = v; maximum_qos_flag = true }, next))
    else if k == Valid.prop_retain_available
    then (do
      (v, next) ← lift (decode_byte bt offset)
      read (record p { retain_available = v; retain_available_flag = true }, next))
    else if k == Valid.prop_user
    then (do
      (key, next₁) ← lift (decode_string bt offset)
      (val, next₂) ← lift (decode_string bt next₁)
      read (record p { user = p.user ++ (record { key = key; val = val } ∷ []) }, next₂))
    else if k == Valid.prop_maximum_packet_size
    then (do
      (v, next) ← lift (decode_uint32 bt offset)
      read (record p { maximum_packet_size = v }, next))
    else if k == Valid.prop_wildcard_sub_available
    then (do
      (v, next) ← lift (decode_byte bt offset)
      read (record p { wildcard_sub_available = v; wildcard_sub_available_flag = true }, next))
    else if k == Valid.prop_sub_id_available
    then (do
      (v, next) ← lift (decode_byte bt offset)
      read (record p { sub_id_available = v; sub_id_available_flag = true }, next))
    else if k == Valid.prop_shared_sub_available
    then (do
      (v, next) ← lift (decode_byte bt offset)
      read (record p { shared_sub_available = v; shared_sub_available_flag = true }, next))
    else read (p, offset)

-- One round of the loop.
unfoldable pub decode_property : ℕ → Bytes → ℕ → Properties → Read (Properties × ℕ)
decode_property pkt bt offset p = do
  (k, next) ← lift (decode_byte bt offset)
  if can_encode pkt k
      then read_property k bt next p
      else failed err_protocol_violation_unsupported_property

unfoldable pub decode_properties_loop : ℕ → ℕ → ℕ → Bytes → ℕ → Properties → Read Properties
decode_properties_loop zero pkt n bt offset p = if ltb offset n then no_fuel else read p
decode_properties_loop (suc fuel) pkt n bt offset p =
    if ltb offset n
    then (decode_property pkt bt offset p >>= λ r. decode_properties_loop fuel pkt n bt (r.1) (r.0))
    else read p

-- The struct that is set, and how many bytes of `b` the caller shall step over.
unfoldable pub decode_properties : ℕ → Bytes → Properties → Read (Properties × ℕ)
decode_properties pkt b p = do
  (n, bu) ← lift_length (decode_length b)
  if n == 0
      then read (p, n + bu)
      else (do q ← decode_properties_loop n pkt n (drop bu b) 0 p; read (q, n + bu))
