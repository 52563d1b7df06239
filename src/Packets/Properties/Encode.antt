-- ===== src/Packets/Properties/Encode.antt =====
-- packets/properties.go: `Properties.Encode`. What it appends to its buffer is the result.
use mqtt_server.Prelude.{
  ℕ, ◌+◌, ◌%◌, ◌^◌, Bool, true, false, not, ◌&&◌, ◌||◌, List, [], ◌∷◌, ◌++◌, ltb, ◌==◌, length,
}
use mqtt_server.Prelude.Int.{ℤ, pos, ltb_ℤ, pos_part}
use mqtt_server.Packets.Codec.{
  Bytes, encode_uint16, encode_uint32, encode_bytes, encode_string, encode_length,
}
use mqtt_server.Packets.Properties.{UserProperty, Properties}
use mqtt_server.Packets.Properties.Valid
use mqtt_server.Packets.Properties.Valid.{can_encode}
use mqtt_server.Packets.Packet.{Mods}

-- `if c { buf.Write(…) }`
abbrev pub when {ℓ} : {A : Type ℓ} → Bool → List A → List A
when true xs = xs
when false xs = []

-- `strings.ContainsAny(s, "+#")`
unfoldable pub has_wildcard : Bytes → Bool
has_wildcard [] = false
has_wildcard (b ∷ bs) = b == b'+' || b == b'#' || has_wildcard bs

-- `s != ""` and `len(s) > 0`
abbrev pub is_some : Bytes → Bool
is_some [] = false
is_some (b ∷ bs) = true

-- The loop over `p.SubscriptionIdentifier`.
unfoldable pub encode_identifiers : List ℤ → Bytes
encode_identifiers [] = []
encode_identifiers (v ∷ vs) =
    when (ltb_ℤ (pos 0) v) (Valid.prop_subscription_identifier ∷ encode_length (pos_part v))
    ++ encode_identifiers vs

-- The loop over `p.User`.
unfoldable pub encode_user : List UserProperty → Bytes
encode_user [] = []
encode_user (v ∷ vs) =
    (Valid.prop_user ∷ encode_string v.key ++ encode_string v.val) ++ encode_user vs

-- `mods.MaxSize == 0 || uint32(n+size+1) < mods.MaxSize`
abbrev pub fits : Mods → ℕ → ℕ → Bool
fits mods n size = mods.max_size == 0 || ltb ((n + size + 1) % 2 ^ 32) mods.max_size

-- What the first half of `Encode` writes to its own buffer, up to the reason string.
unfoldable pub encode_first : ℕ → Mods → Properties → Bytes
encode_first pkt mods p =
    when (can_encode pkt Valid.prop_payload_format && p.payload_format_flag)
      (Valid.prop_payload_format ∷ p.payload_format ∷ [])
    ++ when (can_encode pkt Valid.prop_message_expiry_interval && ltb 0 p.message_expiry_interval)
        (Valid.prop_message_expiry_interval ∷ encode_uint32 p.message_expiry_interval)
    ++ when (can_encode pkt Valid.prop_content_type && is_some p.content_type)
        (Valid.prop_content_type ∷ encode_string p.content_type)
    ++ when
        (mods.allow_response_info
          && can_encode pkt Valid.prop_response_topic
          && is_some p.response_topic
          && not (has_wildcard p.response_topic))
        (Valid.prop_response_topic ∷ encode_string p.response_topic)
    ++ when
        (mods.allow_response_info
          && can_encode pkt Valid.prop_correlation_data
          && is_some p.correlation_data)
        (Valid.prop_correlation_data ∷ encode_bytes p.correlation_data)
    ++ when (can_encode pkt Valid.prop_subscription_identifier)
        (encode_identifiers p.subscription_identifier)
    ++ when (can_encode pkt Valid.prop_session_expiry_interval && p.session_expiry_interval_flag)
        (Valid.prop_session_expiry_interval ∷ encode_uint32 p.session_expiry_interval)
    ++ when (can_encode pkt Valid.prop_assigned_client_id && is_some p.assigned_client_id)
        (Valid.prop_assigned_client_id ∷ encode_string p.assigned_client_id)
    ++ when (can_encode pkt Valid.prop_server_keep_alive && p.server_keep_alive_flag)
        (Valid.prop_server_keep_alive ∷ encode_uint16 p.server_keep_alive)
    ++ when (can_encode pkt Valid.prop_authentication_method && is_some p.authentication_method)
        (Valid.prop_authentication_method ∷ encode_string p.authentication_method)
    ++ when (can_encode pkt Valid.prop_authentication_data && is_some p.authentication_data)
        (Valid.prop_authentication_data ∷ encode_bytes p.authentication_data)
    ++ when (can_encode pkt Valid.prop_request_problem_info && p.request_problem_info_flag)
        (Valid.prop_request_problem_info ∷ p.request_problem_info ∷ [])
    ++ when (can_encode pkt Valid.prop_will_delay_interval && ltb 0 p.will_delay_interval)
        (Valid.prop_will_delay_interval ∷ encode_uint32 p.will_delay_interval)
    ++ when (can_encode pkt Valid.prop_request_response_info && ltb 0 p.request_response_info)
        (Valid.prop_request_response_info ∷ p.request_response_info ∷ [])
    ++ when
        (mods.allow_response_info
          && can_encode pkt Valid.prop_response_info
          && is_some p.response_info)
        (Valid.prop_response_info ∷ encode_string p.response_info)
    ++ when (can_encode pkt Valid.prop_server_reference && is_some p.server_reference)
        (Valid.prop_server_reference ∷ encode_string p.server_reference)

-- The second half, from the reason string on; `n` is the size of the rest of the packet.
unfoldable pub encode_second : ℕ → Mods → ℕ → Properties → Bytes
encode_second pkt mods n p =
    when
      (not mods.disallow_problem_info
        && can_encode pkt Valid.prop_reason_string
        && is_some p.reason_string
        && fits mods n (length (encode_string p.reason_string)))
      (Valid.prop_reason_string ∷ encode_string p.reason_string)
    ++ when (can_encode pkt Valid.prop_receive_maximum && ltb 0 p.receive_maximum)
        (Valid.prop_receive_maximum ∷ encode_uint16 p.receive_maximum)
    ++ when (can_encode pkt Valid.prop_topic_alias_maximum && ltb 0 p.topic_alias_maximum)
        (Valid.prop_topic_alias_maximum ∷ encode_uint16 p.topic_alias_maximum)
    ++ when (can_encode pkt Valid.prop_topic_alias && p.topic_alias_flag && ltb 0 p.topic_alias)
        (Valid.prop_topic_alias ∷ encode_uint16 p.topic_alias)
    ++ when (can_encode pkt Valid.prop_maximum_qos && p.maximum_qos_flag && ltb p.maximum_qos 2)
        (Valid.prop_maximum_qos ∷ p.maximum_qos ∷ [])
    ++ when (can_encode pkt Valid.prop_retain_available && p.retain_available_flag)
        (Valid.prop_retain_available ∷ p.retain_available ∷ [])
    ++ when
        (not mods.disallow_problem_info
          && can_encode pkt Valid.prop_user
          && fits mods n (length (encode_user p.user)))
        (encode_user p.user)
    ++ when (can_encode pkt Valid.prop_maximum_packet_size && ltb 0 p.maximum_packet_size)
        (Valid.prop_maximum_packet_size ∷ encode_uint32 p.maximum_packet_size)
    ++ when (can_encode pkt Valid.prop_wildcard_sub_available && p.wildcard_sub_available_flag)
        (Valid.prop_wildcard_sub_available ∷ p.wildcard_sub_available ∷ [])
    ++ when (can_encode pkt Valid.prop_sub_id_available && p.sub_id_available_flag)
        (Valid.prop_sub_id_available ∷ p.sub_id_available ∷ [])
    ++ when (can_encode pkt Valid.prop_shared_sub_available && p.shared_sub_available_flag)
        (Valid.prop_shared_sub_available ∷ p.shared_sub_available ∷ [])

unfoldable pub encode_properties : ℕ → Mods → ℕ → Properties → Bytes
encode_properties pkt mods n p =
    let buf = encode_first pkt mods p ++ encode_second pkt mods n p in
    encode_length (length buf) ++ buf
