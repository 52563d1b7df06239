-- ===== src/Packets/Properties/Items/Arriving.antt =====
-- packets/properties.go: which fields of a struct arrive at the other side, field by field.
use mqtt_server.Prelude.{
  ℕ, ◌≤◌, ◌≡◌, refl, ap, ◌∙◌, Bool, true, false, not, ◌&&◌, ◌||◌, [], ◌++◌, ltb, if◌then◌else◌,
  length,
}
use mqtt_server.Packets.Codec.{Bytes, encode_string}
use mqtt_server.Packets.Properties.{Properties, no_properties}
use mqtt_server.Packets.Properties.Valid
use mqtt_server.Packets.Properties.Valid.{can_encode}
use mqtt_server.Packets.Properties.Encode.{
  when, is_some, has_wildcard, fits, encode_user, encode_properties,
}
use mqtt_server.Packets.Properties.Decode.{read, decode_properties}
use mqtt_server.Packets.Properties.Items.{set_items, items_bytes}
use mqtt_server.Packets.Properties.Items.Writing.{first_items, second_items, items_of}
use mqtt_server.Packets.Properties.Items.RoundTrip.{IsSendable, decode_properties-encode_properties}
use mqtt_server.Packets.Packet.{Mods}
use mqtt_server.Packets.Properties.Items.Fields.{positive, fields}

-- A packet without the property carries what a struct without it holds.
unfoldable pub arriving : ℕ → Mods → ℕ → Properties → Properties
unfolding positive
arriving pkt mods n p = record {
  correlation_data =
      if mods.allow_response_info
        && can_encode pkt Valid.prop_correlation_data
        && is_some p.correlation_data
      then p.correlation_data
      else [];
  subscription_identifier =
      when (can_encode pkt Valid.prop_subscription_identifier) (positive p.subscription_identifier);
  authentication_data =
      if can_encode pkt Valid.prop_authentication_data && is_some p.authentication_data
      then p.authentication_data
      else [];
  user =
      when
        (not mods.disallow_problem_info
          && can_encode pkt Valid.prop_user
          && fits mods n (length (encode_user p.user)))
        p.user;
  content_type =
      if can_encode pkt Valid.prop_content_type && is_some p.content_type
      then p.content_type
      else [];
  response_topic =
      if mods.allow_response_info
        && can_encode pkt Valid.prop_response_topic
        && is_some p.response_topic
        && not (has_wildcard p.response_topic)
      then p.response_topic
      else [];
  assigned_client_id =
      if can_encode pkt Valid.prop_assigned_client_id && is_some p.assigned_client_id
      then p.assigned_client_id
      else [];
  authentication_method =
      if can_encode pkt Valid.prop_authentication_method && is_some p.authentication_method
      then p.authentication_method
      else [];
  response_info =
      if mods.allow_response_info
        && can_encode pkt Valid.prop_response_info
        && is_some p.response_info
      then p.response_info
      else [];
  server_reference =
      if can_encode pkt Valid.prop_server_reference && is_some p.server_reference
      then p.server_reference
      else [];
  reason_string =
      if not mods.disallow_problem_info
        && can_encode pkt Valid.prop_reason_string
        && is_some p.reason_string
        && fits mods n (length (encode_string p.reason_string))
      then p.reason_string
      else [];
  message_expiry_interval =
      if can_encode pkt Valid.prop_message_expiry_interval && ltb 0 p.message_expiry_interval
      then p.message_expiry_interval
      else 0;
  session_expiry_interval =
      if can_encode pkt Valid.prop_session_expiry_interval && p.session_expiry_interval_flag
      then p.session_expiry_interval
      else 0;
  will_delay_interval =
      if can_encode pkt Valid.prop_will_delay_interval && ltb 0 p.will_delay_interval
      then p.will_delay_interval
      else 0;
  maximum_packet_size =
      if can_encode pkt Valid.prop_maximum_packet_size && ltb 0 p.maximum_packet_size
      then p.maximum_packet_size
      else 0;
  server_keep_alive =
      if can_encode pkt Valid.prop_server_keep_alive && p.server_keep_alive_flag
      then p.server_keep_alive
      else 0;
  receive_maximum =
      if can_encode pkt Valid.prop_receive_maximum && ltb 0 p.receive_maximum
      then p.receive_maximum
      else 0;
  topic_alias_maximum =
      if can_encode pkt Valid.prop_topic_alias_maximum && ltb 0 p.topic_alias_maximum
      then p.topic_alias_maximum
      else 0;
  topic_alias =
      if can_encode pkt Valid.prop_topic_alias && p.topic_alias_flag && ltb 0 p.topic_alias
      then p.topic_alias
      else 0;
  payload_format =
      if can_encode pkt Valid.prop_payload_format && p.payload_format_flag
      then p.payload_format
      else 0;
  payload_format_flag = can_encode pkt Valid.prop_payload_format && p.payload_format_flag;
  session_expiry_interval_flag =
      can_encode pkt Valid.prop_session_expiry_interval && p.session_expiry_interval_flag;
  server_keep_alive_flag = can_encode pkt Valid.prop_server_keep_alive && p.server_keep_alive_flag;
  request_problem_info =
      if can_encode pkt Valid.prop_request_problem_info && p.request_problem_info_flag
      then p.request_problem_info
      else 0;
  request_problem_info_flag =
      can_encode pkt Valid.prop_request_problem_info && p.request_problem_info_flag;
  request_response_info =
      if can_encode pkt Valid.prop_request_response_info && ltb 0 p.request_response_info
      then p.request_response_info
      else 0;
  topic_alias_flag =
      can_encode pkt Valid.prop_topic_alias && p.topic_alias_flag && ltb 0 p.topic_alias;
  maximum_qos =
      if can_encode pkt Valid.prop_maximum_qos && p.maximum_qos_flag && ltb p.maximum_qos 2
      then p.maximum_qos
      else 0;
  maximum_qos_flag =
      can_encode pkt Valid.prop_maximum_qos && p.maximum_qos_flag && ltb p.maximum_qos 2;
  retain_available =
      if can_encode pkt Valid.prop_retain_available && p.retain_available_flag
      then p.retain_available
      else 0;
  retain_available_flag = can_encode pkt Valid.prop_retain_available && p.retain_available_flag;
  wildcard_sub_available =
      if can_encode pkt Valid.prop_wildcard_sub_available && p.wildcard_sub_available_flag
      then p.wildcard_sub_available
      else 0;
  wildcard_sub_available_flag =
      can_encode pkt Valid.prop_wildcard_sub_available && p.wildcard_sub_available_flag;
  sub_id_available =
      if can_encode pkt Valid.prop_sub_id_available && p.sub_id_available_flag
      then p.sub_id_available
      else 0;
  sub_id_available_flag = can_encode pkt Valid.prop_sub_id_available && p.sub_id_available_flag;
  shared_sub_available =
      if can_encode pkt Valid.prop_shared_sub_available && p.shared_sub_available_flag
      then p.shared_sub_available
      else 0;
  shared_sub_available_flag =
      can_encode pkt Valid.prop_shared_sub_available && p.shared_sub_available_flag;
}

or_false : (c : Bool) → c || false ≡ c
or_false true = refl
or_false false = refl

items_of-arriving :
    (pkt : ℕ) (mods : Mods) (n : ℕ) (p : Properties)
    → set_items (items_of pkt mods n p) no_properties ≡ arriving pkt mods n p
unfolding items_of first_items second_items arriving
items_of-arriving pkt mods n p = simp (fields, or_false) refl

-- `Decode` into an empty struct of what `Encode` wrote for a struct that can be sent, as long as that
-- is at most 268435455 bytes, gives the fields that the packet type and the modifications let
-- through, and reports as many bytes as were written.
pub decode_properties-arriving :
    (pkt : ℕ) (mods : Mods) (n : ℕ) (p : Properties) (rest : Bytes)
    → IsSendable p
    → length (items_bytes (items_of pkt mods n p)) ≤ 268435455
    → decode_properties pkt (encode_properties pkt mods n p ++ rest) no_properties
      ≡ read (arriving pkt mods n p, length (encode_properties pkt mods n p))
decode_properties-arriving pkt mods n p rest w h =
    decode_properties-encode_properties pkt mods n p no_properties rest w h
    ∙ ap (λ q. read (q, length (encode_properties pkt mods n p))) (items_of-arriving pkt mods n p)
