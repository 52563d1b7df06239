-- ===== src/Packets/Properties/Tests.antt =====
-- Runs of Properties.Encode and Properties.Decode, and the theorems at concrete inputs.
use mqtt_server.Prelude.{◌≤◌, ◌≡◌, ◌≢◌, refl, true, false, [], ◌∷◌, ◌++◌, arith, length}
use mqtt_server.Packets.Codes.{err_protocol_violation_unsupported_property}
use mqtt_server.Packets.Codec.{
  encode_string, encode_uint16, encode_uint32, encode_length, valid_utf8, decode_byte,
  decode_length, decode_length_loop,
}
use mqtt_server.Packets.Types
use mqtt_server.Packets.Properties.{Properties, no_properties}
use mqtt_server.Packets.Properties.Valid.{can_encode}
use mqtt_server.Packets.Properties.Encode.{has_wildcard, encode_properties}
use mqtt_server.Packets.Properties.Decode.{
  read, failed, no_fuel, decode_properties, decode_properties_loop, decode_property, read_property,
}
use mqtt_server.Packets.Properties.Decode.Termination.{decode_properties_ends}
use mqtt_server.Packets.Properties.Decode.Within.{decode_properties_within}
use mqtt_server.Packets.Properties.Items
use mqtt_server.Packets.Properties.Items.{IsWritable, identifier, value_bytes, items_bytes}
use mqtt_server.Packets.Properties.Items.Writing.{
  identifier_items, user_items, first_items, second_items, items_of,
}
use mqtt_server.Packets.Properties.Items.RoundTrip.{IsSendable}
use mqtt_server.Packets.Properties.Items.Arriving.{arriving, decode_properties-arriving}
use mqtt_server.Packets.Properties.Items.Refusal.{decode_properties_unsupported}
use mqtt_server.Packets.Packet.{Mods}

abbrev pub all_mods : Mods
all_mods = record { max_size = 0; disallow_problem_info = false; allow_response_info = true }

-- An expiry interval, an answer topic and a user property.
abbrev pub some_properties : Properties
some_properties = record no_properties {
  message_expiry_interval = 10;
  response_topic = b'r' ∷ [];
  user = record { key = b'k' ∷ []; val = b'v' ∷ [] } ∷ [];
}

pub some_properties-IsSendable : IsSendable some_properties
unfolding valid_utf8
some_properties-IsSendable = record {
  payload_format = omega arith;
  message_expiry_interval = omega arith;
  content_type = (omega arith, refl);
  response_topic = (omega arith, refl);
  correlation_data = omega arith;
  subscription_identifier = tt;
  session_expiry_interval = omega arith;
  assigned_client_id = (omega arith, refl);
  server_keep_alive = omega arith;
  authentication_method = (omega arith, refl);
  authentication_data = omega arith;
  request_problem_info = omega arith;
  will_delay_interval = omega arith;
  request_response_info = omega arith;
  response_info = (omega arith, refl);
  server_reference = (omega arith, refl);
  reason_string = (omega arith, refl);
  receive_maximum = omega arith;
  topic_alias_maximum = omega arith;
  topic_alias = omega arith;
  maximum_qos = omega arith;
  retain_available = omega arith;
  user = (((omega arith, refl), (omega arith, refl)), tt);
  maximum_packet_size = omega arith;
  wildcard_sub_available = omega arith;
  sub_id_available = omega arith;
  shared_sub_available = omega arith;
}

pub no_properties-IsSendable : IsSendable no_properties
unfolding valid_utf8
no_properties-IsSendable = record {
  payload_format = omega arith;
  message_expiry_interval = omega arith;
  content_type = (omega arith, refl);
  response_topic = (omega arith, refl);
  correlation_data = omega arith;
  subscription_identifier = tt;
  session_expiry_interval = omega arith;
  assigned_client_id = (omega arith, refl);
  server_keep_alive = omega arith;
  authentication_method = (omega arith, refl);
  authentication_data = omega arith;
  request_problem_info = omega arith;
  will_delay_interval = omega arith;
  request_response_info = omega arith;
  response_info = (omega arith, refl);
  server_reference = (omega arith, refl);
  reason_string = (omega arith, refl);
  receive_maximum = omega arith;
  topic_alias_maximum = omega arith;
  topic_alias = omega arith;
  maximum_qos = omega arith;
  retain_available = omega arith;
  user = tt;
  maximum_packet_size = omega arith;
  wildcard_sub_available = omega arith;
  sub_id_available = omega arith;
  shared_sub_available = omega arith;
}

some_size : length (items_bytes (items_of Types.publish all_mods 0 some_properties)) ≡ 16
unfolding items_of first_items second_items user_items identifier_items has_wildcard can_encode
    identifier value_bytes encode_string encode_uint32 encode_uint16
some_size = refl

decode_properties-arriving_example :
    decode_properties Types.publish
      (encode_properties Types.publish all_mods 0 some_properties ++ (9 ∷ []))
      no_properties
    ≡ read (
      arriving Types.publish all_mods 0 some_properties,
      length (encode_properties Types.publish all_mods 0 some_properties),
    )
decode_properties-arriving_example =
    decode_properties-arriving Types.publish all_mods 0 some_properties (9 ∷ [])
      some_properties-IsSendable (omega (arith, some_size))

decode_properties_unsupported_example :
    decode_properties Types.publish (encode_length 4 ++ (1 ∷ 0 ∷ 33 ∷ 0 ∷ 5 ∷ [])) no_properties
    ≡ failed err_protocol_violation_unsupported_property
unfolding identifier value_bytes
decode_properties_unsupported_example =
    decode_properties_unsupported Types.publish 33 (Items.payload_format 0 ∷ []) (0 ∷ []) (5 ∷ [])
      no_properties (record { allowed = allowed; writable = writable }, tt) refused (omega arith)
  where
    allowed : can_encode Types.publish (identifier (Items.payload_format 0)) ≡ true
    allowed = unfold identifier can_encode in refl

    writable : IsWritable (Items.payload_format 0)
    writable = unfold IsWritable in omega arith

    refused : can_encode Types.publish 33 ≡ false
    refused = unfold can_encode in refl

decode_properties_ends_example :
    decode_properties Types.publish (2 ∷ 1 ∷ []) no_properties ≢ no_fuel
decode_properties_ends_example = decode_properties_ends Types.publish (2 ∷ 1 ∷ []) no_properties

decode_properties_run :
    decode_properties Types.publish (2 ∷ 1 ∷ 1 ∷ 7 ∷ []) no_properties
    ≡ read (record no_properties { payload_format = 1; payload_format_flag = true }, 3)
unfolding decode_properties decode_properties_loop decode_property read_property decode_length
    decode_length_loop can_encode decode_byte
decode_properties_run = refl

decode_properties_within_example : 3 ≤ 4
decode_properties_within_example =
    decode_properties_within Types.publish (2 ∷ 1 ∷ 1 ∷ 7 ∷ []) no_properties
      (record no_properties { payload_format = 1; payload_format_flag = true }) 3
      decode_properties_run

-- A property whose value lies behind the bytes that the length in front counts is read there.
decode_properties_overrun :
    decode_properties Types.publish (1 ∷ 1 ∷ 1 ∷ []) no_properties
    ≡ read (record no_properties { payload_format = 1; payload_format_flag = true }, 2)
unfolding decode_properties decode_properties_loop decode_property read_property decode_length
    decode_length_loop can_encode decode_byte
decode_properties_overrun = refl
