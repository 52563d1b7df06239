-- ===== src/Packets/Packet/Tests.antt =====
-- Runs of the packet encoders and decoders, and the theorems at concrete inputs.
use mqtt_server.Prelude.{◌++◌, ℕ, ◌↔◌, bytes_eq, ◌≡◌, refl, true, [], ◌∷◌, arith, length, All}
use mqtt_server.Packets.Codes.{ok, code_success, code_byte}
use mqtt_server.Packets.Codec.{
  Bytes, encode_string, encode_uint16, encode_uint32, encode_length, encode_length_loop, valid_utf8,
}
use mqtt_server.Packets.Types
use mqtt_server.Packets.Properties.{no_properties}
use mqtt_server.Packets.Properties.Valid.{can_encode}
use mqtt_server.Packets.Properties.Encode.{
  has_wildcard, encode_first, encode_second, encode_user, encode_identifiers, encode_properties,
}
use mqtt_server.Packets.Properties.Items.{identifier, value_bytes, items_bytes}
use mqtt_server.Packets.Properties.Items.Writing.{
  identifier_items, user_items, first_items, second_items, items_of,
}
use mqtt_server.Packets.Packet.{Packet, no_packet, no_connect_params, no_header, filter_only}
use mqtt_server.Packets.Packet.Frame.{write_frame}
use mqtt_server.Packets.Packet.Reads.{blank, HasSendableProperties}
use mqtt_server.Packets.Packet.Publish.{publish_body, publish_encode, publish_decode}
use mqtt_server.Packets.Packet.Publish.RoundTrip.{
  IsPublishable, arrived_publish, publish_decode-publish_encode,
}
use mqtt_server.Packets.Packet.Connect.{
  connect_body, connect_encode, connect_decode, connect_validate,
}
use mqtt_server.Packets.Packet.Connect.Valid.{IsCompliant, connect_validate-IsCompliant}
use mqtt_server.Packets.Packet.Connect.Will.{IsConnectable}
use mqtt_server.Packets.Packet.Connect.RoundTrip.{arrived_connect, connect_decode-connect_encode}
use mqtt_server.Packets.Packet.Subscribe.{
  write_subscriptions, write_filters, request_body, subscribe_encode, subscribe_decode,
  unsubscribe_encode, unsubscribe_decode, done, panics,
}
use mqtt_server.Packets.Packet.Subscribe.Request.{IsSendableRequest, request_size}
use mqtt_server.Packets.Packet.Subscribe.RoundTrip.{
  IsRequest, arrived_subscribe, subscribe_decode-subscribe_encode,
}
use mqtt_server.Packets.Packet.Subscribe.Unsubscribe.{
  arrived_unsubscribe, unsubscribe_decode-unsubscribe_encode,
}
use mqtt_server.Packets.Packet.Subscribe.Ends.{Ends, subscribe_decode-Ends}
use mqtt_server.Packets.Packet.Subscribe.Panics.{subscribe_decode_panics}
use mqtt_server.Packets.Packet.Answers.{ack_body, ack_decode}
use mqtt_server.Packets.Packet.Answers.Acks.{arrived_ack, ack_decode-ack_body}
use mqtt_server.Packets.Packet.Frame.{set_remaining}
use mqtt_server.Packets.Properties.Tests.{
  all_mods, some_properties, some_properties-IsSendable, no_properties-IsSendable,
}

abbrev message : Packet
message = record no_packet {
  fixed_header = record no_header { type = 3; qos = 1 };
  mods = all_mods;
  protocol_version = 5;
  topic_name = b'a' ∷ [];
  packet_id = 7;
  payload = b'h' ∷ b'i' ∷ [];
  properties = some_properties;
}

message-IsPublishable : IsPublishable message
message-IsPublishable = record {
  topic = (omega arith, (unfold valid_utf8 in refl));
  id_range = omega arith;
  id_set = λ h. refl;
  id_unset = λ h. cc;
  properties =
      unfold HasSendableProperties in λ h. (some_properties-IsSendable, omega (arith, size));
}
  where
    size : (n : ℕ) → length (items_bytes (items_of Types.publish all_mods n some_properties)) ≡ 16
    size n =
        unfold items_of first_items second_items user_items identifier_items has_wildcard can_encode
          identifier value_bytes encode_string encode_uint32 encode_uint16 in
        refl

publish_decode-publish_encode_example :
    (publish_encode message [] ≡ ok (write_frame message (publish_body message) []))
    × (publish_decode (blank message) (publish_body message) ≡ ok (arrived_publish message))
publish_decode-publish_encode_example =
    publish_decode-publish_encode message [] message-IsPublishable

abbrev request : Packet
request = record no_packet {
  fixed_header = record no_header { type = 8; qos = 1 };
  protocol_version = 5;
  packet_id = 9;
  filters =
      record (filter_only (b'a' ∷ [])) { qos = 1; no_local = true; retain_handling = 2 }
      ∷ filter_only (b'b' ∷ [])
      ∷ [];
}

request-IsSendableRequest : (xb : Bytes) → IsSendableRequest request xb
request-IsSendableRequest xb = record {
  id_set = refl;
  id_range = omega arith;
  properties = unfold HasSendableProperties in λ h. (no_properties-IsSendable, omega (arith, size));
}
  where
    size :
        length (
          items_bytes
            (items_of Types.subscribe (request).mods (request_size request xb) no_properties))
        ≡ 0
    size = unfold items_of first_items second_items user_items identifier_items can_encode in refl

request_filters-IsRequest : All IsRequest (request).filters
request_filters-IsRequest = (
  record { filter = (omega arith, text.0); qos = omega arith; retain_handling = omega arith },
  (record { filter = (omega arith, text.1); qos = omega arith; retain_handling = omega arith }, tt),
)
  where
    text : (valid_utf8 (b'a' ∷ []) ≡ true) × (valid_utf8 (b'b' ∷ []) ≡ true)
    text = unfold valid_utf8 in (refl, refl)

subscribe_decode-subscribe_encode_example :
    let body = request_body request (write_subscriptions 5 (request).filters) in
    (subscribe_encode request [] ≡ ok (write_frame request body []))
    × (subscribe_decode (blank request) body ≡ done (arrived_subscribe request))
subscribe_decode-subscribe_encode_example =
    subscribe_decode-subscribe_encode request []
      (request-IsSendableRequest (write_subscriptions 5 (request).filters))
      request_filters-IsRequest

unsubscribe_decode-unsubscribe_encode_example :
    let body = request_body request (write_filters (request).filters) in
    (unsubscribe_encode request [] ≡ ok (write_frame request body []))
    × (unsubscribe_decode (blank request) body ≡ done (arrived_unsubscribe request))
unsubscribe_decode-unsubscribe_encode_example =
    unsubscribe_decode-unsubscribe_encode request []
      (request-IsSendableRequest (write_filters (request).filters))
      ((omega arith, text.0), ((omega arith, text.1), tt))
  where
    text : (valid_utf8 (b'a' ∷ []) ≡ true) × (valid_utf8 (b'b' ∷ []) ≡ true)
    text = unfold valid_utf8 in (refl, refl)

subscribe_decode-Ends_example :
    Ends ((request).protocol_version ≡ 5) (subscribe_decode request (0 ∷ 9 ∷ 0 ∷ []))
subscribe_decode-Ends_example = subscribe_decode-Ends request (0 ∷ 9 ∷ 0 ∷ [])

subscribe_decode_panics_example :
    subscribe_decode
      (blank request)
      (request_body request (write_subscriptions 5 (request).filters ++ encode_string (b'a' ∷ [])))
    ≡ panics
subscribe_decode_panics_example =
    subscribe_decode_panics request (request).filters (b'a' ∷ []) refl
      (request-IsSendableRequest
        (write_subscriptions 5 (request).filters ++ encode_string (b'a' ∷ [])))
      request_filters-IsRequest (omega arith, text)
  where
    text : valid_utf8 (b'a' ∷ []) ≡ true
    text = unfold valid_utf8 in refl

-- Version 5 without properties: the reason code 0x10 does not go over the wire.
abbrev no_subscribers : Packet
no_subscribers = record no_packet {
  fixed_header = record no_header { type = 4 };
  protocol_version = 5;
  packet_id = 9;
  reason_code = 0x10;
}

ack_decode-ack_body_example :
    let r = blank (set_remaining no_subscribers (length (ack_body no_subscribers))) in
    ack_decode r (ack_body no_subscribers) ≡ ok (arrived_ack no_subscribers r)
ack_decode-ack_body_example =
    ack_decode-ack_body no_subscribers (omega arith)
      (unfold HasSendableProperties in λ h. (no_properties-IsSendable, omega (arith, size)))
  where
    size : length (items_bytes (items_of Types.puback (no_subscribers).mods 2 no_properties)) ≡ 0
    size = unfold items_of first_items second_items user_items identifier_items can_encode in refl

no_subscribers_lost : ack_body no_subscribers ≡ 0 ∷ 9 ∷ []
unfolding ack_body encode_properties encode_first encode_second encode_user encode_identifiers
    can_encode encode_uint16 encode_length encode_length_loop code_byte
no_subscribers_lost = refl

-- A client with a will and a user name.
abbrev greeting : Packet
greeting = record no_packet {
  fixed_header = record no_header { type = 1 };
  mods = all_mods;
  protocol_version = 5;
  connect = record no_connect_params {
    protocol_name = b'M' ∷ b'Q' ∷ b'T' ∷ b'T' ∷ [];
    keepalive = 60;
    client_identifier = b'c' ∷ [];
    clean = true;
    will_flag = true;
    will_qos = 1;
    will_topic = b'w' ∷ [];
    will_payload = b'x' ∷ [];
    username_flag = true;
    username = b'u' ∷ [];
  };
}

greeting-IsConnectable : IsConnectable greeting
greeting-IsConnectable = record {
  protocol_name = omega arith;
  keepalive = omega arith;
  client_identifier = (omega arith, (unfold valid_utf8 in refl));
  will_qos = omega arith;
  properties = unfold HasSendableProperties in λ h. (no_properties-IsSendable, omega (arith, size));
  will = λ h. record {
    topic = (omega arith, (unfold valid_utf8 in refl));
    payload = omega arith;
    properties = λ five. (no_properties-IsSendable, omega (arith, will_size));
  };
  username = omega arith;
  password = omega arith;
}
  where
    size : length (items_bytes (items_of Types.connect (greeting).mods 0 no_properties)) ≡ 0
    size = unfold items_of first_items second_items user_items identifier_items can_encode in refl

    will_size :
        length (items_bytes (items_of Types.will_properties (greeting).mods 0 no_properties)) ≡ 0
    will_size =
        unfold items_of first_items second_items user_items identifier_items can_encode in refl

connect_decode-connect_encode_example :
    (connect_encode greeting [] ≡ ok (write_frame greeting (connect_body greeting) []))
    × (connect_decode (blank greeting) (connect_body greeting) ≡ ok (arrived_connect greeting))
connect_decode-connect_encode_example =
    connect_decode-connect_encode greeting [] greeting-IsConnectable

connect_validate-IsCompliant_example :
    (connect_validate greeting ≡ code_success) ↔ IsCompliant greeting
connect_validate-IsCompliant_example = connect_validate-IsCompliant greeting

connect_validate_run : connect_validate greeting ≡ code_success
unfolding connect_validate bytes_eq
connect_validate_run = refl
