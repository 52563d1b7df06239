-- ===== src/Sessions/Receive/Tests.antt =====
-- Runs of `processPublish`, and the theorems at concrete inputs.
use mqtt_server.Prelude.{◌≡◌, ◌⊎◌, refl, bytes_eq, true, false, [], ◌∷◌, arith}
use mqtt_server.Prelude.Int.{pos, ◌+ℤ◌, ◌-ℤ◌}
use mqtt_server.Prelude.Maps.{lookup, insert, nat_eq}
use mqtt_server.Packets.Packet.{Packet, no_packet, no_header}
use mqtt_server.Topics.Filter.{is_valid_filter, isolate_particle}
use mqtt_server.Topics.Alias.{new_inbound_topic_aliases, inbound_set}
use mqtt_server.Topics.Index.{new_topics_index}
use mqtt_server.Inflight.{Inflight, new_inflights, reset_receive_quota, decrease_receive_quota, set}
use mqtt_server.Inflight.Invariant.{IsValid, Reach-IsValid, start, next, step_reset_receive}
use mqtt_server.Sessions.Acks.{build_ack, fill_in}
use mqtt_server.Sessions.Acks.Balance.{IsBalanced}
use mqtt_server.Sessions.Receive.{
  Publisher, Publishing, accepted, process_publish, stamp, resolve, minimum, judge, pass_on,
  retain_for, acknowledge_twice, ack_for,
}
use mqtt_server.Sessions.Receive.Cases.{IsAdmitted, IsBehind, routed_of}
use mqtt_server.Sessions.Receive.Once.{process_publish_routes, process_publish_once}
use mqtt_server.Sessions.Receive.Balance.{process_publish-IsBalanced}

abbrev receiver : Inflight
receiver = reset_receive_quota new_inflights (pos 3)

receiver-IsValid : IsValid receiver
receiver-IsValid =
    Reach-IsValid (next start (step_reset_receive new_inflights (pos 3) (omega arith)))

abbrev publisher : Publisher
publisher = record {
  session = record { inflight = receiver; info_inflight = pos 0 };
  aliases = new_inbound_topic_aliases 0;
  topics = new_topics_index;
  info_retained = pos 0;
}

abbrev publishing : Publishing
publishing = record {
  server = record {
    no_inherited_properties_on_ack = false;
    maximum_message_expiry_interval = pos 60;
    is_fixed_packet_info = true;
    now = pos 100;
    writes = λ p. true;
    reason_text = λ c. [];
  };
  inline = false;
  client_id = b'c' ∷ [];
  protocol_version = 5;
  maximum_qos = 2;
  retain_available = 1;
  passive_client_disconnect = false;
  may_write = λ topic. true;
  on_publish = λ pk. accepted pk;
}

abbrev news : Packet
news = record no_packet {
  fixed_header = record no_header { type = 3; qos = 2 };
  topic_name = b'a' ∷ [];
  packet_id = 5;
  payload = b'x' ∷ [];
}

abbrev stamped_news : Packet
stamped_news = record news { origin = b'c' ∷ []; created = pos 100; expiry = pos 160 }

news_routed : routed_of (process_publish publishing publisher news).1 ≡ stamped_news ∷ []
unfolding process_publish stamp resolve minimum judge pass_on acknowledge_twice ack_for retain_for
    is_valid_filter inbound_set isolate_particle decrease_receive_quota reset_receive_quota set
    lookup insert build_ack fill_in bytes_eq ◌+ℤ◌ ◌-ℤ◌
news_routed = refl

process_publish_routes_example :
    let r = process_publish publishing publisher news in
    (routed_of r.1 ≡ [])
    ⊎ ((out : Packet) × IsAdmitted publishing publisher news
        × IsBehind publishing publisher news out
        × (routed_of r.1 ≡ out ∷ [])
        × (r.2 ≡ true))
process_publish_routes_example = process_publish_routes publishing publisher news

process_publish_once_example :
    routed_of (process_publish publishing (process_publish publishing publisher news).0 news).1 ≡ []
process_publish_once_example =
    process_publish_once publishing publishing publisher news news stamped_news refl refl refl
      news_routed refl

process_publish-IsBalanced_example :
    IsValid ((process_publish publishing publisher news).0.session.inflight)
    × IsBalanced (publisher).session (process_publish publishing publisher news).0.session
unfolding ◌+ℤ◌
process_publish-IsBalanced_example =
    process_publish-IsBalanced publishing publisher news receiver-IsValid (omega arith)

-- A message of quality of service 0 where the quota is used up: the client is disconnected.
abbrev exhausted : Publisher
exhausted = record publisher {
  session = record { inflight = new_inflights; info_inflight = pos 0 };
}

light_refused :
    (process_publish publishing exhausted
      (record news { fixed_header = record no_header { type = 3 } })).2
    ≡ false
unfolding process_publish mqtt_server.Sessions.Receive.disconnect_client
    mqtt_server.Packets.Codes.code_byte is_valid_filter isolate_particle bytes_eq
light_refused = refl
