-- ===== src/Sessions/Deliver/Tests.antt =====
-- Runs of `publishToClient`, and the theorems at concrete inputs.
use mqtt_server.Prelude.{◌≡◌, refl, inr, true, false, Bool, [], ◌∷◌, arith}
use mqtt_server.Prelude.Int.{pos, ◌+ℤ◌, ◌-ℤ◌}
use mqtt_server.Prelude.Maps.{is_some, lookup, insert, delete, nat_eq}
use mqtt_server.Packets.Packet.{
  Packet, Subscription, no_packet, no_header, filter_only, copy_packet,
}
use mqtt_server.Packets.Properties.{copy_properties}
use mqtt_server.Topics.Alias.{new_outbound_topic_aliases, outbound_set}
use mqtt_server.Inflight.{
  Inflight, new_inflights, reset_send_quota, decrease_send_quota, increase_send_quota, try_reserve,
  replace_counted, delete_entry,
}
use mqtt_server.Topics.Filter.{is_shared_filter, isolate_particle}
use mqtt_server.Sessions.PacketId.{next_packet_id, next_id_loop}
use mqtt_server.Sessions.Outgoing.{
  Recipient, Setting, shape_message, apply_alias, number_message, set_identifiers,
}
use mqtt_server.Sessions.Deliver.{
  publish_to_client, publish_counted, with_packet_id, send_v5, store, hand_over, take_back,
}
use mqtt_server.Sessions.Deliver.Stored.{IsKept}
use mqtt_server.Sessions.Deliver.Refused.{publish_to_client-IsKept}
use mqtt_server.Sessions.Deliver.Shape.{IsShaped, publish_to_client-IsShaped}
use mqtt_server.Sessions.Deliver.Retained.{
  publish_each, publish_retained_to_client, publish_retained_to_client-IsKept,
}

abbrev quota_of_one : Inflight
quota_of_one = reset_send_quota new_inflights (pos 1)

abbrev recipient : Recipient
recipient = record {
  inflight = quota_of_one;
  packet_id = 4;
  aliases = new_outbound_topic_aliases 0;
  info_inflight = pos 0;
  inflight_dropped = pos 0;
  messages_dropped = pos 0;
}

-- A client of version 5, whose queue has room or is full.
abbrev setting : Bool → Setting
setting room = record {
  maximum_qos = 2;
  maximum_inflight = 10;
  maximum_packet_id = 20;
  receive_maximum = pos 5;
  is_fixed_packet_info = true;
  client_id = b'c' ∷ [];
  protocol_version = 5;
  topic_alias_maximum = 0;
  online = true;
  now = pos 100;
  may_read = λ topic. true;
  writes = λ p. true;
  queue_has_room = room;
}

abbrev subscription : Subscription
subscription = record (filter_only (b'a' ∷ [])) { qos = 1 }

abbrev news : Packet
news = record no_packet {
  fixed_header = record no_header { type = 3; qos = 2; retain = true };
  topic_name = b'a' ∷ [];
  payload = b'x' ∷ [];
}

-- The queue is full: the error, and the id is free again.
full_queue : is_some (publish_to_client (setting false) recipient subscription news).error ≡ true
unfolding publish_to_client publish_counted with_packet_id send_v5 store hand_over take_back
    next_packet_id next_id_loop shape_message apply_alias number_message set_identifiers copy_packet
    copy_properties outbound_set try_reserve replace_counted lookup insert delete delete_entry
    reset_send_quota decrease_send_quota increase_send_quota ◌-ℤ◌ ◌+ℤ◌
full_queue = refl

publish_to_client-IsKept_example :
    IsKept recipient (publish_to_client (setting false) recipient subscription news).after
publish_to_client-IsKept_example =
    publish_to_client-IsKept (setting false) (omega arith) recipient subscription news (omega arith)
      full_queue

publish_to_client-IsShaped_example :
    IsShaped
      (setting true)
      subscription
      news
      ((publish_to_client (setting true) recipient subscription news).packet.fixed_header)
publish_to_client-IsShaped_example =
    publish_to_client-IsShaped (setting true) recipient subscription news (omega arith) refl refl

-- The queue is full for the only message of the run, and the hook is not called.
full_queue_run :
    (publish_retained_to_client subscription false ((setting false, news) ∷ []) recipient).1 ≡ []
unfolding publish_retained_to_client publish_each is_shared_filter isolate_particle
    publish_to_client publish_counted with_packet_id send_v5 store hand_over take_back
    next_packet_id next_id_loop shape_message apply_alias number_message set_identifiers copy_packet
    copy_properties outbound_set try_reserve replace_counted lookup insert delete delete_entry
    reset_send_quota decrease_send_quota increase_send_quota ◌-ℤ◌ ◌+ℤ◌
full_queue_run = refl

publish_retained_to_client-IsKept_example :
    ((publish_retained_to_client subscription false ((setting false, news) ∷ []) recipient).1 ≡ [])
    × IsKept recipient
        (publish_retained_to_client subscription false ((setting false, news) ∷ []) recipient).0
publish_retained_to_client-IsKept_example =
    publish_retained_to_client-IsKept 20 subscription false ((setting false, news) ∷ []) recipient
      (record { same = refl; fits = omega arith }, tt) (omega arith) (inr full_queue_run)
