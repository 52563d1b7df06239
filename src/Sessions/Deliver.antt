-- ===== src/Sessions/Deliver.antt =====
-- server.go: `publishToClient`, from the packet id to the queue of the client. The log is left out; the
-- hooks and what the client writes are a list of events.
pub mod Cases
pub mod Stored
pub mod Refused
pub mod Shape
pub mod Retained
mod Tests
use mqtt_server.Prelude.{
  ℕ, ◌+◌, ◌%◌, ◌^◌, Bool, true, false, not, ◌&&◌, ◌||◌, Option, none, some, List, [], ◌∷◌, ◌++◌,
  map, ltb, leb, ◌==◌, bytes_eq, if◌then◌else◌, length,
}
use mqtt_server.Prelude.Int.{ℤ, pos, ltb_ℤ, leb_ℤ, eq_ℤ, ◌+ℤ◌, ◌-ℤ◌}
use mqtt_server.Prelude.Maps.{Map}
use mqtt_server.Packets.Codec.{Bytes}
use mqtt_server.Packets.Codes
use mqtt_server.Packets.Codes.{Code}
use mqtt_server.Packets.Packet.{Packet, Subscription, copy_packet}
use mqtt_server.Topics.Alias.{OutboundTopicAliases, outbound_set}
use mqtt_server.Inflight.{
  Inflight, replace_counted, delete_entry, increase_send_quota, decrease_send_quota,
  reset_send_quota, expiry_deferred,
}
use mqtt_server.Sessions.Outgoing.{
  Recipient, Setting, DeliveryEvent, qos_publish, queued, written, publish_dropped,
  packet_id_exhausted, Delivery, shape_message, apply_alias, number_message,
}
use mqtt_server.Sessions.PacketId.{next_packet_id, NextId, reserved_id, quota_exceeded, out_of_fuel}
use mqtt_server.Sessions.Resume.{resume_deferred_publishes}

-- `if ok := Inflight.Delete(out.PacketID); ok { … }`
unfoldable pub take_back : Recipient → Packet → Recipient
take_back r out =
    let (i, deleted) = delete_entry r.inflight out.packet_id in
    if deleted
    then record r { inflight = (increase_send_quota i).0; info_inflight = r.info_inflight -ℤ pos 1 }
    else record r { inflight = i }

-- The end: a client that is gone, the queue, or a full queue.
unfoldable pub hand_over : Setting → Recipient → List DeliveryEvent → Packet → Packet → Delivery
hand_over s r events pk out =
    if not s.online
    then record {
      after = if ltb 0 (out.fixed_header.qos) && ltb 0 out.packet_id then take_back r out else r;
      events = events;
      packet = out;
      error = some Codes.code_disconnect;
    }
    else if s.queue_has_room
    then record { after = r; events = events ++ (queued out ∷ []); packet = out; error = none }
    else (let r' = record r { messages_dropped = r.messages_dropped +ℤ pos 1 } in
        record {
          after = if ltb 0 (out.fixed_header.qos) then take_back r' out else r';
          events = events ++ (publish_dropped pk ∷ []);
          packet = out;
          error = some Codes.err_pending_client_writes_exceeded;
        })

-- `ReplaceCounted` found another message under the id.
unfoldable pub collision : Recipient → Packet → Delivery
collision r out = record {
  after = record r {
    inflight = (delete_entry r.inflight out.packet_id).0;
    inflight_dropped = r.inflight_dropped +ℤ pos 1;
  };
  events = [];
  packet = out;
  error = some Codes.err_quota_exceeded;
}

-- `ReplaceCounted(out, &s.Info.Inflight)`, and what follows if it succeeds.
unfoldable pub store : Recipient → Packet → (Recipient → Delivery) → Delivery → Delivery
store r out next otherwise =
    let (i, info, stored) = replace_counted r.inflight out (some r.info_inflight) in
    if stored
    then next (record r {
      inflight = i;
      info_inflight = elim info [ none ↦ r.info_inflight | some g ↦ g ];
    })
    else otherwise

-- No send quota: the message is parked, and whatever quota was freed meanwhile is used.
unfoldable pub park_message : Setting → Recipient → Packet → Delivery
park_message s r out =
    let parked = record out { expiry = expiry_deferred } in
    store r parked
      (λ r'.
        let (i, sent, end) = resume_deferred_publishes s.writes s.online r'.inflight in
        record {
          after = record r' { inflight = i };
          events = qos_publish parked ∷ map written sent;
          packet = parked;
          error = none;
        })
      (collision r parked)

-- Version 5, with a unit of the send quota taken if there is a quota at all.
unfoldable pub send_v5 : Setting → Recipient → Packet → Packet → Delivery
send_v5 s r pk out =
    let limited = ltb_ℤ (pos 0) (r.inflight.maximum_send_quota) in
    let (i, took) = decrease_send_quota r.inflight in
    let taken : Recipient = if limited then record r { inflight = i } else r in
    let untaken : Recipient =
      if limited then record r { inflight = (increase_send_quota i).0 } else r in
    if limited && not took
    then park_message s r out
    else store taken out (λ r'. hand_over s r' (qos_publish out ∷ []) pk out)
        (collision untaken out)

-- The versions before 5: the quota is reset if none is left, and taken behind the store.
unfoldable pub send_v3 : Setting → Recipient → Packet → Packet → Delivery
send_v3 s r pk out =
    let i = r.inflight in
    let empty = eq_ℤ i.send_quota (pos 0) && ltb_ℤ (pos 0) i.maximum_send_quota in
    let refilled : Recipient =
      if empty then record r { inflight = reset_send_quota i s.receive_maximum } else r in
    store refilled out
      (λ r'.
        hand_over s (record r' { inflight = (decrease_send_quota r'.inflight).0 })
          (qos_publish out ∷ []) pk out)
      (collision refilled out)

-- No id: `NextPacketIDUnderCap` returned an error.
abbrev pub exhausted : Recipient → Packet → Packet → Delivery
exhausted r pk out = record {
  after = record r { inflight_dropped = r.inflight_dropped +ℤ pos 1 };
  events = packet_id_exhausted pk ∷ [];
  packet = out;
  error = some Codes.err_quota_exceeded;
}

-- What follows the search for an id, which does not run out of fuel.
unfoldable pub with_packet_id : Setting → Recipient → Packet → Packet → NextId → Delivery
with_packet_id s r pk out (reserved_id id i) =
    let r' = record r { inflight = i; packet_id = id } in
    let out' = number_message s id pk out in
    if ltb s.protocol_version 5 then send_v3 s r' pk out' else send_v5 s r' pk out'
with_packet_id s r pk out quota_exceeded = exhausted r pk out
with_packet_id s r pk out out_of_fuel = exhausted r pk out

-- A quality of service above 0.
unfoldable pub publish_counted : Setting → Recipient → Packet → Packet → Delivery
publish_counted s r pk out =
    with_packet_id s r pk out
      (next_packet_id s.maximum_packet_id (pos s.maximum_inflight) s.now r.inflight r.packet_id)

unfoldable pub publish_to_client : Setting → Recipient → Subscription → Packet → Delivery
publish_to_client s r sub pk =
    let (aliases, out) = apply_alias s r.aliases pk (shape_message s sub pk) in
    let r' = record r { aliases = aliases } in
    if sub.no_local && bytes_eq pk.origin s.client_id
    then record { after = r; events = []; packet = pk; error = none }
    else if not (s.may_read pk.topic_name)
    then record {
      after = r;
      events = [];
      packet = copy_packet false pk;
      error = some Codes.err_not_authorized;
    }
    else if ltb 0 (out.fixed_header.qos)
    then publish_counted s r' pk out
    else hand_over s r' [] pk out
