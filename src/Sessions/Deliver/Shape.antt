-- ===== src/Sessions/Deliver/Shape.antt =====
-- server.go: the header of the message that `publishToClient` makes for a subscriber.
use mqtt_server.Prelude.{
  ℕ, ◌≤◌, ◌≡◌, ◌⊎◌, ◌↔◌, inl, inr, refl, ◌∙◌, true, false, not, ◌&&◌, Option, none, some, List, [],
  ◌∷◌, arith, ltb, ==_iff, bytes_eq, Bool-cases,
}
use mqtt_server.Prelude.Int.{ℤ, pos, ltb_ℤ}
use mqtt_server.Prelude.Maps.{Map}
use mqtt_server.Packets.Codec.{Bytes}
use mqtt_server.Packets.Header.{FixedHeader}
use mqtt_server.Packets.Packet.{Packet, Subscription, copy_packet}
use mqtt_server.Inflight.{replace_counted, decrease_send_quota}
use mqtt_server.Sessions.PacketId.{NextId, reserved_id, quota_exceeded, out_of_fuel}
use mqtt_server.Sessions.Outgoing.{
  Recipient, Setting, DeliveryEvent, Delivery, number_message, set_identifiers, apply_alias,
  shape_message,
}
use mqtt_server.Sessions.Deliver.Cases.{publish_to_client_cases}
use mqtt_server.Sessions.Deliver.{
  hand_over, store, collision, park_message, send_v5, send_v3, with_packet_id, publish_counted,
  publish_to_client,
}

abbrev header : Delivery → FixedHeader
header d = d.packet.fixed_header

hand_over-header :
    (s : Setting) (r : Recipient) (events : List DeliveryEvent) (pk m : Packet)
    → header (hand_over s r events pk m) ≡ m.fixed_header
unfolding hand_over
hand_over-header s r events pk m = ground arith

store-header :
    (r : Recipient) (m : Packet) (next : Recipient → Delivery) (otherwise : Delivery)
    (h : FixedHeader)
    → ((q : Recipient) → header (next q) ≡ h)
    → header otherwise ≡ h
    → header (store r m next otherwise) ≡ h
unfolding store
store-header r m next otherwise h e w =
    elim (Bool-cases (replace_counted r.inflight m (some r.info_inflight)).2) [
      | inl stored ↦ rw stored (e _)
      | inr refused ↦ rw refused w
    ]

send_v5-header :
    (s : Setting) (r : Recipient) (pk m : Packet) → header (send_v5 s r pk m) ≡ m.fixed_header
unfolding send_v5 park_message collision
send_v5-header s r pk m =
    elim (Bool-cases
      (ltb_ℤ (pos 0) r.inflight.maximum_send_quota && not (decrease_send_quota r.inflight).1)) [
        | inl short ↦ rw short (store-header r _ _ _ _ (λ q. refl) refl)
        | inr enough ↦ rw enough (store-header _ m _ _ _ (λ q. hand_over-header s q _ pk m) refl)
      ]

send_v3-header :
    (s : Setting) (r : Recipient) (pk m : Packet) → header (send_v3 s r pk m) ≡ m.fixed_header
unfolding send_v3 collision
send_v3-header s r pk m = store-header _ m _ _ _ (λ q. hand_over-header s _ _ pk m) refl

number_message-header :
    (s : Setting) (id : ℕ) (pk out : Packet)
    → (number_message s id pk out).fixed_header ≡ out.fixed_header
unfolding number_message
number_message-header s id pk out = ground arith

with_packet_id-header :
    (s : Setting) (r : Recipient) (pk out : Packet) (next : NextId)
    → header (with_packet_id s r pk out next) ≡ out.fixed_header
unfolding with_packet_id
with_packet_id-header s r pk out quota_exceeded = refl
with_packet_id-header s r pk out out_of_fuel = refl
with_packet_id-header s r pk out (reserved_id id i) = elim (Bool-cases (ltb s.protocol_version 5)) [
  | inl old ↦ rw old (send_v3-header s _ pk _ ∙ number_message-header s id pk out)
  | inr new ↦ rw new (send_v5-header s _ pk _ ∙ number_message-header s id pk out)
]

apply_alias-header :
    (s : Setting) (r : Recipient) (pk out : Packet)
    → (apply_alias s r.aliases pk out).1.fixed_header ≡ out.fixed_header
unfolding apply_alias
apply_alias-header s r pk out = ground arith

set_identifiers-header :
    (ids : Option (Map Bytes ℤ)) (out : Packet)
    → (set_identifiers ids out).fixed_header ≡ out.fixed_header
unfolding set_identifiers
set_identifiers-header none out = refl
set_identifiers-header (some []) out = refl
set_identifiers-header (some (kv ∷ ids)) out = refl

publish_to_client-header :
    (s : Setting) (r : Recipient) (sub : Subscription) (pk : Packet)
    → sub.no_local && bytes_eq pk.origin s.client_id ≡ false
    → s.may_read pk.topic_name ≡ true
    → header (publish_to_client s r sub pk) ≡ (shape_message s sub pk).fixed_header
unfolding publish_counted
publish_to_client-header s r sub pk other may =
    publish_to_client_cases s (λ d. header d ≡ (shape_message s sub pk).fixed_header) r sub pk
      (λ own. absurd (ground (arith, other, own))) (λ barred. absurd (ground (arith, may, barred)))
      (λ _. with_packet_id-header s _ pk _ _ ∙ apply_alias-header s r pk (shape_message s sub pk))
      (λ _. hand_over-header s _ _ pk _ ∙ apply_alias-header s r pk (shape_message s sub pk))

-- The subscriber sees the retain flag.
abbrev ShowsRetain : Setting → Subscription → Type 0
ShowsRetain s sub =
    (sub.fwd_retained_flag ≡ true) ⊎ ((s.protocol_version ≡ 5) × (sub.retain_as_published ≡ true))

pub record IsShaped (s : Setting) (sub : Subscription) (pk : Packet) (h : FixedHeader)
    : Type 0 where
  pub qos_message : h.qos ≤ pk.fixed_header.qos
  pub qos_subscription : h.qos ≤ sub.qos
  pub qos_server : h.qos ≤ s.maximum_qos
  pub qos_least : (h.qos ≡ pk.fixed_header.qos) ⊎ (h.qos ≡ sub.qos) ⊎ (h.qos ≡ s.maximum_qos)
  pub dup : h.dup ≡ false
  pub retain : (h.retain ≡ true) ↔ ((pk.fixed_header.retain ≡ true) × ShowsRetain s sub)

shape_message-IsShaped :
    (s : Setting) (sub : Subscription) (pk : Packet)
    → s.protocol_version ≤ 5
    → IsShaped s sub pk ((shape_message s sub pk).fixed_header)
unfolding shape_message copy_packet
shape_message-IsShaped s sub pk v = rw (set_identifiers-header sub.identifiers _) record {
  qos_message = ground arith;
  qos_subscription = ground arith;
  qos_server = ground arith;
  qos_least = ground arith;
  dup = refl;
  retain = ground (arith, ==_iff s.protocol_version 5);
}

-- A message that is not the client's own under a subscription without local messages, and whose topic
-- it may read, is returned by publishToClient, with or without an error, under a header with the least
-- of the qualities of service of the message, of the subscription and of the server, with no
-- duplicate flag, and with the retain flag of the message exactly if it is sent to a new
-- subscription or, in version 5, published as it was retained. The version is at most 5.
pub publish_to_client-IsShaped :
    (s : Setting) (r : Recipient) (sub : Subscription) (pk : Packet)
    → s.protocol_version ≤ 5
    → sub.no_local && bytes_eq pk.origin s.client_id ≡ false
    → s.may_read pk.topic_name ≡ true
    → IsShaped s sub pk ((publish_to_client s r sub pk).packet.fixed_header)
publish_to_client-IsShaped s r sub pk v other may =
    rw (publish_to_client-header s r sub pk other may) (shape_message-IsShaped s sub pk v)
