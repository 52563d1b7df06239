-- ===== src/Sessions/Deliver/Cases.antt =====
-- server.go: the ways through `publishToClient`.
use mqtt_server.Prelude.{
  ℕ, ◌≤◌, ◌<◌, ◌^◌, ◌≡◌, inl, inr, true, false, ◌&&◌, none, some, [], bytes_eq, ltb, Bool-cases,
}
use mqtt_server.Prelude.Int.{pos}
use mqtt_server.Packets.Codes
use mqtt_server.Packets.Packet.{Packet, Subscription, copy_packet}
use mqtt_server.Inflight.{Inflight}
use mqtt_server.Sessions.PacketId.{
  next_packet_id-IsNext, IsNext, NextId, reserved_id, quota_exceeded, out_of_fuel,
}
use mqtt_server.Sessions.Outgoing.{
  Recipient, Setting, Delivery, shape_message, apply_alias, number_message,
}
use mqtt_server.Sessions.Deliver.{
  hand_over, exhausted, send_v3, send_v5, with_packet_id, publish_counted, publish_to_client,
}

module _ (s : Setting) (r : Recipient) (sub : Subscription) (pk : Packet) where
  -- The message that is sent, and the state behind the choice of an alias.
  abbrev pub outgoing : Packet
  outgoing = (apply_alias s r.aliases pk (shape_message s sub pk)).1

  abbrev pub aliased : Recipient
  aliased = record r { aliases = (apply_alias s r.aliases pk (shape_message s sub pk)).0 }

module _ {ℓ} (s : Setting) (Q : Delivery → Type ℓ) where
  pub with_packet_id_cases :
      (r : Recipient) (pk out : Packet) (next : NextId)
      → IsNext s.maximum_packet_id (pos s.maximum_inflight) s.now r.inflight next
      → Q (exhausted r pk out)
      → ((id : ℕ) (i : Inflight)
          → IsNext s.maximum_packet_id (pos s.maximum_inflight) s.now r.inflight (reserved_id id i)
          → Q (
              send_v3 s
                (record r { inflight = i; packet_id = id })
                pk
                (number_message s id pk out)))
      → ((id : ℕ) (i : Inflight)
          → IsNext s.maximum_packet_id (pos s.maximum_inflight) s.now r.inflight (reserved_id id i)
          → Q (
              send_v5 s
                (record r { inflight = i; packet_id = id })
                pk
                (number_message s id pk out)))
      → Q (with_packet_id s r pk out next)
  unfolding with_packet_id
  with_packet_id_cases r pk out quota_exceeded h full old new = full
  with_packet_id_cases r pk out out_of_fuel h full old new = absurd h
  with_packet_id_cases r pk out (reserved_id id i) h full old new =
      elim (Bool-cases (ltb s.protocol_version 5)) [
        | inl e ↦ rw e (old id i h)
        | inr e ↦ rw e (new id i h)
      ]

  module _ (r : Recipient) (sub : Subscription) (pk : Packet) where
    pub publish_to_client_cases :
        (sub.no_local && bytes_eq pk.origin s.client_id ≡ true
          → Q (record { after = r; events = []; packet = pk; error = none }))
        → (s.may_read pk.topic_name ≡ false
            → Q (record {
              after = r;
              events = [];
              packet = copy_packet false pk;
              error = some Codes.err_not_authorized;
            }))
        → (ltb 0 ((outgoing s r sub pk).fixed_header.qos) ≡ true
            → Q (publish_counted s (aliased s r sub pk) pk (outgoing s r sub pk)))
        → (ltb 0 ((outgoing s r sub pk).fixed_header.qos) ≡ false
            → Q (hand_over s (aliased s r sub pk) [] pk (outgoing s r sub pk)))
        → Q (publish_to_client s r sub pk)
    unfolding publish_to_client
    publish_to_client_cases own barred counted plain =
        elim (Bool-cases (sub.no_local && bytes_eq pk.origin s.client_id)) [
          | inl e ↦ rw e (own e)
          | inr e ↦ elim (Bool-cases (s.may_read pk.topic_name)) [
            | inr b ↦ rw (e, b) (barred b)
            | inl b ↦ elim (Bool-cases (ltb 0 ((outgoing s r sub pk).fixed_header.qos))) [
              | inl c ↦ rw (e, b, c) (counted c)
              | inr c ↦ rw (e, b, c) (plain c)
            ]
          ]
        ]

    -- With ids that fit a uint16, and a counter that is one of them or 0.
    pub counted_cases :
        (out : Packet)
        → s.maximum_packet_id < 2 ^ 16
        → r.packet_id ≤ s.maximum_packet_id
        → Q (exhausted (aliased s r sub pk) pk out)
        → ((id : ℕ) (i : Inflight)
            → IsNext s.maximum_packet_id
                (pos s.maximum_inflight)
                s.now
                r.inflight
                (reserved_id id i)
            → Q (
                send_v3 s
                  (record (aliased s r sub pk) { inflight = i; packet_id = id })
                  pk
                  (number_message s id pk out)))
        → ((id : ℕ) (i : Inflight)
            → IsNext s.maximum_packet_id
                (pos s.maximum_inflight)
                s.now
                r.inflight
                (reserved_id id i)
            → Q (
                send_v5 s
                  (record (aliased s r sub pk) { inflight = i; packet_id = id })
                  pk
                  (number_message s id pk out)))
        → Q (publish_counted s (aliased s r sub pk) pk out)
    unfolding publish_counted
    counted_cases out bound h = with_packet_id_cases (aliased s r sub pk) pk out _ (
        next_packet_id-IsNext s.maximum_packet_id (pos s.maximum_inflight) s.now r.inflight
          r.packet_id h bound)
