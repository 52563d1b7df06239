-- ===== src/Sessions/Deliver/Refused.antt =====
-- server.go: what `publishToClient` leaves behind where it returns an error.
use mqtt_server.Prelude.{
  ℕ, ◌^◌, ◌≤◌, ◌<◌, ◌≡◌, inl, inr, refl, sym, ap, ◌∙◌, Bool, true, false, ◌&&◌, List, [], arith,
  ltb, ◌==◌, if◌then◌else◌, Bool-cases, length,
}
use mqtt_server.Prelude.Int.{pos, ltb_ℤ, eq_ℤ}
use mqtt_server.Prelude.Maps.{lookup, is_some, nat_eq, lookup-insert}
use mqtt_server.Packets.Packet.{Packet, Subscription}
use mqtt_server.Inflight.{
  Inflight, decrease_send_quota, reset_send_quota, placeholder, expiry_deferred,
}
use mqtt_server.Sessions.PacketId.{IsNext, reserved_id}
use mqtt_server.Sessions.Outgoing.{Delivery, Recipient, Setting, DeliveryEvent, number_message}
use mqtt_server.Sessions.Deliver.Cases.{outgoing, aliased, publish_to_client_cases, counted_cases}
use mqtt_server.Sessions.Deliver.{hand_over, park_message, send_v5, send_v3, publish_to_client}
use mqtt_server.Sessions.Deliver.Stored.{
  IsKept, IsStored, IsNumbered, IsReserved, stored, decrease_internal, hand_over-IsKept,
  stored-IsStored, store-reserved,
}

park_message_succeeds :
    (s : Setting) (r q : Recipient) (m : Packet)
    → IsReserved r (record m { expiry = expiry_deferred }) q
    → is_some (park_message s q m).error ≡ false
unfolding park_message
park_message_succeeds s r q m h =
    rw (store-reserved r (record m { expiry = expiry_deferred }) q h) refl

-- The quotas and the expiry of the message play no part.
same_entries :
    (r q q' : Recipient) (m m' : Packet)
    → IsReserved r m q
    → m.packet_id ≡ m'.packet_id
    → q.inflight.internal ≡ q'.inflight.internal
    → q.info_inflight ≡ q'.info_inflight
    → IsReserved r m' q'
same_entries r q q' m m' h id entries info = record {
  free = rw (sym id) h.free;
  slot = h.slot;
  reserved = h.reserved;
  entries = λ j. ap (λ entries. lookup j entries) (sym entries) ∙ rw (sym id) (h.entries j);
  counted = sym info ∙ h.counted;
}

send_v5-IsKept :
    (s : Setting) (r q : Recipient) (pk m : Packet)
    → IsReserved r m q
    → IsNumbered m
    → is_some (send_v5 s q pk m).error ≡ true
    → IsKept r (send_v5 s q pk m).after
unfolding send_v5
send_v5-IsKept s r q pk m h w = elim (Bool-cases (ltb_ℤ (pos 0) (q.inflight.maximum_send_quota))) [
  | inl limited ↦ elim (Bool-cases (decrease_send_quota q.inflight).1) [
    | inl took ↦
        rw (limited, took, store-reserved r m taken reserved)
          (hand_over-IsKept s r (stored taken m) _ pk m (stored-IsStored r m taken reserved) w)
    | inr none_left ↦
        rw (limited, none_left) (λ e. absurd (ground (arith, park_message_succeeds s r q m parked)))
  ]
  | inr unlimited ↦
      rw (unlimited, store-reserved r m q h)
        (hand_over-IsKept s r (stored q m) _ pk m (stored-IsStored r m q h) w)
]
  where
    taken : Recipient
    taken = record q { inflight = (decrease_send_quota q.inflight).0 }

    reserved : IsReserved r m taken
    reserved = same_entries r q taken m m h refl (sym (decrease_internal q.inflight)) refl

    parked : IsReserved r (record m { expiry = expiry_deferred }) q
    parked = same_entries r q q m (record m { expiry = expiry_deferred }) h refl refl refl

send_v3-IsKept :
    (s : Setting) (r q : Recipient) (pk m : Packet)
    → IsReserved r m q
    → IsNumbered m
    → is_some (send_v3 s q pk m).error ≡ true
    → IsKept r (send_v3 s q pk m).after
unfolding send_v3
send_v3-IsKept s r q pk m h w =
    rw (store-reserved r m refilled reserved) (hand_over-IsKept s r taken _ pk m decreased w)
  where
    i : Inflight
    i = q.inflight

    refilled : Recipient
    refilled =
        if eq_ℤ i.send_quota (pos 0) && ltb_ℤ (pos 0) i.maximum_send_quota
        then record q { inflight = reset_send_quota i s.receive_maximum }
        else q

    taken : Recipient
    taken = record (stored refilled m) {
      inflight = (decrease_send_quota (stored refilled m).inflight).0;
    }

    reset :
        (b : Bool)
        → IsReserved r m
            (if b then record q { inflight = reset_send_quota i s.receive_maximum } else q)
    reset true =
        same_entries r q (record q { inflight = reset_send_quota i s.receive_maximum }) m m h refl
          (unfold reset_send_quota in refl) refl
    reset false = h

    reserved : IsReserved r m refilled
    reserved = reset _

    decreased : IsStored r m taken
    decreased =
        let w = stored-IsStored r m refilled reserved in
        record {
          free = w.free;
          entries = λ j.
              ap (λ entries. lookup j entries) (decrease_internal (stored refilled m).inflight)
              ∙ w.entries j;
          counted = w.counted;
        }

number_message-packet_id :
    (s : Setting) (id : ℕ) (pk out : Packet)
    → id < 2 ^ 16
    → ((number_message s id pk out).packet_id ≡ id)
      × ((number_message s id pk out).fixed_header ≡ out.fixed_header)
unfolding number_message
number_message-packet_id s id pk out h =
    elim (Bool-cases
      ((length out.topic_name == 0) && ltb 0 (length pk.topic_name) && s.is_fixed_packet_info)) [
        | inl lost ↦ rw lost (omega arith, refl)
        | inr kept ↦ rw kept (omega arith, refl)
      ]

module _ (s : Setting) (bound : s.maximum_packet_id < 2 ^ 16) where
  -- What the search for an id leaves.
  number_message-IsReserved :
      (r : Recipient) (pk out : Packet) (id : ℕ) (i : Inflight)
      → ltb 0 (out.fixed_header.qos) ≡ true
      → IsNext s.maximum_packet_id (pos s.maximum_inflight) s.now r.inflight (reserved_id id i)
      → IsReserved r (number_message s id pk out) (record r { inflight = i; packet_id = id })
        × IsNumbered (number_message s id pk out)
  number_message-IsReserved r pk out id i qos (low, high, free, e) = (reserved, numbered)
    where
      m : Packet
      m = number_message s id pk out

      same : (m.packet_id ≡ id) × (m.fixed_header ≡ out.fixed_header)
      same = number_message-packet_id s id pk out (omega arith)

      numbered : IsNumbered m
      numbered = record { qos = rw same.1 qos; id = rw same.0 (ground arith) }

      reserved : IsReserved r m (record r { inflight = i; packet_id = id })
      reserved = record {
        free = rw same.0 free;
        slot = placeholder id s.now;
        reserved = refl;
        entries =
            λ j. rw (same.0, e) (lookup-insert id j (placeholder id s.now) r.inflight.internal);
        counted = refl;
      }

  -- A message of quality of service 0 leaves the messages in flight alone.
  hand_over-unnumbered :
      (r : Recipient) (events : List DeliveryEvent) (pk m : Packet)
      → ltb 0 (m.fixed_header.qos) ≡ false
      → IsKept r (hand_over s r events pk m).after
  unfolding hand_over
  hand_over-unnumbered r events pk m qos = elim (Bool-cases s.online) [
    | inl on ↦ elim (Bool-cases s.queue_has_room) [
      | inl room ↦ rw (on, room) record { entries = λ j. refl; counted = refl }
      | inr full ↦ rw (on, full, qos) record { entries = λ j. refl; counted = refl }
    ]
    | inr off ↦ rw (off, qos) record { entries = λ j. refl; counted = refl }
  ]

  -- Where publishToClient returns an error, for whatever reason and at whatever point, every packet id
  -- of the client holds what it held before, and the server counts as many messages in flight: an id
  -- that was reserved on the way is free again. The packet ids of the server fit a uint16, and the
  -- counter of the client is one of them or 0.
  pub publish_to_client-IsKept :
      (r : Recipient) (sub : Subscription) (pk : Packet)
      → r.packet_id ≤ s.maximum_packet_id
      → is_some (publish_to_client s r sub pk).error ≡ true
      → IsKept r (publish_to_client s r sub pk).after
  publish_to_client-IsKept r sub pk h =
      let Q = λ (d : Delivery). is_some d.error ≡ true → IsKept r d.after in
      let a = aliased s r sub pk in
      let out = outgoing s r sub pk in
      publish_to_client_cases s Q r sub pk (λ _ _. same) (λ _ _. same)
        (λ c.
          counted_cases s Q r sub pk out bound h
            (λ _. record { entries = λ j. refl; counted = refl })
            (λ id i n e.
              let (reserved, numbered) = number_message-IsReserved a pk out id i c n in
              kept _ (send_v3-IsKept s a _ pk _ reserved numbered e))
            (λ id i n e.
              let (reserved, numbered) = number_message-IsReserved a pk out id i c n in
              kept _ (send_v5-IsKept s a _ pk _ reserved numbered e)))
        (λ p _. kept _ (hand_over-unnumbered a [] pk out p))
    where
      same : IsKept r r
      same = record { entries = λ j. refl; counted = refl }

      kept : (x : Recipient) → IsKept (aliased s r sub pk) x → IsKept r x
      kept x k = record { entries = k.entries; counted = k.counted }
