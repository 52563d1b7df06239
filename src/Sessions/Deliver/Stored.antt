-- ===== src/Sessions/Deliver/Stored.antt =====
-- server.go: the entries of a client while `publishToClient` stores a message and takes it back.
use mqtt_server.Prelude.{
  ℕ, ◌≡◌, inl, inr, refl, ap, subst, ◌∙◌, Bool, true, false, Option, none, some, List, arith, ltb,
  ◌==◌, ==_iff, if◌then◌else◌, Bool-cases,
}
use mqtt_server.Prelude.Int.{pos, ◌+ℤ◌, ◌-ℤ◌, +ℤ_cancel}
use mqtt_server.Prelude.Maps.{
  Map, lookup, insert, delete, is_some, nat_eq, beq_refl, lookup-insert, lookup-delete,
}
use mqtt_server.Packets.Packet.{Packet}
use mqtt_server.Inflight.{
  Inflight, replace_counted, delete_entry, increase_send_quota, decrease_send_quota, is_reserved,
}
use mqtt_server.Sessions.Outgoing.{Recipient, Setting, DeliveryEvent, Delivery}
use mqtt_server.Sessions.Deliver.{take_back, hand_over, store}

abbrev pub holds : Recipient → ℕ → Option Packet
holds r j = lookup j (r.inflight.internal)

-- Every id holds what it held, and the server counts as many messages in flight.
pub record IsKept (r r' : Recipient) : Type 0 where
  pub entries : (j : ℕ) → holds r' j ≡ holds r j
  pub counted : r'.info_inflight ≡ r.info_inflight

-- The message stands under its id, which was free, and is counted.
pub record IsStored (r : Recipient) (m : Packet) (r' : Recipient) : Type 0 where
  pub free : holds r (m.packet_id) ≡ none
  pub entries : (j : ℕ) → holds r' j ≡ (if m.packet_id == j then some m else holds r j)
  pub counted : r'.info_inflight ≡ r.info_inflight +ℤ pos 1

increase_internal : (i : Inflight) → (increase_send_quota i).0.internal ≡ i.internal
unfolding increase_send_quota
increase_internal i = ground arith

pub decrease_internal : (i : Inflight) → (decrease_send_quota i).0.internal ≡ i.internal
unfolding decrease_send_quota
decrease_internal i = ground arith

removed_entry :
    (m : Packet) (j : ℕ) (before : Option Packet) (entries : Map ℕ Packet)
    → lookup j entries ≡ (if m.packet_id == j then some m else before)
    → (m.packet_id ≡ j → before ≡ none)
    → lookup j (delete m.packet_id entries) ≡ before
removed_entry m j before entries h free =
    lookup-delete m.packet_id j entries ∙ ground (arith, ==_iff m.packet_id j)

take_back-IsKept : (r r' : Recipient) (m : Packet) → IsStored r m r' → IsKept r (take_back r' m)
unfolding take_back delete_entry
take_back-IsKept r r' m h =
    rw (h.entries m.packet_id, beq_refl ⦃e = nat_eq⦄ m.packet_id)
      record {
        entries = λ j.
            ap (λ entries. lookup j entries)
              (increase_internal (delete_entry r'.inflight m.packet_id).0)
            ∙ removed_entry m j (holds r j) r'.inflight.internal (h.entries j)
                (λ e. subst (λ k. holds r k ≡ none) e h.free);
        counted = ap (λ n. n -ℤ pos 1) h.counted ∙ +ℤ_cancel r.info_inflight (pos 1);
      }

-- A message of a quality of service above 0, with the id it was given.
pub record IsNumbered (m : Packet) : Type 0 where
  pub qos : ltb 0 (m.fixed_header.qos) ≡ true
  pub id : ltb 0 m.packet_id ≡ true

-- Behind the store an error takes the message back.
pub hand_over-IsKept :
    (s : Setting) (r r' : Recipient) (events : List DeliveryEvent) (pk m : Packet)
    → IsStored r m r'
    → IsNumbered m
    → is_some (hand_over s r' events pk m).error ≡ true
    → IsKept r (hand_over s r' events pk m).after
unfolding hand_over
hand_over-IsKept s r r' events pk m h w = elim (Bool-cases s.online) [
  | inl on ↦ elim (Bool-cases s.queue_has_room) [
    | inl room ↦ rw (on, room) (λ e. absurd (ground arith))
    | inr full ↦
        rw (on, full, w.qos)
          (λ e.
            take_back-IsKept r dropped m
              (record { free = h.free; entries = h.entries; counted = h.counted }))
  ]
  | inr off ↦ rw (off, w.qos, w.id) (λ e. take_back-IsKept r r' m h)
]
  where
    dropped : Recipient
    dropped = record r' { messages_dropped = r'.messages_dropped +ℤ pos 1 }

-- The id of the message was free, and is reserved.
pub record IsReserved (r : Recipient) (m : Packet) (q : Recipient) : Type 0 where
  pub free : holds r m.packet_id ≡ none
  pub slot : Packet
  pub reserved : is_reserved slot ≡ true
  pub entries : (j : ℕ) → holds q j ≡ (if m.packet_id == j then some slot else holds r j)
  pub counted : q.info_inflight ≡ r.info_inflight

abbrev pub stored : Recipient → Packet → Recipient
stored q m = record q {
  inflight = record q.inflight { internal = insert m.packet_id m q.inflight.internal };
  info_inflight = q.info_inflight +ℤ pos 1;
}

overwritten :
    (b : Bool) (m slot : Packet) (old : Option Packet)
    → (if b then some m else (if b then some slot else old)) ≡ (if b then some m else old)
overwritten true m slot old = refl
overwritten false m slot old = refl

module _ (r : Recipient) (m : Packet) (q : Recipient) (h : IsReserved r m q) where
  pub stored-IsStored : IsStored r m (stored q m)
  stored-IsStored = record {
    free = h.free;
    entries = λ j.
        lookup-insert m.packet_id j m q.inflight.internal
        ∙ ap (λ old. if m.packet_id == j then some m else old) (h.entries j)
        ∙ overwritten (m.packet_id == j) m h.slot (holds r j);
    counted = ap (λ n. n +ℤ pos 1) h.counted;
  }

  -- The reservation makes way for the message.
  pub store-reserved :
      (next : Recipient → Delivery) (otherwise : Delivery)
      → store q m next otherwise ≡ next (stored q m)
  unfolding store replace_counted
  store-reserved next otherwise =
      rw (h.entries m.packet_id, beq_refl ⦃e = nat_eq⦄ m.packet_id, h.reserved) refl
