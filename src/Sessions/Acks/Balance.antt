-- ===== src/Sessions/Acks/Balance.antt =====
-- server.go: the handlers of acknowledgements and the server's count of messages in flight.
use mqtt_server.Prelude.{
  ℕ, ◌+◌, ◌≡◌, refl, ap, ◌∙◌, Bool, true, false, not, some, arith, if◌then◌else◌,
}
use mqtt_server.Prelude.Int.{ℤ, pos, negsuc, ◌+ℤ◌, ◌-ℤ◌, ◌≤ℤ◌, int_laws}
use mqtt_server.Prelude.Maps.{lookup, count, held, nat_eq, count-insert, count-delete}
use mqtt_server.Packets.Types
use mqtt_server.Packets.Packet.{Packet}
use mqtt_server.Inflight.{
  Inflight, set, delete_entry, is_reserved, increase_send_quota, decrease_receive_quota,
  increase_receive_quota,
}
use mqtt_server.Inflight.Invariant.{
  IsValid, Step-IsValid, step_set, step_decrease_receive, step_increase_send, step_increase_receive,
}
use mqtt_server.Sessions.Acks.{
  Session, Server, build_ack, fill_in, process_puback, raise_quotas, process_ack,
}
use mqtt_server.Sessions.Acks.Cases.{
  ack_cases, puback_cases, pubrec_cases, pubrel_cases, pubcomp_cases, dropped, acked, ack_of,
  raise_quotas_entries, ack_of-packet_id, acked-lookup,
}

abbrev ValidSession : Session → Type 0
ValidSession c = IsValid c.inflight

raise-ValidSession : (c : Session) → ValidSession c → ValidSession (raise_quotas c)
raise-ValidSession c v =
    Step-IsValid (step_increase_send (increase_receive_quota c.inflight).0)
      (Step-IsValid (step_increase_receive c.inflight) v)

-- An entry that the server's count includes: any but a reservation.
abbrev pub is_counted : Packet → Bool
is_counted v = not (is_reserved v)

abbrev pub counted : Session → ℕ
counted c = count is_counted c.inflight.internal

-- The count of the server moved by as much as the number of counted entries.
abbrev pub IsBalanced : Session → Session → Type 0
IsBalanced c d = d.info_inflight +ℤ pos (counted c) ≡ c.info_inflight +ℤ pos (counted d)

pub one_less : (g : ℤ) (n m : ℕ) → m + 1 ≡ n → (g -ℤ pos 1) +ℤ pos n ≡ g +ℤ pos m
one_less g n m h = omega int_laws

pub same_number :
    (c : Session) (i : Inflight)
    → count is_counted i.internal ≡ counted c
    → IsBalanced c (record c { inflight = i })
same_number c i h = rw h refl

module _ (c : Session) (id : ℕ) (v : Packet) (valid : IsValid c.inflight)
    (entry : lookup id c.inflight.internal ≡ some v) where
  held_one : is_reserved v ≡ false → held is_counted (lookup id c.inflight.internal) ≡ 1
  held_one r = rw entry (rw r refl)

  held_none : is_reserved v ≡ true → held is_counted (lookup id c.inflight.internal) ≡ 0
  held_none r = rw entry (rw r refl)

  pub counted_deleted :
      is_reserved v ≡ false
      → count is_counted (delete_entry c.inflight id).0.internal + 1 ≡ counted c
  unfolding delete_entry
  counted_deleted r =
      omega (arith, count-delete is_counted id c.inflight.internal valid.unique, held_one r)

  pub reserved_deleted :
      is_reserved v ≡ true → count is_counted (delete_entry c.inflight id).0.internal ≡ counted c
  unfolding delete_entry
  reserved_deleted r =
      omega (arith, count-delete is_counted id c.inflight.internal valid.unique, held_none r)

  -- A counted message in place of a counted one.
  counted-set :
      (ack : Packet)
      → is_reserved v ≡ false
      → ack.packet_id ≡ id
      → is_reserved ack ≡ false
      → count is_counted (set c.inflight ack).0.internal ≡ counted c
  unfolding set
  counted-set ack r e a =
      let old = ap (λ (k : ℕ). held is_counted (lookup k c.inflight.internal)) e ∙ held_one r in
      omega
        (arith, count-insert is_counted ack.packet_id ack c.inflight.internal, old, counts ack a)
    where
      counts : (p : Packet) → is_reserved p ≡ false → ◌≡◌ {A = ℕ} (if is_counted p then 1 else 0) 1
      counts p h = rw h refl

send_entries : (i : Inflight) → (increase_send_quota i).0.internal ≡ i.internal
unfolding increase_send_quota
send_entries i = ground arith

receive_entries : (i : Inflight) → (decrease_receive_quota i).0.internal ≡ i.internal
unfolding decrease_receive_quota
receive_entries i = ground arith

ack_of-expiry :
    (s : Server) (original pk : Packet) (type qos : ℕ)
    → (ack_of s original type qos pk).expiry ≡ s.now +ℤ s.maximum_message_expiry_interval
unfolding fill_in build_ack
ack_of-expiry s original pk type qos = ground arith

pub not_reserved : (p : Packet) (t : ℤ) → p.expiry ≡ t → pos 0 ≤ℤ t → is_reserved p ≡ false
not_reserved p (pos n) e h = rw e refl
not_reserved p (negsuc n) e h = absurd (omega arith)

-- Processing any Puback of a valid state moves the server's count by as much as the number of
-- entries that are no reservations.
pub process_puback_balance :
    (s : Server) (c : Session) (pk : Packet)
    → IsValid c.inflight
    → IsBalanced c (process_puback s c pk).0
process_puback_balance s c pk valid =
    let rest = (delete_entry c.inflight pk.packet_id).0 in
    puback_cases s c pk (IsBalanced c) refl
      (λ v e r. same_number c rest (reserved_deleted c pk.packet_id v valid e r))
      (λ v e r. one_less c.info_inflight (counted c) _ (
        ap (λ m. count is_counted m + 1) (send_entries rest)
        ∙ counted_deleted c pk.packet_id v valid e r))

module _ (s : Server) (c : Session) (pk : Packet) (valid : IsValid c.inflight) (v : Packet)
    (entry : lookup pk.packet_id c.inflight.internal ≡ some v) (live : is_reserved v ≡ false) where
  -- The acknowledgement of a Pubrec in place of the message.
  pubrec_balance :
      (ack : Packet)
      → ack.packet_id ≡ pk.packet_id
      → is_reserved ack ≡ false
      → IsBalanced c (record c { inflight = (set (decrease_receive_quota c.inflight).0 ack).0 })
  pubrec_balance ack k a =
      let less : Session = record c { inflight = (decrease_receive_quota c.inflight).0 } in
      let entries = receive_entries c.inflight in
      same_number c (set (decrease_receive_quota c.inflight).0 ack).0 (
        counted-set less pk.packet_id v (Step-IsValid (step_decrease_receive c.inflight) valid)
          (ap (lookup pk.packet_id) entries ∙ entry) ack live k a
        ∙ ap (count is_counted) entries)

  -- The end of a flow that a Pubrel ends.
  pubrel_balance :
      (ack : Packet)
      → ack.packet_id ≡ pk.packet_id
      → is_reserved ack ≡ false
      → IsBalanced c (dropped (raise_quotas (acked c ack)) pk.packet_id)
  pubrel_balance ack k a =
      let put : IsValid (acked c ack).inflight = Step-IsValid (step_set c.inflight ack) valid in
      one_less c.info_inflight (counted c) _ (
        counted_deleted (raise_quotas (acked c ack)) pk.packet_id ack
          (raise-ValidSession (acked c ack) put) (acked-lookup c ack pk.packet_id k) a
        ∙ ap (count is_counted) (raise_quotas_entries (acked c ack))
        ∙ counted-set c pk.packet_id v valid entry ack live k a)

  pubcomp_balance : IsBalanced c (dropped (raise_quotas c) pk.packet_id)
  pubcomp_balance =
      let entries = raise_quotas_entries c in
      one_less c.info_inflight (counted c) _ (
        counted_deleted (raise_quotas c) pk.packet_id v (raise-ValidSession c valid)
          (ap (lookup pk.packet_id) entries ∙ entry) live
        ∙ ap (count is_counted) entries)

  drop_balance : IsBalanced c (dropped c pk.packet_id)
  drop_balance =
      one_less c.info_inflight (counted c) _ (counted_deleted c pk.packet_id v valid entry live)

-- Processing a Puback, Pubrec, Pubrel or Pubcomp of a valid state moves the server's count by as
-- much as the number of entries that are no reservations, if the packet id is not one that is only
-- reserved, and the expiry that buildAck computes is not negative.
pub process_ack_balance :
    (s : Server) (c : Session) (pk : Packet)
    → IsValid c.inflight
    → pos 0 ≤ℤ s.now +ℤ s.maximum_message_expiry_interval
    → ((v : Packet) → lookup pk.packet_id c.inflight.internal ≡ some v → is_reserved v ≡ false)
    → IsBalanced c (process_ack s c pk).0
process_ack_balance s c pk valid late live =
    let ack_live : (v : Packet) (type qos : ℕ) → is_reserved (ack_of s v type qos pk) ≡ false =
      λ v type qos. not_reserved (ack_of s v type qos pk) _ (ack_of-expiry s v pk type qos) late in
    let id : (v : Packet) (type qos : ℕ) → (ack_of s v type qos pk).packet_id ≡ pk.packet_id =
      λ v type qos. ack_of-packet_id s v pk type qos in
    ack_cases s c pk (IsBalanced c) refl (process_puback_balance s c pk valid)
      (pubrec_cases s c pk (IsBalanced c) refl (λ v e r. drop_balance s c pk valid v e (live v e))
        (λ v e r.
          pubrec_balance s c pk valid v e (live v e) (ack_of s v Types.pubrel 1 pk)
            (id v Types.pubrel 1) (ack_live v Types.pubrel 1)))
      (pubrel_cases s c pk (IsBalanced c) refl (λ v e r. drop_balance s c pk valid v e (live v e))
        (λ v e r. same_number c (set c.inflight (ack_of s v Types.pubcomp 0 pk)).0 (
          counted-set c pk.packet_id v valid e (ack_of s v Types.pubcomp 0 pk) (live v e)
            (id v Types.pubcomp 0) (ack_live v Types.pubcomp 0)))
        (λ v e r.
          pubrel_balance s c pk valid v e (live v e) (ack_of s v Types.pubcomp 0 pk)
            (id v Types.pubcomp 0) (ack_live v Types.pubcomp 0)))
      (pubcomp_cases s c pk (IsBalanced c) refl
        (λ e.
          same_number c (raise_quotas c).inflight (ap (count is_counted) (raise_quotas_entries c)))
        (λ v e. pubcomp_balance s c pk valid v e (live v e)))
