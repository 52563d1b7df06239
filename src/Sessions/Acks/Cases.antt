-- ===== src/Sessions/Acks/Cases.antt =====
-- server.go: the states in which the handlers of acknowledgements end, branch by branch.
use mqtt_server.Prelude.{
  ℕ, ◌≡◌, refl, ap, ◌∙◌, inl, inr, true, false, none, some, arith, ◌==◌, Bool-cases, Option-cases,
}
use mqtt_server.Prelude.Int.{pos, ◌-ℤ◌}
use mqtt_server.Prelude.Maps.{lookup, nat_eq, lookup-insert, beq_refl}
use mqtt_server.Packets.Codes
use mqtt_server.Packets.Types
use mqtt_server.Packets.Packet.{Packet}
use mqtt_server.Inflight.{
  Inflight, get, set, delete_entry, is_reserved, increase_send_quota, increase_receive_quota,
  decrease_receive_quota,
}
use mqtt_server.Sessions.Acks.{
  Session, Server, build_ack, fill_in, process_puback, process_pubrec, process_pubrel,
  process_pubcomp, raise_quotas, is_refused, process_ack,
}

-- The entry is deleted and counted down.
abbrev pub dropped : Session → ℕ → Session
dropped c id = record {
  inflight = (delete_entry c.inflight id).0;
  info_inflight = c.info_inflight -ℤ pos 1;
}

-- The acknowledgement that takes the place of the entry.
abbrev pub ack_of : Server → Packet → ℕ → ℕ → Packet → Packet
ack_of s original type qos pk =
    fill_in s original (build_ack s pk.packet_id type qos pk.properties Codes.code_success)

pub delete_entry_found :
    (i : Inflight) (id : ℕ) (v : Packet)
    → lookup id i.internal ≡ some v
    → (delete_entry i id).1 ≡ true
unfolding delete_entry
delete_entry_found i id v e = rw e refl

pub ack_of-packet_id :
    (s : Server) (original pk : Packet) (type qos : ℕ)
    → (ack_of s original type qos pk).packet_id ≡ pk.packet_id
unfolding fill_in build_ack
ack_of-packet_id s original pk type qos = ground arith

-- Raising the quotas leaves the entries alone.
pub raise_quotas_entries : (c : Session) → (raise_quotas c).inflight.internal ≡ c.inflight.internal
unfolding increase_send_quota increase_receive_quota
raise_quotas_entries c = ground arith

-- The session with the acknowledgement in place of the entry.
abbrev pub acked : Session → Packet → Session
acked c ack = record c { inflight = (set c.inflight ack).0 }

pub acked-lookup :
    (c : Session) (ack : Packet) (id : ℕ)
    → ack.packet_id ≡ id
    → lookup id (raise_quotas (acked c ack)).inflight.internal ≡ some ack
unfolding set
acked-lookup c ack id e =
    ap (lookup id) (raise_quotas_entries (acked c ack))
    ∙ lookup-insert ack.packet_id id ack c.inflight.internal
    ∙ rw e (rw (beq_refl ⦃e = nat_eq⦄ id) refl)

module _ (s : Server) (c : Session) (pk : Packet) (P : Session → Type 0) (id_free : P c) where
  abbrev Entry : Packet → Type 0
  Entry v = lookup pk.packet_id c.inflight.internal ≡ some v

  pub puback_cases :
      ((v : Packet)
        → Entry v
        → is_reserved v ≡ true
        → P (record c { inflight = (delete_entry c.inflight pk.packet_id).0 }))
      → ((v : Packet)
          → Entry v
          → is_reserved v ≡ false
          → P (record (dropped c pk.packet_id) {
            inflight = (increase_send_quota (delete_entry c.inflight pk.packet_id).0).0;
          }))
      → P (process_puback s c pk).0
  unfolding process_puback get delete_entry
  puback_cases on_reserved on_live = elim (Option-cases (lookup pk.packet_id c.inflight.internal)) [
    | inl e ↦ rw (process_puback, get, e) id_free
    | inr (v, e) ↦ elim (Bool-cases (is_reserved v)) [
      | inl r ↦ rw (process_puback, get, delete_entry, e) (rw r (on_reserved v e r))
      | inr r ↦ rw (process_puback, get, delete_entry, e) (rw r (on_live v e r))
    ]
  ]

  pub pubrec_cases :
      ((v : Packet) → Entry v → is_refused pk ≡ true → P (dropped c pk.packet_id))
      → ((v : Packet)
          → Entry v
          → is_refused pk ≡ false
          → P (record c {
            inflight = (set (decrease_receive_quota c.inflight).0 (ack_of s v Types.pubrel 1 pk)).0;
          }))
      → P (process_pubrec s c pk).0
  unfolding process_pubrec get
  pubrec_cases on_refused on_ack = elim (Option-cases (lookup pk.packet_id c.inflight.internal)) [
    | inl e ↦ rw (process_pubrec, get, e) id_free
    | inr (v, e) ↦ elim (Bool-cases (is_refused pk)) [
      | inl r ↦
          rw (process_pubrec, get, e)
            (rw r (rw (delete_entry_found c.inflight pk.packet_id v e) (on_refused v e r)))
      | inr r ↦ rw (process_pubrec, get, e) (rw r (on_ack v e r))
    ]
  ]

  pub pubrel_cases :
      ((v : Packet) → Entry v → is_refused pk ≡ true → P (dropped c pk.packet_id))
      → ((v : Packet)
          → Entry v
          → is_refused pk ≡ false
          → P (acked c (ack_of s v Types.pubcomp 0 pk)))
      → ((v : Packet)
          → Entry v
          → is_refused pk ≡ false
          → P (dropped (raise_quotas (acked c (ack_of s v Types.pubcomp 0 pk))) pk.packet_id))
      → P (process_pubrel s c pk).0
  unfolding process_pubrel get
  pubrel_cases on_refused on_failed on_done =
      elim (Option-cases (lookup pk.packet_id c.inflight.internal)) [
        | inl e ↦ rw (process_pubrel, get, e) id_free
        | inr (v, e) ↦ elim (Bool-cases (is_refused pk)) [
          | inl r ↦
              rw (process_pubrel, get, e)
                (rw r (rw (delete_entry_found c.inflight pk.packet_id v e) (on_refused v e r)))
          | inr r ↦ elim (Bool-cases (s.writes (ack_of s v Types.pubcomp 0 pk))) [
            | inr w ↦ rw (process_pubrel, get, e) (rw r (rw w (on_failed v e r)))
            | inl w ↦
                let ack = ack_of s v Types.pubcomp 0 pk in
                let there =
                  acked-lookup c ack pk.packet_id (ack_of-packet_id s v pk Types.pubcomp 0) in
                rw (process_pubrel, get, e)
                  (rw r (
                    rw w (
                      rw
                        (delete_entry_found (raise_quotas (acked c ack)).inflight pk.packet_id ack
                          there)
                        (on_done v e r))))
          ]
        ]
      ]

  pub pubcomp_cases :
      (lookup pk.packet_id c.inflight.internal ≡ none → P (raise_quotas c))
      → ((v : Packet) → Entry v → P (dropped (raise_quotas c) pk.packet_id))
      → P (process_pubcomp s c pk).0
  unfolding process_pubcomp get
  pubcomp_cases on_absent on_done = elim (Option-cases (lookup pk.packet_id c.inflight.internal)) [
    | inl e ↦
        let l = ap (lookup pk.packet_id) (raise_quotas_entries c) ∙ e in
        rw (process_pubcomp, get, l) (on_absent e)
    | inr (v, e) ↦
        let l = ap (lookup pk.packet_id) (raise_quotas_entries c) ∙ e in
        rw (process_pubcomp, get, l)
          (rw (delete_entry_found (raise_quotas c).inflight pk.packet_id v l) (on_done v e))
  ]

-- The dispatch on the type of the packet.
pub ack_cases :
    (s : Server) (c : Session) (pk : Packet) (P : Session → Type 0)
    → P c
    → P (process_puback s c pk).0
    → P (process_pubrec s c pk).0
    → P (process_pubrel s c pk).0
    → P (process_pubcomp s c pk).0
    → P (process_ack s c pk).0
unfolding process_ack
ack_cases s c pk P other ack rec rel comp =
    elim (Bool-cases (pk.fixed_header.type == Types.puback)) [
      | inl e ↦ rw (process_ack, e) ack
      | inr a ↦ elim (Bool-cases (pk.fixed_header.type == Types.pubrec)) [
        | inl e ↦ rw (process_ack, a, e) rec
        | inr b ↦ elim (Bool-cases (pk.fixed_header.type == Types.pubrel)) [
          | inl e ↦ rw (process_ack, a, b, e) rel
          | inr d ↦ elim (Bool-cases (pk.fixed_header.type == Types.pubcomp)) [
            | inl e ↦ rw (process_ack, a, b, d, e) comp
            | inr e ↦ rw (process_ack, a, b, d, e) other
          ]
        ]
      ]
    ]
