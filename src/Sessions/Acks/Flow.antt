-- ===== src/Sessions/Acks/Flow.antt =====
-- server.go: a whole flow of quality of service two, by the handlers of its two acknowledgements.
use mqtt_server.Prelude.{
  ℕ, ◌≡◌, inl, inr, refl, subst, ap, ◌∙◌, Bool, Option, true, false, none, some, arith, ◌==◌,
  if◌then◌else◌, Bool-cases,
}
use mqtt_server.Prelude.Int.{pos, ◌+ℤ◌, ◌-ℤ◌, ltb_ℤ, leb_ℤ}
use mqtt_server.Prelude.Maps.{lookup, nat_eq, beq_refl, lookup-insert, lookup-delete}
use mqtt_server.Packets.Types
use mqtt_server.Packets.Packet.{Packet}
use mqtt_server.Inflight.{
  Inflight, get, set, delete_entry, increase_send_quota, increase_receive_quota,
  decrease_receive_quota,
}
use mqtt_server.Sessions.Acks.{
  Session, Server, process_pubrec, process_pubcomp, raise_quotas, is_refused, process_ack,
}
use mqtt_server.Sessions.Acks.Cases.{
  ack_of, ack_of-packet_id, dropped, raise_quotas_entries, delete_entry_found,
}

-- The end of a flow: the entry is gone, all others are left, the message is counted down, and one more
-- may be sent, up to the maximum.
pub record HasEnded (c : Session) (id : ℕ) (d : Session) : Type 0 where
  pub entries :
      (j : ℕ)
      → lookup j d.inflight.internal ≡ (if id == j then none else lookup j c.inflight.internal)
  pub counted : d.info_inflight ≡ c.info_inflight -ℤ pos 1
  pub send_quota : d.inflight.send_quota ≡ (
      if ltb_ℤ c.inflight.send_quota c.inflight.maximum_send_quota
      then c.inflight.send_quota +ℤ pos 1
      else c.inflight.send_quota)
  pub maximum : d.inflight.maximum_send_quota ≡ c.inflight.maximum_send_quota

-- The state between the two.
after_pubrec :
    (s : Server) (c : Session) (rec : Packet) (v : Packet)
    → rec.fixed_header.type ≡ Types.pubrec
    → lookup rec.packet_id c.inflight.internal ≡ some v
    → is_refused rec ≡ false
    → (process_ack s c rec).0 ≡ record c {
      inflight = (set (decrease_receive_quota c.inflight).0 (ack_of s v Types.pubrel 1 rec)).0;
    }
unfolding process_ack process_pubrec get
after_pubrec s c rec v type e accepted =
    rw (process_ack, other, this) (rw (process_pubrec, get, e) (rw accepted refl))
  where
    other : (rec.fixed_header.type == Types.puback) ≡ false
    other = ground (arith, type)

    this : (rec.fixed_header.type == Types.pubrec) ≡ true
    this = ground (arith, type)

after_pubcomp :
    (s : Server) (c : Session) (comp : Packet) (v : Packet)
    → comp.fixed_header.type ≡ Types.pubcomp
    → lookup comp.packet_id c.inflight.internal ≡ some v
    → (process_ack s c comp).0 ≡ dropped (raise_quotas c) comp.packet_id
unfolding process_ack process_pubcomp get
after_pubcomp s c comp v type e =
    let l = ap (lookup comp.packet_id) (raise_quotas_entries c) ∙ e in
    rw
      (process_ack, other Types.puback refl, other Types.pubrec refl, other Types.pubrel refl, this)
      (rw (process_pubcomp, get, l)
        (rw (delete_entry_found (raise_quotas c).inflight comp.packet_id v l) refl))
  where
    other : (t : ℕ) → (Types.pubcomp == t) ≡ false → (comp.fixed_header.type == t) ≡ false
    other t d = ap (λ (n : ℕ). n == t) type ∙ d

    this : (comp.fixed_header.type == Types.pubcomp) ≡ true
    this = ground (arith, type)

-- The entries behind a Pubrec: the acknowledgement stands in the place of the message.
set-lookup :
    (i : Inflight) (m : Packet) (j : ℕ)
    → lookup j (set (decrease_receive_quota i).0 m).0.internal
      ≡ (if m.packet_id == j then some m else lookup j i.internal)
unfolding set decrease_receive_quota
set-lookup i m j = elim (Bool-cases (leb_ℤ i.receive_quota (pos 0))) [
  | inl z ↦ rw z (lookup-insert m.packet_id j m i.internal)
  | inr z ↦ rw z (lookup-insert m.packet_id j m i.internal)
]

abbrev between : Session → Packet → Session
between c m = record c { inflight = (set (decrease_receive_quota c.inflight).0 m).0 }

gone_once :
    (b : Bool) (v : Packet) (o : Option Packet)
    → (if b then none else if b then some v else o) ≡ (if b then none else o)
gone_once b v o = ground arith

ended-entries :
    (c : Session) (m : Packet) (j : ℕ)
    → lookup j (dropped (raise_quotas (between c m)) m.packet_id).inflight.internal
      ≡ (if m.packet_id == j then none else lookup j c.inflight.internal)
unfolding delete_entry
ended-entries c m j =
    lookup-delete m.packet_id j (raise_quotas (between c m)).inflight.internal
    ∙ ap (λ es. if m.packet_id == j then none else lookup j es) (raise_quotas_entries (between c m))
    ∙ ap (λ o. if m.packet_id == j then none else o) (set-lookup c.inflight m j)
    ∙ gone_once (m.packet_id == j) m (lookup j c.inflight.internal)

ended-send_quota :
    (c : Session) (m : Packet)
    → (dropped (raise_quotas (between c m)) m.packet_id).inflight.send_quota ≡ (
        if ltb_ℤ c.inflight.send_quota c.inflight.maximum_send_quota
        then c.inflight.send_quota +ℤ pos 1
        else c.inflight.send_quota)
unfolding delete_entry increase_send_quota increase_receive_quota set decrease_receive_quota
ended-send_quota c m = ground arith

ended-maximum :
    (c : Session) (m : Packet)
    → (dropped (raise_quotas (between c m)) m.packet_id).inflight.maximum_send_quota
      ≡ c.inflight.maximum_send_quota
unfolding delete_entry increase_send_quota increase_receive_quota set decrease_receive_quota
ended-maximum c m = ground arith

ended :
    (c : Session) (m : Packet)
    → HasEnded c m.packet_id (dropped (raise_quotas (between c m)) m.packet_id)
ended c m = record {
  entries = ended-entries c m;
  counted = refl;
  send_quota = ended-send_quota c m;
  maximum = ended-maximum c m;
}

-- A message of quality of service two whose Pubrec is accepted and followed by a Pubcomp under its packet
-- id is done: its entry is gone and all other entries are as they were, the server counts one message
-- less, and the client's send quota is one more unless it was at its maximum, which stays.
pub process_ack-HasEnded :
    (s : Server) (c : Session) (rec comp : Packet) (v : Packet)
    → rec.fixed_header.type ≡ Types.pubrec
    → comp.fixed_header.type ≡ Types.pubcomp
    → comp.packet_id ≡ rec.packet_id
    → lookup rec.packet_id c.inflight.internal ≡ some v
    → is_refused rec ≡ false
    → HasEnded c rec.packet_id (process_ack s (process_ack s c rec).0 comp).0
process_ack-HasEnded s c rec comp v is_rec is_comp same e accepted =
    let ack = ack_of s v Types.pubrel 1 rec in
    let id = ack_of-packet_id s v rec Types.pubrel 1 in
    let held : lookup comp.packet_id (between c ack).inflight.internal ≡ some ack =
      set-lookup c.inflight ack comp.packet_id
      ∙ rw (id, same) (rw (beq_refl ⦃e = nat_eq⦄ rec.packet_id) refl) in
    rw (after_pubrec s c rec v is_rec e accepted) (
      rw (after_pubcomp s (between c ack) comp ack is_comp held) (
        rw same (
          subst (λ (k : ℕ). HasEnded c k (dropped (raise_quotas (between c ack)) k)) id
            (ended c ack))))
