-- ===== src/Sessions/Resume/Wake.antt =====
-- server.go: a message that waits for send quota, once an acknowledgement has come.
use mqtt_server.Prelude.{
  ℕ, suc, ◌≤◌, ◌<◌, ◌≡◌, inl, inr, refl, sym, ap, ◌∙◌, subst, Bool, true, false, some, arith,
  Bool-cases, length,
}
use mqtt_server.Prelude.Int.{ℤ, pos, ltb_ℤ, leb_ℤ, ◌+ℤ◌, ◌≤ℤ◌}
use mqtt_server.Prelude.Maps.{lookup, count, held, nat_eq, count-delete}
use mqtt_server.Packets.Packet.{Packet}
use mqtt_server.Inflight.{
  Inflight, get, delete_entry, is_deferred, is_reserved, increase_send_quota,
  recover_starved_send_quota,
}
use mqtt_server.Inflight.Deferred.{take_next_immediate_cases}
use mqtt_server.Inflight.Invariant.{IsValid, Step-IsValid, step_delete, step_increase_send}
use mqtt_server.Sessions.Acks.{Session, Server, process_puback}
use mqtt_server.Sessions.Resume.{resume_loop, resume_deferred_publishes, decrease_send_quota_some}

recovered :
    (i : Inflight) → ltb_ℤ (pos 0) i.send_quota ≡ true → (recover_starved_send_quota i).0 ≡ i
unfolding recover_starved_send_quota
recovered i h = ground arith

resume_loop_writes :
    (fuel : ℕ) (writes : Packet → Bool) (i : Inflight)
    → IsValid i
    → ((p : Packet) → writes p ≡ true)
    → ltb_ℤ (pos 0) i.send_quota ≡ true
    → 0 < count is_deferred i.internal
    → 1 ≤ length (resume_loop (suc fuel) writes true i).1
unfolding resume_loop
resume_loop_writes fuel writes i v goes some_left waiting =
    elim (take_next_immediate_cases i v.unique) [
      | inl (idle, e) ↦ absurd (omega arith)
      | inr (id, p, (l, d, least, e)) ↦
          rw (some_left, e) (rw (decrease_send_quota_some _ some_left) (rw (goes _) (omega arith)))
    ]

resume_writes :
    (writes : Packet → Bool) (i : Inflight)
    → IsValid i
    → ((p : Packet) → writes p ≡ true)
    → ltb_ℤ (pos 0) i.send_quota ≡ true
    → 0 < count is_deferred i.internal
    → 1 ≤ length (resume_deferred_publishes writes true i).1
unfolding resume_deferred_publishes
resume_writes writes i v goes some_left waiting =
    rw (recovered i some_left) (resume_loop_writes _ writes i v goes some_left waiting)

raised_quota :
    (i : Inflight)
    → IsValid i
    → ltb_ℤ (pos 0) i.maximum_send_quota ≡ true
    → ltb_ℤ (pos 0) ((increase_send_quota i).0.send_quota) ≡ true
unfolding increase_send_quota
raised_quota i v h = elim (Bool-cases (leb_ℤ i.maximum_send_quota i.send_quota)) [
  | inl full ↦ rw full (ground arith)
  | inr below ↦ rw below (positive i.send_quota v.quota.send_low)
]
  where
    positive : (q : ℤ) → pos 0 ≤ℤ q → ltb_ℤ (pos 0) (q +ℤ pos 1) ≡ true
    positive q low = unfold ◌+ℤ◌ in ground arith

raised_entries : (i : Inflight) → (increase_send_quota i).0.internal ≡ i.internal
unfolding increase_send_quota
raised_entries i = ground arith

process_puback_inflight :
    (s : Server) (c : Session) (pk v : Packet)
    → lookup pk.packet_id c.inflight.internal ≡ some v
    → is_reserved v ≡ false
    → (process_puback s c pk).0.inflight
      ≡ (increase_send_quota (delete_entry c.inflight pk.packet_id).0).0
unfolding process_puback get delete_entry
process_puback_inflight s c pk v e live = rw (process_puback, get, delete_entry, e) (rw live refl)

still_waiting :
    (i : Inflight) (id : ℕ) (v : Packet)
    → IsValid i
    → lookup id i.internal ≡ some v
    → is_deferred v ≡ false
    → count is_deferred (delete_entry i id).0.internal ≡ count is_deferred i.internal
unfolding delete_entry
still_waiting i id v valid e sent = omega (
  arith,
  count-delete is_deferred id i.internal valid.unique,
  ap (held is_deferred) e ∙ held_none sent,
)
  where
    held_none : is_deferred v ≡ false → held is_deferred (some v) ≡ 0
    held_none h = rw h refl

-- In a valid state with a send quota at all, a Puback for a message that was sent lets a message that waits
-- go: resumeDeferredPublishes behind it writes at least one, if the client is online and no write fails.
pub process_puback_wakes :
    (s : Server) (c : Session) (pk v : Packet) (writes : Packet → Bool)
    → IsValid c.inflight
    → ltb_ℤ (pos 0) (c.inflight.maximum_send_quota) ≡ true
    → lookup pk.packet_id c.inflight.internal ≡ some v
    → is_reserved v ≡ false
    → is_deferred v ≡ false
    → 0 < count is_deferred c.inflight.internal
    → ((p : Packet) → writes p ≡ true)
    → 1 ≤ length (resume_deferred_publishes writes true (process_puback s c pk).0.inflight).1
unfolding delete_entry
process_puback_wakes s c pk v writes valid enough e live sent waiting goes =
    rw (process_puback_inflight s c pk v e live) (
      resume_writes writes _ (Step-IsValid (step_increase_send _) deleted) goes
        (raised_quota _ deleted enough)
        (subst (λ m. 0 < count is_deferred m) (sym (raised_entries _))
          (omega (arith, still_waiting c.inflight pk.packet_id v valid e sent))))
  where
    deleted : IsValid (delete_entry c.inflight pk.packet_id).0
    deleted = Step-IsValid (step_delete c.inflight pk.packet_id) valid
