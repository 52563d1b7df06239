-- ===== src/Sessions/Tests.antt =====
-- Runs of the session's steps, and the theorems at concrete inputs.
use mqtt_server.Prelude.{
  ℕ, ◌≤◌, ◌≡◌, refl, sym, ap, none, true, false, Option, some, [], ◌∷◌, arith, length,
}
use mqtt_server.Prelude.Int.{ℤ, pos, negsuc, ◌+ℤ◌, ◌-ℤ◌}
use mqtt_server.Prelude.Maps.{lookup, insert, delete, count, nat_eq}
use mqtt_server.Packets.Types
use mqtt_server.Packets.Codes.{code_byte}
use mqtt_server.Packets.Packet.{Packet, no_packet}
use mqtt_server.Inflight.{
  Inflight, new_inflights, set, get, delete_entry, reset_send_quota, decrease_send_quota,
  increase_send_quota, recover_starved_send_quota, is_reserved, all_deferred, take_next_immediate,
  select_deferred, reset_send_quota_if_empty,
}
use mqtt_server.Inflight.Invariant.{
  IsValid, Step-IsValid, Reach-IsValid, start, next, step_set, step_reset_send, step_decrease_send,
}
use mqtt_server.Sessions.PacketId.{next_packet_id, next_packet_id-IsNext, IsNext}
use mqtt_server.Sessions.Resume.{
  Resumed, resume_deferred_publishes, resume_deferred_publishes-Resumed,
}
use mqtt_server.Sessions.Resume.Wake.{process_puback_wakes}
use mqtt_server.Sessions.Acks.{
  Session, Server, process_ack, process_puback, process_pubrec, is_refused,
}
use mqtt_server.Sessions.Clear.{clear_inflights}
use mqtt_server.Sessions.Clear.Balance.{clear_inflights-IsBalanced}
use mqtt_server.Packets.Reasons.{reason_code_valid}
use mqtt_server.Sessions.Acks.Flow.{HasEnded, process_ack-HasEnded}
use mqtt_server.Sessions.Acks.Balance.{IsBalanced, process_ack_balance}

abbrev message : ℕ → ℤ → Packet
message id expiry = record no_packet {
  packet_id = id;
  expiry = expiry;
  topic_name = b'a' ∷ [];
  fixed_header = record (no_packet).fixed_header { qos = 2 };
}

-- A quota of one, and a message that waits for it.
abbrev waiting : Inflight
waiting = (set (reset_send_quota new_inflights (pos 1)) (message 3 (negsuc 0))).0

waiting-IsValid : IsValid waiting
waiting-IsValid = Reach-IsValid (
    next (next start (step_reset_send new_inflights (pos 1) (omega arith)))
      (step_set (reset_send_quota new_inflights (pos 1)) (message 3 (negsuc 0))))

resume_deferred_publishes-Resumed_example :
    Resumed true
      (recover_starved_send_quota waiting).0.send_quota
      (resume_deferred_publishes (λ p. true) true waiting)
resume_deferred_publishes-Resumed_example =
    resume_deferred_publishes-Resumed (λ p. true) true waiting waiting-IsValid

-- The message goes out.
resume_run : length (resume_deferred_publishes (λ p. true) true waiting).1 ≡ 1
unfolding resume_deferred_publishes set reset_send_quota recover_starved_send_quota insert
    all_deferred take_next_immediate select_deferred decrease_send_quota count ◌-ℤ◌
    reset_send_quota_if_empty
resume_run = refl

next_packet_id-IsNext_example :
    IsNext 10 (pos 0) (pos 7) waiting (next_packet_id 10 (pos 0) (pos 7) waiting 10)
next_packet_id-IsNext_example =
    next_packet_id-IsNext 10 (pos 0) (pos 7) waiting 10 (omega arith) (omega arith)

abbrev a_server : Server
a_server = record {
  no_inherited_properties_on_ack = false;
  maximum_message_expiry_interval = pos 60;
  is_fixed_packet_info = true;
  now = pos 100;
  writes = λ p. true;
  reason_text = λ c. [];
}

-- One message that was sent, and the quota it used up.
abbrev sent_one : Session
sent_one = record {
  inflight =
      (set (decrease_send_quota (reset_send_quota new_inflights (pos 1))).0 (message 3 (pos 0))).0;
  info_inflight = pos 1;
}

sent_one-IsValid : IsValid (sent_one).inflight
sent_one-IsValid = Reach-IsValid (
    next
      (next (next start (step_reset_send new_inflights (pos 1) (omega arith)))
        (step_decrease_send (reset_send_quota new_inflights (pos 1))))
      (step_set (decrease_send_quota (reset_send_quota new_inflights (pos 1))).0
        (message 3 (pos 0))))

abbrev ack : ℕ → ℕ → Packet
ack type code = record no_packet {
  packet_id = 3;
  reason_code = code;
  fixed_header = record (no_packet).fixed_header { type = type };
}

sent_one-entry : lookup 3 (sent_one).inflight.internal ≡ some (message 3 (pos 0))
unfolding set lookup insert decrease_send_quota reset_send_quota
sent_one-entry = refl

process_ack-HasEnded_example :
    HasEnded sent_one 3
      (process_ack a_server
        (process_ack a_server sent_one (ack Types.pubrec 0)).0
        (ack Types.pubcomp 0)).0
process_ack-HasEnded_example =
    process_ack-HasEnded a_server sent_one (ack Types.pubrec 0) (ack Types.pubcomp 0)
      (message 3 (pos 0)) refl refl refl sent_one-entry accepted
  where
    accepted : is_refused (ack Types.pubrec 0) ≡ false
    accepted = unfold reason_code_valid code_byte in refl

held_message : (v : Packet) → lookup 3 (sent_one).inflight.internal ≡ some v → is_reserved v ≡ false
unfolding set lookup insert decrease_send_quota reset_send_quota
held_message v e =
    ap is_reserved (sym (ap (λ (o : Option Packet). elim o [ none ↦ no_packet | some p ↦ p ]) e))

process_ack_balance_example :
    IsBalanced sent_one (process_ack a_server sent_one (ack Types.pubrec 0)).0
unfolding ◌+ℤ◌
process_ack_balance_example =
    process_ack_balance a_server sent_one (ack Types.pubrec 0) sent_one-IsValid (omega arith)
      held_message

-- A Puback gives the unit of the quota back; a Pubrec that refuses the message does not.
puback_quota : (process_puback a_server sent_one (ack Types.puback 0)).0.inflight.send_quota ≡ pos 1
unfolding process_puback get lookup set insert decrease_send_quota reset_send_quota delete_entry
    increase_send_quota ◌-ℤ◌ ◌+ℤ◌
puback_quota = refl

pubrec_refused_quota :
    (process_pubrec a_server sent_one (ack Types.pubrec 0x80)).0.inflight.send_quota ≡ pos 0
unfolding process_pubrec get lookup set insert decrease_send_quota reset_send_quota delete_entry
    code_byte ◌-ℤ◌
pubrec_refused_quota = refl

pubrec_refused_entries :
    (process_pubrec a_server sent_one (ack Types.pubrec 0x80)).0.inflight.internal ≡ []
unfolding process_pubrec get lookup set insert decrease_send_quota reset_send_quota delete_entry
    code_byte delete
pubrec_refused_entries = refl

clear_inflights-IsBalanced_example :
    ((id : ℕ) → lookup id (clear_inflights sent_one).0.inflight.internal ≡ none)
    × IsBalanced sent_one (clear_inflights sent_one).0
clear_inflights-IsBalanced_example = clear_inflights-IsBalanced sent_one sent_one-IsValid

-- A quota of one that a sent message has used up, and a message that waits.
abbrev queued_up : Session
queued_up = record {
  inflight = (set (sent_one).inflight (message 4 (negsuc 0))).0;
  info_inflight = pos 2;
}

process_puback_wakes_example :
    1
    ≤ length
        (resume_deferred_publishes
          (λ p. true)
          true
          (process_puback a_server queued_up (ack Types.puback 0)).0.inflight).1
process_puback_wakes_example =
    process_puback_wakes a_server queued_up (ack Types.puback 0) (message 3 (pos 0)) (λ p. true)
      (Step-IsValid (step_set (sent_one).inflight (message 4 (negsuc 0))) sent_one-IsValid)
      (unfold set decrease_send_quota reset_send_quota in refl)
      (unfold set lookup insert decrease_send_quota reset_send_quota in refl) refl refl
      (unfold set insert count decrease_send_quota reset_send_quota in omega arith) (λ p. refl)
