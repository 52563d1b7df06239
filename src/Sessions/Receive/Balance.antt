-- ===== src/Sessions/Receive/Balance.antt =====
-- server.go: the entries, the quotas and the count of messages in flight under `processPublish`.
use mqtt_server.Prelude.{
  ℕ, ◌+◌, ◌≡◌, inl, inr, refl, sym, ap, ◌∙◌, subst, false, some, arith, ◌==◌, if◌then◌else◌,
  Bool-cases, Option-cases,
}
use mqtt_server.Prelude.Int.{ℤ, pos, ◌+ℤ◌, ◌≤ℤ◌, int_laws}
use mqtt_server.Prelude.Maps.{lookup, insert, count, held, nat_eq, count-insert}
use mqtt_server.Packets.Packet.{Packet}
use mqtt_server.Inflight.{
  Inflight, set, is_reserved, increase_receive_quota, decrease_receive_quota,
}
use mqtt_server.Inflight.Invariant.{
  IsValid, Step-IsValid, step_set, step_decrease_receive, step_increase_receive,
}
use mqtt_server.Sessions.Acks.{Session, build_ack, fill_in}
use mqtt_server.Sessions.Acks.Balance.{not_reserved, IsBalanced, counted, is_counted}
use mqtt_server.Sessions.Receive.{
  Publisher, Publishing, ack_for, is_clash, acknowledge_once, acknowledge_twice, process_publish,
}
use mqtt_server.Sessions.Receive.Cases.{refusal, plain, once, twice, process_publish-Outcome}
use mqtt_server.Sessions.Receive.Once.{session_of}

lowered_entries : (i : Inflight) → (decrease_receive_quota i).0.internal ≡ i.internal
unfolding decrease_receive_quota
lowered_entries i = ground arith

raised_entries : (i : Inflight) → (increase_receive_quota i).0.internal ≡ i.internal
unfolding increase_receive_quota
raised_entries i = ground arith

-- A step on a session.
record IsKept (c d : Session) : Type 0 where
  valid : IsValid d.inflight
  balanced : IsBalanced c d

abbrev lower : Inflight → Inflight
lower i = (decrease_receive_quota i).0

abbrev raise : Inflight → Inflight
raise i = (increase_receive_quota i).0

ack_for-expiry :
    (e : Publishing) (out : Packet)
    → ((ack_for e out).expiry ≡ e.server.now +ℤ e.server.maximum_message_expiry_interval)
      × ((ack_for e out).packet_id ≡ out.packet_id)
unfolding ack_for fill_in build_ack
ack_for-expiry e out = (ground arith, ground arith)

not_clash : (old : Packet) → is_clash (some old) ≡ false → is_reserved old ≡ false
not_clash old h = ground arith

more : (g : ℤ) (a b : ℕ) → b ≡ a + 1 → g +ℤ pos 1 +ℤ pos a ≡ g +ℤ pos b
more g a b h = omega int_laws

set-IsBalanced :
    (c : Session) (i : Inflight) (ack : Packet)
    → i.internal ≡ c.inflight.internal
    → is_reserved ack ≡ false
    → ((old : Packet) → lookup ack.packet_id i.internal ≡ some old → is_reserved old ≡ false)
    → IsBalanced c (record {
      inflight = (set i ack).0;
      info_inflight = if (set i ack).1 then c.info_inflight +ℤ pos 1 else c.info_inflight;
    })
unfolding set
set-IsBalanced c i ack same real live = elim (Option-cases (lookup ack.packet_id i.internal)) [
  | inl e ↦ rw e (
      more c.info_inflight (counted c) _
        (omega (arith, inserted, ap (held is_counted) e, one, before)))
  | inr (old, e) ↦ rw e (
      ap (λ k. c.info_inflight +ℤ pos k)
        (omega (arith, inserted, ap (held is_counted) e ∙ held_one old (live old e), one, before)))
]
  where
    n : ℕ
    n = count is_counted i.internal

    before : n ≡ counted c
    before = ap (λ m. count is_counted m) same

    inserted :
        count is_counted (insert ack.packet_id ack i.internal)
          + held is_counted (lookup ack.packet_id i.internal)
        ≡ n + (if is_counted ack then 1 else 0)
    inserted = count-insert is_counted ack.packet_id ack i.internal

    held_one : (old : Packet) → is_reserved old ≡ false → held is_counted (some old) ≡ 1
    held_one old r = rw r refl

    one : ◌≡◌ {A = ℕ} (if is_counted ack then 1 else 0) 1
    one = rw real refl

module _ (e : Publishing) (q : Publisher) (out : Packet) (v : IsValid q.session.inflight) where
  lowered-IsValid : IsValid (lower q.session.inflight)
  lowered-IsValid = Step-IsValid (step_decrease_receive q.session.inflight) v

  same_entries :
      (i : Inflight)
      → IsValid i
      → i.internal ≡ q.session.inflight.internal
      → IsKept q.session (record q.session { inflight = i })
  same_entries i w h = record {
    valid = w;
    balanced = ap (λ m. q.session.info_inflight +ℤ pos (count is_counted m)) (sym h);
  }

  lowered-IsKept : IsKept q.session (record q.session { inflight = lower q.session.inflight })
  lowered-IsKept = same_entries _ lowered-IsValid (lowered_entries q.session.inflight)

  restored-IsKept :
      IsKept q.session (record q.session { inflight = raise (lower q.session.inflight) })
  restored-IsKept =
      same_entries _ (Step-IsValid (step_increase_receive _) lowered-IsValid)
        (raised_entries (lower q.session.inflight) ∙ lowered_entries q.session.inflight)

  acknowledge_once-IsKept : IsKept q.session (acknowledge_once e q out).0.session
  unfolding acknowledge_once
  acknowledge_once-IsKept = elim (Bool-cases (e.server.writes (ack_for e out))) [
    | inl sent ↦ elim (Bool-cases (out.fixed_header.qos == 1)) [
      | inl one ↦ rw (sent, one) restored-IsKept
      | inr other ↦ rw (sent, other) lowered-IsKept
    ]
    | inr lost ↦ rw lost lowered-IsKept
  ]

  -- The acknowledgement is new, or replaces an entry that is no reservation.
  stored-IsKept :
      is_clash (lookup out.packet_id (lower q.session.inflight).internal) ≡ false
      → is_reserved (ack_for e out) ≡ false
      → (let r = set (lower q.session.inflight) (ack_for e out) in
          IsKept q.session (record {
            inflight = r.0;
            info_inflight =
                if r.1 then q.session.info_inflight +ℤ pos 1 else q.session.info_inflight;
          }))
  stored-IsKept free real = record {
    valid = Step-IsValid (step_set (lower q.session.inflight) (ack_for e out)) lowered-IsValid;
    balanced =
        set-IsBalanced q.session (lower q.session.inflight) (ack_for e out)
          (lowered_entries q.session.inflight) real
          (λ old h. not_clash old (
            sym (
              ap is_clash (
                ap (λ k. lookup k (lower q.session.inflight).internal)
                  (sym (ack_for-expiry e out).1)
                ∙ h))
            ∙ free));
  }

  acknowledge_twice-IsKept :
      is_reserved (ack_for e out) ≡ false → IsKept q.session (acknowledge_twice e q out).0.session
  unfolding acknowledge_twice
  acknowledge_twice-IsKept real =
      elim (Bool-cases (is_clash (lookup out.packet_id (lower q.session.inflight).internal))) [
        | inl clash ↦ rw clash restored-IsKept
        | inr free ↦ elim (Bool-cases (e.server.writes (ack_for e out))) [
          | inl sent ↦ rw (free, sent) (stored-IsKept free real)
          | inr lost ↦ rw (free, lost) (stored-IsKept free real)
        ]
      ]

-- processPublish keeps distinct ids, each entry under its own packet id, and both quotas between zero and
-- their maximum; and it moves the server's count by as much as the number of entries that are no
-- reservations, if the expiry that buildAck computes is not negative.
pub process_publish-IsBalanced :
    (e : Publishing) (p : Publisher) (pk : Packet)
    → IsValid p.session.inflight
    → pos 0 ≤ℤ e.server.now +ℤ e.server.maximum_message_expiry_interval
    → IsValid ((process_publish e p pk).0.session.inflight)
      × IsBalanced p.session (process_publish e p pk).0.session
process_publish-IsBalanced e p pk v late = (kept.valid, kept.balanced)
  where
    moved :
        (q : Publisher) (d : Session)
        → q.session ≡ p.session
        → (process_publish e p pk).0.session ≡ d
        → (IsValid q.session.inflight → IsKept q.session d)
        → IsKept p.session (process_publish e p pk).0.session
    moved q d same s k =
        subst (λ c. IsKept c (process_publish e p pk).0.session) same
          (subst (λ c. IsKept q.session c) (sym s) (k (rw same v)))

    still : (d : Session) → d ≡ p.session → IsKept p.session d
    still d h = subst (λ c. IsKept p.session c) (sym h) (record { valid = v; balanced = refl })

    kept : IsKept p.session (process_publish e p pk).0.session
    kept = elim (process_publish-Outcome e p pk) [
      | refusal r ↦ still _ r.session
      | plain out allowed behind direct s ↦ still _ (ap session_of s)
      | once q out allowed behind i same two s ↦
          moved q _ same (ap session_of s) (acknowledge_once-IsKept e q out)
      | twice q out allowed behind i same two s ↦ moved q _ same (ap session_of s) (λ w.
          acknowledge_twice-IsKept e q out w
            (not_reserved (ack_for e out) _ (ack_for-expiry e out).0 late))
    ]
