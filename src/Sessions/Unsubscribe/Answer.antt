-- ===== src/Sessions/Unsubscribe/Answer.antt =====
-- server.go: what `processUnsubscribe` answers, and the count of subscriptions.
use mqtt_server.Prelude.{
  ℕ, suc, ◌+◌, ◌≡◌, inl, inr, refl, ap, ◌∙◌, true, List, [], ◌∷◌, map, arith, ◌==◌, if◌then◌else◌,
  Bool-cases, length,
}
use mqtt_server.Prelude.Int.{ℤ, pos, ◌+ℤ◌, int_laws}
use mqtt_server.Packets.Codec.{Bytes}
use mqtt_server.Packets.Codes
use mqtt_server.Packets.Codes.{Code, code_byte}
use mqtt_server.Packets.Packet.{Packet, Subscription}
use mqtt_server.Topics.Index.{unsubscribe}
use mqtt_server.Inflight.{Inflight, get}
use mqtt_server.Sessions.Unsubscribe.{
  Subscribed, unsubscribed, written, unsubscribe_one, unsubscribe_each, refuse_each, unsuback,
  process_unsubscribe,
}

abbrev pub successes : List ℕ → ℕ
successes [] = 0
successes (code ∷ codes) = (if code == 0 then 1 else 0) + successes codes

-- One code for each filter, and the count moved by the number of codes that say success.
record IsCounted (subs : List Subscription) (s : Subscribed) (s' : Subscribed) (codes : List Code)
    : Type 0 where
  answered : length (map code_byte codes) ≡ length subs
  counted : s.info_subscriptions ≡ s'.info_subscriptions +ℤ pos (successes (map code_byte codes))

joined : (x y : ℤ) (a n : ℕ) → x ≡ y +ℤ pos n → x +ℤ pos (a + 0) ≡ y +ℤ pos (a + n)
joined x y a n e = grind (int_laws, e)

one_counted :
    (client filter : Bytes) (s : Subscribed)
    → (let r = unsubscribe_one client filter s in
        s.info_subscriptions ≡ r.0.info_subscriptions +ℤ pos (successes (code_byte r.1 ∷ [])))
unfolding unsubscribe_one code_byte
one_counted client filter s = elim (Bool-cases (unsubscribe s.topics filter client).1) [
  | inl gone ↦ rw gone (grind int_laws)
  | inr absent ↦ rw absent (grind int_laws)
]

unsubscribe_each-IsCounted :
    (client : Bytes) (subs : List Subscription) (s : Subscribed)
    → IsCounted subs s (unsubscribe_each client subs s).0 (unsubscribe_each client subs s).1
unfolding unsubscribe_each
unsubscribe_each-IsCounted client [] s = record { answered = refl; counted = grind int_laws }
unsubscribe_each-IsCounted client (sub ∷ subs) s =
    let rest = unsubscribe_each-IsCounted client subs (unsubscribe_one client sub.filter s).0 in
    record {
      answered = ap (λ n. suc n) rest.answered;
      counted = one_counted client sub.filter s ∙ joined _ _ _ _ rest.counted;
    }

refuse_each-IsCounted :
    (subs : List Subscription) (s : Subscribed)
    → IsCounted subs s s (refuse_each Codes.err_packet_identifier_in_use subs)
unfolding refuse_each code_byte
refuse_each-IsCounted [] s = record { answered = refl; counted = grind int_laws }
refuse_each-IsCounted (sub ∷ subs) s =
    let rest = refuse_each-IsCounted subs s in
    record {
      answered = ap (λ n. suc n) rest.answered;
      counted = rest.counted ∙ ap (λ n. s.info_subscriptions +ℤ pos n) (omega arith);
    }

-- The answer to an unsubscribe packet.
pub record IsAnswered (pk : Packet) (s s' : Subscribed) (ack : Packet) : Type 0 where
  pub packet_id : ack.packet_id ≡ pk.packet_id
  pub answered : length ack.reason_codes ≡ length pk.filters
  pub counted : s.info_subscriptions ≡ s'.info_subscriptions +ℤ pos (successes ack.reason_codes)

-- processUnsubscribe calls the hook and writes one acknowledgement, with the id of the packet as the hook
-- leaves it and with one reason code for each of its filters; the server's count of subscriptions goes
-- down by the number of codes that say success; and where the packet id is in use, nothing else is
-- changed either.
pub process_unsubscribe-IsAnswered :
    (reason_text : Code → Bytes) (on_unsubscribe : Packet → Packet) (client : Bytes)
    (inflight : Inflight) (pk : Packet) (s : Subscribed)
    → (let r = process_unsubscribe reason_text on_unsubscribe client inflight pk s in
        (ack : Packet) × (r.1 ≡ unsubscribed (on_unsubscribe pk) ∷ written ack ∷ [])
        × IsAnswered (on_unsubscribe pk) s r.0 ack
        × ((get inflight pk.packet_id).1 ≡ true → r.0 ≡ s))
unfolding process_unsubscribe unsuback
process_unsubscribe-IsAnswered reason_text on_unsubscribe client inflight pk s =
    elim (Bool-cases (get inflight pk.packet_id).1) [
      | inl used ↦
          let c = refuse_each-IsCounted (on_unsubscribe pk).filters s in
          rw used (
            unsuback reason_text (on_unsubscribe pk) Codes.err_packet_identifier_in_use
                (refuse_each Codes.err_packet_identifier_in_use (on_unsubscribe pk).filters),
            (unfold unsuback in refl),
            record { packet_id = refl; answered = c.answered; counted = c.counted },
            λ e. refl,
          )
      | inr unused ↦
          let c = unsubscribe_each-IsCounted client (on_unsubscribe pk).filters s in
          rw unused (
            unsuback reason_text (on_unsubscribe pk) Codes.code_success
                (unsubscribe_each client (on_unsubscribe pk).filters s).1,
            (unfold unsuback in refl),
            record { packet_id = refl; answered = c.answered; counted = c.counted },
            λ e. absurd (ground arith),
          )
    ]
