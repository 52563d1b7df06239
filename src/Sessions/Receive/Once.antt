-- ===== src/Sessions/Receive/Once.antt =====
-- server.go: which messages `processPublish` routes, and how often.
use mqtt_server.Prelude.{
  ◌≡◌, ◌⊎◌, inl, inr, refl, sym, ap, subst, ◌∙◌, Bool, true, false, List, [], ◌∷◌, ◌++◌, arith,
  ◌==◌, if◌then◌else◌, Bool-cases,
}
use mqtt_server.Prelude.Maps.{lookup, nat_eq, lookup-insert, beq_refl}
use mqtt_server.Packets.Types
use mqtt_server.Packets.Packet.{Packet}
use mqtt_server.Inflight.{Inflight, set, decrease_receive_quota}
use mqtt_server.Sessions.Acks.{Session, build_ack, fill_in}
use mqtt_server.Sessions.Receive.{
  Publisher, Publishing, Received, ack_for, in_use, is_clash, is_pubrec, entry_of, acknowledge_once,
  acknowledge_twice, process_publish, answered, qos_stored, qos_done, routed, published,
}
use mqtt_server.Sessions.Receive.Cases.{
  refusal, plain, once, twice, IsAdmitted, IsBehind, summary, routed_of, process_publish-Outcome,
}

-- One message and no error, or none.
abbrev RoutesOnly : Packet → Received → Type 0
RoutesOnly out r = (routed_of r.1 ≡ []) ⊎ ((routed_of r.1 ≡ out ∷ []) × (r.2 ≡ true))

acknowledge_once-RoutesOnly :
    (e : Publishing) (q : Publisher) (out : Packet) → RoutesOnly out (acknowledge_once e q out)
unfolding acknowledge_once
acknowledge_once-RoutesOnly e q out = elim (Bool-cases (e.server.writes (ack_for e out))) [
  | inl sent ↦ rw sent (inr (told (out.fixed_header.qos == 1) _, refl))
  | inr lost ↦ rw lost (inl refl)
]
  where
    told :
        (b : Bool) (done : Packet)
        → routed_of ((if b then qos_done done ∷ [] else []) ++ (routed out ∷ published out ∷ []))
          ≡ out ∷ []
    told true done = refl
    told false done = refl

ack_for-packet_id :
    (e : Publishing) (out : Packet)
    → ((ack_for e out).packet_id ≡ out.packet_id)
      × (out.fixed_header.qos ≡ 2 → (ack_for e out).fixed_header.type ≡ Types.pubrec)
unfolding ack_for fill_in build_ack
ack_for-packet_id e out = (ground arith, λ h. rw h (ground arith))

pubrec-set :
    (e : Publishing) (i : Inflight) (out : Packet)
    → out.fixed_header.qos ≡ 2
    → is_pubrec (lookup out.packet_id (set i (ack_for e out)).0.internal) ≡ true
unfolding set
pubrec-set e i out two =
    let (id, type) = ack_for-packet_id e out in
    rw
      (
        lookup-insert (ack_for e out).packet_id out.packet_id (ack_for e out) i.internal,
        id,
        beq_refl ⦃e = nat_eq⦄ out.packet_id,
        type two,
      )
      refl

acknowledge_twice-RoutesOnly :
    (e : Publishing) (q : Publisher) (out : Packet)
    → out.fixed_header.qos ≡ 2
    → (routed_of (acknowledge_twice e q out).1 ≡ [])
      ⊎ ((routed_of (acknowledge_twice e q out).1 ≡ out ∷ [])
          × ((acknowledge_twice e q out).2 ≡ true)
          × (is_pubrec (entry_of (acknowledge_twice e q out).0 out.packet_id) ≡ true))
unfolding acknowledge_twice
acknowledge_twice-RoutesOnly e q out two =
    elim (Bool-cases (is_clash (lookup out.packet_id i.internal))) [
      | inl clash ↦ rw clash (inl (silent (e.server.writes (in_use e out)) (in_use e out)))
      | inr free ↦ elim (Bool-cases (e.server.writes (ack_for e out))) [
        | inl sent ↦
            rw (free, sent) (inr (told (set i (ack_for e out)).1, refl, pubrec-set e i out two))
        | inr lost ↦ rw (free, lost) (inl (hooked (set i (ack_for e out)).1))
      ]
    ]
  where
    i : Inflight
    i = (decrease_receive_quota q.session.inflight).0

    silent : (b : Bool) (ack : Packet) → routed_of (if b then answered ack ∷ [] else []) ≡ []
    silent true ack = refl
    silent false ack = refl

    hooked : (b : Bool) → routed_of (if b then qos_stored (ack_for e out) ∷ [] else []) ≡ []
    hooked true = refl
    hooked false = refl

    told :
        (b : Bool)
        → routed_of (
            (if b then qos_stored (ack_for e out) ∷ [] else [])
            ++ (answered (ack_for e out) ∷ routed out ∷ published out ∷ []))
          ≡ out ∷ []
    told true = refl
    told false = refl

abbrev pub session_of : Session × List Packet × Bool → Session
session_of t = t.0

abbrev messages_of : Session × List Packet × Bool → List Packet
messages_of t = t.1

abbrev done_of : Session × List Packet × Bool → Bool
done_of t = t.2

-- processPublish routes at most one message, as the hook returns or leaves it, and only where the receive
-- quota is not zero and, unless the client is inline, the topic is valid for a publication, the client may
-- write to it, and no acknowledgement of a message of quality of service 2 stands under the packet
-- id; and then it returns without an error.
pub process_publish_routes :
    (e : Publishing) (p : Publisher) (pk : Packet)
    → let r = process_publish e p pk in
      (routed_of r.1 ≡ [])
      ⊎ ((out : Packet) × IsAdmitted e p pk
          × IsBehind e p pk out
          × (routed_of r.1 ≡ out ∷ [])
          × (r.2 ≡ true))
process_publish_routes e p pk = elim (process_publish-Outcome e p pk) [
  | refusal h ↦ inl h.silent
  | plain out allowed behind h s ↦ inr (out, allowed, behind, ap messages_of s, ap done_of s)
  | once q out allowed behind i same two s ↦
      passed (process_publish e p pk) (acknowledge_once e q out) out allowed behind s
        (acknowledge_once-RoutesOnly e q out)
  | twice q out allowed behind i same two s ↦
      passed (process_publish e p pk) (acknowledge_twice e q out) out allowed behind s
        (elim (acknowledge_twice-RoutesOnly e q out two) [
          | inl n ↦ inl n
          | inr (t, ok, _) ↦ inr (t, ok)
        ])
]
  where
    passed :
        (r t : Received) (out : Packet)
        → IsAdmitted e p pk
        → IsBehind e p pk out
        → ◌≡◌ {A = Session × List Packet × Bool} (summary r) (summary t)
        → RoutesOnly out t
        → (routed_of r.1 ≡ [])
          ⊎ ((out : Packet) × IsAdmitted e p pk
              × IsBehind e p pk out
              × (routed_of r.1 ≡ out ∷ [])
              × (r.2 ≡ true))
    passed r t out allowed behind s (inl n) = inl (ap messages_of s ∙ n)
    passed r t out allowed behind s (inr (m, ok)) =
        inr (out, allowed, behind, ap messages_of s ∙ m, ap done_of s ∙ ok)

-- The first call leaves the acknowledgement of the message that it routes.
process_publish-pubrec :
    (e : Publishing) (p : Publisher) (pk out : Packet)
    → e.inline ≡ false
    → out.fixed_header.qos ≡ 2
    → routed_of (process_publish e p pk).1 ≡ out ∷ []
    → is_pubrec (entry_of (process_publish e p pk).0 out.packet_id) ≡ true
process_publish-pubrec e p pk out direct two h = elim (process_publish-Outcome e p pk) [
  | refusal r ↦ absurd (nothing (sym r.silent ∙ h))
  | plain x allowed behind light s ↦ absurd (only x (sym (ap messages_of s) ∙ h) light)
  | once q x allowed behind i same other s ↦ elim (acknowledge_once-RoutesOnly e q x) [
    | inl n ↦ absurd (nothing (sym (ap messages_of s ∙ n) ∙ h))
    | inr (m, ok) ↦ absurd (
        other (
          ap (λ (v : Packet). v.fixed_header.qos) (same_one x (sym (ap messages_of s ∙ m) ∙ h))
          ∙ two))
  ]
  | twice q x allowed behind i same both s ↦ elim (acknowledge_twice-RoutesOnly e q x both) [
    | inl n ↦ absurd (nothing (sym (ap messages_of s ∙ n) ∙ h))
    | inr (m, ok, taken) ↦
        let one = same_one x (sym (ap messages_of s ∙ m) ∙ h) in
        rw (ap session_of s) (
          subst
            (λ (v : Packet). is_pubrec (entry_of (acknowledge_twice e q x).0 v.packet_id) ≡ true)
            one taken)
  ]
]
  where
    nothing : [] ≡ out ∷ [] → ⊥
    nothing h = ground arith

    same_one : (x : Packet) → x ∷ [] ≡ out ∷ [] → x ≡ out
    same_one x h = ap (λ (l : List Packet). elim l [ [] ↦ x | y ∷ ys ↦ y ]) h

    only : (x : Packet) → x ∷ [] ≡ out ∷ [] → (x.fixed_header.qos ≡ 0) ⊎ (e.inline ≡ true) → ⊥
    only x h light = ground (arith, ap (λ (v : Packet). v.fixed_header.qos) (same_one x h))

-- Once processPublish has routed a message of quality of service 2 of a client that is not inline, a
-- second publication under the packet id of that message, whatever it holds and whatever the hooks say
-- then, is routed to nobody as long as the entries of the client have not changed.
pub process_publish_once :
    (e e' : Publishing) (p : Publisher) (pk pk' out : Packet)
    → e.inline ≡ false
    → e'.inline ≡ false
    → out.fixed_header.qos ≡ 2
    → routed_of (process_publish e p pk).1 ≡ out ∷ []
    → pk'.packet_id ≡ out.packet_id
    → routed_of (process_publish e' (process_publish e p pk).0 pk').1 ≡ []
process_publish_once e e' p pk pk' out direct direct' two h id =
    elim (process_publish_routes e' (process_publish e p pk).0 pk') [
      | inl n ↦ n
      | inr (x, allowed, _, _, _) ↦ absurd (ground (arith, allowed.unused, taken))
    ]
  where
    taken : is_pubrec (entry_of (process_publish e p pk).0 pk'.packet_id) ≡ true
    taken = rw id (process_publish-pubrec e p pk out direct two h)
