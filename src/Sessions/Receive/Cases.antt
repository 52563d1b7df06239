-- ===== src/Sessions/Receive/Cases.antt =====
-- server.go: the ways through `processPublish`.
use mqtt_server.Prelude.{
  ◌≡◌, ◌≢◌, ◌⊎◌, inl, inr, refl, Bool, true, false, not, ◌&&◌, List, [], ◌∷◌, ◌++◌, arith, ltb,
  ◌==◌, ==_iff, ◌||◌, ap, ◌∙◌, if◌then◌else◌, Bool-cases,
}
use mqtt_server.Prelude.Int.{pos, eq_ℤ, eq_ℤ_iff}
use mqtt_server.Packets.Codes.{Code}
use mqtt_server.Packets.Packet.{Packet}
use mqtt_server.Topics.Filter.{is_valid_filter}
use mqtt_server.Sessions.Acks.{Session}
use mqtt_server.Sessions.Receive.{
  Publisher, Publishing, PublishEvent, answered, qos_stored, qos_done, routed, published, retained,
  stopped, Received, Verdict, accepted, rejected, ignored, failed, refused, answer,
  disconnect_client, retain_for, stamp, resolve, is_pubrec, entry_of, acknowledge_once,
  acknowledge_twice, pass_on, judge, refuse_publish, process_publish,
}

-- The messages that go to `publishToSubscribers`.
abbrev pub routed_of : List PublishEvent → List Packet
routed_of [] = []
routed_of (routed pk ∷ es) = pk ∷ routed_of es
routed_of (answered pk ∷ es) = routed_of es
routed_of (qos_stored pk ∷ es) = routed_of es
routed_of (qos_done pk ∷ es) = routed_of es
routed_of (published pk ∷ es) = routed_of es
routed_of (retained pk r ∷ es) = routed_of es
routed_of (stopped code ∷ es) = routed_of es

-- Nothing is routed, and the session is as it was.
pub record IsRefused (p : Publisher) (r : Received) : Type 0 where
  pub session : r.0.session ≡ p.session
  pub silent : routed_of r.1 ≡ []

-- What a message needs to get to the hook.
pub record IsAdmitted (e : Publishing) (p : Publisher) (pk : Packet) : Type 0 where
  pub quota : p.session.inflight.receive_quota ≢ pos 0
  pub topic : (e.inline ≡ true) ⊎ (is_valid_filter pk.topic_name true ≡ true)
  pub allowed : (e.inline ≡ true) ⊎ (e.may_write pk.topic_name ≡ true)
  pub unused : (e.inline ≡ true) ⊎ (is_pubrec (entry_of p pk.packet_id) ≡ false)

answer-IsRefused :
    (e : Publishing) (p q : Publisher) (ack : Packet)
    → q.session ≡ p.session
    → IsRefused p (answer e q ack)
answer-IsRefused e p q ack h = record { session = h; silent = silent (e.server.writes ack) }
  where
    silent : (b : Bool) → routed_of (if b then answered ack ∷ [] else []) ≡ []
    silent true = refl
    silent false = refl

disconnect_client-IsRefused :
    (e : Publishing) (p : Publisher) (code : Code) → IsRefused p (disconnect_client e p code)
unfolding disconnect_client
disconnect_client-IsRefused e p code = record { session = ground arith; silent = ground arith }

-- The session, the messages that are routed, and whether there is no error.
abbrev pub summary : Received → Session × List Packet × Bool
summary r = (r.0.session, routed_of r.1, r.2)

-- A message as the hook returns it or leaves it.
abbrev pub IsBehind : Publishing → Publisher → Packet → Packet → Type 0
IsBehind e p pk out =
    let x = (resolve e p (stamp e pk)).1 in
    (e.on_publish x ≡ accepted out) ⊎ (out ≡ x) ⊎ (out ≡ record x { ignore = true })

pub data Outcome (e : Publishing) (p : Publisher) (pk : Packet) (r : Received) : Type 0 where
  refusal : IsRefused p r → Outcome e p pk r
  plain :
      (out : Packet)
      → IsAdmitted e p pk
      → IsBehind e p pk out
      → (out.fixed_header.qos ≡ 0) ⊎ (e.inline ≡ true)
      → ◌≡◌ {A = Session × List Packet × Bool} (summary r) (p.session, out ∷ [], true)
      → Outcome e p pk r
  once :
      (q : Publisher) (out : Packet)
      → IsAdmitted e p pk
      → IsBehind e p pk out
      → e.inline ≡ false
      → q.session ≡ p.session
      → out.fixed_header.qos ≢ 2
      → summary r ≡ summary (acknowledge_once e q out)
      → Outcome e p pk r
  twice :
      (q : Publisher) (out : Packet)
      → IsAdmitted e p pk
      → IsBehind e p pk out
      → e.inline ≡ false
      → q.session ≡ p.session
      → out.fixed_header.qos ≡ 2
      → summary r ≡ summary (acknowledge_twice e q out)
      → Outcome e p pk r

routed_of-append :
    (es fs : List PublishEvent) → routed_of es ≡ [] → routed_of (es ++ fs) ≡ routed_of fs
routed_of-append [] fs h = refl
routed_of-append (answered pk ∷ es) fs h = routed_of-append es fs h
routed_of-append (qos_stored pk ∷ es) fs h = routed_of-append es fs h
routed_of-append (qos_done pk ∷ es) fs h = routed_of-append es fs h
routed_of-append (routed pk ∷ es) fs h = absurd (ground arith)
routed_of-append (published pk ∷ es) fs h = routed_of-append es fs h
routed_of-append (retained pk r ∷ es) fs h = routed_of-append es fs h
routed_of-append (stopped code ∷ es) fs h = routed_of-append es fs h

-- Retaining a message routes nothing.
retain_step :
    (e : Publishing) (p : Publisher) (pk : Packet)
    → (let r = if pk.fixed_header.retain then retain_for e p pk else (p, []) in
        (r.0.session ≡ p.session) × (routed_of r.1 ≡ []))
unfolding retain_for
retain_step e p pk = (ground arith, ground arith)

module _ (e : Publishing) (p : Publisher) (pk : Packet) (allowed : IsAdmitted e p pk) where
  pass_on-Outcome :
      (q : Publisher) (out : Packet)
      → q.session ≡ p.session
      → IsBehind e p pk out
      → Outcome e p pk (pass_on e q out)
  unfolding pass_on
  pass_on-Outcome q out same behind = elim (Bool-cases ((out.fixed_header.qos == 0) || e.inline)) [
    | inl direct ↦ plain out allowed behind (ground (arith, ==_iff out.fixed_header.qos 0)) (
        rw direct (
          behind_hook (step.0, routed out ∷ published out ∷ [], true)
          ∙ ap (λ (s : Session). (s, out ∷ [], true)) (kept.0 ∙ same)))
    | inr counted ↦ elim (Bool-cases (out.fixed_header.qos == 2)) [
      | inl two ↦
          twice step.0 out allowed behind (ground arith) (kept.0 ∙ same)
            ((==_iff out.fixed_header.qos 2).0 two)
            (rw (counted, two) (behind_hook (acknowledge_twice e step.0 out)))
      | inr one ↦
          once step.0 out allowed behind (ground arith) (kept.0 ∙ same)
            (ground (arith, ==_iff out.fixed_header.qos 2))
            (rw (counted, one) (behind_hook (acknowledge_once e step.0 out)))
    ]
  ]
    where
      step : Publisher × List PublishEvent
      step = if out.fixed_header.retain then retain_for e q out else (q, [])

      kept : (step.0.session ≡ q.session) × (routed_of step.1 ≡ [])
      kept = retain_step e q out

      behind_hook :
          (r : Received)
          → ◌≡◌ {A = Session × List Packet × Bool}
              (r.0.session, routed_of (step.1 ++ r.1), r.2)
              (summary r)
      behind_hook r =
          ap (λ (ps : List Packet). (r.0.session, ps, r.2)) (routed_of-append step.1 r.1 kept.1)

  judge-Outcome :
      (q : Publisher) (v : Verdict)
      → q.session ≡ p.session
      → e.on_publish (resolve e p (stamp e pk)).1 ≡ v
      → Outcome e p pk (judge e q (resolve e p (stamp e pk)).1 v)
  unfolding judge
  judge-Outcome q (accepted out) same h = pass_on-Outcome q out same (inl h)
  judge-Outcome q rejected same h = refusal (record { session = same; silent = refl })
  judge-Outcome q ignored same h = pass_on-Outcome q _ same (inr (inr refl))
  judge-Outcome q failed same h = pass_on-Outcome q _ same (inr (inl refl))
  judge-Outcome q (refused code) same h =
      elim (Bool-cases
        ((e.protocol_version == 5) && ltb 0 ((resolve e p (stamp e pk)).1.fixed_header.qos))) [
          | inl told ↦ rw told (refusal (answer-IsRefused e p q _ same))
          | inr untold ↦ rw untold (pass_on-Outcome q _ same (inr (inl refl)))
        ]

resolve_session :
    (e : Publishing) (p : Publisher) (pk : Packet) → (resolve e p pk).0.session ≡ p.session
unfolding resolve
resolve_session e p pk = ground arith

refuse_publish-IsRefused :
    (e : Publishing) (p : Publisher) (pk : Packet) → IsRefused p (refuse_publish e p pk)
unfolding refuse_publish
refuse_publish-IsRefused e p pk = elim (Bool-cases (pk.fixed_header.qos == 0)) [
  | inl zero_qos ↦ rw zero_qos (record { session = refl; silent = refl })
  | inr counted ↦ elim (Bool-cases (e.protocol_version == 5)) [
    | inl five ↦ rw (counted, five) (answer-IsRefused e p p _ refl)
    | inr old ↦ rw (counted, old) (disconnect_client-IsRefused e p _)
  ]
]

pub process_publish-Outcome :
    (e : Publishing) (p : Publisher) (pk : Packet) → Outcome e p pk (process_publish e p pk)
unfolding process_publish
process_publish-Outcome e p pk =
    elim (Bool-cases (not e.inline && not (is_valid_filter pk.topic_name true))) [
      | inl bad ↦ rw bad (refusal (record { session = refl; silent = refl }))
      | inr good ↦ elim (Bool-cases (eq_ℤ (p.session.inflight.receive_quota) (pos 0))) [
        | inl none_left ↦ rw (good, none_left) (refusal (disconnect_client-IsRefused e p _))
        | inr some_left ↦ elim (Bool-cases (not e.inline && not (e.may_write pk.topic_name))) [
          | inl barred ↦ rw (good, some_left, barred) (refusal (refuse_publish-IsRefused e p pk))
          | inr free ↦ elim (Bool-cases (not e.inline && is_pubrec (entry_of p pk.packet_id))) [
            | inl again ↦
                rw (good, some_left, free, again) (refusal (answer-IsRefused e p p _ refl))
            | inr first ↦
                rw (good, some_left, free, first)
                  (judge-Outcome e p pk
                    (record {
                      quota = λ h.
                          absurd (
                            ground
                              (arith, (eq_ℤ_iff p.session.inflight.receive_quota (pos 0)).1 h));
                      topic = ground arith;
                      allowed = ground arith;
                      unused = ground arith;
                    })
                    (resolve e p (stamp e pk)).0 _ (resolve_session e p (stamp e pk)) refl)
          ]
        ]
      ]
    ]
