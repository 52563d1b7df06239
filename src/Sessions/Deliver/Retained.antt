-- ===== src/Sessions/Deliver/Retained.antt =====
-- server.go: `publishRetainedToClient`, the run of retained messages for a new subscription.
use mqtt_server.Prelude.{
  ℕ, ◌^◌, ◌≤◌, ◌<◌, ◌≡◌, ◌⊎◌, false, inl, inr, refl, subst, ◌∙◌, Bool, true, ◌&&◌, ◌||◌, some, List,
  [], ◌∷◌, arith, ◌==◌, if◌then◌else◌, Bool-cases, All,
}
use mqtt_server.Prelude.Int.{pos, ◌+ℤ◌, ltb_ℤ, eq_ℤ}
use mqtt_server.Prelude.Maps.{is_some}
use mqtt_server.Topics.Filter.{is_shared_filter}
use mqtt_server.Packets.Packet.{Packet, Subscription}
use mqtt_server.Inflight.{replace_counted, decrease_send_quota}
use mqtt_server.Sessions.Outgoing.{Recipient, Setting, DeliveryEvent, Delivery}
use mqtt_server.Sessions.Deliver.Cases.{publish_to_client_cases, counted_cases}
use mqtt_server.Sessions.Deliver.{
  take_back, hand_over, store, collision, park_message, send_v5, send_v3, publish_to_client,
}
use mqtt_server.Sessions.Deliver.Stored.{IsKept}
use mqtt_server.Sessions.Deliver.Refused.{publish_to_client-IsKept}

-- The loop of `publishRetainedToClient`: each message with the setting that it finds, and the messages
-- whose hook is called.
unfoldable pub publish_each :
    Subscription → List (Setting × Packet) → Recipient → Recipient × List Packet
publish_each sub [] r = (r, [])
publish_each sub ((s, pk) ∷ messages) r =
    let d = publish_to_client s r sub pk in
    let (r', published) = publish_each sub messages d.after in
    (r', if is_some d.error then published else pk ∷ published)

-- `messages` is what the index finds for the filter.
unfoldable pub publish_retained_to_client :
    Subscription → Bool → List (Setting × Packet) → Recipient → Recipient × List Packet
publish_retained_to_client sub existed messages r =
    if is_shared_filter sub.filter
    then (r, [])
    else if ((sub.retain_handling == 1) && existed) || (sub.retain_handling == 2)
    then (r, [])
    else publish_each (record sub { fwd_retained_flag = true }) messages r

take_back-packet_id : (r : Recipient) (m : Packet) → (take_back r m).packet_id ≡ r.packet_id
unfolding take_back
take_back-packet_id r m = ground arith

counter : Delivery → ℕ
counter d = d.after.packet_id

hand_over-packet_id :
    (s : Setting) (r : Recipient) (events : List DeliveryEvent) (pk m : Packet)
    → counter (hand_over s r events pk m) ≡ r.packet_id
unfolding hand_over counter
hand_over-packet_id s r events pk m = ground (
  arith,
  take_back-packet_id r m,
  take_back-packet_id (record r { messages_dropped = r.messages_dropped +ℤ pos 1 }) m,
)

store-packet_id :
    (r : Recipient) (m : Packet) (next : Recipient → Delivery) (otherwise : Delivery) (n : ℕ)
    → r.packet_id ≡ n
    → ((q : Recipient) → q.packet_id ≡ n → counter (next q) ≡ n)
    → counter otherwise ≡ n
    → counter (store r m next otherwise) ≡ n
unfolding store counter
store-packet_id r m next otherwise n same e w =
    elim (Bool-cases (replace_counted r.inflight m (some r.info_inflight)).2) [
      | inl stored ↦ rw stored (e _ same)
      | inr refused ↦ rw refused w
    ]

send_v5-packet_id :
    (s : Setting) (r : Recipient) (pk m : Packet) → counter (send_v5 s r pk m) ≡ r.packet_id
unfolding send_v5 park_message collision counter
send_v5-packet_id s r pk m = elim (Bool-cases limited) [
  | inl some_cap ↦ elim (Bool-cases (decrease_send_quota r.inflight).1) [
    | inl took ↦
        rw (some_cap, took)
          (store-packet_id _ m _ _ _ refl (λ q e. hand_over-packet_id s q _ pk m ∙ e) refl)
    | inr short ↦ rw (some_cap, short) (store-packet_id r _ _ _ _ refl (λ q e. e) refl)
  ]
  | inr no_cap ↦
      rw no_cap (store-packet_id _ m _ _ _ refl (λ q e. hand_over-packet_id s q _ pk m ∙ e) refl)
]
  where
    limited : Bool
    limited = ltb_ℤ (pos 0) (r.inflight.maximum_send_quota)

send_v3-packet_id :
    (s : Setting) (r : Recipient) (pk m : Packet) → counter (send_v3 s r pk m) ≡ r.packet_id
unfolding send_v3 collision counter
send_v3-packet_id s r pk m =
    elim (Bool-cases
      (eq_ℤ r.inflight.send_quota (pos 0) && ltb_ℤ (pos 0) r.inflight.maximum_send_quota)) [
        | inl empty ↦
            rw empty
              (store-packet_id _ m _ _ _ refl (λ q e. hand_over-packet_id s _ _ pk m ∙ e) refl)
        | inr left ↦
            rw left
              (store-packet_id _ m _ _ _ refl (λ q e. hand_over-packet_id s _ _ pk m ∙ e) refl)
      ]

publish_to_client-packet_id :
    (s : Setting) (r : Recipient) (sub : Subscription) (pk : Packet)
    → s.maximum_packet_id < 2 ^ 16
    → r.packet_id ≤ s.maximum_packet_id
    → counter (publish_to_client s r sub pk) ≤ s.maximum_packet_id
unfolding counter
publish_to_client-packet_id s r sub pk bound h =
    let Q = λ (d : Delivery). d.after.packet_id ≤ s.maximum_packet_id in
    publish_to_client_cases s Q r sub pk (λ _. h) (λ _. h)
      (λ _.
        counted_cases s Q r sub pk _ bound h h (λ id i n. rw (send_v3-packet_id s _ pk _) (n.1))
          (λ id i n. rw (send_v5-packet_id s _ pk _) (n.1)))
      (λ _. rw (hand_over-packet_id s _ [] pk _) h)

-- Every message meets the same greatest packet id, which fits a uint16.
pub record HasBounds (greatest : ℕ) (s : Setting) : Type 0 where
  pub same : s.maximum_packet_id ≡ greatest
  pub fits : greatest < 2 ^ 16

-- A subscription that gets no retained messages: a shared one, or by its retain handling.
abbrev pub IsWithheld : Subscription → Bool → Type 0
IsWithheld sub existed =
    (is_shared_filter sub.filter ≡ true)
    ⊎ ((sub.retain_handling ≡ 2) ⊎ ((sub.retain_handling ≡ 1) × (existed ≡ true)))

unchanged : (r : Recipient) → IsKept r r
unchanged r = record { entries = λ j. refl; counted = refl }

each-IsKept :
    (greatest : ℕ) (sub : Subscription) (messages : List (Setting × Packet)) (r : Recipient)
    → All (λ (m : Setting × Packet). HasBounds greatest m.0) messages
    → r.packet_id ≤ greatest
    → (publish_each sub messages r).1 ≡ []
    → IsKept r (publish_each sub messages r).0
unfolding publish_each
each-IsKept greatest sub [] r b h none_published = unchanged r
each-IsKept greatest sub ((s, pk) ∷ messages) r (b, bs) h none_published =
    elim (Bool-cases (is_some (publish_to_client s r sub pk).error)) [
      | inr ok ↦ absurd (ground (arith, rw (publish_each, ok) at none_published))
      | inl failed ↦
          let one = publish_to_client-IsKept s (rw b.same b.fits) r sub pk (rw b.same h) failed in
          let rest =
            each-IsKept greatest sub messages _ bs counted
              (rw (publish_each, failed) at none_published) in
          record {
            entries = λ j. rest.entries j ∙ one.entries j;
            counted = rest.counted ∙ one.counted;
          }
    ]
  where
    counted : (publish_to_client s r sub pk).after.packet_id ≤ greatest
    counted =
        unfold counter in
        subst (λ n. (publish_to_client s r sub pk).after.packet_id ≤ n) b.same
          (publish_to_client-packet_id s r sub pk (rw b.same b.fits) (rw b.same h))

-- publishRetainedToClient calls the hook for no message where the subscription is shared, has retain
-- handling 2, or has retain handling 1 and existed before. There, and wherever all messages of the run
-- fail, every packet id of the client holds what it held before, and the server counts as many messages
-- in flight. All messages meet one greatest packet id, which fits a uint16, and the counter of the client
-- is a packet id or 0.
pub publish_retained_to_client-IsKept :
    (greatest : ℕ) (sub : Subscription) (existed : Bool) (messages : List (Setting × Packet))
    (r : Recipient)
    → All (λ (m : Setting × Packet). HasBounds greatest m.0) messages
    → r.packet_id ≤ greatest
    → IsWithheld sub existed ⊎ ((publish_retained_to_client sub existed messages r).1 ≡ [])
    → ((publish_retained_to_client sub existed messages r).1 ≡ [])
      × IsKept r (publish_retained_to_client sub existed messages r).0
unfolding publish_retained_to_client
publish_retained_to_client-IsKept greatest sub existed messages r b h (inl (inl shared)) =
    rw shared (refl, unchanged r)
publish_retained_to_client-IsKept greatest sub existed messages r b h (inl (inr handling)) =
    elim (Bool-cases (is_shared_filter sub.filter)) [
      | inl shared ↦ rw shared (refl, unchanged r)
      | inr own ↦ rw (own, skips handling) (refl, unchanged r)
    ]
  where
    skips :
        ((sub.retain_handling ≡ 2) ⊎ ((sub.retain_handling ≡ 1) × (existed ≡ true)))
        → ((sub.retain_handling == 1) && existed) || (sub.retain_handling == 2) ≡ true
    skips w = ground (arith, w)
publish_retained_to_client-IsKept greatest sub existed messages r b h (inr none_published) =
    (none_published, kept _ refl _ refl)
  where
    withheld : Bool
    withheld = ((sub.retain_handling == 1) && existed) || (sub.retain_handling == 2)

    kept :
        (x : Bool)
        → is_shared_filter sub.filter ≡ x
        → (y : Bool) → withheld ≡ y
        → IsKept r (publish_retained_to_client sub existed messages r).0
    kept true e y g = rw e (unchanged r)
    kept false e true g = rw (e, g) (unchanged r)
    kept false e false g =
        rw (e, g)
          (each-IsKept greatest _ messages r b h
            (rw (publish_retained_to_client, e, g) at none_published))
