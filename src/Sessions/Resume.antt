-- ===== src/Sessions/Resume.antt =====
-- server.go: `resumeDeferredPublishes`, which sends deferred messages as the send quota allows.
pub mod Wake
use mqtt_server.Prelude.{
  ℕ, ◌==◌, zero, suc, ◌+◌, ◌≤◌, ◌<◌, ◌≡◌, ◌≢◌, ◌⊎◌, inl, inr, refl, ap, subst, ◌∙◌, Bool, true,
  false, not, List, [], ◌∷◌, arith, if◌then◌else◌, length, Bool-cases,
}
use mqtt_server.Prelude.Int.{ℤ, pos, ltb_ℤ, ◌≤ℤ◌, ◌-ℤ◌, pos_part}
use mqtt_server.Prelude.Maps.{insert, count, size, count-le-size, nat_eq}
use mqtt_server.Packets.Packet.{Packet}
use mqtt_server.Inflight.{
  Inflight, set, take_next_immediate, decrease_send_quota, increase_send_quota,
  reset_send_quota_if_empty, recover_starved_send_quota, expiry_deferred, is_deferred,
}
use mqtt_server.Inflight.Invariant.{
  IsValid, Step-IsValid, step_set, step_take, step_decrease_send, step_increase_send, step_recover,
  step_reset_empty,
}
use mqtt_server.Inflight.Deferred.{take_next_immediate_cases, released, take_next_immediate-count}

pub data End : Type 0 where
  done write_error out_of_fuel : End

-- `next.Expiry = InflightExpiryDeferred; Set(next)`
abbrev park : Packet → Inflight → Inflight
park next i = (set i (record next { expiry = expiry_deferred })).0

-- `writes` says whether `WritePacket` succeeds, `online` whether there is a connection and the client is
-- not closed. The result is the state, the messages that were written, and how the loop ended.
unfoldable pub resume_loop : ℕ → (Packet → Bool) → Bool → Inflight → Inflight × List Packet × End
resume_loop zero writes online i = (i, [], out_of_fuel)
resume_loop (suc fuel) writes online i =
    let (i1, next, ok) = take_next_immediate i in
    let (i2, decreased) = decrease_send_quota i1 in
    let rest = resume_loop fuel writes online i2 in
    if not (ltb_ℤ (pos 0) i.send_quota)
    then (i, [], done)
    else if not ok
    then (i1, [], done)
    else if not decreased
    then (park next i1, [], done)
    else if not online
    then ((increase_send_quota (park next i2)).0, [], done)
    else if not (writes next)
    then ((reset_send_quota_if_empty (increase_send_quota (park next i2)).0).0, [], write_error)
    else (rest.0, next ∷ rest.1, rest.2)

-- Without a write error the quota is reset if nothing is in flight.
after_loop : Inflight → End → Inflight
after_loop i done = (reset_send_quota_if_empty i).0
after_loop i write_error = i
after_loop i out_of_fuel = i

-- Each round takes a message, so one round more than there are deferred messages is enough.
unfoldable pub resume_deferred_publishes :
    (Packet → Bool) → Bool → Inflight → Inflight × List Packet × End
unfolding resume_loop after_loop
resume_deferred_publishes writes online i =
    let i1 = (recover_starved_send_quota i).0 in
    let (i2, sent, end) = resume_loop (suc (count is_deferred i1.internal)) writes online i1 in
    (after_loop i2 end, sent, end)

-- What a run of the loop leaves: valid quotas and entries, no more messages than the quota had units,
-- and if it ended without an error, no quota or no deferred message.
pub record Resumed (online : Bool) (quota : ℤ) (r : Inflight × List Packet × End) : Type 0 where
  pub valid : IsValid r.0
  pub bounded : length r.1 ≤ pos_part quota
  pub ended : r.2 ≢ out_of_fuel
  pub complete :
      r.2 ≡ done → online ≡ true → (r.0.send_quota ≤ℤ pos 0) ⊎ (count is_deferred r.0.internal ≡ 0)

pub decrease_send_quota_some :
    (i : Inflight)
    → ltb_ℤ (pos 0) i.send_quota ≡ true
    → ◌≡◌ {A = Inflight × Bool}
        (decrease_send_quota i)
        (record i { send_quota = i.send_quota -ℤ pos 1 }, true)
unfolding decrease_send_quota
decrease_send_quota_some i h = ground arith

minus_one : (q : ℤ) → ltb_ℤ (pos 0) q ≡ true → pos_part (q -ℤ pos 1) + 1 ≡ pos_part q
unfolding ◌-ℤ◌
minus_one q h = ground arith

-- The round after a message was taken.
abbrev taken_round_of :
    ℕ → (Packet → Bool) → Bool → Inflight → Packet → Inflight × List Packet × End
taken_round_of fuel writes online i1 next =
    let (i2, decreased) = decrease_send_quota i1 in
    let rest = resume_loop fuel writes online i2 in
    if not decreased
    then (park next i1, [], done)
    else if not online
    then ((increase_send_quota (park next i2)).0, [], done)
    else if not (writes next)
    then ((reset_send_quota_if_empty (increase_send_quota (park next i2)).0).0, [], write_error)
    else (rest.0, next ∷ rest.1, rest.2)

taken_round :
    (fuel : ℕ) (writes : Packet → Bool) (online : Bool) (i1 : Inflight) (next : Packet)
    → IsValid i1
    → ltb_ℤ (pos 0) i1.send_quota ≡ true
    → ((j : Inflight)
        → IsValid j
        → count is_deferred j.internal ≡ count is_deferred i1.internal
        → Resumed online j.send_quota (resume_loop fuel writes online j))
    → Resumed online i1.send_quota (taken_round_of fuel writes online i1 next)
taken_round fuel writes online i1 next v1 some_left ih =
    let i2 : Inflight = record i1 { send_quota = i1.send_quota -ℤ pos 1 } in
    let dec = decrease_send_quota_some i1 some_left in
    let v2 : IsValid i2 =
      subst (λ (t : Inflight × Bool). IsValid t.0) dec (Step-IsValid (step_decrease_send i1) v1) in
    let parked : IsValid (increase_send_quota (park next i2)).0 =
      Step-IsValid (step_increase_send (park next i2))
        (Step-IsValid (step_set i2 (record next { expiry = expiry_deferred })) v2) in
    rw dec (elim (Bool-cases online) [
      | inr off ↦
          rw off (record {
            valid = parked;
            bounded = omega arith;
            ended = λ e. cc;
            complete = λ e o. cc;
          })
      | inl on ↦ rw on (elim (Bool-cases (writes next)) [
        | inr fails ↦ rw fails (record {
          valid = Step-IsValid (step_reset_empty (increase_send_quota (park next i2)).0) parked;
          bounded = omega arith;
          ended = λ e. cc;
          complete = λ e o. cc;
        })
        | inl goes ↦
            let r =
              subst (λ (b : Bool). Resumed b i2.send_quota (resume_loop fuel writes b i2)) on
                (ih i2 v2 refl) in
            let one = minus_one i1.send_quota some_left in
            rw goes (record {
              valid = r.valid;
              bounded = omega (arith, r.bounded);
              ended = r.ended;
              complete = r.complete;
            })
      ])
    ])

resume_loop-Resumed :
    (fuel : ℕ) (writes : Packet → Bool) (online : Bool) (i : Inflight)
    → IsValid i
    → count is_deferred i.internal < fuel
    → Resumed online i.send_quota (resume_loop fuel writes online i)
unfolding resume_loop
resume_loop-Resumed zero writes online i v h = absurd (omega arith)
resume_loop-Resumed (suc fuel) writes online i v h =
    elim (Bool-cases (ltb_ℤ (pos 0) i.send_quota)) [
      | inr none_left ↦ rw none_left (record {
        valid = v;
        bounded = omega arith;
        ended = λ e. cc;
        complete = λ e o. inl (ground arith);
      })
      | inl some_left ↦ elim (take_next_immediate_cases i v.unique) [
        | inl (zero_left, e) ↦
            rw (some_left, e)
              (record {
                valid = v;
                bounded = omega arith;
                ended = λ e. cc;
                complete = λ e o. inr zero_left;
              })
        | inr (id, p, (l, d, least, e)) ↦
            let i1 : Inflight = record i { internal = insert id (released p) i.internal } in
            let v1 : IsValid i1 =
              subst (λ (t : Inflight × Packet × Bool). IsValid t.0) e
                (Step-IsValid (step_take i) v) in
            let left : count is_deferred i1.internal + 1 ≡ count is_deferred i.internal =
              subst
                (λ (t : Inflight × Packet × Bool).
                  count is_deferred t.0.internal + 1 ≡ count is_deferred i.internal)
                e
                (take_next_immediate-count i v.unique
                  (ap (λ (t : Inflight × Packet × Bool). t.2) e)) in
            rw (some_left, e)
              (taken_round fuel writes online i1 (released p) v1 some_left
                (λ j w n. resume_loop-Resumed fuel writes online j w (omega arith)))
      ]
    ]

reset_entries : (i : Inflight) → (reset_send_quota_if_empty i).0.internal ≡ i.internal
unfolding reset_send_quota_if_empty
reset_entries i = ground arith

reset_occupied :
    (i : Inflight)
    → (size i.internal == 0) ≡ false
    → ◌≡◌ {A = Inflight × Bool} (reset_send_quota_if_empty i) (i, false)
unfolding reset_send_quota_if_empty
reset_occupied i h = rw h refl

none_deferred : (i : Inflight) → (size i.internal == 0) ≡ true → count is_deferred i.internal ≡ 0
none_deferred i h = ground (arith, count-le-size is_deferred i.internal)

-- After the loop the quota is raised only where nothing is in flight.
after_loop_complete :
    (i : Inflight) (end : End)
    → (i.send_quota ≤ℤ pos 0) ⊎ (count is_deferred i.internal ≡ 0)
    → ((after_loop i end).send_quota ≤ℤ pos 0) ⊎ (count is_deferred (after_loop i end).internal ≡ 0)
unfolding after_loop
after_loop_complete i write_error h = h
after_loop_complete i out_of_fuel h = h
after_loop_complete i done h = elim (Bool-cases (size i.internal == 0)) [
  | inl e ↦ inr (ap (λ m. count is_deferred m) (reset_entries i) ∙ none_deferred i e)
  | inr e ↦ rw (after_loop, reset_occupied i e) h
]

after_loop-IsValid : (i : Inflight) (end : End) → IsValid i → IsValid (after_loop i end)
unfolding after_loop
after_loop-IsValid i done v = Step-IsValid (step_reset_empty i) v
after_loop-IsValid i write_error v = v
after_loop-IsValid i out_of_fuel v = v

-- On a valid state resumeDeferredPublishes returns, and leaves a valid state; it writes at most as many
-- messages as the send quota has units after its recovery; and unless a write failed or the client was
-- offline, no quota or no deferred message is left.
pub resume_deferred_publishes-Resumed :
    (writes : Packet → Bool) (online : Bool) (i : Inflight)
    → IsValid i
    → Resumed online
        (recover_starved_send_quota i).0.send_quota
        (resume_deferred_publishes writes online i)
unfolding resume_deferred_publishes
resume_deferred_publishes-Resumed writes online i v =
    let i1 = (recover_starved_send_quota i).0 in
    let r =
      resume_loop-Resumed (suc (count is_deferred i1.internal)) writes online i1
        (Step-IsValid (step_recover i) v) (omega arith) in
    record {
      valid = after_loop-IsValid _ _ r.valid;
      bounded = r.bounded;
      ended = r.ended;
      complete = λ e o. after_loop_complete _ _ (r.complete e o);
    }
