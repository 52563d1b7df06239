-- ===== src/Sessions/PacketId.antt =====
-- clients.go: `nextPacketID`, the search for a free packet id.
use mqtt_server.Prelude.{
  ℕ, zero, suc, ◌+◌, ◌%◌, ◌^◌, ◌≤◌, ◌<◌, ◌≡◌, ◌⊎◌, inl, inr, refl, Bool, true, false, ◌&&◌, Option,
  none, some, leb, ◌==◌, ==_iff, arith, if◌then◌else◌, Bool-cases,
}
use mqtt_server.Prelude.Int.{ℤ}
use mqtt_server.Prelude.Maps.{lookup, insert, is_some, nat_eq}
use mqtt_server.Inflight.{
  Inflight, ReserveResult, reserve_ok, reserve_id_taken, reserve_full, try_reserve, is_full,
  placeholder,
}

-- The id, which is also the new counter, and the map with its reservation; or `ErrQuotaExceeded`.
pub data NextId : Type 0 where
  reserved_id : ℕ → Inflight → NextId
  quota_exceeded : NextId
  out_of_fuel : NextId

-- What the switch on `TryReserve` makes of its result; `next` is the next round.
after_reserve : ℕ → NextId → Inflight × ReserveResult → NextId
after_reserve i next (inflight, reserve_ok) = reserved_id i inflight
after_reserve i next (inflight, reserve_id_taken) = next
after_reserve i next (inflight, reserve_full) = quota_exceeded

-- The arguments that no round changes: the greatest packet id, the cap on the number of entries, the
-- time, and where the search started.
unfoldable pub next_id_loop : ℕ → ℕ → ℤ → ℤ → Inflight → ℕ → Bool → ℕ → NextId
unfolding after_reserve
next_id_loop zero maximum max now inflight started overflowed i = out_of_fuel
next_id_loop (suc fuel) maximum max now inflight started overflowed i =
    let again = next_id_loop fuel maximum max now inflight started true 0 in
    let next = next_id_loop fuel maximum max now inflight started overflowed (i + 1) in
    if overflowed && i == started
    then quota_exceeded
    else if leb maximum i
    then again
    else after_reserve (i + 1) next (try_reserve inflight ((i + 1) % 2 ^ 16) max now)

-- `packet_id` is the counter of the client: a search over all ids takes two rounds more than there are.
unfoldable pub next_packet_id : ℕ → ℤ → ℤ → Inflight → ℕ → NextId
unfolding next_id_loop
next_packet_id maximum max now inflight packet_id =
    next_id_loop (maximum + 2) maximum max now inflight packet_id false packet_id

not_some {ℓ} : {A : Type ℓ} (o : Option A) → is_some o ≡ false → o ≡ none
not_some none h = refl
not_some (some a) h = absurd (ground arith)

module _ (maximum : ℕ) (max now : ℤ) (inflight : Inflight) where
  -- The id was free, lies between one and the maximum, and now holds a placeholder; an error says that
  -- the map is full or every id is taken.
  abbrev pub IsNext : NextId → Type 0
  IsNext (reserved_id j after) =
      (1 ≤ j)
      × (j ≤ maximum)
      × (lookup j inflight.internal ≡ none)
      × (after ≡ record inflight { internal = insert j (placeholder j now) inflight.internal })
  IsNext quota_exceeded =
      (is_full inflight max ≡ true)
      ⊎ ((j : ℕ) → 1 ≤ j → j ≤ maximum → is_some (lookup j inflight.internal) ≡ true)
  IsNext out_of_fuel = ⊥

  abbrev IsTaken : ℕ → Type 0
  IsTaken j = is_some (lookup j inflight.internal) ≡ true

  abbrev Outcome : Type 0
  Outcome = Inflight × ReserveResult

  -- The three ways in which `TryReserve` ends.
  data Tried (i : ℕ) : Type 0 where
    full :
        is_full inflight max ≡ true
        → ◌≡◌ {A = Outcome} (try_reserve inflight i max now) (inflight, reserve_full)
        → Tried i
    taken :
        IsTaken i
        → ◌≡◌ {A = Outcome} (try_reserve inflight i max now) (inflight, reserve_id_taken)
        → Tried i
    free :
        lookup i inflight.internal ≡ none
        → ◌≡◌ {A = Outcome} (try_reserve inflight i max now) (
          record inflight { internal = insert i (placeholder i now) inflight.internal },
          reserve_ok,
        )
        → Tried i

  try_reserve-Tried : (i : ℕ) → Tried i
  try_reserve-Tried i = elim (Bool-cases (is_full inflight max)) [
    | inl f ↦ full f (unfold try_reserve in rw f refl)
    | inr room ↦ elim (Bool-cases (is_some (lookup i inflight.internal))) [
      | inl t ↦ taken t (unfold try_reserve in rw (room, t) refl)
      | inr t ↦
          free (not_some (lookup i inflight.internal) t) (unfold try_reserve in rw (room, t) refl)
    ]
  ]

  -- One reservation: it settles the search, or the id is taken.
  reserve-IsNext :
      (i : ℕ) (next : NextId)
      → 1 ≤ i
      → i ≤ maximum
      → maximum < 2 ^ 16
      → (IsTaken i → IsNext next)
      → IsNext (after_reserve i next (try_reserve inflight (i % 2 ^ 16) max now))
  unfolding after_reserve
  reserve-IsNext i next low high bound h =
      let id : i % 2 ^ 16 ≡ i = omega arith in
      rw id (elim (try_reserve-Tried i) [
        | full f e ↦ rw e (inl f)
        | taken t e ↦ rw e (h t)
        | free l e ↦ rw e (low, high, l, refl)
      ])

  -- The ids that the search has passed: behind the start, and, after the overflow, up to `i`.
  abbrev Passed : ℕ → ℕ → Type 0
  Passed started i = (j : ℕ) → 1 ≤ j → j ≤ maximum → (j ≤ i) ⊎ (started < j) → IsTaken j

  Passed-next : (started i : ℕ) → Passed started i → IsTaken (i + 1) → Passed started (i + 1)
  Passed-next started i p t j low high (inr h) = p j low high (inr h)
  Passed-next started i p t j low high (inl h) = elim (Bool-cases (j == i + 1)) [
    | inl e ↦ rw ((==_iff j (i + 1)).0 e) t
    | inr e ↦ p j low high (inl (ground arith))
  ]

  side : (started i j : ℕ) → i ≡ started → (j ≤ i) ⊎ (started < j)
  side started i j e = omega arith

  loop_second :
      (fuel i started : ℕ)
      → i ≤ started
      → started ≤ maximum
      → maximum < 2 ^ 16
      → started + 1 ≤ fuel + i
      → Passed started i
      → IsNext (next_id_loop fuel maximum max now inflight started true i)
  unfolding next_id_loop
  loop_second zero i started h k bound enough p = absurd (omega arith)
  loop_second (suc fuel) i started h k bound enough p = elim (Bool-cases (i == started)) [
    | inl e ↦ rw e (inr (λ j low high. p j low high (side started i j ((==_iff i started).0 e))))
    | inr e ↦
        let below : i < started = ground arith in
        let more : leb maximum i ≡ false = ground arith in
        rw (e, more)
          (reserve-IsNext (i + 1) _ (omega arith) (omega arith) bound (λ t.
            loop_second fuel (i + 1) started (omega arith) k bound (omega arith)
              (Passed-next started i p t)))
  ]

  behind : (started j : ℕ) → 1 ≤ j → (j ≤ 0) ⊎ (started < j) → started < j
  behind started j low w = omega arith

  extend :
      (started i : ℕ)
      → ((j : ℕ) → started < j → j ≤ i → IsTaken j)
      → IsTaken (i + 1)
      → (j : ℕ) → started < j
      → j ≤ i + 1
      → IsTaken j
  extend started i p t j low high = elim (Bool-cases (j == i + 1)) [
    | inl e ↦ rw ((==_iff j (i + 1)).0 e) t
    | inr e ↦ p j low (ground arith)
  ]

  loop_first :
      (fuel i started : ℕ)
      → started ≤ i
      → i ≤ maximum
      → maximum < 2 ^ 16
      → maximum + started + 2 ≤ fuel + i
      → ((j : ℕ) → started < j → j ≤ i → IsTaken j)
      → IsNext (next_id_loop fuel maximum max now inflight started false i)
  unfolding next_id_loop
  loop_first zero i started h k bound enough p = absurd (omega arith)
  loop_first (suc fuel) i started h k bound enough p = elim (Bool-cases (leb maximum i)) [
    | inl e ↦
        let last : i ≡ maximum = ground arith in
        rw e (
          loop_second fuel 0 started (omega arith) (omega arith) bound (omega arith)
            (λ j low high w. p j (behind started j low w) (omega arith)))
    | inr e ↦
        let below : i < maximum = ground arith in
        rw e (
          reserve-IsNext (i + 1) _ (omega arith) (omega arith) bound (λ t.
            loop_first fuel (i + 1) started (omega arith) (omega arith) bound (omega arith)
              (extend started i p t)))
  ]

  -- For a counter that is at most the maximum, which fits a uint16, the search ends: NextPacketID
  -- returns an id between one and the maximum that was free and now holds a placeholder, or it reports
  -- an exceeded quota, and then the map is full or every id up to the maximum is taken.
  pub next_packet_id-IsNext :
      (packet_id : ℕ)
      → packet_id ≤ maximum
      → maximum < 2 ^ 16
      → IsNext (next_packet_id maximum max now inflight packet_id)
  unfolding next_packet_id
  next_packet_id-IsNext packet_id h bound =
      loop_first (maximum + 2) packet_id packet_id (omega arith) h bound (omega arith)
        (λ j low high. absurd (omega arith))
