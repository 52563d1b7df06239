-- ===== src/Inflight/Deferred.antt =====
-- inflight.go: `TakeNextImmediate` and the deferred messages.
use mqtt_server.Prelude.{
  ℕ, ◌+◌, ◌≤◌, ◌≡◌, refl, ap, ◌⊎◌, inl, inr, Bool, true, false, not, Option, none, some, [], ◌∷◌,
  arith, ltb, if◌then◌else◌, Option-cases,
}
use mqtt_server.Prelude.Int.{pos}
use mqtt_server.Prelude.Maps.{Map, lookup, insert, count, held, nat_eq, IsMap, count-insert}
use mqtt_server.Packets.Packet.{Packet, no_packet}
use mqtt_server.Inflight.{Inflight, take_next_immediate, select_deferred, is_deferred, created_key}

-- What the loop returns: an entry of the map or the best so far, deferred and with the least key.
abbrev IsEntry : Map ℕ Packet → Option (ℕ × Packet) → ℕ → Packet → Type 0
IsEntry m best id v = (lookup id m ≡ some v) ⊎ (best ≡ some (id, v))

-- No deferred entry of the map has a smaller key.
abbrev pub Least : Map ℕ Packet → ℕ → Type 0
Least [] n = Unit
Least ((k, v) ∷ m) n = ((is_deferred v ≡ false) ⊎ (n ≤ created_key v)) × Least m n

abbrev LeastBest : Option (ℕ × Packet) → ℕ → Type 0
LeastBest none n = Unit
LeastBest (some (j, w)) n = n ≤ created_key w

abbrev DeferredBest : Option (ℕ × Packet) → Type 0
DeferredBest none = Unit
DeferredBest (some (j, w)) = is_deferred w ≡ true

-- One round of the loop.
abbrev better : ℕ → Packet → Option (ℕ × Packet) → Option (ℕ × Packet)
better id v best = if not (is_deferred v) then best else elim best [
  | none ↦ some (id, v)
  | some (j, w) ↦ if ltb (created_key v) (created_key w) then some (id, v) else some (j, w)
]

better-DeferredBest :
    (k : ℕ) (w : Packet) (best : Option (ℕ × Packet))
    → DeferredBest best
    → DeferredBest (better k w best)
better-DeferredBest k w none d = ground arith
better-DeferredBest k w (some (j, u)) d = ground arith

better-LeastBest :
    (k : ℕ) (w : Packet) (best : Option (ℕ × Packet)) (n : ℕ)
    → LeastBest (better k w best) n
    → ((is_deferred w ≡ false) ⊎ (n ≤ created_key w)) × LeastBest best n
better-LeastBest k w none n h = ground arith
better-LeastBest k w (some (j, u)) n h = ground arith

some-pair :
    (j id : ℕ) (w v : Packet)
    → ◌≡◌ {A = Option (ℕ × Packet)} (some (j, w)) (some (id, v))
    → (j ≡ id) × (w ≡ v)
some-pair j id w v h = (cc, cc)

select_deferred-Least :
    (m : Map ℕ Packet) (best : Option (ℕ × Packet)) (id : ℕ) (v : Packet)
    → DeferredBest best
    → select_deferred m best ≡ some (id, v)
    → (is_deferred v ≡ true) × Least m (created_key v) × LeastBest best (created_key v)
unfolding select_deferred
select_deferred-Least [] none id v d h = cc
select_deferred-Least [] (some (j, w)) id v d h =
    let e : w ≡ v = (some-pair j id w v h).1 in rw (← e) (d, tt, omega arith)
select_deferred-Least ((k, w) ∷ m) best id v d h =
    let (def, least, lb) =
      select_deferred-Least m (better k w best) id v (better-DeferredBest k w best d) h in
    let (here, before) = better-LeastBest k w best (created_key v) lb in
    (def, (here, least), before)

better-IsEntry :
    (k : ℕ) (w : Packet) (m : Map ℕ Packet) (best : Option (ℕ × Packet)) (id : ℕ) (v : Packet)
    → lookup k m ≡ none
    → IsEntry m (better k w best) id v
    → IsEntry ((k, w) ∷ m) best id v
unfolding lookup
better-IsEntry k w m none id v fresh h = ground arith
better-IsEntry k w m (some (j, u)) id v fresh h = ground arith

select_deferred-IsEntry :
    (m : Map ℕ Packet) (best : Option (ℕ × Packet)) (id : ℕ) (v : Packet)
    → IsMap m
    → select_deferred m best ≡ some (id, v)
    → IsEntry m best id v
unfolding select_deferred
select_deferred-IsEntry [] best id v u h = inr h
select_deferred-IsEntry ((k, w) ∷ m) best id v u h =
    better-IsEntry k w m best id v u.0 (select_deferred-IsEntry m (better k w best) id v u.1 h)

better-none :
    (k : ℕ) (w : Packet) (best : Option (ℕ × Packet))
    → better k w best ≡ none
    → (best ≡ none) × (is_deferred w ≡ false)
better-none k w none h = (refl, ground arith)
better-none k w (some (j, u)) h = ground arith

select_deferred-none :
    (m : Map ℕ Packet) (best : Option (ℕ × Packet))
    → select_deferred m best ≡ none
    → (best ≡ none) × (count is_deferred m ≡ 0)
unfolding select_deferred count
select_deferred-none [] best h = (h, refl)
select_deferred-none ((k, w) ∷ m) best h =
    let (b, c) = select_deferred-none m (better k w best) h in
    let (bn, d) = better-none k w best b in (bn, ground arith)

abbrev pub released : Packet → Packet
released v = record v { expiry = pos 0 }

module _ (i : Inflight) where
  -- What `TakeNextImmediate` does where an entry waits: the entry, its id and the new state.
  abbrev pub Taken : ℕ → Packet → Type 0
  Taken id v =
      (lookup id i.internal ≡ some v)
      × (is_deferred v ≡ true)
      × Least i.internal (created_key v)
      × ◌≡◌ {A = Inflight × Packet × Bool} (take_next_immediate i)
          (record i { internal = insert id (released v) i.internal }, released v, true)

  abbrev pub Idle : Type 0
  Idle =
      (count is_deferred i.internal ≡ 0)
      × ◌≡◌ {A = Inflight × Packet × Bool} (take_next_immediate i) (i, no_packet, false)

  -- `TakeNextImmediate`, over a map with distinct keys: if no entry is deferred, it changes nothing
  -- and says so; otherwise it takes a deferred entry that has the least key of all deferred ones,
  -- clears its mark in place, and changes no other entry and no quota.
  pub take_next_immediate_cases : IsMap i.internal → Idle ⊎ ((id : ℕ) × (v : Packet) × Taken id v)
  unfolding take_next_immediate
  take_next_immediate_cases u = elim (Option-cases (select_deferred i.internal none)) [
    | inl e ↦ inl ((select_deferred-none i.internal none e).1, rw (e, take_next_immediate))
    | inr ((id, v), e) ↦
        let (d, least, _) = select_deferred-Least i.internal none id v tt e in
        inr (
          id,
          v,
          (
            entry id v (select_deferred-IsEntry i.internal none id v u e),
            d,
            least,
            rw (e, take_next_immediate),
          ),
        )
  ]
    where
      entry : (id : ℕ) (v : Packet) → IsEntry i.internal none id v → lookup id i.internal ≡ some v
      entry id v (inl h) = h
      entry id v (inr h) = cc

  -- Over a map with distinct keys, each call of TakeNextImmediate that returns a message lowers the
  -- number of deferred entries by one.
  pub take_next_immediate-count :
      IsMap i.internal
      → (take_next_immediate i).2 ≡ true
      → count is_deferred (take_next_immediate i).0.internal + 1 ≡ count is_deferred i.internal
  take_next_immediate-count u h = elim (take_next_immediate_cases u) [
    | inl (z, e) ↦ absurd (not_taken e h)
    | inr (id, v, (l, d, least, e)) ↦
        rw e
          (omega (arith, count-insert is_deferred id (released v) i.internal, held_some id v l d))
  ]
    where
      not_taken :
          ◌≡◌ {A = Inflight × Packet × Bool} (take_next_immediate i) (i, no_packet, false)
          → (take_next_immediate i).2 ≡ true
          → ⊥
      not_taken e p = cc (ap (λ (t : Inflight × Packet × Bool). t.2) e)

      held_some :
          (id : ℕ) (v : Packet)
          → lookup id i.internal ≡ some v
          → is_deferred v ≡ true
          → held is_deferred (lookup id i.internal) ≡ 1
      held_some id v l d = rw l (rw d)
