-- ===== src/Inflight/Entries.antt =====
-- inflight.go: reserving, replacing and removing entries.
use mqtt_server.Prelude.{
  ℕ, ◌+◌, ◌≡◌, ◌≢◌, refl, sym, ap, ◌∙◌, ◌⊎◌, inl, inr, Bool, true, false, Option, none, some, arith,
  ◌==◌, if◌then◌else◌, Bool-cases,
}
use mqtt_server.Prelude.Int.{ℤ, pos, ◌≤ℤ◌}
use mqtt_server.Prelude.Maps.{lookup, size, is_some, nat_eq, beq_refl, lookup-insert, size-insert}
use mqtt_server.Packets.Packet.{Packet}
use mqtt_server.Inflight.{
  Inflight, ReserveResult, reserve_ok, reserve_id_taken, reserve_full, try_reserve, placeholder,
  is_full, replace_counted, is_live, add_one, get, delete_entry,
}

-- The entry under an id, as `get` and the invariants see it.
abbrev pub entry : Inflight → ℕ → Option Packet
entry i id = lookup id i.internal

module _ (i : Inflight) (id : ℕ) (max now : ℤ) where
  -- What `TryReserve` answers, in terms of the state before.
  pub try_reserve_answer : (try_reserve i id max now).1 ≡ (
      if is_full i max
      then reserve_full
      else if is_some (entry i id)
      then reserve_id_taken
      else reserve_ok)
  unfolding try_reserve
  try_reserve_answer = ground arith

  -- Only a successful reservation changes the state: it adds a placeholder under the id, leaves every
  -- other entry as it was, and keeps the number of entries within a positive limit.
  pub try_reserve_effect :
      (j : ℕ)
      → (try_reserve i id max now).1 ≡ reserve_ok
      → (entry i id ≡ none)
        × (entry (try_reserve i id max now).0 j
            ≡ (if id == j then some (placeholder id now) else entry i j))
        × (size (try_reserve i id max now).0.internal ≡ size i.internal + 1)
        × ((max ≤ℤ pos 0) ⊎ (pos (size (try_reserve i id max now).0.internal) ≤ℤ max))
  unfolding try_reserve
  try_reserve_effect j h = ground (
    arith,
    lookup-insert id j (placeholder id now) i.internal,
    size-insert id (placeholder id now) i.internal,
  )

  -- Once an id is reserved, no second reservation of it succeeds.
  pub try_reserve_once :
      (max' now' : ℤ)
      → (try_reserve i id max now).1 ≡ reserve_ok
      → (try_reserve (try_reserve i id max now).0 id max' now').1 ≢ reserve_ok
  unfolding try_reserve
  try_reserve_once max' now' h = ground (arith, lookup-insert id id (placeholder id now) i.internal)

module _ (i : Inflight) (m : Packet) (gauge : Option ℤ) where
  -- `ReplaceCounted` refuses exactly where a message that is no reservation stands under the id, and
  -- then changes nothing; otherwise it stores the message, leaves the other entries, and counts one.
  pub replace_counted_cases :
      (j : ℕ)
      → ((is_live (entry i m.packet_id) ≡ true)
          × ◌≡◌ {A = Inflight × Option ℤ × Bool} (replace_counted i m gauge) (i, gauge, false))
        ⊎ ((is_live (entry i m.packet_id) ≡ false)
            × ((replace_counted i m gauge).2 ≡ true)
            × ((replace_counted i m gauge).1 ≡ add_one gauge)
            × (entry (replace_counted i m gauge).0 j
                ≡ (if m.packet_id == j then some m else entry i j)))
  unfolding replace_counted
  replace_counted_cases j = elim (Bool-cases (is_live (entry i m.packet_id))) [
    | inl live ↦ inl (live, rw live)
    | inr free ↦ inr (free, rw free, rw free, rw free (lookup-insert m.packet_id j m i.internal))
  ]

self_lookup : {A : Type 0} (id : ℕ) (a : A) (b : A) → (if id == id then a else b) ≡ a
self_lookup id a b = rw (beq_refl ⦃e = nat_eq⦄ id)

replace_counted-free :
    (i : Inflight) (m : Packet) (gauge : Option ℤ)
    → is_live (entry i m.packet_id) ≡ false
    → ((replace_counted i m gauge).2 ≡ true)
      × (entry (replace_counted i m gauge).0 m.packet_id ≡ some m)
replace_counted-free i m gauge h = elim (replace_counted_cases i m gauge m.packet_id) [
  | inl (live, _) ↦ absurd (clash _ live h)
  | inr (_, done, _, e) ↦ (done, e ∙ self_lookup m.packet_id (some m) (entry i m.packet_id))
]
  where
    clash : (b : Bool) → b ≡ true → b ≡ false → ⊥
    clash b p q = cc

-- A reservation followed by the real message is what `publishToClient` relies on: the replacement
-- succeeds, `Get` reads the message back, and a later `Delete` finds it.
pub reserve_replace_get :
    (i r : Inflight) (m : Packet) (max now : ℤ) (gauge : Option ℤ)
    → ◌≡◌ {A = Inflight × ReserveResult} (try_reserve i m.packet_id max now) (r, reserve_ok)
    → ((replace_counted r m gauge).2 ≡ true)
      × ◌≡◌ {A = Packet × Bool} (get (replace_counted r m gauge).0 m.packet_id) (m, true)
      × ((delete_entry (replace_counted r m gauge).0 m.packet_id).1 ≡ true)
unfolding get delete_entry
reserve_replace_get i r m max now gauge h =
    let id = m.packet_id in
    let same : ◌≡◌ {A = Inflight} (try_reserve i id max now).0 r =
      ap (λ (t : Inflight × ReserveResult). t.0) h in
    let done : (try_reserve i id max now).1 ≡ reserve_ok =
      ap (λ (t : Inflight × ReserveResult). t.1) h in
    let (_, there, _, _) = try_reserve_effect i id max now id done in
    let held : entry r id ≡ some (placeholder id now) =
      ap (λ (s : Inflight). entry s id) (sym same)
      ∙ there
      ∙ self_lookup id (some (placeholder id now)) (entry i id) in
    let (ok, e) = replace_counted-free r m gauge (rw held refl) in
    (ok, rw (e, get) refl, rw (e, delete_entry) refl)
