-- ===== src/Inflight/Tests.antt =====
-- Runs of the in-flight map, and the theorems at concrete inputs.
use mqtt_server.Prelude.{ℕ, ◌≡◌, refl, ◌⊎◌, true, [], ◌∷◌, arith}
use mqtt_server.Prelude.Int.{ℤ, pos, negsuc}
use mqtt_server.Prelude.Maps.{lookup, insert}
use mqtt_server.Packets.Packet.{Packet, no_packet}
use mqtt_server.Inflight.{
  Inflight, new_inflights, try_reserve, reserve_ok, placeholder, reset_send_quota,
  take_next_immediate, select_deferred,
}
use mqtt_server.Inflight.Invariant.{
  IsValid, start, next, step_reset_send, step_reserve, Reach-IsValid,
}
use mqtt_server.Inflight.Deferred.{Taken, Idle, take_next_immediate_cases}

abbrev parked : ℕ → ℤ → Packet
parked id created = record no_packet { packet_id = id; expiry = negsuc 0; created = created }

abbrev two_parked : Inflight
two_parked = record new_inflights { internal = (1, parked 1 (pos 9)) ∷ (2, parked 2 (pos 5)) ∷ [] }

take_next_immediate_run :
    (take_next_immediate two_parked).1 ≡ record (parked 2 (pos 5)) { expiry = pos 0 }
unfolding take_next_immediate select_deferred
take_next_immediate_run = refl

take_next_immediate_flag : (take_next_immediate two_parked).2 ≡ true
unfolding take_next_immediate select_deferred
take_next_immediate_flag = refl

take_next_immediate_cases_example :
    Idle two_parked ⊎ ((id : ℕ) × (v : Packet) × Taken two_parked id v)
unfolding lookup
take_next_immediate_cases_example = take_next_immediate_cases two_parked (refl, (refl, tt))

try_reserve_run : (try_reserve two_parked 3 (pos 5) (pos 7)).1 ≡ reserve_ok
unfolding try_reserve lookup
try_reserve_run = refl

abbrev with_three : Inflight
with_three = record two_parked {
  internal = (1, parked 1 (pos 9)) ∷ (2, parked 2 (pos 5)) ∷ (3, placeholder 3 (pos 7)) ∷ [];
}

reserve_three :
    ◌≡◌ {A = Inflight × _} (try_reserve two_parked 3 (pos 5) (pos 7)) (with_three, reserve_ok)
unfolding try_reserve lookup insert
reserve_three = refl

Reach-IsValid_example :
    IsValid (try_reserve (reset_send_quota new_inflights (pos 2)) 1 (pos 0) (pos 7)).0
Reach-IsValid_example = Reach-IsValid (
    next (next start (step_reset_send new_inflights (pos 2) (omega arith)))
      (step_reserve (reset_send_quota new_inflights (pos 2)) 1 (pos 0) (pos 7)))
