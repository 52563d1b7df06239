-- ===== src/Inflight/Invariant.antt =====
-- inflight.go: the states that its methods reach.
use mqtt_server.Prelude.{
  ℕ, ◌≡◌, refl, subst, inl, inr, Option, some, [], ◌∷◌, arith, ==_iff, Bool-cases,
}
use mqtt_server.Prelude.Int.{ℤ, pos, ◌≤ℤ◌}
use mqtt_server.Prelude.Maps.{
  Map, lookup, insert, delete, is_some, nat_eq, IsMap, insert-IsMap, delete-IsMap,
}
use mqtt_server.Packets.Packet.{Packet}
use mqtt_server.Inflight.{
  Inflight, new_inflights, set, try_reserve, placeholder, replace_counted, clone,
  reconcile_send_quota_cap, take_next_immediate, recover_starved_send_quota,
  reset_send_quota_if_empty, delete_entry, decrease_receive_quota, increase_receive_quota,
  reset_receive_quota, decrease_send_quota, increase_send_quota, reset_send_quota, is_full, is_live,
}
use mqtt_server.Inflight.Quota
use mqtt_server.Inflight.Quota.{QuotaOk}
use mqtt_server.Inflight.Deferred.{take_next_immediate_cases, released}

-- Every entry stands under the id of its packet.
abbrev pub IsKeyed : Map ℕ Packet → Type 0
IsKeyed [] = Unit
IsKeyed ((k, v) ∷ m) = (v.packet_id ≡ k) × IsKeyed m

pub record IsValid (i : Inflight) : Type 0 where
  pub unique : IsMap i.internal
  pub keyed : IsKeyed i.internal
  pub quota : QuotaOk i

-- One call of a method that changes the state.
pub data Step : Inflight → Inflight → Type 0 where
  step_set : (i : Inflight) (m : Packet) → Step i (set i m).0
  step_reserve : (i : Inflight) (id : ℕ) (max now : ℤ) → Step i (try_reserve i id max now).0
  step_replace :
      (i : Inflight) (m : Packet) (gauge : Option ℤ) → Step i (replace_counted i m gauge).0
  step_clone : (i : Inflight) → Step i (clone i)
  step_reconcile : (i : Inflight) (max : ℤ) → Step i (reconcile_send_quota_cap i max)
  step_take : (i : Inflight) → Step i (take_next_immediate i).0
  step_recover : (i : Inflight) → Step i (recover_starved_send_quota i).0
  step_reset_empty : (i : Inflight) → Step i (reset_send_quota_if_empty i).0
  step_delete : (i : Inflight) (id : ℕ) → Step i (delete_entry i id).0
  step_decrease_receive : (i : Inflight) → Step i (decrease_receive_quota i).0
  step_increase_receive : (i : Inflight) → Step i (increase_receive_quota i).0
  step_reset_receive : (i : Inflight) (n : ℤ) → pos 0 ≤ℤ n → Step i (reset_receive_quota i n)
  step_decrease_send : (i : Inflight) → Step i (decrease_send_quota i).0
  step_increase_send : (i : Inflight) → Step i (increase_send_quota i).0
  step_reset_send : (i : Inflight) (n : ℤ) → pos 0 ≤ℤ n → Step i (reset_send_quota i n)

pub data Reach : Inflight → Type 0 where
  start : Reach new_inflights
  next : {i j : Inflight} → Reach i → Step i j → Reach j

insert-IsKeyed :
    (k : ℕ) (v : Packet) (m : Map ℕ Packet) → v.packet_id ≡ k → IsKeyed m → IsKeyed (insert k v m)
unfolding insert
insert-IsKeyed k v [] e h = (e, tt)
insert-IsKeyed k v ((j, w) ∷ m) e h = ground (arith, insert-IsKeyed k v m e)

delete-IsKeyed : (k : ℕ) (m : Map ℕ Packet) → IsKeyed m → IsKeyed (delete k m)
unfolding delete
delete-IsKeyed k [] h = tt
delete-IsKeyed k ((j, w) ∷ m) h = ground (arith, delete-IsKeyed k m)

lookup-IsKeyed :
    (k : ℕ) (v : Packet) (m : Map ℕ Packet) → IsKeyed m → lookup k m ≡ some v → v.packet_id ≡ k
unfolding lookup
lookup-IsKeyed k v [] h e = ground arith
lookup-IsKeyed k v ((j, w) ∷ m) h e = ground (arith, ==_iff j k, lookup-IsKeyed k v m h.1)

module _ {i : Inflight} (v : IsValid i) where
  -- A method that leaves the entries alone.
  same_entries : (j : Inflight) → i.internal ≡ j.internal → QuotaOk j → IsValid j
  same_entries j e q = record {
    unique = subst (λ (m : Map ℕ Packet). IsMap m) e v.unique;
    keyed = subst IsKeyed e v.keyed;
    quota = q;
  }

  -- A method that writes one entry and no quota.
  write_entry :
      (k : ℕ) (p : Packet)
      → p.packet_id ≡ k
      → IsValid (record i { internal = insert k p i.internal })
  write_entry k p e = record {
    unique = insert-IsMap k p i.internal v.unique;
    keyed = insert-IsKeyed k p i.internal e v.keyed;
    quota = record {
      send_low = v.quota.send_low;
      send_high = v.quota.send_high;
      receive_low = v.quota.receive_low;
      receive_high = v.quota.receive_high;
    };
  }

  try_reserve-IsValid : (id : ℕ) (max now : ℤ) → IsValid (try_reserve i id max now).0
  unfolding try_reserve
  try_reserve-IsValid id max now = elim (Bool-cases (is_full i max)) [
    | inl full ↦ rw full v
    | inr room ↦ rw room (elim (Bool-cases (is_some (lookup id i.internal))) [
      | inl taken ↦ rw taken v
      | inr free ↦ rw free (write_entry id (placeholder id now) refl)
    ])
  ]

  replace_counted-IsValid : (m : Packet) (gauge : Option ℤ) → IsValid (replace_counted i m gauge).0
  unfolding replace_counted
  replace_counted-IsValid m gauge = elim (Bool-cases (is_live (lookup m.packet_id i.internal))) [
    | inl live ↦ rw live v
    | inr free ↦ rw free (write_entry m.packet_id m refl)
  ]

  take_next_immediate-IsValid : IsValid (take_next_immediate i).0
  take_next_immediate-IsValid = elim (take_next_immediate_cases i v.unique) [
    | inl (_, e) ↦ rw e v
    | inr (id, p, (l, _, _, e)) ↦
        rw e (write_entry id (released p) (lookup-IsKeyed id p i.internal v.keyed l))
  ]

  delete_entry-IsValid : (id : ℕ) → IsValid (delete_entry i id).0
  unfolding delete_entry
  delete_entry-IsValid id = record {
    unique = delete-IsMap id i.internal v.unique;
    keyed = delete-IsKeyed id i.internal v.keyed;
    quota = record {
      send_low = v.quota.send_low;
      send_high = v.quota.send_high;
      receive_low = v.quota.receive_low;
      receive_high = v.quota.receive_high;
    };
  }

pub Step-IsValid : {i j : Inflight} → Step i j → IsValid i → IsValid j
Step-IsValid (step_set i m) v = unfold set in write_entry v m.packet_id m refl
Step-IsValid (step_reserve i id max now) v = try_reserve-IsValid v id max now
Step-IsValid (step_replace i m gauge) v = replace_counted-IsValid v m gauge
Step-IsValid (step_clone i) v =
    same_entries v _ (unfold clone in refl) (Quota.clone-QuotaOk i v.quota)
Step-IsValid (step_reconcile i max) v =
    same_entries v _ (unfold reconcile_send_quota_cap in ground arith)
      (Quota.reconcile-QuotaOk i v.quota max)
Step-IsValid (step_take i) v = take_next_immediate-IsValid v
Step-IsValid (step_recover i) v =
    same_entries v _ (unfold recover_starved_send_quota in ground arith)
      (Quota.recover-QuotaOk i v.quota)
Step-IsValid (step_reset_empty i) v =
    same_entries v _ (unfold reset_send_quota_if_empty in ground arith)
      (Quota.reset_if_empty-QuotaOk i v.quota)
Step-IsValid (step_delete i id) v = delete_entry-IsValid v id
Step-IsValid (step_decrease_receive i) v =
    same_entries v _ (unfold decrease_receive_quota in ground arith)
      (Quota.decrease_receive_quota-QuotaOk i v.quota)
Step-IsValid (step_increase_receive i) v =
    same_entries v _ (unfold increase_receive_quota in ground arith)
      (Quota.increase_receive_quota-QuotaOk i v.quota)
Step-IsValid (step_reset_receive i n h) v =
    same_entries v _ (unfold reset_receive_quota in refl)
      (Quota.reset_receive_quota-QuotaOk i v.quota n h)
Step-IsValid (step_decrease_send i) v =
    same_entries v _ (unfold decrease_send_quota in ground arith)
      (Quota.decrease_send_quota-QuotaOk i v.quota)
Step-IsValid (step_increase_send i) v =
    same_entries v _ (unfold increase_send_quota in ground arith)
      (Quota.increase_send_quota-QuotaOk i v.quota)
Step-IsValid (step_reset_send i n h) v =
    same_entries v _ (unfold reset_send_quota in refl)
      (Quota.reset_send_quota-QuotaOk i v.quota n h)

-- Every state that calls of the methods reach from `NewInflights`, the resets with a maximum that is
-- not negative, has distinct ids, each entry under its own packet id, and both quotas between zero
-- and their maximum.
pub Reach-IsValid : {i : Inflight} → Reach i → IsValid i
Reach-IsValid start = omega arith
Reach-IsValid (next r s) = Step-IsValid s (Reach-IsValid r)
