-- ===== src/Inflight.antt =====
-- inflight.go: the in-flight messages of a client, keyed on packet id, and the flow-control quotas.
-- Each method takes and returns the whole state, and is one step. Most hold one lock from start to end;
-- Clone and ReconcileSendQuotaCap count under the lock of the map and set the quotas under another, and
-- the model is of runs where nothing comes in between. A quota is an
-- int32; it moves by one between its bounds, so it does not wrap.
pub mod Quota
pub mod Entries
pub mod Deferred
pub mod Invariant
mod Tests
use mqtt_server.Prelude.{
  ℕ, zero, suc, ◌+◌, ◌-◌, ◌%◌, ◌^◌, Bool, true, false, not, ◌&&◌, ◌||◌, Option, none, some, List,
  [], ◌∷◌, ltb, leb, ◌==◌, if◌then◌else◌,
}
use mqtt_server.Prelude.Int.{ℤ, pos, negsuc, ◌+ℤ◌, ◌-ℤ◌, ltb_ℤ, leb_ℤ, eq_ℤ}
use mqtt_server.Prelude.Maps.{Map, lookup, insert, delete, size, count, is_some, nat_eq}
use mqtt_server.Packets.Packet.{Packet, no_packet}

-- `InflightExpiryDeferred` and `InflightExpiryReserved`.
abbrev pub expiry_deferred : ℤ
expiry_deferred = negsuc 0

abbrev pub expiry_reserved : ℤ
expiry_reserved = negsuc 1

pub data ReserveResult : Type 0 where
  reserve_ok reserve_id_taken reserve_full : ReserveResult

pub record Inflight : Type 0 where
  pub internal : Map ℕ Packet
  pub receive_quota : ℤ
  pub send_quota : ℤ
  pub maximum_receive_quota : ℤ
  pub maximum_send_quota : ℤ

abbrev pub new_inflights : Inflight
new_inflights = record {
  internal = [];
  receive_quota = pos 0;
  send_quota = pos 0;
  maximum_receive_quota = pos 0;
  maximum_send_quota = pos 0;
}

abbrev pub is_deferred : Packet → Bool
is_deferred v = eq_ℤ v.expiry expiry_deferred

abbrev pub is_reserved : Packet → Bool
is_reserved v = eq_ℤ v.expiry expiry_reserved

-- A sent message with a quality of service holds a unit of the send quota.
abbrev pub holds_quota : Packet → Bool
holds_quota v = not (is_deferred v) && not (is_reserved v) && ltb 0 v.fixed_header.qos

unfoldable pub set : Inflight → Packet → Inflight × Bool
set i m = (
  record i { internal = insert m.packet_id m i.internal },
  not (is_some (lookup m.packet_id i.internal)),
)

abbrev pub placeholder : ℕ → ℤ → Packet
placeholder id now = record no_packet { packet_id = id; expiry = expiry_reserved; created = now }

-- `max > 0 && len(i.internal) >= max`
abbrev pub is_full : Inflight → ℤ → Bool
is_full i max = ltb_ℤ (pos 0) max && leb_ℤ max (pos (size i.internal))

-- `now` is `time.Now().Unix()`.
unfoldable pub try_reserve : Inflight → ℕ → ℤ → ℤ → Inflight × ReserveResult
try_reserve i id max now =
    if is_full i max
    then (i, reserve_full)
    else if is_some (lookup id i.internal)
    then (i, reserve_id_taken)
    else (record i { internal = insert id (placeholder id now) i.internal }, reserve_ok)

is_reserve_ok : ReserveResult → Bool
is_reserve_ok reserve_ok = true
is_reserve_ok reserve_id_taken = false
is_reserve_ok reserve_full = false

unfoldable pub reserve : Inflight → ℕ → ℤ → Inflight × Bool
unfolding is_reserve_ok
reserve i id now = let (i', r) = try_reserve i id (pos 0) now in (i', is_reserve_ok r)

-- Does `ReplaceCounted` refuse: is there an entry that is no reservation?
abbrev pub is_live : Option Packet → Bool
is_live none = false
is_live (some old) = not (is_reserved old)

-- `atomic.AddInt64(gauge, 1)` behind the test for nil.
abbrev pub add_one : Option ℤ → Option ℤ
add_one none = none
add_one (some g) = some (g +ℤ pos 1)

unfoldable pub replace_counted : Inflight → Packet → Option ℤ → Inflight × Option ℤ × Bool
unfolding ◌+ℤ◌
replace_counted i m gauge =
    if is_live (lookup m.packet_id i.internal)
    then (i, gauge, false)
    else (record i { internal = insert m.packet_id m i.internal }, add_one gauge, true)

unfoldable pub replace : Inflight → Packet → Inflight × Bool
replace i m = let (i', gauge, done) = replace_counted i m none in (i', done)

unfoldable pub get : Inflight → ℕ → Packet × Bool
get i id = elim (lookup id i.internal) [ none ↦ (no_packet, false) | some m ↦ (m, true) ]

unfoldable pub len : Inflight → ℕ
len i = size i.internal

-- `left := max - int32(sent); if left < 0 { left = 0 }`
abbrev pub quota_left : ℤ → ℕ → ℤ
quota_left max sent = let left = max -ℤ pos sent in if ltb_ℤ left (pos 0) then pos 0 else left

unfoldable pub clone : Inflight → Inflight
clone i = record {
  internal = i.internal;
  receive_quota = i.receive_quota;
  send_quota =
      if ltb_ℤ (pos 0) i.maximum_send_quota
      then quota_left i.maximum_send_quota (count holds_quota i.internal)
      else pos 0;
  maximum_receive_quota = i.maximum_receive_quota;
  maximum_send_quota = i.maximum_send_quota;
}

unfoldable pub reconcile_send_quota_cap : Inflight → ℤ → Inflight
reconcile_send_quota_cap i max = if leb_ℤ max (pos 0) then i else record i {
  maximum_send_quota = max;
  send_quota = quota_left max (count holds_quota i.internal);
}

-- `uint16(v.Created)`, the low 16 bits of an int64.
abbrev pub created_key : Packet → ℕ
created_key v = elim v.created [ pos n ↦ n % 2 ^ 16 | negsuc n ↦ 2 ^ 16 - 1 - n % 2 ^ 16 ]

-- `sort.Slice` by that key. Go leaves the order of equal keys open; here they keep their order.
unfoldable pub insert_sorted : Packet → List Packet → List Packet
insert_sorted p [] = p ∷ []
insert_sorted p (q ∷ qs) =
    let rest = insert_sorted p qs in
    if leb (created_key p) (created_key q) then p ∷ q ∷ qs else q ∷ rest

unfoldable pub sort_created : List Packet → List Packet
unfolding insert_sorted
sort_created [] = []
sort_created (p ∷ ps) = insert_sorted p (sort_created ps)

-- `!immediate || v.Expiry == InflightExpiryDeferred`, over the entries in map order.
unfoldable pub collect : Bool → Map ℕ Packet → List Packet
collect immediate [] = []
collect immediate ((k, v) ∷ m) =
    let rest = collect immediate m in if not immediate || is_deferred v then v ∷ rest else rest

unfoldable pub get_all : Inflight → Bool → List Packet
get_all i immediate = sort_created (collect immediate i.internal)

unfoldable pub next_immediate : Inflight → Packet × Bool
next_immediate i = elim (get_all i true) [ [] ↦ (no_packet, false) | m ∷ ms ↦ (m, true) ]

-- The loop of `TakeNextImmediate`: the deferred entry with the least key so far, with its id.
unfoldable pub select_deferred : Map ℕ Packet → Option (ℕ × Packet) → Option (ℕ × Packet)
select_deferred [] best = best
select_deferred ((id, v) ∷ m) best = select_deferred m (
    if not (is_deferred v) then best else elim best [
      | none ↦ some (id, v)
      | some (j, w) ↦ if ltb (created_key v) (created_key w) then some (id, v) else some (j, w)
    ])

unfoldable pub take_next_immediate : Inflight → Inflight × Packet × Bool
unfolding select_deferred
take_next_immediate i = elim (select_deferred i.internal none) [
  | none ↦ (i, no_packet, false)
  | some (id, v) ↦
      let selected : Packet = record v { expiry = pos 0 } in
      (record i { internal = insert id selected i.internal }, selected, true)
]

-- Is every entry deferred?
unfoldable pub all_deferred : Map ℕ Packet → Bool
all_deferred [] = true
all_deferred ((k, v) ∷ m) = is_deferred v && all_deferred m

unfoldable pub recover_starved_send_quota : Inflight → Inflight × Bool
recover_starved_send_quota i =
    if size i.internal == 0
    then (i, false)
    else if not (all_deferred i.internal)
    then (i, false)
    else if ltb_ℤ (pos 0) i.send_quota || eq_ℤ i.maximum_send_quota (pos 0)
    then (i, false)
    else (record i { send_quota = pos 1 }, true)

unfoldable pub reset_send_quota_if_empty : Inflight → Inflight × Bool
reset_send_quota_if_empty i =
    if not (size i.internal == 0)
    then (i, false)
    else if leb_ℤ i.maximum_send_quota (pos 0)
    then (i, false)
    else if eq_ℤ i.send_quota i.maximum_send_quota
    then (i, false)
    else (record i { send_quota = i.maximum_send_quota }, true)

unfoldable pub delete_entry : Inflight → ℕ → Inflight × Bool
delete_entry i id = (record i { internal = delete id i.internal }, is_some (lookup id i.internal))

unfoldable pub decrease_receive_quota : Inflight → Inflight × Bool
decrease_receive_quota i =
    if leb_ℤ i.receive_quota (pos 0)
    then (i, false)
    else (record i { receive_quota = i.receive_quota -ℤ pos 1 }, true)

unfoldable pub increase_receive_quota : Inflight → Inflight × Bool
increase_receive_quota i =
    if leb_ℤ i.maximum_receive_quota i.receive_quota
    then (i, false)
    else (record i { receive_quota = i.receive_quota +ℤ pos 1 }, true)

unfoldable pub reset_receive_quota : Inflight → ℤ → Inflight
reset_receive_quota i n = record i { maximum_receive_quota = n; receive_quota = n }

unfoldable pub decrease_send_quota : Inflight → Inflight × Bool
decrease_send_quota i =
    if leb_ℤ i.send_quota (pos 0)
    then (i, false)
    else (record i { send_quota = i.send_quota -ℤ pos 1 }, true)

unfoldable pub increase_send_quota : Inflight → Inflight × Bool
increase_send_quota i =
    if leb_ℤ i.maximum_send_quota i.send_quota
    then (i, false)
    else (record i { send_quota = i.send_quota +ℤ pos 1 }, true)

unfoldable pub reset_send_quota : Inflight → ℤ → Inflight
reset_send_quota i n = record i { maximum_send_quota = n; send_quota = n }

-- The length of the map, the send quota and its maximum, the receive quota and its maximum.
unfoldable pub quota_stats : Inflight → ℕ × ℤ × ℤ × ℤ × ℤ
quota_stats i =
    (size i.internal, i.send_quota, i.maximum_send_quota, i.receive_quota, i.maximum_receive_quota)

-- The same, with the numbers of deferred and of reserved entries behind the length.
unfoldable pub quota_stats_detailed : Inflight → ℕ × ℕ × ℕ × ℤ × ℤ × ℤ × ℤ
quota_stats_detailed i = (
  size i.internal,
  count is_deferred i.internal,
  count is_reserved i.internal,
  i.send_quota,
  i.maximum_send_quota,
  i.receive_quota,
  i.maximum_receive_quota,
)
