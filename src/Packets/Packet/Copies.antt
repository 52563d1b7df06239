-- ===== src/Packets/Packet/Copies.antt =====
-- packets/packets.go: `Packet.Copy` and `Subscription.Merge`.
use mqtt_server.Prelude.{
  ℕ, ◌≤◌, ◌≡◌, refl, ◌⊎◌, Bool, true, false, ◌&&◌, ◌||◌, List, [], ◌∷◌, arith, All,
}
use mqtt_server.Prelude.Maps.{string_eq}
use mqtt_server.Packets.Properties.{copy_properties}
use mqtt_server.Packets.Packet.{Packet, Subscription, copy_packet, merge}

-- A copy of a copy is one copy, which transfers the packet id and the topic alias if both did.
pub copy_packet-copy_packet :
    (a b : Bool) (pk : Packet) → copy_packet a (copy_packet b pk) ≡ copy_packet (a && b) pk
unfolding copy_packet copy_properties
copy_packet-copy_packet true true pk = refl
copy_packet-copy_packet true false pk = refl
copy_packet-copy_packet false true pk = refl
copy_packet-copy_packet false false pk = refl

-- The subscriptions of one client that match a topic are merged one after the other.
abbrev pub merge_each : Subscription → List Subscription → Subscription
merge_each s [] = s
merge_each s (n ∷ ns) = merge_each (merge s n) ns

abbrev pub any_no_local : List Subscription → Bool
any_no_local [] = false
any_no_local (n ∷ ns) = n.no_local || any_no_local ns

merge_step :
    (s n : Subscription)
    → (s.qos ≤ (merge s n).qos)
      × (n.qos ≤ (merge s n).qos)
      × (((merge s n).qos ≡ s.qos) ⊎ ((merge s n).qos ≡ n.qos))
      × ((merge s n).no_local ≡ (s.no_local || n.no_local))
      × ((merge s n).filter ≡ s.filter)
unfolding merge
merge_step s n = ground arith

-- Is a number the quality of service of one of the subscriptions?
abbrev pub IsQosOf : ℕ → List Subscription → Type 0
IsQosOf q [] = ⊥
IsQosOf q (n ∷ ns) = (q ≡ n.qos) ⊎ IsQosOf q ns

-- After merging any list of subscriptions into a first one the quality of service is at least that
-- of each and is that of one of them, "no local" is set if one of them set it, and the filter is
-- the first one's.
pub merge_each_keeps :
    (s : Subscription) (ns : List Subscription)
    → (s.qos ≤ (merge_each s ns).qos)
      × All (λ n. n.qos ≤ (merge_each s ns).qos) ns
      × IsQosOf (merge_each s ns).qos (s ∷ ns)
      × ((merge_each s ns).no_local ≡ (s.no_local || any_no_local ns))
      × ((merge_each s ns).filter ≡ s.filter)
merge_each_keeps s [] = ground arith
merge_each_keeps s (n ∷ ns) =
    let (sq, nq, one, nl, f) = merge_step s n in
    let (lo, hi, is, nls, fs) = merge_each_keeps (merge s n) ns in
    (ground arith, (ground arith, hi), ground arith, ground arith, ground arith)
