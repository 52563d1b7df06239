-- ===== src/Sessions/Clear.antt =====
-- clients.go: `ClearInflights`, `ResetInflights` and `ClearExpiredInflights`, over the snapshot that
-- `GetAll` takes of the entries.
pub mod Balance
use mqtt_server.Prelude.{
  ℕ, Bool, true, false, not, ◌&&◌, ◌||◌, List, [], ◌∷◌, ltb, ◌==◌, if◌then◌else◌,
}
use mqtt_server.Prelude.Int.{ℤ, pos, ◌-ℤ◌, ltb_ℤ}
use mqtt_server.Packets.Packet.{Packet}
use mqtt_server.Inflight.{
  Inflight, get_all, delete_entry, is_reserved, is_deferred, increase_send_quota,
}
use mqtt_server.Sessions.Acks.{Session, Event, qos_dropped}

unfoldable pub clear_each : List Packet → Session → Session × List Event
clear_each [] c = (c, [])
clear_each (tk ∷ tks) c =
    let (i, deleted) = delete_entry c.inflight tk.packet_id in
    let rest = clear_each tks (record {
      inflight = i;
      info_inflight =
          if deleted && not (is_reserved tk) then c.info_inflight -ℤ pos 1 else c.info_inflight;
    }) in
    (rest.0, if deleted then qos_dropped tk ∷ rest.1 else rest.1)

unfoldable pub clear_inflights : Session → Session × List Event
unfolding clear_each
clear_inflights c = clear_each (get_all c.inflight false) c

-- `Info.Inflight` and the hooks are left alone.
reset_each : List Packet → Inflight → Inflight
reset_each [] i = i
reset_each (tk ∷ tks) i = reset_each tks (delete_entry i tk.packet_id).0

unfoldable pub reset_inflights : Inflight → Inflight
unfolding reset_each
reset_inflights i = reset_each (get_all i false) i

-- `tk.ProtocolVersion == 5 && tk.Expiry > 0 && tk.Expiry < now`
abbrev pub is_expired : ℤ → Packet → Bool
is_expired now tk = tk.protocol_version == 5 && ltb_ℤ (pos 0) tk.expiry && ltb_ℤ tk.expiry now

-- `maximumExpiry > 0 && tk.Created > 0 && now-tk.Created > maximumExpiry`
abbrev pub is_enforced : ℤ → ℤ → Packet → Bool
is_enforced now maximum_expiry tk =
    ltb_ℤ (pos 0) maximum_expiry
    && ltb_ℤ (pos 0) tk.created
    && ltb_ℤ maximum_expiry (now -ℤ tk.created)

abbrev pub is_swept : ℤ → ℤ → Packet → Bool
is_swept now maximum_expiry tk =
    not (is_deferred tk)
    && not (is_reserved tk)
    && (is_expired now tk || is_enforced now maximum_expiry tk)

-- What the loop does with an entry that it deletes.
abbrev pub swept : Session → Packet → Inflight → Session
swept c tk i = record {
  inflight = if ltb 0 tk.fixed_header.qos then (increase_send_quota i).0 else i;
  info_inflight = c.info_inflight -ℤ pos 1;
}

-- The events, and the ids that are deleted.
unfoldable pub clear_expired_each : ℤ → ℤ → List Packet → Session → Session × List Event × List ℕ
clear_expired_each now maximum_expiry [] c = (c, [], [])
clear_expired_each now maximum_expiry (tk ∷ tks) c =
    let (i, deleted) = delete_entry c.inflight tk.packet_id in
    let skipped = clear_expired_each now maximum_expiry tks c in
    let absent = clear_expired_each now maximum_expiry tks (record c { inflight = i }) in
    let rest = clear_expired_each now maximum_expiry tks (swept c tk i) in
    if not (is_swept now maximum_expiry tk)
    then skipped
    else if not deleted
    then absent
    else (rest.0, qos_dropped tk ∷ rest.1, tk.packet_id ∷ rest.2)

unfoldable pub clear_expired_inflights : ℤ → ℤ → Session → Session × List Event × List ℕ
unfolding clear_expired_each
clear_expired_inflights now maximum_expiry c =
    clear_expired_each now maximum_expiry (get_all c.inflight false) c
