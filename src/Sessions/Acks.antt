-- ===== src/Sessions/Acks.antt =====
-- server.go: the handlers of acknowledgements, as steps on a client's in-flight messages and on the
-- server's count of them. What a handler writes and reports to the hooks is a list of events.
pub mod Cases
pub mod Balance
pub mod Flow
use mqtt_server.Prelude.{
  ℕ, Bool, true, false, not, ◌&&◌, ◌||◌, Option, none, some, List, [], ◌∷◌, ltb, leb, ◌==◌,
  if◌then◌else◌, length,
}
use mqtt_server.Prelude.Int.{ℤ, pos, ◌+ℤ◌, ◌-ℤ◌}
use mqtt_server.Packets.Codec.{Bytes}
use mqtt_server.Packets.Codes
use mqtt_server.Packets.Codes.{Code, code_byte}
use mqtt_server.Packets.Types
use mqtt_server.Packets.Properties.{Properties, no_properties}
use mqtt_server.Packets.Packet.{Packet, no_packet}
use mqtt_server.Packets.Reasons.{reason_code_valid}
use mqtt_server.Inflight.{
  Inflight, get, set, delete_entry, is_reserved, increase_send_quota, increase_receive_quota,
  decrease_receive_quota,
}

-- `info_inflight` is `Info.Inflight`, which all clients share.
pub record Session : Type 0 where
  pub inflight : Inflight
  pub info_inflight : ℤ

pub data Event : Type 0 where
  sent qos_complete qos_dropped : Packet → Event

-- The options, the time, and what lies outside: whether a write succeeds, and the text of a code.
pub record Server : Type 0 where
  pub no_inherited_properties_on_ack : Bool
  pub maximum_message_expiry_interval : ℤ
  pub is_fixed_packet_info : Bool
  pub now : ℤ
  pub writes : Packet → Bool
  pub reason_text : Code → Bytes

-- The state, the events in order, and whether the handler returns without an error.
abbrev pub Handled : Type 0
Handled = Session × List Event × Bool

unfoldable pub build_ack : Server → ℕ → ℕ → ℕ → Properties → Code → Packet
build_ack s packet_id type qos properties reason =
    let own : Properties = if s.no_inherited_properties_on_ack then no_properties else properties in
    record no_packet {
      fixed_header = record (no_packet).fixed_header { type = type; qos = qos };
      packet_id = packet_id;
      reason_code = code_byte reason;
      properties =
          if leb (code_byte Codes.err_unspecified_error) (code_byte reason)
          then record own { reason_string = s.reason_text reason }
          else own;
      created = s.now;
      expiry = s.now +ℤ s.maximum_message_expiry_interval;
    }

-- The topic, payload and origin of the original message, for an acknowledgement that has no topic.
unfoldable pub fill_in : Server → Packet → Packet → Packet
fill_in s original pk =
    if length pk.topic_name == 0 && ltb 0 (length original.topic_name) && s.is_fixed_packet_info
    then record pk {
      payload = original.payload;
      topic_name = original.topic_name;
      origin = original.origin;
    }
    else pk

-- `if ok := Inflight.Delete(id); ok { atomic.AddInt64(&Info.Inflight, -1) }`
unfoldable pub drop_counted : Session → ℕ → Session × Bool
drop_counted c id =
    let (i, deleted) = delete_entry c.inflight id in
    (
      record {
        inflight = i;
        info_inflight = if deleted then c.info_inflight -ℤ pos 1 else c.info_inflight;
      },
      deleted,
    )

-- `WritePacket`, and its error.
abbrev write : Server → Session → Packet → Handled
write s c pk = (c, if s.writes pk then sent pk ∷ [] else [], s.writes pk)

unfoldable pub process_puback : Server → Session → Packet → Handled
unfolding fill_in
process_puback s c pk =
    let (original, ok) = get c.inflight pk.packet_id in
    let (i, deleted) = delete_entry c.inflight pk.packet_id in
    if not ok
    then (c, [], true)
    else if not deleted || is_reserved original
    then (record c { inflight = i }, [], true)
    else (
      record { inflight = (increase_send_quota i).0; info_inflight = c.info_inflight -ℤ pos 1 },
      qos_complete (fill_in s original pk) ∷ [],
      true,
    )

-- `pk.ReasonCode >= ErrUnspecifiedError.Code || !pk.ReasonCodeValid()`
abbrev pub is_refused : Packet → Bool
is_refused pk =
    leb (code_byte Codes.err_unspecified_error) pk.reason_code || not (reason_code_valid pk)

unfoldable pub process_pubrec : Server → Session → Packet → Handled
unfolding build_ack fill_in drop_counted
process_pubrec s c pk =
    let (original, ok) = get c.inflight pk.packet_id in
    let missing =
      build_ack s pk.packet_id Types.pubrel 1 pk.properties Codes.err_packet_identifier_not_found in
    let ack =
      fill_in s original
        (build_ack s pk.packet_id Types.pubrel 1 pk.properties Codes.code_success) in
    if not ok
    then write s c missing
    else if is_refused pk
    then ((drop_counted c pk.packet_id).0, qos_dropped (fill_in s original pk) ∷ [], true)
    else write s (record c { inflight = (set (decrease_receive_quota c.inflight).0 ack).0 }) ack

-- The last steps of a flow of quality of service two: both quotas, and the entry.
unfoldable pub finish : Server → Session → Packet → Packet → Handled
unfolding fill_in drop_counted
finish s c original pk =
    let (d, deleted) = drop_counted c pk.packet_id in
    (d, if deleted then qos_complete (fill_in s original pk) ∷ [] else [], true)

abbrev pub raise_quotas : Session → Session
raise_quotas c = record c {
  inflight = (increase_send_quota (increase_receive_quota c.inflight).0).0;
}

unfoldable pub process_pubrel : Server → Session → Packet → Handled
unfolding build_ack fill_in drop_counted finish
process_pubrel s c pk =
    let (original, ok) = get c.inflight pk.packet_id in
    let missing =
      build_ack s pk.packet_id Types.pubcomp 0 pk.properties
        Codes.err_packet_identifier_not_found in
    let ack =
      fill_in s original
        (build_ack s pk.packet_id Types.pubcomp 0 pk.properties Codes.code_success) in
    let acked : Session = record c { inflight = (set c.inflight ack).0 } in
    let (d, events, done) = finish s (raise_quotas acked) original pk in
    if not ok
    then write s c missing
    else if is_refused pk
    then ((drop_counted c pk.packet_id).0, qos_dropped (fill_in s original pk) ∷ [], true)
    else if not (s.writes ack)
    then (acked, [], false)
    else (d, sent ack ∷ events, done)

unfoldable pub process_pubcomp : Server → Session → Packet → Handled
unfolding finish
process_pubcomp s c pk =
    let raised = raise_quotas c in
    let (original, ok) = get (raised).inflight pk.packet_id in
    if not ok then (raised, [], true) else finish s raised original pk

-- The cases of `processPacket` for acknowledgements.
unfoldable pub process_ack : Server → Session → Packet → Handled
unfolding process_puback process_pubrec process_pubrel process_pubcomp
process_ack s c pk =
    let type = pk.fixed_header.type in
    if type == Types.puback
    then process_puback s c pk
    else if type == Types.pubrec
    then process_pubrec s c pk
    else if type == Types.pubrel
    then process_pubrel s c pk
    else if type == Types.pubcomp
    then process_pubcomp s c pk
    else (c, [], false)
