-- ===== src/Sessions/Receive.antt =====
-- server.go: `processPublish`, `DisconnectClient` and `retainMessage`. The log is left out; the calls of
-- hooks, what is written, the end of the client, and the call of `publishToSubscribers` are events.
pub mod Cases
pub mod Once
pub mod Balance
mod Tests
use mqtt_server.Prelude.{
  ℕ, Bool, true, false, not, ◌&&◌, ◌||◌, Option, none, some, List, [], ◌∷◌, ◌++◌, ltb, leb, ◌==◌,
  if◌then◌else◌, length,
}
use mqtt_server.Prelude.Int.{ℤ, pos, ◌+ℤ◌, ltb_ℤ, eq_ℤ}
use mqtt_server.Prelude.Maps.{lookup, nat_eq}
use mqtt_server.Packets.Codec.{Bytes}
use mqtt_server.Packets.Codes
use mqtt_server.Packets.Codes.{Code, code_byte}
use mqtt_server.Packets.Types
use mqtt_server.Packets.Properties.{no_properties}
use mqtt_server.Packets.Packet.{Packet, no_packet, no_header, copy_packet}
use mqtt_server.Topics.Filter.{is_valid_filter}
use mqtt_server.Topics.Alias.{InboundTopicAliases, inbound_set}
use mqtt_server.Topics.Index.{TopicsIndex, retain_message}
use mqtt_server.Inflight.{
  Inflight, set, is_deferred, is_reserved, increase_receive_quota, decrease_receive_quota,
}
use mqtt_server.Sessions.Acks.{Session, Server, build_ack, fill_in}

-- The client's session and aliases, the index, and `Info.Retained`.
pub record Publisher : Type 0 where
  pub session : Session
  pub aliases : InboundTopicAliases
  pub topics : TopicsIndex
  pub info_retained : ℤ

-- What the hook `OnPublish` returns: a packet, or one of the errors that the handler tells apart.
pub data Verdict : Type 0 where
  accepted : Packet → Verdict
  rejected ignored failed : Verdict
  refused : Code → Verdict

pub record Publishing : Type 0 where
  pub server : Server
  pub inline : Bool
  pub client_id : Bytes
  pub protocol_version : ℕ
  pub maximum_qos : ℕ
  pub retain_available : ℕ
  pub passive_client_disconnect : Bool
  pub may_write : Bytes → Bool
  pub on_publish : Packet → Verdict

pub data PublishEvent : Type 0 where
  answered qos_stored qos_done routed published : Packet → PublishEvent
  retained : Packet → ℤ → PublishEvent
  stopped : Code → PublishEvent

-- The state, the events in order, and whether the handler returns without an error.
abbrev pub Received : Type 0
Received = Publisher × List PublishEvent × Bool

-- `WritePacket`, and its error.
abbrev pub answer : Publishing → Publisher → Packet → Received
answer e p ack = (p, if e.server.writes ack then answered ack ∷ [] else [], e.server.writes ack)

unfoldable pub disconnect_client : Publishing → Publisher → Code → Received
disconnect_client e p code =
    let bad = leb (code_byte Codes.err_unspecified_error) (code_byte code) in
    let out = record no_packet {
      fixed_header = record no_header { type = Types.disconnect };
      reason_code = code_byte code;
      properties =
          if bad
          then record no_properties { reason_string = e.server.reason_text code }
          else no_properties;
    } in
    let (p', written, ok) = answer e p out in
    if e.passive_client_disconnect
    then (p', written, ok)
    else (p', written ++ (stopped code ∷ []), if bad then false else ok)

unfoldable pub minimum : ℤ → ℤ → ℤ
minimum a b =
    if not (eq_ℤ a (pos 0))
    then if not (eq_ℤ b (pos 0)) && ltb_ℤ b a then b else a
    else if not (eq_ℤ b (pos 0))
    then b
    else pos 0

unfoldable pub retain_for : Publishing → Publisher → Packet → Publisher × List PublishEvent
retain_for e p pk =
    let (topics, r) = retain_message p.topics (copy_packet false pk) in
    if (e.retain_available == 0) || pk.ignore then (p, []) else (
      record p { topics = topics; info_retained = pos (length topics.retained) },
      retained pk r ∷ [],
    )

-- Origin, creation and expiry.
unfoldable pub stamp : Publishing → Packet → Packet
stamp e pk =
    let expiry =
      minimum e.server.maximum_message_expiry_interval
        (pos (pk.properties.message_expiry_interval)) in
    record pk {
      origin = e.client_id;
      created = e.server.now;
      expiry = if ltb_ℤ (pos 0) expiry then e.server.now +ℤ expiry else pk.expiry;
    }

-- The topic behind the alias, and the quality of service that the server allows.
unfoldable pub resolve : Publishing → Publisher → Packet → Publisher × Packet
resolve e p pk =
    let capped : Packet = record pk {
      fixed_header = record pk.fixed_header {
        qos = if ltb e.maximum_qos pk.fixed_header.qos then e.maximum_qos else pk.fixed_header.qos;
      };
    } in
    let (aliases, topic) = inbound_set p.aliases pk.properties.topic_alias pk.topic_name in
    if pk.properties.topic_alias_flag && ltb 0 pk.properties.topic_alias
    then (record p { aliases = aliases }, record capped { topic_name = topic })
    else (p, capped)

-- An entry that a publish packet of quality of service 2 must not overwrite.
abbrev pub is_clash : Option Packet → Bool
is_clash none = false
is_clash (some v) =
    (v.fixed_header.type == Types.publish)
    || (v.fixed_header.type == Types.pubrec)
    || is_deferred v
    || is_reserved v

abbrev pub is_pubrec : Option Packet → Bool
is_pubrec none = false
is_pubrec (some v) = v.fixed_header.type == Types.pubrec

abbrev pub entry_of : Publisher → ℕ → Option Packet
entry_of p id = lookup id p.session.inflight.internal

abbrev pub with_inflight : Publisher → Inflight → Publisher
with_inflight p i = record p { session = record p.session { inflight = i } }

abbrev pub in_use : Publishing → Packet → Packet
in_use e pk =
    build_ack e.server pk.packet_id Types.pubrec 0 pk.properties Codes.err_packet_identifier_in_use

-- The acknowledgement of a message that goes through.
unfoldable pub ack_for : Publishing → Packet → Packet
ack_for e pk = fill_in e.server pk (
    build_ack e.server pk.packet_id
      (if pk.fixed_header.qos == 2 then Types.pubrec else Types.puback) 0 pk.properties
      Codes.code_success)

-- A quality of service of 1, or one that the hook set above 2: nothing is stored.
unfoldable pub acknowledge_once : Publishing → Publisher → Packet → Received
acknowledge_once e p pk =
    let ack = ack_for e pk in
    let i = (decrease_receive_quota p.session.inflight).0 in
    let one = pk.fixed_header.qos == 1 in
    let done =
      if length ack.payload == 0
      then record ack { payload = pk.payload; topic_name = pk.topic_name; origin = pk.origin }
      else ack in
    let hook : List PublishEvent = if one then qos_done done ∷ [] else [] in
    if e.server.writes ack
    then (
      with_inflight p (if one then (increase_receive_quota i).0 else i),
      answered ack ∷ (hook ++ (routed pk ∷ published pk ∷ [])),
      true,
    )
    else (with_inflight p i, [], false)

-- A quality of service of 2: the acknowledgement is stored under the packet id, if it is not taken.
unfoldable pub acknowledge_twice : Publishing → Publisher → Packet → Received
acknowledge_twice e p pk =
    let ack = ack_for e pk in
    let i = (decrease_receive_quota p.session.inflight).0 in
    let (stored, fresh) = set i ack in
    let session : Session = record {
      inflight = stored;
      info_inflight = if fresh then p.session.info_inflight +ℤ pos 1 else p.session.info_inflight;
    } in
    let hook : List PublishEvent = if fresh then qos_stored ack ∷ [] else [] in
    if is_clash (lookup pk.packet_id i.internal)
    then answer e (with_inflight p (increase_receive_quota i).0) (in_use e pk)
    else if e.server.writes ack
    then (
      record p { session = session },
      hook ++ (answered ack ∷ routed pk ∷ published pk ∷ []),
      true,
    )
    else (record p { session = session }, hook, false)

-- Behind the hook.
unfoldable pub pass_on : Publishing → Publisher → Packet → Received
pass_on e p pk =
    let (p', hook) = if pk.fixed_header.retain then retain_for e p pk else (p, []) in
    let (p'', events, ok) =
      if (pk.fixed_header.qos == 0) || e.inline
      then (p', routed pk ∷ published pk ∷ [], true)
      else if pk.fixed_header.qos == 2
      then acknowledge_twice e p' pk
      else acknowledge_once e p' pk in
    (p'', hook ++ events, ok)

-- The cases of the error of the hook.
unfoldable pub judge : Publishing → Publisher → Packet → Verdict → Received
judge e p pk (accepted pkx) = pass_on e p pkx
judge e p pk rejected = (p, [], true)
judge e p pk ignored = pass_on e p (record pk { ignore = true })
judge e p pk failed = pass_on e p pk
judge e p pk (refused code) =
    if (e.protocol_version == 5) && ltb 0 pk.fixed_header.qos
    then answer e p (build_ack e.server pk.packet_id Types.puback 0 pk.properties code)
    else pass_on e p pk

-- Without the right to write to the topic.
unfoldable pub refuse_publish : Publishing → Publisher → Packet → Received
refuse_publish e p pk =
    if pk.fixed_header.qos == 0
    then (p, [], true)
    else if not (e.protocol_version == 5)
    then disconnect_client e p Codes.err_not_authorized
    else answer e p (
        build_ack e.server pk.packet_id
          (if pk.fixed_header.qos == 2 then Types.pubrec else Types.puback) 0 pk.properties
          Codes.err_not_authorized)

unfoldable pub process_publish : Publishing → Publisher → Packet → Received
process_publish e p pk =
    let stamped = stamp e pk in
    let (p', out) = resolve e p stamped in
    if not e.inline && not (is_valid_filter pk.topic_name true)
    then (p, [], true)
    else if eq_ℤ (p.session.inflight.receive_quota) (pos 0)
    then disconnect_client e p Codes.err_receive_maximum
    else if not e.inline && not (e.may_write pk.topic_name)
    then refuse_publish e p pk
    else if not e.inline && is_pubrec (entry_of p pk.packet_id)
    then answer e p (in_use e stamped)
    else judge e p' out (e.on_publish out)
