-- ===== src/Sessions/Outgoing.antt =====
-- server.go: the copy of a message that `publishToClient` makes for one subscriber, and the state that
-- it works on.
use mqtt_server.Prelude.{
  ℕ, ◌%◌, ◌^◌, Bool, true, false, not, ◌&&◌, ◌||◌, Option, none, some, List, [], ◌∷◌, ltb, ◌==◌,
  if◌then◌else◌, length,
}
use mqtt_server.Prelude.Int.{ℤ, leb_ℤ}
use mqtt_server.Prelude.Maps.{Map}
use mqtt_server.Packets.Codec.{Bytes}
use mqtt_server.Packets.Codes.{Code}
use mqtt_server.Packets.Packet.{Packet, Subscription, copy_packet}
use mqtt_server.Topics.Alias.{OutboundTopicAliases, outbound_set}
use mqtt_server.Inflight.{Inflight}

-- The client's state, and the server's counts.
pub record Recipient : Type 0 where
  pub inflight : Inflight
  pub packet_id : ℕ
  pub aliases : OutboundTopicAliases
  pub info_inflight : ℤ
  pub inflight_dropped : ℤ
  pub messages_dropped : ℤ

-- The capabilities, the client's properties and the time, and what lies outside: whether the hooks
-- let the client read a topic, whether a write succeeds and whether the queue has room.
pub record Setting : Type 0 where
  pub maximum_qos : ℕ
  pub maximum_inflight : ℕ
  pub maximum_packet_id : ℕ
  pub receive_maximum : ℤ
  pub is_fixed_packet_info : Bool
  pub client_id : Bytes
  pub protocol_version : ℕ
  pub topic_alias_maximum : ℕ
  pub online : Bool
  pub now : ℤ
  pub may_read : Bytes → Bool
  pub writes : Packet → Bool
  pub queue_has_room : Bool

pub data DeliveryEvent : Type 0 where
  qos_publish queued written publish_dropped packet_id_exhausted : Packet → DeliveryEvent

-- The state, the events in order, the packet that is returned, and the error if there is one.
pub record Delivery : Type 0 where
  pub after : Recipient
  pub events : List DeliveryEvent
  pub packet : Packet
  pub error : Option Code

-- `sort.Ints`
unfoldable insert_int : ℤ → List ℤ → List ℤ
insert_int v [] = v ∷ []
insert_int v (w ∷ ws) = let rest = insert_int v ws in if leb_ℤ v w then v ∷ w ∷ ws else w ∷ rest

unfoldable pub sort_ints : List ℤ → List ℤ
unfolding insert_int
sort_ints [] = []
sort_ints (v ∷ vs) = insert_int v (sort_ints vs)

abbrev values_of : Map Bytes ℤ → List ℤ
values_of [] = []
values_of ((k, v) ∷ m) = v ∷ values_of m

-- `if len(sub.Identifiers) > 0`
unfoldable pub set_identifiers : Option (Map Bytes ℤ) → Packet → Packet
set_identifiers none out = out
set_identifiers (some []) out = out
set_identifiers (some (kv ∷ ids)) out = record out {
  properties = record out.properties { subscription_identifier = sort_ints (values_of (kv ∷ ids)) };
}

abbrev min_qos : ℕ → ℕ → ℕ
min_qos qos max = if ltb max qos then max else qos

-- The copy for the subscriber: its retain flag, its identifiers and its quality of service.
unfoldable pub shape_message : Setting → Subscription → Packet → Packet
shape_message s sub pk =
    let out = copy_packet false pk in
    let cleared =
      not sub.fwd_retained_flag
      && (((s.protocol_version == 5) && not sub.retain_as_published) || ltb s.protocol_version 5) in
    let out₁ = record out {
      fixed_header = record out.fixed_header {
        retain = if cleared then false else out.fixed_header.retain;
      };
    } in
    let out₂ = set_identifiers sub.identifiers out₁ in
    record out₂ {
      fixed_header = record out₂.fixed_header {
        qos = min_qos (min_qos (out₂.fixed_header.qos) sub.qos) s.maximum_qos;
      };
    }

-- `if cl.Properties.Props.TopicAliasMaximum > 0`
unfoldable pub apply_alias :
    Setting → OutboundTopicAliases → Packet → Packet → OutboundTopicAliases × Packet
apply_alias s aliases pk out =
    let (aliases', alias, existed) = outbound_set aliases pk.topic_name in
    let aliased = record out { properties = record out.properties { topic_alias = alias } } in
    let flagged = record out {
      properties = record out.properties { topic_alias = alias; topic_alias_flag = true };
      topic_name = if existed then [] else out.topic_name;
    } in
    if s.topic_alias_maximum == 0
    then (aliases, out)
    else if alias == 0
    then (aliases', aliased)
    else (aliases', flagged)

-- The id, and the topic, payload and origin of the message where the alias took the topic away.
unfoldable pub number_message : Setting → ℕ → Packet → Packet → Packet
number_message s id pk out =
    if (length out.topic_name == 0) && ltb 0 (length pk.topic_name) && s.is_fixed_packet_info
    then record out {
      packet_id = id % 2 ^ 16;
      payload = pk.payload;
      topic_name = pk.topic_name;
      origin = pk.origin;
    }
    else record out { packet_id = id % 2 ^ 16 }
