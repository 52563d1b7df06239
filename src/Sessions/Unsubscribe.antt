-- ===== src/Sessions/Unsubscribe.antt =====
-- server.go: `processUnsubscribe` and `UnsubscribeClient`. The log is left out; the calls of hooks and
-- the packet that is written are events.
pub mod Gone
pub mod Answer
mod Tests
use mqtt_server.Prelude.{
  ℕ, ◌≡◌, Bool, true, false, not, Option, none, some, List, [], ◌∷◌, map, leb, if◌then◌else◌,
}
use mqtt_server.Prelude.Int.{ℤ, pos, ◌-ℤ◌}
use mqtt_server.Prelude.Maps.{Map, delete, string_eq}
use mqtt_server.Packets.Codec.{Bytes}
use mqtt_server.Packets.Codes
use mqtt_server.Packets.Codes.{Code, code_byte}
use mqtt_server.Packets.Types
use mqtt_server.Packets.Properties.{no_properties}
use mqtt_server.Packets.Packet.{Packet, Subscription, no_packet, no_header}
use mqtt_server.Topics.Index.{TopicsIndex, unsubscribe}
use mqtt_server.Inflight.{Inflight, get}

-- The index and the count of the server, and the client's own subscriptions by their filter.
pub record Subscribed : Type 0 where
  pub topics : TopicsIndex
  pub info_subscriptions : ℤ
  pub subscriptions : Map Bytes Subscription

pub data UnsubscribeEvent : Type 0 where
  unsubscribed written : Packet → UnsubscribeEvent

-- The body of the loop, with the reason code of the filter.
unfoldable pub unsubscribe_one : Bytes → Bytes → Subscribed → Subscribed × Code
unsubscribe_one client filter s =
    let (topics, q) = unsubscribe s.topics filter client in
    (
      record {
        topics = topics;
        info_subscriptions = if q then s.info_subscriptions -ℤ pos 1 else s.info_subscriptions;
        subscriptions = delete filter s.subscriptions;
      },
      if q then Codes.code_success else Codes.code_no_subscription_existed,
    )

unfoldable pub unsubscribe_each : Bytes → List Subscription → Subscribed → Subscribed × List Code
unsubscribe_each client [] s = (s, [])
unsubscribe_each client (sub ∷ subs) s =
    let (s', code) = unsubscribe_one client sub.filter s in
    let (s'', codes) = unsubscribe_each client subs s' in (s'', code ∷ codes)

-- Every filter is answered with the code, and nothing is done.
unfoldable pub refuse_each : Code → List Subscription → List Code
refuse_each code [] = []
refuse_each code (sub ∷ subs) = code ∷ refuse_each code subs

-- The acknowledgement.
unfoldable pub unsuback : (Code → Bytes) → Packet → Code → List Code → Packet
unsuback reason_text pk code codes =
    let own = record no_properties { user = pk.properties.user } in
    record no_packet {
      fixed_header = record no_header { type = Types.unsuback };
      packet_id = pk.packet_id;
      reason_codes = map code_byte codes;
      properties =
          if leb (code_byte Codes.err_unspecified_error) (code_byte code)
          then record own { reason_string = reason_text code }
          else own;
    }

-- `on_unsubscribe` is the hook that may change the packet, behind the search for its id.
unfoldable pub process_unsubscribe :
    (Code → Bytes)
    → (Packet → Packet)
    → Bytes
    → Inflight
    → Packet
    → Subscribed
    → Subscribed × List UnsubscribeEvent
process_unsubscribe reason_text on_unsubscribe client inflight pk₀ s =
    let pk = on_unsubscribe pk₀ in
    if (get inflight pk₀.packet_id).1
    then (
      s,
      unsubscribed pk
          ∷ written (
              unsuback reason_text pk Codes.err_packet_identifier_in_use
                (refuse_each Codes.err_packet_identifier_in_use pk.filters))
          ∷ [],
    )
    else (
      (unsubscribe_each client pk.filters s).0,
      unsubscribed pk
          ∷ written
              (unsuback reason_text pk Codes.code_success (unsubscribe_each client pk.filters s).1)
          ∷ [],
    )

-- The loop of `UnsubscribeClient` over the filters that the client had.
unfoldable pub unsubscribe_filters : Bytes → Map Bytes Subscription → Subscribed → Subscribed
unsubscribe_filters client [] s = s
unsubscribe_filters client ((k, v) ∷ m) s =
    let (topics, q) = unsubscribe s.topics k client in
    unsubscribe_filters client m (record s {
      topics = topics;
      info_subscriptions = if q then s.info_subscriptions -ℤ pos 1 else s.info_subscriptions;
    })

abbrev filters_of : Map Bytes Subscription → List Subscription
filters_of [] = []
filters_of ((k, v) ∷ m) = v ∷ filters_of m

unfoldable pub unsubscribe_client : Bytes → Bool → Subscribed → Subscribed × List UnsubscribeEvent
unsubscribe_client client is_taken_over s =
    let emptied = record s { subscriptions = [] } in
    if is_taken_over then (emptied, []) else (
      unsubscribe_filters client s.subscriptions emptied,
      unsubscribed (record no_packet {
        fixed_header = record no_header { type = Types.unsubscribe };
        filters = filters_of s.subscriptions;
      })
          ∷ [],
    )
