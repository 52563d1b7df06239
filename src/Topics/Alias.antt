-- ===== src/Topics/Alias.antt =====
-- topics.go: the topic aliases of a client, inbound and outbound.
pub mod Laws
use mqtt_server.Prelude.{
  ℕ, ◌+◌, ◌%◌, ◌^◌, Bool, true, false, ◌&&◌, Option, none, some, List, [], ◌∷◌, ltb, ◌==◌, bytes_eq,
  if◌then◌else◌,
}
use mqtt_server.Prelude.Maps.{Map, lookup, insert, nat_eq, string_eq}
use mqtt_server.Packets.Codec.{Bytes}

pub record InboundTopicAliases : Type 0 where
  pub internal : Map ℕ Bytes
  pub maximum : ℕ

abbrev pub new_inbound_topic_aliases : ℕ → InboundTopicAliases
new_inbound_topic_aliases maximum = record { internal = []; maximum = maximum }

-- `existing, ok := a.internal[id]; ok && topic == ""`
unfoldable pub inbound_set : InboundTopicAliases → ℕ → Bytes → InboundTopicAliases × Bytes
inbound_set a id topic =
    if a.maximum == 0
    then (a, topic)
    else let store : InboundTopicAliases × Bytes =
        (record a { internal = insert id topic a.internal }, topic) in
      elim (lookup id a.internal) [
        | none ↦ store
        | some existing ↦ if bytes_eq topic [] then (a, existing) else store
      ]

pub record OutboundTopicAliases : Type 0 where
  pub internal : Map Bytes ℕ
  pub cursor : ℕ
  pub maximum : ℕ

abbrev pub new_outbound_topic_aliases : ℕ → OutboundTopicAliases
new_outbound_topic_aliases maximum = record { internal = []; cursor = 0; maximum = maximum }

-- The alias, and whether it existed. `cursor` is a uint32, an alias a uint16.
unfoldable pub outbound_set : OutboundTopicAliases → Bytes → OutboundTopicAliases × ℕ × Bool
outbound_set a topic = if a.maximum == 0 then (a, 0, false) else elim (lookup topic a.internal) [
  | some i ↦ (a, i, true)
  | none ↦ if ltb a.maximum ((a.cursor + 1) % 2 ^ 32) then (a, 0, false) else (
    record a {
      internal = insert topic ((a.cursor % 2 ^ 16 + 1) % 2 ^ 16) a.internal;
      cursor = (a.cursor + 1) % 2 ^ 32;
    },
    (a.cursor % 2 ^ 16 + 1) % 2 ^ 16,
    false,
  )
]
