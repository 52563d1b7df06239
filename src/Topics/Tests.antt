-- ===== src/Topics/Tests.antt =====
-- Runs of the topic index, and the theorems at concrete inputs.
use mqtt_server.Prelude.{
  length, ltb, if◌then◌else◌, some, none, ◌≡◌, ◌≢◌, ◌↔◌, refl, Bool, true, false, List, [], ◌∷◌,
  ◌++◌, arith, bytes_eq,
}
use mqtt_server.Prelude.Maps.{lookup, insert, size, nat_eq, string_eq}
use mqtt_server.Packets.Codec.{Bytes}
use mqtt_server.Packets.Packet.{Packet, no_packet, filter_only}
use mqtt_server.Topics.Alias.{new_outbound_topic_aliases}
use mqtt_server.Topics.Alias.Laws.{IsValid}
use mqtt_server.Topics.Filter.{
  isolate_particle, keys, hash, plus, contains_byte, is_valid_filter, is_shared_filter,
}
use mqtt_server.Topics.Filter.Levels.{levels}
use mqtt_server.Topics.Filter.Valid.{is_valid_filter_wildcards}
use mqtt_server.Topics.Trie.{InlineSubscription, child_at, set_at, put_child, int_eq}
use mqtt_server.Topics.Index.{
  retain_message, TopicsIndex, scan_subscribers, gather, new_topics_index, subscribe, unsubscribe,
  subscribers, inline_subscribe,
}
use mqtt_server.Topics.Index.Matching.{matches}
use mqtt_server.Topics.Trie.Laws.{vals}
use mqtt_server.Topics.Index.Routing.{found, served_at}
use mqtt_server.Topics.Index.Found.{PathFor}
use mqtt_server.Topics.Index.Changes.{subscribers_lem, subscribe-found}
use mqtt_server.Topics.Index.Retained.{HasSameSubscriptions, retain_message_effect}
use mqtt_server.Topics.Index.Removal.{unsubscribe-found}

-- `a/b`, `a/+`, `a/#`, and two clients.
abbrev a_b : Bytes
a_b = b'a' ∷ b'/' ∷ b'b' ∷ []

abbrev a_plus : Bytes
a_plus = b'a' ∷ b'/' ∷ b'+' ∷ []

abbrev a_hash : Bytes
a_hash = b'a' ∷ b'/' ∷ b'#' ∷ []

abbrev ann : Bytes
ann = b'1' ∷ []

abbrev bob : Bytes
bob = b'2' ∷ []

abbrev ann_at : Bytes → TopicsIndex
ann_at filter = (subscribe new_topics_index ann (filter_only filter)).0

isolate_particle_run : ◌≡◌ {A = Bytes × Bool} (isolate_particle a_b 0) (b'a' ∷ [], true)
unfolding isolate_particle
isolate_particle_run = refl

subscribe_run : found ann (subscribers (ann_at a_plus) a_b) ≡ true
unfolding subscribe subscribers keys lookup is_shared_filter scan_subscribers child_at set_at
    put_child bytes_eq gather insert
subscribe_run = refl

-- A wildcard that is only a part of a level is accepted.
is_valid_filter_partial : is_valid_filter (b'a' ∷ b'#' ∷ []) false ≡ true
unfolding is_valid_filter bytes_eq
is_valid_filter_partial = refl

-- `+/#` does not reach the parent level `a`, where `a/#` does.
matches_parent : matches (levels (b'+' ∷ b'/' ∷ b'#' ∷ [])) (levels (b'a' ∷ [])) ≡ false
unfolding matches levels bytes_eq
matches_parent = refl

matches_parent_named : matches (levels a_hash) (levels (b'a' ∷ [])) ≡ true
unfolding matches levels bytes_eq
matches_parent_named = refl

abbrev inline_at : Bytes → InlineSubscription
inline_at filter = record { subscription = filter_only filter; handler = 0 }

-- An inline subscription to `a/#` is found for `a/b`, but not for `a`.
inline_below :
    size
      (subscribers
        (inline_subscribe new_topics_index (inline_at a_hash)).0
        a_b).inline_subscriptions
    ≡ 1
unfolding inline_subscribe subscribers keys lookup scan_subscribers child_at set_at put_child
    bytes_eq gather insert isolate_particle
inline_below = refl

inline_parent :
    size
      (subscribers
        (inline_subscribe new_topics_index (inline_at a_hash)).0
        (b'a' ∷ [])).inline_subscriptions
    ≡ 0
unfolding inline_subscribe subscribers keys lookup scan_subscribers child_at set_at put_child
    bytes_eq gather insert isolate_particle
inline_parent = refl

subscribers_lem_example :
    (found ann (subscribers (ann_at a_plus) a_b) ≡ true)
    ↔ PathFor a_b ann (levels a_b) (ann_at a_plus).root
subscribers_lem_example = subscribers_lem (ann_at a_plus) a_b ann (omega arith)

subscribe-found_example : found ann (subscribers (ann_at a_plus) a_b) ≡ true
unfolding is_shared_filter matches levels bytes_eq
subscribe-found_example =
    subscribe-found new_topics_index ann (filter_only a_plus) a_b refl (omega arith) refl refl

unsubscribe-found_example :
    (found ann (subscribers (unsubscribe (ann_at a_plus) a_plus ann).0 a_b) ≡ true) ↔ (
      (path : List Bytes) × (path ≢ levels a_plus)
      × (matches path (levels a_b) ≡ true)
      × (served_at a_b ann (ann_at a_plus).root path ≡ true))
unfolding is_shared_filter
unsubscribe-found_example = unsubscribe-found (ann_at a_plus) a_plus ann a_b refl (omega arith)

is_valid_filter_wildcards_example :
    (contains_byte a_hash hash ≡ true
      → (before : Bytes) × (a_hash ≡ before ++ (hash ∷ [])) × (contains_byte before hash ≡ false))
    × (false ≡ true → (contains_byte a_hash plus ≡ false) × (contains_byte a_hash hash ≡ false))
unfolding is_valid_filter bytes_eq
is_valid_filter_wildcards_example = is_valid_filter_wildcards a_hash false refl

new_aliases-IsValid : IsValid (new_outbound_topic_aliases 5)
unfolding lookup
new_aliases-IsValid = record {
  bounded = omega arith;
  uint16 = omega arith;
  range = λ t i e. absurd (ground arith);
  injective = λ t u i e f. absurd (ground arith);
}

abbrev a_message : Packet
a_message = record no_packet { topic_name = a_b; payload = 1 ∷ [] }

retain_message_effect_example :
    HasSameSubscriptions
      (vals (levels a_plus) (retain_message (ann_at a_plus) a_message).0.root)
      (vals (levels a_plus) (ann_at a_plus).root)
    × (found ann (subscribers (retain_message (ann_at a_plus) a_message).0 a_b)
        ≡ found ann (subscribers (ann_at a_plus) a_b))
    × (lookup a_b (retain_message (ann_at a_plus) a_message).0.retained ≡ (
        if bytes_eq a_b a_b
        then (if ltb 0 (length (a_message).payload) then some a_message else none)
        else lookup a_b (ann_at a_plus).retained))
retain_message_effect_example =
    retain_message_effect (ann_at a_plus) a_message (levels a_plus) a_b ann a_b (omega arith)
