-- ===== src/Sessions/Unsubscribe/Tests.antt =====
-- Runs of `processUnsubscribe` and `UnsubscribeClient`, and the theorems at concrete inputs.
use mqtt_server.Prelude.{◌≡◌, ◌↔◌, refl, true, [], ◌∷◌, arith, bytes_eq}
use mqtt_server.Prelude.Int.{pos, ◌-ℤ◌}
use mqtt_server.Prelude.Maps.{lookup, insert, string_eq}
use mqtt_server.Packets.Codec.{Bytes}
use mqtt_server.Packets.Codes
use mqtt_server.Packets.Codes.{Code, code_byte}
use mqtt_server.Packets.Packet.{Packet, no_packet, no_header, filter_only}
use mqtt_server.Topics.Filter.{is_shared_filter, isolate_particle, keys}
use mqtt_server.Topics.Filter.Levels.{levels}
use mqtt_server.Topics.Trie.{new_particle, set_at, seek, child_at, put_child}
use mqtt_server.Topics.Index.{subscribers, unsubscribe}
use mqtt_server.Topics.Index.Routing.{found}
use mqtt_server.Inflight.{new_inflights, get}
use mqtt_server.Sessions.Unsubscribe.{
  Subscribed, unsubscribed, written, process_unsubscribe, unsubscribe_each, unsubscribe_one,
}
use mqtt_server.Sessions.Unsubscribe.Gone.{Remaining, process_unsubscribe-found}
use mqtt_server.Sessions.Unsubscribe.Answer.{IsAnswered, process_unsubscribe-IsAnswered}

abbrev ann : Bytes
ann = b'n' ∷ []

abbrev bob : Bytes
bob = b'o' ∷ []

abbrev filter_a : Bytes
filter_a = b'a' ∷ []

-- Ann has subscribed to one filter.
abbrev ann_there : Subscribed
ann_there = record {
  topics = record {
    retained = [];
    root =
        set_at (levels filter_a)
          (λ v. record v { subscriptions = insert ann (filter_only filter_a) v.subscriptions })
          new_particle;
  };
  info_subscriptions = pos 1;
  subscriptions = (filter_a, filter_only filter_a) ∷ [];
}

abbrev request : Packet
request = record no_packet {
  fixed_header = record no_header { type = 10; qos = 1 };
  packet_id = 9;
  filters = filter_only filter_a ∷ [];
}

no_text : Code → Bytes
no_text code = []

process_unsubscribe-found_example :
    (found ann (
        subscribers
          ((process_unsubscribe no_text (λ pk. pk) ann new_inflights request ann_there).0.topics)
          filter_a)
      ≡ true)
    ↔ Remaining ann filter_a (ann_there).topics (filter_a ∷ [])
process_unsubscribe-found_example =
    process_unsubscribe-found no_text (λ pk. pk) ann filter_a new_inflights request ann_there
      (unfold get lookup in refl) (omega arith)

process_unsubscribe-IsAnswered_example :
    (ack : Packet) × ((process_unsubscribe no_text (λ pk. pk) ann new_inflights request ann_there).1
      ≡ unsubscribed request ∷ written ack ∷ [])
    × IsAnswered request ann_there
        (process_unsubscribe no_text (λ pk. pk) ann new_inflights request ann_there).0
        ack
    × ((get new_inflights 9).1 ≡ true
        → (process_unsubscribe no_text (λ pk. pk) ann new_inflights request ann_there).0
          ≡ ann_there)
process_unsubscribe-IsAnswered_example =
    process_unsubscribe-IsAnswered no_text (λ pk. pk) ann new_inflights request ann_there

-- Bob never subscribed, and is told that a subscription went; the server counts one less.
never_subscribed :
    (unsubscribe_each bob (filter_only filter_a ∷ []) ann_there).1 ≡ Codes.code_success ∷ []
unfolding unsubscribe_each unsubscribe_one unsubscribe keys isolate_particle is_shared_filter levels
    set_at seek child_at put_child bytes_eq
never_subscribed = refl

never_subscribed_count :
    (unsubscribe_each bob (filter_only filter_a ∷ []) ann_there).0.info_subscriptions ≡ pos 0
unfolding unsubscribe_each unsubscribe_one unsubscribe keys isolate_particle is_shared_filter levels
    set_at seek child_at put_child bytes_eq ◌-ℤ◌
never_subscribed_count = refl
