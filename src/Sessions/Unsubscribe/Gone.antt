-- ===== src/Sessions/Unsubscribe/Gone.antt =====
-- server.go: whom `Subscribers` finds behind `processUnsubscribe` and `UnsubscribeClient`.
use mqtt_server.Prelude.{
  ◌<◌, ◌≡◌, ◌↔◌, refl, ap, ◌∙◌, Bool, true, false, not, ◌&&◌, ◌||◌, List, [], ◌∷◌, arith,
  if◌then◌else◌, length,
}
use mqtt_server.Prelude.Maps.{Map}
use mqtt_server.Packets.Codec.{Bytes}
use mqtt_server.Packets.Codes.{Code}
use mqtt_server.Packets.Packet.{Packet, Subscription}
use mqtt_server.Topics.Filter.{is_shared_filter}
use mqtt_server.Topics.Filter.Levels.{levels}
use mqtt_server.Topics.Trie.Laws.{path_eq}
use mqtt_server.Topics.Index.{TopicsIndex, subscribers}
use mqtt_server.Topics.Index.Matching.{matches}
use mqtt_server.Topics.Index.Routing.{found, served_at}
use mqtt_server.Topics.Index.Changes.{subscribers_lem}
use mqtt_server.Topics.Index.Removal.{unsubscribe_any-serves}
use mqtt_server.Inflight.{Inflight, get}
use mqtt_server.Sessions.Unsubscribe.{
  Subscribed, unsubscribe_one, unsubscribe_each, process_unsubscribe,
}

-- Does the path belong to one of the filters that are not shared?
abbrev pub is_listed : List Bytes → List Bytes → Bool
is_listed path [] = false
is_listed path (filter ∷ filters) =
    (not (is_shared_filter filter) && path_eq path (levels filter)) || is_listed path filters

abbrev pub names : List Subscription → List Bytes
names [] = []
names (sub ∷ subs) = sub.filter ∷ names subs

abbrev pub keys_of : Map Bytes Subscription → List Bytes
keys_of [] = []
keys_of ((k, v) ∷ m) = k ∷ keys_of m

joined :
    (a b old : Bool)
    → (if b then false else (if a then false else old)) ≡ (if a || b then false else old)
joined a b old = ground arith

unsubscribe_each-serves :
    (client topic : Bytes) (path : List Bytes) (subs : List Subscription) (s : Subscribed)
    → served_at topic client ((unsubscribe_each client subs s).0.topics.root) path
      ≡ (if is_listed path (names subs) then false else served_at topic client (s.topics.root) path)
unfolding unsubscribe_each unsubscribe_one
unsubscribe_each-serves client topic path [] s = refl
unsubscribe_each-serves client topic path (sub ∷ subs) s =
    unsubscribe_each-serves client topic path subs (unsubscribe_one client sub.filter s).0
    ∙ ap (λ old. if is_listed path (names subs) then false else old)
        (unsubscribe_any-serves s.topics sub.filter client topic path)
    ∙ joined _ (is_listed path (names subs)) _

-- The paths on which the client is found.
abbrev pub Remaining : Bytes → Bytes → TopicsIndex → List Bytes → Type 0
Remaining client topic x filters =
    (path : List Bytes) × (is_listed path filters ≡ false)
    × (matches path (levels topic) ≡ true)
    × (served_at topic client x.root path ≡ true)

-- An index that serves no path of the filters, and the other paths as before.
found-Remaining :
    (client topic : Bytes) (x y : TopicsIndex) (filters : List Bytes)
    → 0 < length topic
    → ((path : List Bytes)
        → served_at topic client y.root path
          ≡ (if is_listed path filters then false else served_at topic client x.root path))
    → (found client (subscribers y topic) ≡ true) ↔ Remaining client topic x filters
found-Remaining client topic x y filters h serves =
    let (out, into) = subscribers_lem y topic client h in
    (
      λ e. let (path, m, s) = out e in split path m s (is_listed path filters) refl,
      λ (path, l, m, s). into (path, m, serves path ∙ rw l s),
    )
  where
    split :
        (path : List Bytes)
        → matches path (levels topic) ≡ true
        → served_at topic client y.root path ≡ true
        → (b : Bool) → is_listed path filters ≡ b
        → Remaining client topic x filters
    split path m s true l = absurd (ground (arith, serves path))
    split path m s false l = (path, l, m, ground (arith, serves path))

-- After processUnsubscribe of a packet whose id is not in use, Subscribers finds the client for a topic
-- that is not empty exactly if, before, a path that belongs to no filter of the packet, as the hook
-- leaves it, that is not shared matched the topic and held a subscription of the client that is not
-- excluded.
pub process_unsubscribe-found :
    (reason_text : Code → Bytes) (on_unsubscribe : Packet → Packet) (client topic : Bytes)
    (inflight : Inflight) (pk : Packet) (s : Subscribed)
    → (get inflight pk.packet_id).1 ≡ false
    → 0 < length topic
    → (found client (
          subscribers
            ((process_unsubscribe reason_text on_unsubscribe client inflight pk s).0.topics)
            topic)
        ≡ true)
      ↔ Remaining client topic s.topics (names (on_unsubscribe pk).filters)
unfolding process_unsubscribe
process_unsubscribe-found reason_text on_unsubscribe client topic inflight pk s unused h =
    rw unused (
      found-Remaining client topic s.topics _ _ h
        (λ path. unsubscribe_each-serves client topic path (on_unsubscribe pk).filters s))
