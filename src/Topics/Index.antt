-- ===== src/Topics/Index.antt =====
-- topics.go: `TopicsIndex`, its subscriptions, its retained messages, and the search for subscribers.
pub mod Matching
pub mod Routing
pub mod Found
pub mod Changes
pub mod Removal
pub mod Retained
use mqtt_server.Prelude.{
  ℕ, zero, suc, ◌+◌, Bool, true, false, not, ◌&&◌, ◌||◌, Option, none, some, List, [], ◌∷◌, ◌++◌,
  ltb, ◌==◌, bytes_eq, if◌then◌else◌, length,
}
use mqtt_server.Prelude.Int.{ℤ, pos, negsuc}
use mqtt_server.Prelude.Maps.{Map, lookup, insert, delete, size, is_some, string_eq}
use mqtt_server.Packets.Codec.{Bytes}
use mqtt_server.Packets.Packet.{Packet, Subscription, merge}
use mqtt_server.Topics.Filter.{
  isolate_particle, equal_fold, share_prefix, is_shared_filter, keys, plus, hash,
}
use mqtt_server.Topics.Trie.{
  Values, Particle, particle, values, children, new_particle, InlineSubscription, int_eq, child_at,
  set_at, seek, trim_at, or_new, shared_add, shared_delete, shared_get, SharedSubscriptions,
}

pub record TopicsIndex : Type 0 where
  pub retained : Map Bytes Packet
  pub root : Particle

abbrev pub new_topics_index : TopicsIndex
new_topics_index = record { retained = []; root = new_particle }

-- The values of the particle at a path, if it is there.
abbrev pub values_at : List Bytes → Particle → Option Values
values_at ks p = elim (seek ks p) [ none ↦ none | some q ↦ some (values q) ]

-- A test on the particle that `set` returns: one that is new holds nothing.
abbrev holds_at : List Bytes → (Values → Bool) → Particle → Bool
holds_at ks test p = elim (values_at ks p) [ none ↦ false | some v ↦ test v ]

add_inline : InlineSubscription → Values → Values
add_inline s v = record v {
  inline_subscriptions = insert s.subscription.identifier s v.inline_subscriptions;
}

delete_inline : ℤ → Values → Values
delete_inline id v = record v { inline_subscriptions = delete id v.inline_subscriptions }

unfoldable pub inline_subscribe : TopicsIndex → InlineSubscription → TopicsIndex × Bool
unfolding add_inline
inline_subscribe x s =
    let ks = keys s.subscription.filter 0 in
    (
      record x { root = set_at ks (add_inline s) x.root },
      not (
          holds_at ks (λ v. is_some (lookup s.subscription.identifier v.inline_subscriptions))
            x.root),
    )

-- The source calls `trim` only if no inline subscription is left; with one left `trim` does nothing.
unfoldable pub inline_unsubscribe : TopicsIndex → ℤ → Bytes → TopicsIndex × Bool
unfolding delete_inline
inline_unsubscribe x id filter =
    let ks = keys filter 0 in
    if is_some (seek ks x.root)
    then (record x { root = trim_at ks (delete_inline id) x.root }, true)
    else (x, false)

add_shared : Bytes → Bytes → Subscription → Values → Values
add_shared group client s v = record v { shared = shared_add v.shared group client s }

add_subscription : Bytes → Subscription → Values → Values
add_subscription client s v = record v { subscriptions = insert client s v.subscriptions }

unfoldable pub subscribe : TopicsIndex → Bytes → Subscription → TopicsIndex × Bool
unfolding add_shared add_subscription
subscribe x client s =
    if is_shared_filter s.filter
    then (let group = (isolate_particle s.filter 1).0 in
        let ks = keys s.filter 2 in
        (
          record x { root = set_at ks (add_shared group client s) x.root },
          not (holds_at ks (λ v. is_some (shared_get v.shared group client)) x.root),
        ))
    else (let ks = keys s.filter 0 in
        (
          record x { root = set_at ks (add_subscription client s) x.root },
          not (holds_at ks (λ v. is_some (lookup client v.subscriptions)) x.root),
        ))

delete_shared : Bytes → Bytes → Values → Values
delete_shared group client v = record v { shared = shared_delete v.shared group client }

delete_subscription : Bytes → Values → Values
delete_subscription client v = record v { subscriptions = delete client v.subscriptions }

unfoldable pub unsubscribe : TopicsIndex → Bytes → Bytes → TopicsIndex × Bool
unfolding delete_shared delete_subscription
unsubscribe x filter client =
    let shared = is_shared_filter filter in
    let ks = keys filter (if shared then 2 else 0) in
    if is_some (seek ks x.root)
    then (
      record x {
        root =
            trim_at ks
              (if shared
                then delete_shared (isolate_particle filter 1).0 client
                else delete_subscription client)
              x.root;
      },
      true,
    )
    else (x, false)

set_retain_path : Bytes → Values → Values
set_retain_path path v = record v { retain_path = path }

-- Was there a retained message with a payload under the topic?
abbrev was_retained : Option Packet → Bool
was_retained none = false
was_retained (some pke) = ltb 0 (length pke.payload) && pke.fixed_header.retain

-- One for a message that is kept, minus one for one that is removed.
unfoldable pub retain_message : TopicsIndex → Packet → TopicsIndex × ℤ
unfolding set_retain_path
retain_message x pk =
    let ks = keys pk.topic_name 0 in
    let made = set_at ks (λ v. v) x.root in
    if ltb 0 (length pk.payload)
    then (
      record {
        retained = insert pk.topic_name pk x.retained;
        root = set_at ks (set_retain_path pk.topic_name) x.root;
      },
      pos 1,
    )
    else (
      record {
        retained = delete pk.topic_name x.retained;
        root = trim_at ks (set_retain_path []) made;
      },
      if was_retained (lookup pk.topic_name x.retained) then negsuc 0 else pos 0,
    )

pub record Subscribers : Type 0 where
  pub shared : SharedSubscriptions
  pub shared_selected : Map Bytes Subscription
  pub subscriptions : Map Bytes Subscription
  pub inline_subscriptions : Map ℤ InlineSubscription

abbrev pub no_subscribers : Subscribers
no_subscribers = record {
  shared = [];
  shared_selected = [];
  subscriptions = [];
  inline_subscriptions = [];
}

abbrev starts_with : Bytes → ℕ → Bool
starts_with [] c = false
starts_with (x ∷ xs) c = x == c

-- A filter that begins with a wildcard does not match a topic that begins with `$`.
abbrev pub is_excluded : Bytes → Subscription → Bool
is_excluded topic s =
    starts_with topic b'$' && (starts_with s.filter plus || starts_with s.filter hash)

-- `cls, ok := m[client]; if !ok { cls = sub }; m[client] = cls.Merge(sub)`
abbrev pub merge_into : Map Bytes Subscription → Bytes → Subscription → Map Bytes Subscription
merge_into m client s =
    insert client (elim (lookup client m) [ none ↦ merge s s | some cls ↦ merge cls s ]) m

gather_each : Bytes → Map Bytes Subscription → Map Bytes Subscription → Map Bytes Subscription
gather_each topic [] m = m
gather_each topic ((client, s) ∷ rest) m =
    gather_each topic rest (if is_excluded topic s then m else merge_into m client s)

unfoldable pub gather_subscriptions : Bytes → Values → Subscribers → Subscribers
unfolding gather_each
gather_subscriptions topic v subs = record subs {
  subscriptions = gather_each topic v.subscriptions subs.subscriptions;
}

gather_group : Map Bytes Subscription → SharedSubscriptions → SharedSubscriptions
gather_group [] m = m
gather_group ((client, s) ∷ rest) m = gather_group rest (shared_add m s.filter client s)

gather_groups : SharedSubscriptions → SharedSubscriptions → SharedSubscriptions
unfolding gather_group
gather_groups [] m = m
gather_groups ((group, shares) ∷ rest) m = gather_groups rest (gather_group shares m)

unfoldable pub gather_shared_subscriptions : Values → Subscribers → Subscribers
unfolding gather_groups
gather_shared_subscriptions v subs = record subs { shared = gather_groups v.shared subs.shared }

gather_inlines : Map ℤ InlineSubscription → Map ℤ InlineSubscription → Map ℤ InlineSubscription
gather_inlines [] m = m
gather_inlines ((id, s) ∷ rest) m = gather_inlines rest (insert id s m)

unfoldable pub gather_inline_subscriptions : Values → Subscribers → Subscribers
unfolding gather_inlines
gather_inline_subscriptions v subs = record subs {
  inline_subscriptions = gather_inlines v.inline_subscriptions subs.inline_subscriptions;
}

-- The three calls, the last on a particle of its own: below `filter/#` the source passes the parent.
unfoldable pub gather : Bytes → Values → Values → Subscribers → Subscribers
unfolding gather_subscriptions gather_shared_subscriptions gather_inline_subscriptions
gather topic v inline_v subs =
    gather_inline_subscriptions inline_v
      (gather_shared_subscriptions v (gather_subscriptions topic v subs))

abbrev pub plus_key : Bytes
plus_key = plus ∷ []

abbrev pub hash_key : Bytes
hash_key = hash ∷ []

-- A particle that the last level of the topic leads to, by `part_key`.
unfoldable pub gather_leaf : Bytes → Bytes → Particle → Subscribers → Subscribers
gather_leaf topic part_key p subs =
    let found = gather topic (values p) (values p) subs in
    elim (child_at hash_key (children p)) [
      | none ↦ found
      | some wild ↦
          if bytes_eq part_key plus_key then found else gather topic (values wild) (values p) found
    ]

-- The child `#` of a particle on the way matches whatever follows.
unfoldable pub gather_hash : Bytes → Particle → Subscribers → Subscribers
gather_hash topic n subs = elim (child_at hash_key (children n)) [
  | none ↦ subs
  | some p ↦ gather topic (values p) (values p) subs
]

unfoldable pub leaf_at : Bytes → Particle → Bytes → Subscribers → Subscribers
unfolding gather_leaf
leaf_at topic n part_key subs = elim (child_at part_key (children n)) [
  | none ↦ subs
  | some p ↦ gather_leaf topic part_key p subs
]

-- `scanSubscribers` over the levels of the topic, which `isolateParticle` yields one by one.
unfoldable pub scan_subscribers : Bytes → List Bytes → Particle → Subscribers → Subscribers
unfolding leaf_at gather_hash
scan_subscribers topic [] n subs = subs
scan_subscribers topic (key ∷ []) n subs =
    gather_hash topic n (leaf_at topic n plus_key (leaf_at topic n key subs))
scan_subscribers topic (key ∷ next ∷ ks) n subs =
    let down : Bytes → Subscribers → Subscribers = λ k acc. elim (child_at k (children n)) [
      | none ↦ acc
      | some p ↦ scan_subscribers topic (next ∷ ks) p acc
    ] in
    gather_hash topic n (down plus_key (down key subs))

unfoldable pub subscribers : TopicsIndex → Bytes → Subscribers
subscribers x topic =
    if length topic == 0
    then no_subscribers
    else scan_subscribers topic (keys topic 0) x.root no_subscribers
