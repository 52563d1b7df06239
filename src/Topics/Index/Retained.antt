-- ===== src/Topics/Index/Retained.antt =====
-- topics.go: `RetainMessage`, the retained messages and the subscribers.
use mqtt_server.Prelude.{
  ◌<◌, ◌≡◌, refl, sym, ap, ◌∙◌, Bool, true, false, inl, inr, none, some, List, [], ltb, bytes_eq,
  if◌then◌else◌, length, Bool-cases,
}
use mqtt_server.Prelude.Maps.{lookup, string_eq, lookup-insert, lookup-delete}
use mqtt_server.Packets.Codec.{Bytes}
use mqtt_server.Packets.Packet.{Packet}
use mqtt_server.Topics.Filter.{keys}
use mqtt_server.Topics.Trie.{
  Values, no_values, Particle, particle, no_children, set_at, trim_at, is_bare, shared_get,
}
use mqtt_server.Topics.Trie.Laws.{
  vals, vals-set_at, path_eq, trim_at-vals, bare_subscriptions, bare_inline, bare_shared,
}
use mqtt_server.Topics.Index.{TopicsIndex, retain_message, set_retain_path, subscribers}
use mqtt_server.Topics.Index.Routing.{found, serves}
use mqtt_server.Topics.Index.Changes.{same_found, path_eq→eq}

module _ {ℓ} {B : Type ℓ} (g : Values → B)
    (bare : (v : Values) → is_bare (particle v no_children) ≡ true → g v ≡ g no_values)
    (blind : (m : Bytes) (v : Values) → g (set_retain_path m v) ≡ g v) where
  same_at :
      (path ks : List Bytes) (p : Particle) (b : Bool)
      → path_eq path ks ≡ b
      → (if b then g (vals ks p) else g (vals path p)) ≡ g (vals path p)
  same_at path ks p true e = ap (λ (i : List Bytes). g (vals i p)) (sym (path_eq→eq path ks e))
  same_at path ks p false e = refl

  set_at-reads :
      (path ks : List Bytes) (f : Values → Values) (p : Particle)
      → ((v : Values) → g (f v) ≡ g v)
      → g (vals path (set_at ks f p)) ≡ g (vals path p)
  set_at-reads path ks f p h = elim (Bool-cases (path_eq path ks)) [
    | inl e ↦ rw (vals-set_at path ks f p, e) (h (vals ks p) ∙ same_at path ks p true e)
    | inr e ↦ rw (vals-set_at path ks f p, e) refl
  ]

  trim_at-reads :
      (path ks : List Bytes) (f : Values → Values) (p : Particle)
      → ((v : Values) → g (f v) ≡ g v)
      → g (vals path (trim_at ks f p)) ≡ g (vals path p)
  trim_at-reads path ks f p h =
      trim_at-vals g bare path ks f p (h no_values) ∙ (elim (Bool-cases (path_eq path ks)) [
        | inl e ↦ rw e (h (vals ks p) ∙ same_at path ks p true e)
        | inr e ↦ rw e refl
      ])

  retain_message-reads :
      (x : TopicsIndex) (pk : Packet) (path : List Bytes)
      → g (vals path (retain_message x pk).0.root) ≡ g (vals path x.root)
  unfolding retain_message
  retain_message-reads x pk path =
      let ks = keys pk.topic_name 0 in
      elim (Bool-cases (ltb 0 (length pk.payload))) [
        | inl e ↦
            rw (e, retain_message)
              (set_at-reads path ks (set_retain_path pk.topic_name) x.root (blind pk.topic_name))
        | inr e ↦
            rw (e, retain_message)
              (trim_at-reads path ks (set_retain_path []) (set_at ks (λ v. v) x.root) (blind [])
                ∙ set_at-reads path ks (λ v. v) x.root (λ v. refl))
      ]

-- The same subscriptions of every kind, the shared ones by group and client.
pub record HasSameSubscriptions (v w : Values) : Type 0 where
  pub plain : v.subscriptions ≡ w.subscriptions
  pub inline : v.inline_subscriptions ≡ w.inline_subscriptions
  pub shared :
      (group client : Bytes) → shared_get v.shared group client ≡ shared_get w.shared group client

-- RetainMessage leaves the plain, the inline and the shared subscriptions at every path of the tree as
-- they were, also where it trims the tree, so that the plain subscriptions that Subscribers finds for a
-- topic that is not empty hold the same clients; it stores a message with a payload under its topic,
-- removes the message of the topic for an empty payload, and leaves the retained messages of all other
-- topics as they were.
pub retain_message_effect :
    (x : TopicsIndex) (pk : Packet) (path : List Bytes) (topic client name : Bytes)
    → 0 < length topic
    → HasSameSubscriptions (vals path (retain_message x pk).0.root) (vals path x.root)
      × (found client (subscribers (retain_message x pk).0 topic)
          ≡ found client (subscribers x topic))
      × (lookup name (retain_message x pk).0.retained ≡ (
          if bytes_eq pk.topic_name name
          then (if ltb 0 (length pk.payload) then some pk else none)
          else lookup name x.retained))
unfolding retain_message set_retain_path
retain_message_effect x pk path topic client name h = (
  record {
    plain = retain_message-reads (λ v. v.subscriptions) bare_subscriptions (λ m v. refl) x pk path;
    inline = retain_message-reads (λ v. v.inline_subscriptions) bare_inline (λ m v. refl) x pk path;
    shared = λ group c.
        retain_message-reads (λ v. shared_get v.shared group c) (bare_shared group c) (λ m v. refl)
          x pk path;
  },
  same_found (retain_message x pk).0 x topic client h (λ p.
      retain_message-reads (λ v. serves topic client v.subscriptions)
        (λ v b. ap (serves topic client) (bare_subscriptions v b)) (λ m v. refl) x pk p),
  elim (Bool-cases (ltb 0 (length pk.payload))) [
    | inl e ↦ rw (e, retain_message) (lookup-insert pk.topic_name name pk x.retained)
    | inr e ↦ rw (e, retain_message) (lookup-delete pk.topic_name name x.retained)
  ],
)
