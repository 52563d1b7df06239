-- ===== src/Topics/Index/Routing.antt =====
-- topics.go: whom `Subscribers` finds for a topic.
use mqtt_server.Prelude.{
  ◌≡◌, refl, ap, ◌∙◌, inl, inr, Bool, true, false, not, ◌&&◌, ◌||◌, none, some, List, [], ◌∷◌,
  arith, bytes_eq, bytes_eq_refl, Bool-cases, Option-cases,
}
use mqtt_server.Prelude.Maps.{Map, lookup, insert, is_some, string_eq, lookup-insert}
use mqtt_server.Packets.Codec.{Bytes}
use mqtt_server.Packets.Packet.{Subscription, merge}
use mqtt_server.Topics.Trie.{Values, Particle, values, children, new_particle, child_at, or_new}
use mqtt_server.Topics.Trie.Laws.{vals}
use mqtt_server.Topics.Index.{
  Subscribers, is_excluded, merge_into, gather_each, gather_subscriptions, gather, plus_key,
  hash_key, gather_leaf, gather_hash, leaf_at, scan_subscribers,
}

-- A subscription of the client that is not excluded for the topic.
unfoldable pub serves : Bytes → Bytes → Map Bytes Subscription → Bool
serves topic client [] = false
serves topic client ((c, s) ∷ m) =
    (bytes_eq c client && not (is_excluded topic s)) || serves topic client m

abbrev pub found : Bytes → Subscribers → Bool
found client subs = is_some (lookup client subs.subscriptions)

-- The same at a path of the tree.
abbrev pub served_at : Bytes → Bytes → Particle → List Bytes → Bool
served_at topic client n path = serves topic client (vals path n).subscriptions

or_skip : (a b s : Bool) → a || s ≡ a || ((b && false) || s)
or_skip a true s = refl
or_skip a false s = refl

or_take : (a b s : Bool) → (b || a) || s ≡ a || ((b && true) || s)
or_take true true s = refl
or_take true false s = refl
or_take false true s = refl
or_take false false s = refl

is_some-insert :
    (client c : Bytes) (s : Subscription) (m : Map Bytes Subscription)
    → is_some (lookup client (insert c s m)) ≡ (bytes_eq c client || is_some (lookup client m))
is_some-insert client c s m =
    rw (lookup-insert c client s m)
      (elim (Bool-cases (bytes_eq c client)) [ inl e ↦ rw e refl | inr e ↦ rw e refl ])

gather_each_lem :
    (topic client : Bytes) (m acc : Map Bytes Subscription)
    → is_some (lookup client (gather_each topic m acc))
      ≡ (is_some (lookup client acc) || serves topic client m)
unfolding gather_each serves
gather_each_lem topic client [] acc = ground arith
gather_each_lem topic client ((c, s) ∷ m) acc = elim (Bool-cases (is_excluded topic s)) [
  | inl e ↦ rw e (
      gather_each_lem topic client m acc
      ∙ or_skip (is_some (lookup client acc)) (bytes_eq c client) (serves topic client m))
  | inr e ↦ rw e (
      gather_each_lem topic client m (merge_into acc c s)
      ∙ ap (λ b. b || serves topic client m)
          (is_some-insert client c
            (elim (lookup c acc) [ none ↦ merge s s | some cls ↦ merge cls s ]) acc)
      ∙ or_take (is_some (lookup client acc)) (bytes_eq c client) (serves topic client m))
]

or_assoc : (a b c : Bool) → (a || b) || c ≡ a || (b || c)
or_assoc true b c = refl
or_assoc false b c = refl

or_nil : (a : Bool) → a ≡ a || false
or_nil true = refl
or_nil false = refl

or_pad : (a c b : Bool) → a || c ≡ a || (c || (b && false))
or_pad true c b = refl
or_pad false true b = refl
or_pad false false true = refl
or_pad false false false = refl

module _ (topic client : Bytes) where
  found-gather :
      (v iv : Values) (acc : Subscribers)
      → found client (gather topic v iv acc)
        ≡ found client acc || serves topic client v.subscriptions
  unfolding gather gather_subscriptions
  found-gather v iv acc = gather_each_lem topic client v.subscriptions acc.subscriptions

  -- At a child that may be missing.
  found_hash :
      (n : Particle) (acc : Subscribers)
      → found client (gather_hash topic n acc)
        ≡ found client acc || served_at topic client n (hash_key ∷ [])
  unfolding gather_hash serves
  found_hash n acc = elim (Option-cases (child_at hash_key (children n))) [
    | inl e ↦ rw (e, gather_hash) (or_nil (found client acc))
    | inr (p, e) ↦ rw (e, gather_hash) (found-gather (values p) (values p) acc)
  ]

  found_leaf :
      (key : Bytes) (p : Particle) (acc : Subscribers)
      → found client (gather_leaf topic key p acc)
        ≡ found client acc
          || (served_at topic client p []
              || (not (bytes_eq key plus_key) && served_at topic client p (hash_key ∷ [])))
  unfolding gather_leaf serves
  found_leaf key p acc = elim (Option-cases (child_at hash_key (children p))) [
    | inl e ↦
        rw (e, gather_leaf)
          (found-gather (values p) (values p) acc
            ∙ or_pad (found client acc) (served_at topic client p []) (not (bytes_eq key plus_key)))
    | inr (w, e) ↦
        rw (e, gather_leaf)
          (elim (Bool-cases (bytes_eq key plus_key)) [
            | inl k ↦ rw k (
                found-gather (values p) (values p) acc
                ∙ or_pad (found client acc) (served_at topic client p []) true)
            | inr k ↦ rw k (
                found-gather (values w) (values p) (gather topic (values p) (values p) acc)
                ∙ ap (λ b. b || served_at topic client w [])
                    (found-gather (values p) (values p) acc)
                ∙ or_assoc (found client acc) (served_at topic client p [])
                    (served_at topic client w []))
          ])
  ]

  found_key :
      (key : Bytes) (n : Particle) (acc : Subscribers)
      → found client (leaf_at topic n key acc)
        ≡ found client acc
          || (served_at topic client n (key ∷ [])
              || (not (bytes_eq key plus_key) && served_at topic client n (key ∷ hash_key ∷ [])))
  unfolding leaf_at serves child_at
  found_key key n acc = elim (Option-cases (child_at key (children n))) [
    | inl e ↦
        rw (e, leaf_at)
          (or_nil (found client acc)
            ∙ or_pad (found client acc) false (not (bytes_eq key plus_key)))
    | inr (p, e) ↦ rw (e, leaf_at) (found_leaf key p acc)
  ]

-- Does a path that matches the levels serve the client?  Level by level, as the code goes down.
unfoldable pub reached : Bytes → Bytes → List Bytes → Particle → Bool
reached topic client [] n = false
reached topic client (t ∷ []) n =
    (served_at topic client n (t ∷ [])
      || (not (bytes_eq t plus_key) && served_at topic client n (t ∷ hash_key ∷ [])))
    || (served_at topic client n (plus_key ∷ []) || served_at topic client n (hash_key ∷ []))
reached topic client (t ∷ u ∷ ts) n =
    reached topic client (u ∷ ts) (or_new (child_at t (children n)))
    || (reached topic client (u ∷ ts) (or_new (child_at plus_key (children n)))
        || served_at topic client n (hash_key ∷ []))

nothing_reached :
    (topic client : Bytes) (ts : List Bytes) → reached topic client ts new_particle ≡ false
unfolding reached child_at serves
nothing_reached topic client [] = refl
nothing_reached topic client (t ∷ []) = elim (Bool-cases (bytes_eq t plus_key)) [
  | inl e ↦ rw e refl
  | inr e ↦ rw e refl
]
nothing_reached topic client (t ∷ u ∷ ts) = rw (nothing_reached topic client (u ∷ ts)) refl

-- One way down, to a child that may be missing.
way : Bytes → List Bytes → Particle → Bytes → Subscribers → Subscribers
way topic ts n k acc = elim (child_at k (children n)) [
  | none ↦ acc
  | some p ↦ scan_subscribers topic ts p acc
]

found-way :
    (topic client : Bytes) (ts : List Bytes)
    → ((p : Particle) (acc : Subscribers)
        → found client (scan_subscribers topic ts p acc)
          ≡ found client acc || reached topic client ts p)
    → (k : Bytes) (n : Particle) (acc : Subscribers)
    → found client (way topic ts n k acc)
      ≡ found client acc || reached topic client ts (or_new (child_at k (children n)))
unfolding way
found-way topic client ts ih k n acc = elim (Option-cases (child_at k (children n))) [
  | inl e ↦ rw (e, way) (rw (nothing_reached topic client ts) (or_nil (found client acc)))
  | inr (p, e) ↦ rw (e, way) (ih p acc)
]

or_join : (a t p h : Bool) → ((a || t) || p) || h ≡ a || (t || (p || h))
or_join true t p h = refl
or_join false true p h = refl
or_join false false p h = refl

or_join_nil : (a t p h : Bool) → ((a || t) || (p || false)) || h ≡ a || (t || (p || h))
or_join_nil a t true h = or_join a t true h
or_join_nil a t false h = or_join a t false h

pub found_scan :
    (topic client : Bytes) (ts : List Bytes) (n : Particle) (acc : Subscribers)
    → found client (scan_subscribers topic ts n acc) ≡ found client acc || reached topic client ts n
unfolding scan_subscribers reached way
found_scan topic client [] n acc = or_nil (found client acc)
found_scan topic client (t ∷ []) n acc =
    let plus_found = served_at topic client n (plus_key ∷ []) in
    let hash_found = served_at topic client n (hash_key ∷ []) in
    let plus_hash = served_at topic client n (plus_key ∷ hash_key ∷ []) in
    found_hash topic client n (leaf_at topic n plus_key (leaf_at topic n t acc))
    ∙ ap (λ b. b || hash_found) (found_key topic client plus_key n (leaf_at topic n t acc))
    ∙ ap (λ b. (b || (plus_found || (not (bytes_eq plus_key plus_key) && plus_hash))) || hash_found)
        (found_key topic client t n acc)
    ∙ rw (bytes_eq_refl plus_key) (
        or_join_nil (found client acc)
          (served_at topic client n (t ∷ [])
            || (not (bytes_eq t plus_key) && served_at topic client n (t ∷ hash_key ∷ [])))
          plus_found hash_found)
found_scan topic client (t ∷ u ∷ ts) n acc =
    let down = found-way topic client (u ∷ ts) (found_scan topic client (u ∷ ts)) in
    let hash_found = served_at topic client n (hash_key ∷ []) in
    let below : Bytes → Bool =
      λ k. reached topic client (u ∷ ts) (or_new (child_at k (children n))) in
    found_hash topic client n (way topic (u ∷ ts) n plus_key (way topic (u ∷ ts) n t acc))
    ∙ ap (λ b. b || hash_found) (down plus_key n (way topic (u ∷ ts) n t acc))
    ∙ ap (λ b. (b || below plus_key) || hash_found) (down t n acc)
    ∙ or_join (found client acc) (below t) (below plus_key) hash_found
