-- ===== src/Topics/Index/Changes.antt =====
-- topics.go: whom `Subscribers` finds, and what `Subscribe` changes in that.
use mqtt_server.Prelude.{
  ℕ, ◌<◌, ◌≡◌, refl, sym, ap, ◌∙◌, inl, inr, ◌↔◌, Bool, true, false, List, [], ◌∷◌, arith, ◌==◌,
  bytes_eq, bytes_eq_iff, bytes_eq_refl, length, Bool-cases,
}
use mqtt_server.Prelude.Maps.{Map, insert, string_eq}
use mqtt_server.Packets.Codec.{Bytes}
use mqtt_server.Packets.Packet.{Subscription}
use mqtt_server.Topics.Filter.{is_shared_filter, keys, isolate_particle}
use mqtt_server.Topics.Filter.Levels.{levels, levels_from, keys-levels}
use mqtt_server.Topics.Trie.{Values, Particle, set_at}
use mqtt_server.Topics.Trie.Laws.{vals, path_eq, vals-set_at}
use mqtt_server.Topics.Index.{
  TopicsIndex, is_excluded, subscribers, subscribe, add_subscription, add_shared,
}
use mqtt_server.Topics.Index.Matching.{matches}
use mqtt_server.Topics.Index.Routing.{serves, found, served_at}
use mqtt_server.Topics.Index.Found.{PathFor, scan_subscribers_lem}

pub keys-all : (f : Bytes) → keys f 0 ≡ levels f
keys-all f = keys-levels f 0 ∙ all (levels f)
  where
    all : (ls : List Bytes) → levels_from 0 ls ≡ ls
    all [] = refl
    all (l ∷ []) = refl
    all (l ∷ m ∷ ls) = refl

not_zero : (n : ℕ) → 0 < n → (n == 0) ≡ false
not_zero n h = ground arith

-- For a topic that is not empty, `Subscribers` finds a client exactly if some path of the tree that
-- matches the levels of the topic holds a subscription of the client that is not excluded.
pub subscribers_lem :
    (x : TopicsIndex) (topic client : Bytes)
    → 0 < length topic
    → (found client (subscribers x topic) ≡ true) ↔ PathFor topic client (levels topic) x.root
unfolding subscribers
subscribers_lem x topic client h =
    rw (not_zero (length topic) h, keys-all topic)
      (scan_subscribers_lem topic client (levels topic) x.root)

pub path_eq_refl : (p : List Bytes) → path_eq p p ≡ true
unfolding path_eq
path_eq_refl [] = refl
path_eq_refl (k ∷ p) = rw (bytes_eq_refl k) (path_eq_refl p)

pub path_eq→eq : (p q : List Bytes) → path_eq p q ≡ true → p ≡ q
unfolding path_eq
path_eq→eq [] [] h = refl
path_eq→eq [] (k ∷ q) h = absurd (ground arith)
path_eq→eq (j ∷ p) [] h = absurd (ground arith)
path_eq→eq (j ∷ p) (k ∷ q) h = ground (arith, bytes_eq_iff k j, path_eq→eq p q)

serves-insert :
    (topic client : Bytes) (s : Subscription) (m : Map Bytes Subscription)
    → is_excluded topic s ≡ false
    → serves topic client (insert client s m) ≡ true
unfolding serves insert
serves-insert topic client s [] h = rw (h, bytes_eq_refl client) refl
serves-insert topic client s ((c, t) ∷ m) h = elim (Bool-cases (bytes_eq c client)) [
  | inl e ↦ rw (e, serves) (rw (h, bytes_eq_refl client) refl)
  | inr e ↦ rw (e, serves) (rw e (serves-insert topic client s m h))
]

pub other_key :
    (c client other : Bytes)
    → bytes_eq c client ≡ true
    → bytes_eq client other ≡ false
    → bytes_eq c other ≡ false
other_key c client other e h =
    ap (λ (i : Bytes). bytes_eq i other) ((bytes_eq_iff c client).0 e) ∙ h

serves-insert_other :
    (topic other client : Bytes) (s : Subscription) (m : Map Bytes Subscription)
    → bytes_eq client other ≡ false
    → serves topic other (insert client s m) ≡ serves topic other m
unfolding serves insert
serves-insert_other topic other client s [] h = rw h refl
serves-insert_other topic other client s ((c, t) ∷ m) h = elim (Bool-cases (bytes_eq c client)) [
  | inl e ↦ rw (e, serves) (rw (h, other_key c client other e h) refl)
  | inr e ↦ rw (e, serves) (rw (serves-insert_other topic other client s m h) refl)
]

root-subscribe :
    (x : TopicsIndex) (client : Bytes) (s : Subscription)
    → is_shared_filter s.filter ≡ false
    → (subscribe x client s).0.root ≡ set_at (levels s.filter) (add_subscription client s) x.root
unfolding subscribe
root-subscribe x client s h = rw (h, subscribe) (rw (keys-all s.filter) refl)

-- After Subscribe with a filter that is not shared, Subscribers finds the client for every topic that is
-- not empty, whose levels those of the filter match, and for which the subscription is not excluded. A
-- filter matches level by level, with `+` for any one level and a last `#` for the levels that are left;
-- behind a level equal to the last of the topic, and not behind a `+`, the end `/#` stands for no level.
pub subscribe-found :
    (x : TopicsIndex) (client : Bytes) (s : Subscription) (topic : Bytes)
    → is_shared_filter s.filter ≡ false
    → 0 < length topic
    → matches (levels s.filter) (levels topic) ≡ true
    → is_excluded topic s ≡ false
    → found client (subscribers (subscribe x client s).0 topic) ≡ true
unfolding add_subscription
subscribe-found x client s topic shared h m e =
    let at = vals-set_at (levels s.filter) (levels s.filter) (add_subscription client s) x.root in
    (subscribers_lem (subscribe x client s).0 topic client h).1 (
      levels s.filter,
      m,
      rw (root-subscribe x client s shared) (
          rw (at, path_eq_refl (levels s.filter))
            (serves-insert topic client s (vals (levels s.filter) x.root).subscriptions e)),
    )

Bool-same : (a b : Bool) → ((a ≡ true) → (b ≡ true)) → ((b ≡ true) → (a ≡ true)) → a ≡ b
Bool-same true true f g = refl
Bool-same true false f g = sym (f refl)
Bool-same false true f g = g refl
Bool-same false false f g = refl

-- Two trees that serve the client at the same paths.
pub same_found :
    (x y : TopicsIndex) (topic client : Bytes)
    → 0 < length topic
    → ((path : List Bytes)
        → served_at topic client x.root path ≡ served_at topic client y.root path)
    → found client (subscribers x topic) ≡ found client (subscribers y topic)
same_found x y topic client h same =
    let (ex, ix) = subscribers_lem x topic client h in
    let (ey, iy) = subscribers_lem y topic client h in
    Bool-same _ _ (λ e. let (path, m, s) = ex e in iy (path, m, sym (same path) ∙ s))
      (λ e. let (path, m, s) = ey e in ix (path, m, same path ∙ s))

pub set_at-serves :
    (topic client : Bytes) (ks : List Bytes) (f : Values → Values) (p : Particle)
    → ((v : Values) → serves topic client (f v).subscriptions ≡ serves topic client v.subscriptions)
    → (path : List Bytes)
    → served_at topic client (set_at ks f p) path ≡ served_at topic client p path
set_at-serves topic client ks f p h path = elim (Bool-cases (path_eq path ks)) [
  | inl e ↦ rw (vals-set_at path ks f p) (
      rw e (
        h (vals ks p)
        ∙ ap (λ (i : List Bytes). served_at topic client p i) (sym (path_eq→eq path ks e))))
  | inr e ↦ rw (vals-set_at path ks f p) (rw e refl)
]

-- Subscribe changes nothing in what Subscribers finds of any other client, for a topic that is not empty.
pub subscribe_others :
    (x : TopicsIndex) (client other : Bytes) (s : Subscription) (topic : Bytes)
    → bytes_eq client other ≡ false
    → 0 < length topic
    → found other (subscribers (subscribe x client s).0 topic) ≡ found other (subscribers x topic)
unfolding subscribe add_subscription add_shared
subscribe_others x client other s topic h nonempty =
    same_found (subscribe x client s).0 x topic other nonempty
      (elim (Bool-cases (is_shared_filter s.filter)) [
        | inl e ↦
            rw (e, subscribe)
              (set_at-serves topic other (keys s.filter 2)
                (add_shared (isolate_particle s.filter 1).0 client s) x.root (λ v. refl))
        | inr e ↦
            rw (e, subscribe)
              (set_at-serves topic other (keys s.filter 0) (add_subscription client s) x.root
                (λ v. serves-insert_other topic other client s v.subscriptions h))
      ])
