-- ===== src/Topics/Index/Removal.antt =====
-- topics.go: whom `Subscribers` finds after `Unsubscribe`.
use mqtt_server.Prelude.{
  ◌<◌, ◌≡◌, ◌≢◌, refl, sym, ap, ◌∙◌, inl, inr, ◌↔◌, Bool, true, false, not, ◌&&◌, Option, none,
  some, List, [], ◌∷◌, arith, bytes_eq, if◌then◌else◌, length, Bool-cases, Option-cases,
}
use mqtt_server.Prelude.Maps.{Map, delete, is_some, string_eq}
use mqtt_server.Packets.Codec.{Bytes}
use mqtt_server.Packets.Packet.{Subscription}
use mqtt_server.Topics.Filter.{is_shared_filter, keys, isolate_particle}
use mqtt_server.Topics.Filter.Levels.{levels}
use mqtt_server.Topics.Trie.{Values, Particle, particle, no_values, child_at, seek, trim_at}
use mqtt_server.Topics.Trie.Laws.{
  vals, vals-new_particle, path_eq, trim_at-vals, bare_subscriptions,
}
use mqtt_server.Topics.Index.{
  TopicsIndex, subscribers, unsubscribe, delete_shared, delete_subscription,
}
use mqtt_server.Topics.Index.Matching.{matches}
use mqtt_server.Topics.Index.Routing.{serves, found, served_at}
use mqtt_server.Topics.Index.Changes.{
  keys-all, path_eq→eq, path_eq_refl, same_found, subscribers_lem, other_key,
}

serves-delete :
    (topic client : Bytes) (m : Map Bytes Subscription)
    → serves topic client (delete client m) ≡ false
unfolding serves delete
serves-delete topic client [] = refl
serves-delete topic client ((c, t) ∷ m) = elim (Bool-cases (bytes_eq c client)) [
  | inl e ↦ rw e (serves-delete topic client m)
  | inr e ↦ rw (e, serves) (rw (e, serves-delete topic client m) refl)
]

serves-delete_other :
    (topic other client : Bytes) (m : Map Bytes Subscription)
    → bytes_eq client other ≡ false
    → serves topic other (delete client m) ≡ serves topic other m
unfolding serves delete
serves-delete_other topic other client [] h = refl
serves-delete_other topic other client ((c, t) ∷ m) h = elim (Bool-cases (bytes_eq c client)) [
  | inl e ↦ rw e (rw (other_key c client other e h) (serves-delete_other topic other client m h))
  | inr e ↦ rw (e, serves) (rw (serves-delete_other topic other client m h) refl)
]

seek-vals : (ks : List Bytes) (p : Particle) → is_some (seek ks p) ≡ false → vals ks p ≡ no_values
unfolding seek
seek-vals [] p h = absurd (ground arith)
seek-vals (k ∷ ks) (particle v cs) h = elim (Option-cases (child_at k cs)) [
  | inl e ↦ rw e (vals-new_particle ks)
  | inr (p, e) ↦ rw e (
      seek-vals ks p (
        sym (ap (λ (o : Option Particle). is_some (elim o [ none ↦ none | some p ↦ seek ks p ])) e)
        ∙ h))
]

trim_at-serves :
    (topic client : Bytes) (ks : List Bytes) (f : Values → Values) (p : Particle)
    (path : List Bytes)
    → (f no_values).subscriptions ≡ []
    → served_at topic client (trim_at ks f p) path ≡ (
        if path_eq path ks
        then serves topic client (f (vals ks p)).subscriptions
        else served_at topic client p path)
trim_at-serves topic client ks f p path h =
    rw (trim_at-vals (λ v. v.subscriptions) bare_subscriptions path ks f p h)
      (elim (Bool-cases (path_eq path ks)) [ inl e ↦ rw e refl | inr e ↦ rw e refl ])

-- What Unsubscribe leaves at a path: nothing of the client at that of its filter.
unsubscribe-serves :
    (x : TopicsIndex) (filter client topic : Bytes) (path : List Bytes)
    → is_shared_filter filter ≡ false
    → served_at topic client (unsubscribe x filter client).0.root path
      ≡ (if path_eq path (levels filter) then false else served_at topic client x.root path)
unfolding unsubscribe delete_subscription delete serves
unsubscribe-serves x filter client topic path h =
    elim (Bool-cases (is_some (seek (levels filter) x.root))) [
      | inl e ↦
          rw (h, unsubscribe)
            (rw (keys-all filter) (
              rw e (
                trim_at-serves topic client (levels filter) (delete_subscription client) x.root path
                  refl
                ∙ rw (serves-delete topic client (vals (levels filter) x.root).subscriptions)
                    refl)))
      | inr e ↦
          rw (h, unsubscribe)
            (rw (keys-all filter) (
              rw e (elim (Bool-cases (path_eq path (levels filter))) [
                | inl p ↦ rw p (
                    ap (λ (i : List Bytes). served_at topic client x.root i)
                      (path_eq→eq path (levels filter) p)
                    ∙ rw (seek-vals (levels filter) x.root e) refl)
                | inr p ↦ rw p refl
              ])))
    ]

clash {ℓ} : {A : Type ℓ} → true ≡ false → A
clash h = absurd (ground arith)

pub path_ne : (p q : List Bytes) → p ≢ q → path_eq p q ≡ false
path_ne p q d = elim (Bool-cases (path_eq p q)) [
  | inl e ↦ absurd (d (path_eq→eq p q e))
  | inr e ↦ e
]

pub ne_path : (p q : List Bytes) → path_eq p q ≡ false → p ≢ q
ne_path p q h = λ e. clash (sym (ap (λ (i : List Bytes). path_eq i q) e ∙ path_eq_refl q) ∙ h)

-- After Unsubscribe with a filter that is not shared, Subscribers finds the client for a topic that is
-- not empty exactly if, before, a path other than that of the filter matched the topic and held a
-- subscription of the client that is not excluded.
pub unsubscribe-found :
    (x : TopicsIndex) (filter client topic : Bytes)
    → is_shared_filter filter ≡ false
    → 0 < length topic
    → (found client (subscribers (unsubscribe x filter client).0 topic) ≡ true) ↔ (
        (path : List Bytes) × (path ≢ levels filter)
        × (matches path (levels topic) ≡ true)
        × (served_at topic client x.root path ≡ true))
unsubscribe-found x filter client topic shared h =
    let (out, into) = subscribers_lem (unsubscribe x filter client).0 topic client h in
    let left : (path : List Bytes) (b : Bool)
        → path_eq path (levels filter) ≡ b
        → served_at topic client (unsubscribe x filter client).0.root path
          ≡ (if b then false else served_at topic client x.root path) =
      λ path b p.
        unsubscribe-serves x filter client topic path shared
        ∙ ap (λ c. if c then false else served_at topic client x.root path) p in
    (
      λ e.
          let (path, m, s) = out e in
          elim (Bool-cases (path_eq path (levels filter))) [
            | inl p ↦ clash (sym s ∙ left path true p)
            | inr p ↦ (path, ne_path path (levels filter) p, m, sym (left path false p) ∙ s)
          ],
      λ (path, d, m, s). into (path, m, left path false (path_ne path (levels filter) d) ∙ s),
    )

pub trim_at-others :
    (topic client : Bytes) (ks : List Bytes) (f : Values → Values) (p : Particle)
    → (f no_values).subscriptions ≡ []
    → ((v : Values) → serves topic client (f v).subscriptions ≡ serves topic client v.subscriptions)
    → (path : List Bytes)
    → served_at topic client (trim_at ks f p) path ≡ served_at topic client p path
trim_at-others topic client ks f p z h path =
    trim_at-serves topic client ks f p path z ∙ (elim (Bool-cases (path_eq path ks)) [
      | inl e ↦ rw e (
          h (vals ks p)
          ∙ ap (λ (i : List Bytes). served_at topic client p i) (sym (path_eq→eq path ks e)))
      | inr e ↦ rw e refl
    ])

unsubscribe-others_serves :
    (x : TopicsIndex) (filter client other topic : Bytes)
    → bytes_eq client other ≡ false
    → (path : List Bytes)
    → served_at topic other (unsubscribe x filter client).0.root path
      ≡ served_at topic other x.root path
unfolding unsubscribe delete_shared delete_subscription delete
unsubscribe-others_serves x filter client other topic h path =
    elim (Bool-cases (is_shared_filter filter)) [
      | inl e ↦ elim (Bool-cases (is_some (seek (keys filter 2) x.root))) [
        | inl k ↦
            rw (e, unsubscribe)
              (rw k (
                trim_at-others topic other (keys filter 2)
                  (delete_shared (isolate_particle filter 1).0 client) x.root refl (λ v. refl)
                  path))
        | inr k ↦ rw (e, unsubscribe) (rw k refl)
      ]
      | inr e ↦ elim (Bool-cases (is_some (seek (keys filter 0) x.root))) [
        | inl k ↦
            rw (e, unsubscribe)
              (rw k (
                trim_at-others topic other (keys filter 0) (delete_subscription client) x.root refl
                  (λ v. serves-delete_other topic other client v.subscriptions h) path))
        | inr k ↦ rw (e, unsubscribe) (rw k refl)
      ]
    ]

-- Unsubscribe changes nothing in what Subscribers finds of any other client, for a topic that is not empty.
pub unsubscribe_others :
    (x : TopicsIndex) (filter client other topic : Bytes)
    → bytes_eq client other ≡ false
    → 0 < length topic
    → found other (subscribers (unsubscribe x filter client).0 topic)
      ≡ found other (subscribers x topic)
unsubscribe_others x filter client other topic h nonempty =
    same_found (unsubscribe x filter client).0 x topic other nonempty
      (unsubscribe-others_serves x filter client other topic h)

unsubscribe_shared-serves :
    (x : TopicsIndex) (filter client topic : Bytes) (path : List Bytes)
    → is_shared_filter filter ≡ true
    → served_at topic client (unsubscribe x filter client).0.root path
      ≡ served_at topic client x.root path
unfolding unsubscribe delete_shared
unsubscribe_shared-serves x filter client topic path shared =
    rw shared (elim (Bool-cases (is_some (seek (keys filter 2) x.root))) [
      | inl there ↦
          rw there (trim_at-others topic client (keys filter 2) _ x.root refl (λ v. refl) path)
      | inr absent ↦ rw absent refl
    ])

-- What Unsubscribe with any filter leaves at a path.
pub unsubscribe_any-serves :
    (x : TopicsIndex) (filter client topic : Bytes) (path : List Bytes)
    → served_at topic client (unsubscribe x filter client).0.root path ≡ (
        if not (is_shared_filter filter) && path_eq path (levels filter)
        then false
        else served_at topic client x.root path)
unsubscribe_any-serves x filter client topic path = elim (Bool-cases (is_shared_filter filter)) [
  | inl shared ↦ rw shared (unsubscribe_shared-serves x filter client topic path shared)
  | inr own ↦ rw own (unsubscribe-serves x filter client topic path own)
]
