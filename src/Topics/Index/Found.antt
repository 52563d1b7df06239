-- ===== src/Topics/Index/Found.antt =====
-- topics.go: the paths of the tree that `Subscribers` finds a client at.
use mqtt_server.Prelude.{
  ◌≡◌, refl, sym, ap, ◌∙◌, ◌⊎◌, inl, inr, ◌↔◌, Bool, true, false, not, ◌&&◌, ◌||◌, List, [], ◌∷◌,
  arith, bytes_eq, bytes_eq_iff, bytes_eq_refl,
}
use mqtt_server.Prelude.Maps.{lookup, string_eq}
use mqtt_server.Packets.Codec.{Bytes}
use mqtt_server.Topics.Trie.{Particle, children, child_at, or_new}
use mqtt_server.Topics.Index.{plus_key, hash_key, scan_subscribers, no_subscribers}
use mqtt_server.Topics.Index.Matching.{matches}
use mqtt_server.Topics.Index.Routing.{found, served_at, reached, found_scan}

or→sum : (a b : Bool) → a || b ≡ true → (a ≡ true) ⊎ (b ≡ true)
or→sum true b h = inl refl
or→sum false b h = inr h

or_left : (a b : Bool) → a ≡ true → a || b ≡ true
or_left a b h = rw h refl

or_right : (a b : Bool) → b ≡ true → a || b ≡ true
or_right true b h = refl
or_right false b h = h

and→pair : (a b : Bool) → a && b ≡ true → (a ≡ true) × (b ≡ true)
and→pair true b h = (refl, h)
and→pair false b h = (h, absurd (ground arith))

-- A path that matches the levels and holds a subscription that serves the client.
abbrev pub PathFor : Bytes → Bytes → List Bytes → Particle → Type 0
PathFor topic client ts n =
    (path : List Bytes) × (matches path ts ≡ true) × (served_at topic client n path ≡ true)

matches_below :
    (f t u : Bytes) (path ts : List Bytes)
    → bytes_eq f t || bytes_eq f plus_key ≡ true
    → matches path (u ∷ ts) ≡ true
    → matches (f ∷ path) (t ∷ u ∷ ts) ≡ true
unfolding matches
matches_below f t u [] [] h m = absurd (ground arith)
matches_below f t u [] (k ∷ ts) h m = absurd (ground arith)
matches_below f t u (g ∷ path) ts h m = rw h m

path_of :
    (topic client : Bytes) (ts : List Bytes) (n : Particle)
    → reached topic client ts n ≡ true
    → PathFor topic client ts n
unfolding reached matches
path_of topic client [] n h = absurd (ground arith)
path_of topic client (t ∷ []) n h = elim (or→sum _ _ h) [
  | inl h ↦ elim (or→sum _ _ h) [
    | inl h ↦ (t ∷ [], ground (arith, bytes_eq_refl t), h)
    | inr h ↦
        let (e, h) =
          and→pair (not (bytes_eq t plus_key)) (served_at topic client n (t ∷ hash_key ∷ [])) h in
        (t ∷ hash_key ∷ [], rw (bytes_eq_refl t) (rw e (bytes_eq_refl hash_key)), h)
  ]
  | inr h ↦ elim (or→sum _ _ h) [
    | inl h ↦ (plus_key ∷ [], ground (arith, bytes_eq_refl plus_key), h)
    | inr h ↦ (hash_key ∷ [], ground (arith, bytes_eq_refl hash_key), h)
  ]
]
path_of topic client (t ∷ u ∷ ts) n h = elim (or→sum _ _ h) [
  | inl h ↦
      let (path, m, s) = path_of topic client (u ∷ ts) (or_new (child_at t (children n))) h in
      (t ∷ path, matches_below t t u path ts (or_left _ _ (bytes_eq_refl t)) m, s)
  | inr h ↦ elim (or→sum _ _ h) [
    | inl h ↦
        let (path, m, s) =
          path_of topic client (u ∷ ts) (or_new (child_at plus_key (children n))) h in
        (
          plus_key ∷ path,
          matches_below plus_key t u path ts (or_right _ _ (bytes_eq_refl plus_key)) m,
          s,
        )
    | inr h ↦ (hash_key ∷ [], bytes_eq_refl hash_key, h)
  ]
]

same_child :
    (topic client j k : Bytes) (path : List Bytes) (n : Particle)
    → bytes_eq j k ≡ true
    → served_at topic client n (j ∷ path) ≡ true
    → served_at topic client n (k ∷ path) ≡ true
same_child topic client j k path n e h =
    ap (λ (i : Bytes). served_at topic client n (i ∷ path)) (sym ((bytes_eq_iff j k).0 e)) ∙ h

reached_by :
    (topic client : Bytes) (path ts : List Bytes) (n : Particle)
    → matches path ts ≡ true
    → served_at topic client n path ≡ true
    → reached topic client ts n ≡ true
unfolding reached matches
reached_by topic client [] [] n m s = absurd (ground arith)
reached_by topic client [] (t ∷ ts) n m s = absurd (ground arith)
reached_by topic client (f ∷ fs) [] n m s = absurd (ground arith)
reached_by topic client (f ∷ []) (t ∷ []) n m s = elim (or→sum _ _ m) [
  | inl m ↦ elim (or→sum _ _ m) [
    | inl e ↦ or_left _ _ (or_left _ _ (same_child topic client f t [] n e s))
    | inr e ↦ or_right _ _ (or_left _ _ (same_child topic client f plus_key [] n e s))
  ]
  | inr e ↦ or_right _ _ (or_right _ _ (same_child topic client f hash_key [] n e s))
]
reached_by topic client (f ∷ g ∷ []) (t ∷ []) n m s =
    let (m, e) = and→pair _ _ m in
    let (d, p) = and→pair _ _ m in
    let s =
      ap (λ (i : Bytes). served_at topic client n (f ∷ i ∷ []))
        (sym ((bytes_eq_iff g hash_key).0 e))
      ∙ s in
    let both : not (bytes_eq t plus_key) && served_at topic client n (t ∷ hash_key ∷ []) ≡ true =
      rw (p, same_child topic client f t (hash_key ∷ []) n d s) refl in
    or_left _ _ (or_right _ _ both)
reached_by topic client (f ∷ g ∷ k ∷ fs) (t ∷ []) n m s = absurd (ground arith)
reached_by topic client (f ∷ []) (t ∷ u ∷ ts) n m s =
    or_right _ _ (or_right _ _ (same_child topic client f hash_key [] n m s))
reached_by topic client (f ∷ g ∷ fs) (t ∷ u ∷ ts) n m s =
    let (e, m) = and→pair _ _ m in
    elim (or→sum _ _ e) [
      | inl e ↦ or_left _ _ (
          reached_by topic client (g ∷ fs) (u ∷ ts) (or_new (child_at t (children n))) m
            (same_child topic client f t (g ∷ fs) n e s))
      | inr e ↦ or_right _ _ (
          or_left _ _ (
            reached_by topic client (g ∷ fs) (u ∷ ts) (or_new (child_at plus_key (children n))) m
              (same_child topic client f plus_key (g ∷ fs) n e s)))
    ]

-- `Subscribers` finds a client for the levels of a topic exactly if some path of the tree that matches
-- them holds a subscription of the client that is not excluded for the topic.
pub scan_subscribers_lem :
    (topic client : Bytes) (ts : List Bytes) (n : Particle)
    → (found client (scan_subscribers topic ts n no_subscribers) ≡ true) ↔ PathFor topic client ts n
unfolding reached lookup
scan_subscribers_lem topic client ts n = (
  λ h. path_of topic client ts n (sym (found_scan topic client ts n no_subscribers) ∙ h),
  λ (path, m, s).
      found_scan topic client ts n no_subscribers ∙ reached_by topic client path ts n m s,
)
