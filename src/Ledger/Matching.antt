-- ===== src/Ledger/Matching.antt =====
-- hooks/auth/ledger.go: which topics `MatchTopic` accepts for a filter.
use mqtt_server.Prelude.{
  ◌≡◌, refl, sym, ap, ◌∙◌, inl, inr, ◌↔◌, Bool, true, false, not, ◌&&◌, ◌||◌, List, [], ◌∷◌, ◌++◌,
  append-nil, arith, bytes_eq, Bool-cases,
}
use mqtt_server.Packets.Codec.{Bytes}
use mqtt_server.Topics.Filter.Levels.{levels}
use mqtt_server.Ledger.{plus_level, hash_level, match_parts, match_topic, filter_matches}

-- Level by level: `+` covers one level, `#` all that are left, at least one, and any other level itself.
unfoldable pub covers : List Bytes → List Bytes → Bool
covers [] [] = true
covers [] (t ∷ ts) = false
covers (f ∷ fs) [] = false
covers (f ∷ fs) (t ∷ ts) =
    not (bytes_eq f plus_level) && bytes_eq f hash_level
    || (bytes_eq f plus_level || bytes_eq f t) && covers fs ts

-- The levels of the topic begin with levels that the filter covers.
abbrev pub CoversFront : List Bytes → List Bytes → Type 0
CoversFront fs ts =
    (front : List Bytes) × (back : List Bytes) × (ts ≡ front ++ back) × (covers fs front ≡ true)

or_true : (b : Bool) → b || true ≡ true
or_true true = refl
or_true false = refl

go_on :
    (f t : Bytes) (fs ts : List Bytes)
    → bytes_eq f plus_level || bytes_eq f t ≡ true
    → CoversFront fs ts
    → CoversFront (f ∷ fs) (t ∷ ts)
unfolding covers
go_on f t fs ts h (front, back, e, c) = (
  t ∷ front,
  back,
  ap (λ (r : List Bytes). t ∷ r) e,
  rw (h, c) (or_true (not (bytes_eq f plus_level) && bytes_eq f hash_level)),
)

-- One round of the loop, by what the level of the filter is.
data Round (f t : Bytes) (fs ts es : List Bytes) : Type 0 where
  wild :
      bytes_eq f plus_level ≡ true
      → (match_parts (f ∷ fs) (t ∷ ts) es).1 ≡ (match_parts fs ts (es ++ (t ∷ []))).1
      → Round f t fs ts es
  rest :
      bytes_eq f plus_level ≡ false
      → bytes_eq f hash_level ≡ true
      → (match_parts (f ∷ fs) (t ∷ ts) es).1 ≡ true
      → Round f t fs ts es
  same :
      bytes_eq f plus_level ≡ false
      → bytes_eq f hash_level ≡ false
      → bytes_eq f t ≡ true
      → (match_parts (f ∷ fs) (t ∷ ts) es).1 ≡ (match_parts fs ts es).1
      → Round f t fs ts es
  other :
      bytes_eq f plus_level ≡ false
      → bytes_eq f hash_level ≡ false
      → bytes_eq f t ≡ false
      → (match_parts (f ∷ fs) (t ∷ ts) es).1 ≡ false
      → Round f t fs ts es

Round-match : (f t : Bytes) (fs ts es : List Bytes) → Round f t fs ts es
unfolding match_parts
Round-match f t fs ts es = elim (Bool-cases (bytes_eq f plus_level)) [
  | inl p ↦ wild p (rw (p, match_parts) refl)
  | inr p ↦ elim (Bool-cases (bytes_eq f hash_level)) [
    | inl q ↦ rest p q (rw (p, match_parts) (rw q refl))
    | inr q ↦ elim (Bool-cases (bytes_eq f t)) [
      | inl r ↦ same p q r (rw (p, match_parts) (rw q (rw r refl)))
      | inr r ↦ other p q r (rw (p, match_parts) (rw q (rw r refl)))
    ]
  ]
]

match_parts-CoversFront :
    (fs ts es : List Bytes) → (match_parts fs ts es).1 ≡ true → CoversFront fs ts
unfolding match_parts covers
match_parts-CoversFront [] ts es h = ([], ts, refl, refl)
match_parts-CoversFront (f ∷ fs) [] es h = absurd (ground arith)
match_parts-CoversFront (f ∷ fs) (t ∷ ts) es h = elim (Round-match f t fs ts es) [
  | wild p e ↦
      go_on f t fs ts (rw p refl) (match_parts-CoversFront fs ts (es ++ (t ∷ [])) (sym e ∙ h))
  | rest p q e ↦ (t ∷ ts, [], sym (append-nil (t ∷ ts)), rw (p, q) refl)
  | same p q r e ↦ go_on f t fs ts (rw (p, r) refl) (match_parts-CoversFront fs ts es (sym e ∙ h))
  | other p q r e ↦ absurd (ground arith)
]

front_matches :
    (fs front back es : List Bytes)
    → covers fs front ≡ true
    → (match_parts fs (front ++ back) es).1 ≡ true
unfolding match_parts covers
front_matches [] front back es c = refl
front_matches (f ∷ fs) [] back es c = absurd (ground arith)
front_matches (f ∷ fs) (t ∷ front) back es c = elim (Round-match f t fs (front ++ back) es) [
  | wild p e ↦ e ∙ front_matches fs front back (es ++ (t ∷ [])) (sym (below p) ∙ c)
  | rest p q e ↦ e
  | same p q r e ↦ e ∙ front_matches fs front back es (sym (named p q r) ∙ c)
  | other p q r e ↦ clash (sym (named p q r) ∙ c)
]
  where
    below : bytes_eq f plus_level ≡ true → covers (f ∷ fs) (t ∷ front) ≡ covers fs front
    below p = rw (p, covers) refl

    named :
        {b : Bool}
        → bytes_eq f plus_level ≡ false
        → bytes_eq f hash_level ≡ false
        → bytes_eq f t ≡ b
        → covers (f ∷ fs) (t ∷ front) ≡ b && covers fs front
    named p q r = rw (p, covers) (rw (q, r) refl)

    clash : {A : Type 0} → false ≡ true → A
    clash h = absurd (ground arith)

-- MatchTopic accepts a topic for a filter exactly if the levels of the topic begin with levels that the
-- filter covers: a filter also accepts every topic below one that it covers.
pub match_topic-CoversFront :
    (filter topic : Bytes)
    → (filter_matches filter topic ≡ true) ↔ CoversFront (levels filter) (levels topic)
unfolding match_topic
match_topic-CoversFront filter topic = (
  match_parts-CoversFront (levels filter) (levels topic) [],
  λ (front, back, e, c).
      ap (λ ls. (match_parts (levels filter) ls []).1) e
      ∙ front_matches (levels filter) front back [] c,
)
