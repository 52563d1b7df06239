-- ===== src/Topics/Alias/Laws.antt =====
-- topics.go: `Set` of the inbound and of the outbound topic aliases.
use mqtt_server.Prelude.{
  ℕ, ◌+◌, ◌%◌, ◌^◌, ◌≤◌, ◌<◌, ◌≡◌, ◌≢◌, refl, sym, ap, ◌∙◌, inl, inr, Bool, true, false, none, some,
  [], ◌∷◌, arith, bytes_eq, bytes_eq_iff, bytes_eq_refl, Option-cases,
}
use mqtt_server.Prelude.Maps.{lookup, insert, nat_eq, string_eq, lookup-insert, beq_refl}
use mqtt_server.Packets.Codec.{Bytes}
use native.Mathlib.Decide.{dec_lt}
use mqtt_server.Topics.Alias.{InboundTopicAliases, OutboundTopicAliases, inbound_set, outbound_set}

-- Aliases run from one to the cursor, which the maximum bounds, and each stands for one topic.
pub record IsValid (a : OutboundTopicAliases) : Type 0 where
  pub bounded : a.cursor ≤ a.maximum
  pub uint16 : a.maximum < 2 ^ 16
  pub range : (t : Bytes) (i : ℕ) → lookup t a.internal ≡ some i → (1 ≤ i) × (i ≤ a.cursor)
  pub injective :
      (t u : Bytes) (i : ℕ) → lookup t a.internal ≡ some i → lookup u a.internal ≡ some i → t ≡ u

-- The state after the next alias is given out.
abbrev assigned : OutboundTopicAliases → Bytes → OutboundTopicAliases
assigned a topic = record a {
  internal = insert topic (a.cursor + 1) a.internal;
  cursor = a.cursor + 1;
}

assigned-IsValid :
    (a : OutboundTopicAliases) (topic : Bytes)
    → a.cursor < a.maximum
    → IsValid a
    → IsValid (assigned a topic)
assigned-IsValid a topic h v = record {
  bounded = omega arith;
  uint16 = v.uint16;
  range = λ t i e. ground (arith, lookup-insert topic t (a.cursor + 1) a.internal, v.range t i);
  injective = λ t u i e f. ground (
    arith,
    bytes_eq_iff topic t,
    bytes_eq_iff topic u,
    lookup-insert topic t (a.cursor + 1) a.internal,
    lookup-insert topic u (a.cursor + 1) a.internal,
    v.range t i,
    v.range u i,
    v.injective t u i,
  );
}

-- What `Set` does with an unknown topic while an alias is left.
outbound_set-assigned :
    (a : OutboundTopicAliases) (topic : Bytes)
    → a.cursor < a.maximum
    → a.maximum < 2 ^ 16
    → lookup topic a.internal ≡ none
    → ◌≡◌ {A = OutboundTopicAliases × ℕ × Bool}
        (outbound_set a topic)
        (assigned a topic, a.cursor + 1, false)
unfolding outbound_set
outbound_set-assigned a topic h k e =
    let alias : (a.cursor % 2 ^ 16 + 1) % 2 ^ 16 ≡ a.cursor + 1 = omega arith in
    let cursor : (a.cursor + 1) % 2 ^ 32 ≡ a.cursor + 1 = omega arith in
    rw (e, alias, cursor) (ground arith)

abbrev Outcome : Type 0
Outcome = OutboundTopicAliases × ℕ × Bool

-- The three ways in which `Set` ends.
data Cases (a : OutboundTopicAliases) (topic : Bytes) : Type 0 where
  no_alias : ◌≡◌ {A = Outcome} (outbound_set a topic) (a, 0, false) → Cases a topic
  known :
      (i : ℕ)
      → 0 < a.maximum
      → lookup topic a.internal ≡ some i
      → ◌≡◌ {A = Outcome} (outbound_set a topic) (a, i, true)
      → Cases a topic
  given :
      a.cursor < a.maximum
      → lookup topic a.internal ≡ none
      → ◌≡◌ {A = Outcome} (outbound_set a topic) (assigned a topic, a.cursor + 1, false)
      → Cases a topic

known_alias :
    (a : OutboundTopicAliases) (topic : Bytes) (i : ℕ)
    → 0 < a.maximum
    → lookup topic a.internal ≡ some i
    → ◌≡◌ {A = Outcome} (outbound_set a topic) (a, i, true)
unfolding outbound_set
known_alias a topic i h e = rw e (ground arith)

spent :
    (a : OutboundTopicAliases) (topic : Bytes)
    → a.maximum ≤ a.cursor
    → a.cursor < 2 ^ 16
    → lookup topic a.internal ≡ none
    → ◌≡◌ {A = Outcome} (outbound_set a topic) (a, 0, false)
unfolding outbound_set
spent a topic h k e = rw e (ground arith)

switched_off :
    (a : OutboundTopicAliases) (topic : Bytes)
    → a.maximum ≡ 0
    → ◌≡◌ {A = Outcome} (outbound_set a topic) (a, 0, false)
unfolding outbound_set
switched_off a topic h = ground arith

outbound_set-Cases : (a : OutboundTopicAliases) (topic : Bytes) → IsValid a → Cases a topic
outbound_set-Cases a topic v = elim (dec_lt 0 a.maximum) [
  | no zero_max ↦ no_alias (switched_off a topic (omega arith))
  | yes on ↦ elim (Option-cases (lookup topic a.internal)) [
    | inr (i, e) ↦ known i on e (known_alias a topic i on e)
    | inl e ↦ elim (dec_lt a.cursor a.maximum) [
      | yes h ↦ given h e (outbound_set-assigned a topic h v.uint16 e)
      | no h ↦ no_alias (spent a topic (omega arith) (omega (arith, v.bounded, v.uint16)) e)
    ]
  ]
]

-- `OutboundTopicAliases.Set` keeps the aliases distinct, between one and the cursor, and the cursor
-- within the maximum.
pub outbound_set-IsValid :
    (a : OutboundTopicAliases) (topic : Bytes) → IsValid a → IsValid (outbound_set a topic).0
outbound_set-IsValid a topic v = elim (outbound_set-Cases a topic v) [
  | no_alias e ↦ rw e v
  | known i on l e ↦ rw e v
  | given h l e ↦ rw e (assigned-IsValid a topic h v)
]

-- A topic that got an alias keeps it: the next call for it returns the same alias, as one that
-- existed, and changes nothing.
pub outbound_set_again :
    (a b : OutboundTopicAliases) (topic : Bytes) (i : ℕ) (existed : Bool)
    → IsValid a
    → ◌≡◌ {A = Outcome} (outbound_set a topic) (b, i, existed)
    → 0 < i
    → ◌≡◌ {A = Outcome} (outbound_set b topic) (b, i, true)
outbound_set_again a b topic i existed v h pos_i = elim (outbound_set-Cases a topic v) [
  | no_alias e ↦ absurd (omega (arith, ap (λ (t : Outcome). t.1) (sym e ∙ h)))
  | known j on l e ↦
      let same : ◌≡◌ {A = Outcome} (a, j, true) (b, i, existed) = sym e ∙ h in
      let state : a ≡ b = ap (λ (t : Outcome). t.0) same in
      let alias : j ≡ i = ap (λ (t : Outcome). t.1) same in
      rw (← state, ← alias) (known_alias a topic j on l)
  | given c l e ↦
      let same : ◌≡◌ {A = Outcome} (assigned a topic, a.cursor + 1, false) (b, i, existed) =
        sym e ∙ h in
      let state : assigned a topic ≡ b = ap (λ (t : Outcome). t.0) same in
      let alias : a.cursor + 1 ≡ i = ap (λ (t : Outcome). t.1) same in
      rw (← state, ← alias)
        (known_alias (assigned a topic) topic (a.cursor + 1) (omega arith)
          (lookup-insert topic topic (a.cursor + 1) a.internal ∙ rw (bytes_eq_refl topic) refl))
]

inbound_set-stores :
    (a : InboundTopicAliases) (id x : ℕ) (xs : Bytes)
    → 0 < a.maximum
    → ◌≡◌ {A = InboundTopicAliases × Bytes}
        (inbound_set a id (x ∷ xs))
        (record a { internal = insert id (x ∷ xs) a.internal }, x ∷ xs)
unfolding inbound_set bytes_eq
inbound_set-stores a id x xs h = ground arith

inbound_set-resolves :
    (a : InboundTopicAliases) (id : ℕ) (topic : Bytes)
    → 0 < a.maximum
    → lookup id a.internal ≡ some topic
    → (inbound_set a id []).1 ≡ topic
unfolding inbound_set bytes_eq
inbound_set-resolves a id topic h e = rw e (ground arith)

-- After `InboundTopicAliases.Set` of a topic that is not empty under an id, with aliases switched on,
-- `Set` of the empty topic under that id returns the topic.
pub inbound_set_alias :
    (a : InboundTopicAliases) (id : ℕ) (topic : Bytes)
    → 0 < a.maximum
    → topic ≢ []
    → (inbound_set (inbound_set a id topic).0 id []).1 ≡ topic
inbound_set_alias a id [] h t = absurd (t refl)
inbound_set_alias a id (x ∷ xs) h t = rw (inbound_set-stores a id x xs h) (
    inbound_set-resolves (record a { internal = insert id (x ∷ xs) a.internal }) id (x ∷ xs) h
      (lookup-insert id id (x ∷ xs) a.internal ∙ rw (beq_refl ⦃e = nat_eq⦄ id) refl))
