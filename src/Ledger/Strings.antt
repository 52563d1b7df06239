-- ===== src/Ledger/Strings.antt =====
-- hooks/auth/ledger.go: which strings the string of a rule matches.
use mqtt_server.Prelude.{
  ℕ, ◌<◌, ◌≡◌, ◌≢◌, refl, sym, ap, ◌∙◌, ◌↔◌, inl, inr, Bool, true, false, ◌&&◌, ◌||◌, Option, none,
  some, [], ◌∷◌, ◌++◌, arith, ltb, ◌==◌, ==_iff, bytes_eq, bytes_eq_iff, bytes_eq_refl, length,
  length-append, take, Bool-cases,
}
use mqtt_server.Packets.Codec.{Bytes}
use mqtt_server.Topics.Filter.{cut_at, contains_byte}
use mqtt_server.Topics.Filter.Valid.{CutText, cut_at-CutText}
use mqtt_server.Ledger.{star, starred, rule_matches}

-- The string of a rule is empty, a star, or the string itself; or it has text in front of its first
-- star, and the string begins with that text and goes on. What stands behind the star has no effect.
pub data Accepts (r a : Bytes) : Type 0 where
  anything : r ≡ [] → Accepts r a
  all_of_it : r ≡ star → Accepts r a
  itself : a ≡ r → Accepts r a
  begins :
      (before behind rest : Bytes)
      → r ≡ before ++ (b'*' ∷ behind)
      → contains_byte before b'*' ≡ false
      → before ≢ []
      → rest ≢ []
      → a ≡ before ++ rest
      → Accepts r a

neither : (a b : Bool) → a || b ≡ false → (a ≡ false) × (b ≡ false)
neither a b h = ground arith

both : (a b : Bool) → a && b ≡ true → (a ≡ true) × (b ≡ true)
both a b h = ground arith

cut_at-first :
    (c : ℕ) (before behind : Bytes)
    → contains_byte before c ≡ false
    → cut_at c (before ++ (c ∷ behind)) ≡ some (before, behind)
unfolding cut_at contains_byte
cut_at-first c [] behind h = rw ((==_iff c c).1 refl) refl
cut_at-first c (x ∷ before) behind h =
    let (other, later) = neither (x == c) (contains_byte before c) h in
    rw other (rw (cut_at-first c before behind later) refl)

rest_behind :
    (before a : Bytes)
    → bytes_eq before (take (length before) a) ≡ true
    → length before < length a
    → (rest : Bytes) × (rest ≢ []) × (a ≡ before ++ rest)
unfolding bytes_eq
rest_behind [] a e h = (a, λ z. absurd (omega (arith, ap length z)), refl)
rest_behind (x ∷ before) [] e h = absurd (omega arith)
rest_behind (x ∷ before) (y ∷ a) e h =
    let (same, later) = both (x == y) _ e in
    let (rest, more, split) = rest_behind before a later (omega arith) in
    (
      rest,
      more,
      ap (λ (z : ℕ). z ∷ a) (sym ((==_iff x y).0 same)) ∙ ap (λ (t : Bytes). x ∷ t) split,
    )

take-append : (before rest : Bytes) → take (length before) (before ++ rest) ≡ before
take-append [] rest = refl
take-append (x ∷ before) rest = ap (λ (xs : Bytes). x ∷ xs) (take-append before rest)

not_none : (xs : Bytes) → xs ≢ [] → 0 < length xs
not_none [] d = absurd (d refl)
not_none (x ∷ xs) d = omega arith

three : (a b c : Bool) → a && b && c ≡ true → (a ≡ true) × (b ≡ true) × (c ≡ true)
three a b c h = ground arith

starred-Accepts : (r a : Bytes) → starred r a ≡ true → Accepts r a
unfolding starred
starred-Accepts r a h = go (cut_at b'*' r) (cut_at-CutText b'*' r) h
  where
    go :
        (o : Option (Bytes × Bytes))
        → CutText b'*' r o
        → elim o [
          | none ↦ false
          | some (before, behind) ↦
              ltb 0 (length before)
              && ltb (length before) (length a)
              && bytes_eq before (take (length before) a)
        ]
          ≡ true
        → Accepts r a
    go none c h = absurd (ground arith)
    go (some (before, behind)) (e, first) h =
        let (some_text, longer, same) =
          three (ltb 0 (length before)) (ltb (length before) (length a)) _ h in
        let (rest, more, split) = rest_behind before a same (ground (arith, longer)) in
        begins before behind rest e first (λ z. absurd (ground (arith, some_text, ap length z)))
          more split

Accepts-starred :
    (before behind rest : Bytes)
    → contains_byte before b'*' ≡ false
    → before ≢ []
    → rest ≢ []
    → starred (before ++ (b'*' ∷ behind)) (before ++ rest) ≡ true
unfolding starred
Accepts-starred before behind rest first some_text more =
    rw (starred, cut_at-first b'*' before behind first)
      (rw (take-append before rest, bytes_eq_refl before)
        (ground (arith, not_none before some_text, not_none rest more, length-append before rest)))

rule_matches-true : (r a : Bytes) → Accepts r a → rule_matches r a ≡ true
unfolding rule_matches
rule_matches-true r a (anything e) = ground (arith, (bytes_eq_iff r []).1 e)
rule_matches-true r a (all_of_it e) = ground (arith, (bytes_eq_iff r star).1 e)
rule_matches-true r a (itself e) = ground (arith, (bytes_eq_iff a r).1 e)
rule_matches-true r a (begins before behind rest e first some_text more split) =
    ground (arith, both_split ∙ Accepts-starred before behind rest first some_text more)
  where
    both_split : starred r a ≡ starred (before ++ (b'*' ∷ behind)) (before ++ rest)
    both_split =
        ap (λ (x : Bytes). starred x a) e
        ∙ ap (λ (y : Bytes). starred (before ++ (b'*' ∷ behind)) y) split

-- RString.Matches accepts a string exactly if the string of the rule is empty, a star or that string, or
-- has text in front of its first star and the string begins with that text and is longer; what stands
-- behind the star has no effect.
pub rule_matches-Accepts : (r a : Bytes) → (rule_matches r a ≡ true) ↔ Accepts r a
unfolding rule_matches
rule_matches-Accepts r a = (
  λ h. elim (Bool-cases (bytes_eq r [])) [
    | inl e ↦ anything ((bytes_eq_iff r []).0 e)
    | inr p ↦ elim (Bool-cases (bytes_eq r star)) [
      | inl e ↦ all_of_it ((bytes_eq_iff r star).0 e)
      | inr q ↦ elim (Bool-cases (bytes_eq a r)) [
        | inl e ↦ itself ((bytes_eq_iff a r).0 e)
        | inr s ↦ starred-Accepts r a (ground (arith, h, p, q, s))
      ]
    ]
  ],
  rule_matches-true r a,
)
