-- ===== src/Topics/Filter/Valid.antt =====
-- topics.go: where `IsValidFilter` allows the wildcard for all levels.
use mqtt_server.Prelude.{
  ℕ, ◌≡◌, refl, sym, ap, ◌∙◌, Bool, true, false, not, ◌&&◌, ◌||◌, Option, none, some, [], ◌∷◌, ◌++◌,
  arith, ◌==◌, ==_iff, bytes_eq, bytes_eq_iff, if◌then◌else◌,
}
use mqtt_server.Packets.Codec.{Bytes}
use mqtt_server.Topics.Filter.{
  cut_at, contains_byte, hash, plus, hash_before_end, is_valid_filter, bad_for_publish,
}

-- The first occurrence cuts the text in two.
abbrev pub CutText : ℕ → Bytes → Option (Bytes × Bytes) → Type 0
CutText c f none = contains_byte f c ≡ false
CutText c f (some (before, behind)) =
    (f ≡ before ++ (c ∷ behind)) × (contains_byte before c ≡ false)

pub cut_at-CutText : (c : ℕ) (f : Bytes) → CutText c f (cut_at c f)
unfolding cut_at contains_byte
cut_at-CutText c [] = refl
cut_at-CutText c (x ∷ xs) = go (x == c) refl (cut_at c xs) (cut_at-CutText c xs)
  where
    go :
        (b : Bool)
        → (x == c) ≡ b
        → (o : Option (Bytes × Bytes)) → CutText c xs o
        → CutText c
            (x ∷ xs)
            (if b then some ([], xs) else elim o [ none ↦ none | some (y, z) ↦ some (x ∷ y, z) ])
    go true e o h = (ap (λ y. y ∷ xs) ((==_iff x c).0 e), refl)
    go false e none h = rw e h
    go false e (some (y, z)) (h, k) = (ap (λ (t : Bytes). x ∷ t) h, rw e k)

-- The tests of `IsValidFilter`, one after the other.
passes :
    (p q r s : Bool)
    → (if p then false else if q then false else if r then false else not s) ≡ true
    → (q ≡ false) × (r ≡ false)
passes false false false s h = (refl, refl)
passes true q r s h = absurd (ground arith)
passes false true r s h = absurd (ground arith)
passes false false true s h = absurd (ground arith)

neither : (x p h : Bool) → (x || p) || h ≡ false → (p ≡ false) × (h ≡ false)
neither false false false e = (refl, refl)
neither true p h e = absurd (ground arith)
neither false true h e = absurd (ground arith)
neither false false true e = absurd (ground arith)

-- In a filter that IsValidFilter accepts, for a subscription or for a publication, the wildcard `#`
-- stands at most once, as the last byte; in one accepted for a publication no wildcard stands.
pub is_valid_filter_wildcards :
    (f : Bytes) (b : Bool)
    → is_valid_filter f b ≡ true
    → (contains_byte f hash ≡ true
        → (before : Bytes) × (f ≡ before ++ (hash ∷ [])) × (contains_byte before hash ≡ false))
      × (b ≡ true → (contains_byte f plus ≡ false) × (contains_byte f hash ≡ false))
unfolding is_valid_filter hash_before_end bad_for_publish
is_valid_filter_wildcards f b h =
    let (p, r) = passes _ _ _ _ h in
    (
      go (cut_at hash f) refl (cut_at-CutText hash f) r,
      λ e. neither _ _ _ (sym (ap (λ c. c && bad_for_publish f) e) ∙ p),
    )
  where
    go :
        (o : Option (Bytes × Bytes))
        → cut_at hash f ≡ o
        → CutText hash f o
        → elim o as (λ _. Bool) [ none ↦ false | some (before, behind) ↦ not (bytes_eq behind []) ]
          ≡ false
        → contains_byte f hash ≡ true
        → (before : Bytes) × (f ≡ before ++ (hash ∷ [])) × (contains_byte before hash ≡ false)
    go none e t r k = absurd (ground arith)
    go (some (before, [])) e (t, u) r k = (before, t, u)
    go (some (before, x ∷ behind)) e (t, u) r k =
        absurd (ground (arith, bytes_eq_iff (x ∷ behind) []))
