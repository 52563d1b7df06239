-- ===== src/Topics/Filter/Levels.antt =====
-- topics.go: `isolateParticle` against the list of levels that the slashes separate.
use mqtt_server.Prelude.{
  ℕ, zero, suc, ◌≤◌, ◌≡◌, refl, ap, ◌∙◌, Bool, true, false, Option, none, some, List, [], ◌∷◌,
  arith, ◌==◌, if◌then◌else◌, length,
}
use mqtt_server.Packets.Codec.{Bytes}
use mqtt_server.Topics.Filter.{cut_at, slash, isolate_particle, keys_from, keys}

abbrev push : ℕ → List Bytes → List Bytes
push c [] = (c ∷ []) ∷ []
push c (l ∷ ls) = (c ∷ l) ∷ ls

-- `strings.Split(s, "/")`
unfoldable pub levels : Bytes → List Bytes
levels [] = [] ∷ []
levels (c ∷ cs) = let rest = levels cs in if c == slash then [] ∷ rest else push c rest

-- The level at an index, and whether there is a later one; behind the last level, the last level.
unfoldable pub level_at : ℕ → List Bytes → Bytes × Bool
level_at d [] = ([], false)
level_at d (l ∷ []) = (l, false)
level_at zero (l ∷ m ∷ ls) = (l, true)
level_at (suc d) (l ∷ m ∷ ls) = level_at d (m ∷ ls)

abbrev pub CutLevels : Bytes → Option (Bytes × Bytes) → Type 0
CutLevels f none = levels f ≡ f ∷ []
CutLevels f (some (before, behind)) = levels f ≡ before ∷ levels behind

cut_at-CutLevels : (f : Bytes) → CutLevels f (cut_at slash f)
unfolding cut_at levels
cut_at-CutLevels [] = refl
cut_at-CutLevels (c ∷ cs) = go (c == slash) refl (cut_at slash cs) (cut_at-CutLevels cs)
  where
    go :
        (b : Bool)
        → (c == slash) ≡ b
        → (o : Option (Bytes × Bytes)) → CutLevels cs o
        → CutLevels
            (c ∷ cs)
            (if b then some ([], cs) else elim o [ none ↦ none | some (x, y) ↦ some (c ∷ x, y) ])
    go true e o h = rw e
    go false e none h = rw e (rw h)
    go false e (some (x, y)) h = rw e (rw h)

levels-ne-nil : (f : Bytes) → (l : Bytes) × (ls : List Bytes) × (levels f ≡ l ∷ ls)
unfolding levels
levels-ne-nil [] = ([], [], refl)
levels-ne-nil (c ∷ cs) = go (c == slash) (levels cs)
  where
    go :
        (b : Bool) (r : List Bytes)
        → (l : Bytes) × (ls : List Bytes) × ((if b then [] ∷ r else push c r) ≡ l ∷ ls)
    go true r = ([], r, refl)
    go false [] = (c ∷ [], [], refl)
    go false (x ∷ xs) = (c ∷ x, xs, refl)

first_level :
    (f : Bytes) (o : Option (Bytes × Bytes))
    → cut_at slash f ≡ o
    → CutLevels f o
    → isolate_particle f 0 ≡ level_at 0 (levels f)
unfolding level_at isolate_particle
first_level f none e h = rw (e, isolate_particle) (rw h)
first_level f (some (before, behind)) e h =
    let (l, ls, r) = levels-ne-nil behind in rw (e, isolate_particle) (rw h (rw r))

later_level :
    (f : Bytes) (d : ℕ)
    → ((r : Bytes) → isolate_particle r d ≡ level_at d (levels r))
    → (o : Option (Bytes × Bytes)) → cut_at slash f ≡ o
    → CutLevels f o
    → isolate_particle f (suc d) ≡ level_at (suc d) (levels f)
unfolding level_at isolate_particle
later_level f d ih none e h = rw (e, isolate_particle) (rw h)
later_level f d ih (some (before, behind)) e h =
    let (l, ls, r) = levels-ne-nil behind in
    rw (e, isolate_particle) (rw h (rw r (ih behind ∙ ap (level_at d) r)))

-- `isolateParticle` returns the level at its index and whether a later level follows; an index
-- behind the last level gets the last level.
pub isolate_particle-levels : (f : Bytes) (d : ℕ) → isolate_particle f d ≡ level_at d (levels f)
isolate_particle-levels f zero = first_level f (cut_at slash f) refl (cut_at-CutLevels f)
isolate_particle-levels f (suc d) =
    later_level f d (λ r. isolate_particle-levels r d) (cut_at slash f) refl (cut_at-CutLevels f)

-- The levels from an index on, at least the last one.
abbrev pub levels_from : ℕ → List Bytes → List Bytes
levels_from d [] = []
levels_from d (l ∷ []) = l ∷ []
levels_from zero (l ∷ m ∷ ls) = l ∷ m ∷ ls
levels_from (suc d) (l ∷ m ∷ ls) = levels_from d (m ∷ ls)

-- What one round of the loop sees.
data Round (d : ℕ) (ls : List Bytes) : Type 0 where
  at_end : (l : Bytes) → level_at d ls ≡ (l, false) → levels_from d ls ≡ l ∷ [] → Round d ls
  goes_on :
      (l : Bytes)
      → level_at d ls ≡ (l, true)
      → levels_from d ls ≡ l ∷ levels_from (suc d) ls
      → Round d ls

Round-at : (d : ℕ) (l : Bytes) (ls : List Bytes) → Round d (l ∷ ls)
unfolding level_at
Round-at d l [] = at_end l refl refl
Round-at zero l (m ∷ []) = goes_on l refl refl
Round-at zero l (m ∷ k ∷ ls) = goes_on l refl refl
Round-at (suc d) l (m ∷ ls) = elim (Round-at d m ls) [
  | at_end k e h ↦ at_end k e h
  | goes_on k e h ↦ goes_on k e (h ∙ refl)
]

levels_from-le : (d : ℕ) (ls : List Bytes) → length (levels_from d ls) ≤ length ls
levels_from-le d [] = omega arith
levels_from-le d (l ∷ []) = omega arith
levels_from-le zero (l ∷ m ∷ ls) = omega arith
levels_from-le (suc d) (l ∷ m ∷ ls) = omega (arith, levels_from-le d (m ∷ ls))

length-levels : (f : Bytes) → length (levels f) ≤ suc (length f)
unfolding levels
length-levels [] = omega arith
length-levels (c ∷ cs) = go (c == slash) (levels cs) (length-levels cs)
  where
    go :
        (b : Bool) (r : List Bytes)
        → length r ≤ suc (length cs)
        → length (if b then [] ∷ r else push c r) ≤ suc (suc (length cs))
    go true r h = omega arith
    go false [] h = omega arith
    go false (x ∷ xs) h = omega arith

Round-of : (d : ℕ) (f : Bytes) → Round d (levels f)
Round-of d f = let (l, ls, e) = levels-ne-nil f in rw e (Round-at d l ls)

empty_list : (ls : List Bytes) → length ls ≤ 0 → [] ≡ ls
empty_list [] h = refl
empty_list (l ∷ ls) h = absurd (omega arith)

keys_from-levels :
    (fuel : ℕ) (f : Bytes) (d : ℕ)
    → length (levels_from d (levels f)) ≤ fuel
    → keys_from fuel f d ≡ levels_from d (levels f)
unfolding keys_from
keys_from-levels zero f d h = empty_list (levels_from d (levels f)) h
keys_from-levels (suc fuel) f d h = rw (isolate_particle-levels f d) (elim (Round-of d f) [
  | at_end l e r ↦ rw (e, r) refl
  | goes_on l e r ↦
      rw (e, r)
        (ap (λ (t : List Bytes). l ∷ t)
          (keys_from-levels fuel f (suc d) (omega (arith, ap (length {A = Bytes}) r))))
])

-- The loop of `set` and `seek` over `isolateParticle` visits exactly the levels of the filter from
-- its start index on, at least the last one, and its fuel does not run out.
pub keys-levels : (f : Bytes) (d : ℕ) → keys f d ≡ levels_from d (levels f)
unfolding keys
keys-levels f d =
    keys_from-levels (suc (length f)) f d
      (omega (arith, levels_from-le d (levels f), length-levels f))
