-- ===== src/Prelude/Maps.antt =====
-- Go's maps as association lists, over any key type with a Boolean equality. The order of the list
-- stands for the order in which a `range` loop visits the entries.
use Prim.Native.Nat.{ℕ, ◌+◌, ◌≤◌}
use mathlib.Core.Path.{◌≡◌, refl}
use mathlib.Core.Logic.{◌↔◌}
use mathlib.Core.Bool.{Bool, true, false}
use mathlib.Core.Option.{Option, none, some}
use mathlib.Core.List.{List, [], ◌∷◌}
use native.Mathlib.Omega.{arith}
use mqtt_server.Prelude.Tests.{◌==◌, ==_iff, bytes_eq, bytes_eq_iff, if◌then◌else◌}
use mqtt_server.Prelude.Lists.{length}

pub record Eq {ℓ} (K : Type ℓ) : Type ℓ where
  pub beq : K → K → Bool
  pub beq_iff : (a b : K) → (beq a b ≡ true) ↔ (a ≡ b)

instance abbrev pub nat_eq : Eq ℕ
nat_eq = record { beq = ◌==◌; beq_iff = ==_iff }

instance abbrev pub string_eq : Eq (List ℕ)
string_eq = record { beq = bytes_eq; beq_iff = bytes_eq_iff }

abbrev pub Map {ℓ κ} : Type ℓ → Type κ → Type (ℓ ⊔ κ)
Map K V = List (K × V)

abbrev pub is_some {ℓ} : {A : Type ℓ} → Option A → Bool
is_some none = false
is_some (some a) = true

abbrev pub held {κ} : {V : Type κ} → (V → Bool) → Option V → ℕ
held p none = 0
held p (some v) = if p v then 1 else 0

pub beq_refl {ℓ} : {K : Type ℓ} ⦃e : Eq K⦄ (k : K) → e.beq k k ≡ true
beq_refl ⦃e⦄ k = (e.beq_iff k k).1 refl

module _ {ℓ κ} {K : Type ℓ} {V : Type κ} ⦃e : Eq K⦄ where
  -- `m[k]`
  unfoldable pub lookup : K → Map K V → Option V
  lookup k [] = none
  lookup k ((j, v) ∷ m) = if e.beq j k then some v else lookup k m

  -- `m[k] = v`
  unfoldable pub insert : K → V → Map K V → Map K V
  insert k v [] = (k, v) ∷ []
  insert k v ((j, w) ∷ m) = if e.beq j k then (k, v) ∷ m else (j, w) ∷ insert k v m

  -- `delete(m, k)`
  unfoldable pub delete : K → Map K V → Map K V
  delete k [] = []
  delete k ((j, w) ∷ m) = let rest = delete k m in if e.beq j k then rest else (j, w) ∷ rest

  -- No key stands twice.
  abbrev pub IsMap : Map K V → Type κ
  IsMap [] = Unit
  IsMap ((k, v) ∷ m) = (lookup k m ≡ none) × IsMap m

  pub lookup-insert :
      (k j : K) (v : V) (m : Map K V)
      → lookup j (insert k v m) ≡ (if e.beq k j then some v else lookup j m)
  unfolding lookup insert
  lookup-insert k j v [] = refl
  lookup-insert k j v ((i, w) ∷ m) =
      ground (arith, e.beq_iff k j, e.beq_iff i k, e.beq_iff i j, lookup-insert k j v m)

  pub lookup-delete :
      (k j : K) (m : Map K V) → lookup j (delete k m) ≡ (if e.beq k j then none else lookup j m)
  unfolding lookup delete
  lookup-delete k j [] = ground arith
  lookup-delete k j ((i, w) ∷ m) =
      ground (arith, e.beq_iff k j, e.beq_iff i k, e.beq_iff i j, lookup-delete k j m)

  pub insert-IsMap : (k : K) (v : V) (m : Map K V) → IsMap m → IsMap (insert k v m)
  unfolding insert
  insert-IsMap k v [] h = (unfold lookup in refl, tt)
  insert-IsMap k v ((i, w) ∷ m) h =
      ground (arith, e.beq_iff i k, e.beq_iff k i, lookup-insert k i v m, insert-IsMap k v m)

  pub delete-IsMap : (k : K) (m : Map K V) → IsMap m → IsMap (delete k m)
  unfolding delete
  delete-IsMap k [] h = h
  delete-IsMap k ((i, w) ∷ m) h =
      ground (arith, e.beq_iff k i, lookup-delete k i m, delete-IsMap k m)

module _ {ℓ κ} {K : Type ℓ} {V : Type κ} where
  -- How many values of the map pass a test: a counting `range` loop.
  unfoldable pub count : (V → Bool) → Map K V → ℕ
  count p [] = 0
  count p ((k, v) ∷ m) = (if p v then 1 else 0) + count p m

  -- `len(m)`
  abbrev pub size : Map K V → ℕ
  size m = length m

  pub size-count : (m : Map K V) → count (λ v. true) m ≡ size m
  unfolding count
  size-count [] = refl
  size-count ((k, v) ∷ m) = omega (arith, size-count m)

  pub count-le-size : (p : V → Bool) (m : Map K V) → count p m ≤ size m
  unfolding count
  count-le-size p [] = omega arith
  count-le-size p ((k, v) ∷ m) = ground (arith, count-le-size p m)

module _ {ℓ κ} {K : Type ℓ} {V : Type κ} ⦃e : Eq K⦄ where
  pub count-insert :
      (p : V → Bool) (k : K) (v : V) (m : Map K V)
      → count p (insert k v m) + held p (lookup k m) ≡ count p m + (if p v then 1 else 0)
  unfolding count insert lookup
  count-insert p k v [] = ground arith
  count-insert p k v ((j, w) ∷ m) = ground (arith, count-insert p k v m)

  delete_absent : (k : K) (m : Map K V) → lookup k m ≡ none → delete k m ≡ m
  unfolding delete lookup
  delete_absent k [] h = refl
  delete_absent k ((j, w) ∷ m) h = ground (arith, delete_absent k m)

  pub count-delete :
      (p : V → Bool) (k : K) (m : Map K V)
      → IsMap m
      → count p (delete k m) + held p (lookup k m) ≡ count p m
  unfolding count delete lookup
  count-delete p k [] h = ground arith
  count-delete p k ((j, w) ∷ m) h =
      ground (arith, e.beq_iff j k, count-delete p k m, delete_absent k m)

  pub size-insert :
      (k : K) (v : V) (m : Map K V)
      → size (insert k v m) ≡ size m + (if is_some (lookup k m) then 0 else 1)
  unfolding insert lookup
  size-insert k v [] = ground arith
  size-insert k v ((j, w) ∷ m) = ground (arith, size-insert k v m)

  pub lookup-count : (p : V → Bool) (k : K) (m : Map K V) → held p (lookup k m) ≤ count p m
  unfolding count lookup
  lookup-count p k [] = omega arith
  lookup-count p k ((j, w) ∷ m) = ground (arith, lookup-count p k m)
