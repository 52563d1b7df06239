-- ===== src/Prelude/Bits.antt =====
-- The source's shifts, masks and disjoint ORs as plain arithmetic.
use Prim.Native.Nat.{
  ℕ, zero, suc, ◌+◌, ◌*◌, ◌/◌, ◌%◌, ◌^◌, ◌≤◌, ◌<◌, min, max, bit_and, bit_or, digits,
  bit_and-bitwise, bit_or-bitwise,
}
use mathlib.Core.Path.{◌≡◌, refl, ap}
use native.Mathlib.Omega.{arith}
use native.Mathlib.Nat.{pow-suc}

-- Both native operations walk down the binary digits of their first argument; `last` is the result
-- where that is used up, and `op` acts on one digit of each. The number of rounds does not matter.
module _ (last : ℕ → ℕ) (op : ℕ → ℕ → ℕ) where
  digits_rounds : (a b : ℕ) (r s : ℕ) → a ≤ r → a ≤ s → digits last op r a b ≡ digits last op s a b
  digits_rounds zero b zero zero hr hs = refl
  digits_rounds zero b zero (suc s) hr hs = refl
  digits_rounds zero b (suc r) zero hr hs = refl
  digits_rounds zero b (suc r) (suc s) hr hs = refl
  digits_rounds (suc a) b zero s hr hs = elim hr [ ]
  digits_rounds (suc a) b (suc r) zero hr hs = elim hs [ ]
  digits_rounds (suc a) b (suc r) (suc s) hr hs =
      let h = suc a / 2 in
      let halves : digits last op r h (b / 2) ≡ digits last op s h (b / 2) =
        digits_rounds h (b / 2) r s (omega arith) (omega arith) in
      ap (λ (t : ℕ). t * 2 + op (suc a % 2) (b % 2)) halves

bit_and_step : (a b : ℕ) → bit_and a b ≡ bit_and (a / 2) (b / 2) * 2 + min (a % 2) (b % 2)
bit_and_step zero b = omega (arith, bit_and-bitwise 0 b, bit_and-bitwise 0 (b / 2))
bit_and_step (suc a) b =
    let h = suc a / 2 in
    let rest = digits_rounds (λ x. 0) min h (b / 2) a h (omega arith) (omega arith) in
    omega (arith, bit_and-bitwise (suc a) b, bit_and-bitwise h (b / 2), rest)

bit_or_step : (a b : ℕ) → bit_or a b ≡ bit_or (a / 2) (b / 2) * 2 + max (a % 2) (b % 2)
bit_or_step zero b = omega (arith, bit_or-bitwise 0 b, bit_or-bitwise 0 (b / 2))
bit_or_step (suc a) b =
    let h = suc a / 2 in
    let rest = digits_rounds (λ x. x) max h (b / 2) a h (omega arith) (omega arith) in
    omega (arith, bit_or-bitwise (suc a) b, bit_or-bitwise h (b / 2), rest)

-- Zero on the right, for any `n` from `a` on.
zero_right : (n a : ℕ) → a ≤ n → (bit_or a 0 ≡ a) × (bit_and a 0 ≡ 0)
zero_right n zero h = (refl, refl)
zero_right zero (suc a) h = elim h [ ]
zero_right (suc n) (suc a) h =
    let (o, z) = zero_right n (suc a / 2) (omega arith) in
    (omega (arith, o, bit_or_step (suc a) 0), omega (arith, z, bit_and_step (suc a) 0))

or-zero : (a : ℕ) → bit_or a 0 ≡ a
or-zero a = (zero_right a a (omega arith)).0

half_shift : (b m : ℕ) → b * 2 ^ suc m / 2 ≡ b * 2 ^ m
half_shift b m = omega (arith, ap (λ (t : ℕ). b * t) (pow-suc 2 m))

-- `a | b << m` is a sum where the bits of `a` end below bit `m`, in both orders.
pub bit_or_shift : (m a b : ℕ) → a < 2 ^ m → bit_or a (b * 2 ^ m) ≡ a + b * 2 ^ m
bit_or_shift zero zero b h = omega (arith, bit_or-bitwise 0 (b * 2 ^ zero))
bit_or_shift zero (suc a) b h = absurd (omega arith)
bit_or_shift (suc m) a b h = omega (
  arith,
  pow-suc 2 m,
  ap (λ (t : ℕ). b * t) (pow-suc 2 m),
  bit_or_step a (b * 2 ^ suc m),
  bit_or_shift m (a / 2) b (omega (arith, pow-suc 2 m)),
  ap (λ (t : ℕ). bit_or (a / 2) t) (half_shift b m),
)

pub shift_bit_or : (m a b : ℕ) → a < 2 ^ m → bit_or (b * 2 ^ m) a ≡ b * 2 ^ m + a
shift_bit_or zero zero b h = omega (arith, or-zero (b * 2 ^ zero))
shift_bit_or zero (suc a) b h = absurd (omega arith)
shift_bit_or (suc m) a b h = omega (
  arith,
  pow-suc 2 m,
  ap (λ (t : ℕ). b * t) (pow-suc 2 m),
  bit_or_step (b * 2 ^ suc m) a,
  shift_bit_or m (a / 2) b (omega (arith, pow-suc 2 m)),
  ap (λ (t : ℕ). bit_or t (a / 2)) (half_shift b m),
)

-- A mask that is one bit longer, on either side.
longer_mask : (a m : ℕ) → bit_and a (m * 2 + 1) ≡ bit_and (a / 2) m * 2 + a % 2
longer_mask a m =
    let half : (m * 2 + 1) / 2 ≡ m = omega arith in
    omega (arith, bit_and_step a (m * 2 + 1), ap (bit_and (a / 2)) half)

mask_longer : (a m : ℕ) → bit_and (m * 2 + 1) a ≡ bit_and m (a / 2) * 2 + a % 2
mask_longer a m =
    let half : (m * 2 + 1) / 2 ≡ m = omega arith in
    omega (arith, bit_and_step (m * 2 + 1) a, ap (λ (t : ℕ). bit_and t (a / 2)) half)

-- The masks that the codec applies, on any number.
pub bit_and-one : (a : ℕ) → bit_and a 1 ≡ a % 2
bit_and-one a = omega (arith, longer_mask a 0, (zero_right (a / 2) (a / 2) (omega arith)).1)

pub one-bit_and : (a : ℕ) → bit_and 1 a ≡ a % 2
one-bit_and a = omega (arith, mask_longer a 0, bit_and-bitwise 0 (a / 2))

pub bit_and_two : (a : ℕ) → bit_and a 2 ≡ a / 2 % 2 * 2
bit_and_two a = omega (arith, bit_and_step a 2, bit_and-one (a / 2))

pub bit_and_three : (a : ℕ) → bit_and a 3 ≡ a % 4
bit_and_three a = omega (arith, longer_mask a 1, bit_and-one (a / 2))

pub three-bit_and : (a : ℕ) → bit_and 3 a ≡ a % 4
three-bit_and a = omega (arith, mask_longer a 1, one-bit_and (a / 2))

bit_and_31 : (a : ℕ) → bit_and a 31 ≡ a % 32
bit_and_31 a = omega (
  arith,
  longer_mask a 15,
  longer_mask (a / 2) 7,
  longer_mask (a / 2 / 2) 3,
  bit_and_three (a / 2 / 2 / 2),
)

pub bit_and_127 : (a : ℕ) → bit_and a 127 ≡ a % 128
bit_and_127 a = omega (arith, longer_mask a 63, longer_mask (a / 2) 31, bit_and_31 (a / 2 / 2))

bit_and_sixteen : (a : ℕ) → bit_and a 16 ≡ a / 16 % 2 * 16
bit_and_sixteen a = omega (
  arith,
  bit_and_step a 16,
  bit_and_step (a / 2) 8,
  bit_and_step (a / 2 / 2) 4,
  bit_and_two (a / 2 / 2 / 2),
)

pub bit_and_128 : (a : ℕ) → bit_and a 128 ≡ a / 128 % 2 * 128
bit_and_128 a = omega (
  arith,
  bit_and_step a 128,
  bit_and_step (a / 2) 64,
  bit_and_step (a / 2 / 2) 32,
  bit_and_sixteen (a / 2 / 2 / 2),
)
