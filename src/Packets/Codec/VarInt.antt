-- ===== src/Packets/Codec/VarInt.antt =====
-- packets/codec.go: `encodeLength` and `DecodeLength`, the variable byte integer.
use mqtt_server.Prelude.{
  ℕ, zero, suc, ◌+◌, ◌-◌, ◌*◌, ◌/◌, ◌%◌, ◌^◌, ◌≤◌, ◌<◌, ◌≡◌, refl, sym, ap, some, [], ◌∷◌, ◌++◌,
  arith, ltb, if◌then◌else◌, length, IsByte, All,
}
use mqtt_server.Prelude.Bits.{bit_or_shift, bit_and_127, bit_and_128}
use mqtt_server.Packets.Codec.{
  Bytes, decoded, encode_length_loop, encode_length, add_group, decode_length_loop, decode_length,
}
use Prim.Native.Nat.add
use Prim.Native.Nat.{bit_or}
use native.Mathlib.Numerals.{towards_suc}
use native.Mathlib.Nat.{div-add-mod, mod-eq_of_lt}

-- The groups of seven bits, lowest first: what the loop writes.
unfoldable pub groups : ℕ → ℕ → Bytes
groups zero n = n ∷ []
groups (suc k) n =
    let rest = groups k (n / 128) in if ltb n 128 then n ∷ [] else (n % 128 + 128) ∷ rest

set_top_bit : (n : ℕ) → bit_or (n % 128) 128 ≡ n % 128 + 128
set_top_bit n = bit_or_shift 7 (n % 128) 1 (omega arith)

encode_length_loop-groups :
    (k n : ℕ) → n < 128 ^ suc k → encode_length_loop (suc k) n ≡ some (groups k n)
unfolding encode_length_loop groups
encode_length_loop-groups zero n h = ground arith
encode_length_loop-groups (suc k) n h =
    ground (arith, set_top_bit n, encode_length_loop-groups k (n / 128) (omega arith))

encode_length-groups : (n : ℕ) → n < 2 ^ 63 → encode_length n ≡ groups 8 n
unfolding encode_length
encode_length-groups n h = rw (encode_length_loop-groups 8 n (omega arith))

-- Nine rounds are enough fuel for the loop of `encodeLength` on every int64 that is not negative.
pub encode_length_total : (n : ℕ) → n < 2 ^ 63 → encode_length_loop 9 n ≡ some (encode_length n)
unfolding encode_length
encode_length_total n h = rw (encode_length_loop-groups 8 n (omega arith))

next_power : (m : ℕ) → 2 ^ (m + 7) ≡ 128 * 2 ^ m
next_power m = simp towards_suc (omega arith)

-- The part of `n` that one group holds, and the part that the later groups hold.
low_and_rest : (n p : ℕ) → n % 128 * p + n / 128 * (128 * p) ≡ n * p
low_and_rest n p = omega (arith, ap (λ (t : ℕ). t * p) (div-add-mod n 128))

group_and_rest : (n m : ℕ) → n * 2 ^ m ≡ n % 128 * 2 ^ m + n / 128 * 2 ^ (m + 7)
group_and_rest n m = rw next_power (sym (low_and_rest n (2 ^ m)))

-- One round on a group `g`, with and without the continuation bit.
add_group-disjoint :
    (acc eb m : ℕ)
    → acc < 2 ^ m
    → acc + eb % 128 * 2 ^ m ≤ 268435455
    → add_group acc eb m ≡ acc + eb % 128 * 2 ^ m
unfolding add_group
add_group-disjoint acc eb m h fits = rw (bit_and_127 eb) (
    rw (mod-eq_of_lt {n = eb % 128 * 2 ^ m} {m = 2 ^ 32} (omega arith))
      (bit_or_shift m acc (eb % 128) h))

last_group :
    (g acc m bu : ℕ) (rest : Bytes)
    → g < 128
    → acc < 2 ^ m
    → acc + g * 2 ^ m ≤ 268435455
    → decode_length_loop (g ∷ rest) acc m bu ≡ decoded (acc + g * 2 ^ m) bu rest
unfolding decode_length_loop
last_group g acc m bu rest hg ha fits =
    ground (arith, group_value g m (omega arith), add_group-disjoint acc g m, bit_and_128 g)
  where
    group_value : (g m : ℕ) → g < 128 → g % 128 * 2 ^ m ≡ g * 2 ^ m
    group_value g m h = ap (λ (t : ℕ). t * 2 ^ m) (mod-eq_of_lt h)

inner_group :
    (g acc m bu : ℕ) (rest : Bytes)
    → g < 128
    → m ≤ 100
    → acc < 2 ^ m
    → acc + g * 2 ^ m ≤ 268435455
    → decode_length_loop ((g + 128) ∷ rest) acc m bu
      ≡ decode_length_loop rest (acc + g * 2 ^ m) (m + 7) (bu + 1)
unfolding decode_length_loop
inner_group g acc m bu rest hg hm ha fits = ground (
  arith,
  ap (λ (t : ℕ). t * 2 ^ m) low,
  add_group-disjoint acc (g + 128) m,
  bit_and_128 (g + 128),
  mod-eq_of_lt {n = m + 7} {m = 2 ^ 32} (omega arith),
)
  where
    low : (g + 128) % 128 ≡ g
    low = omega arith

decode_length_loop-groups :
    (k n acc m bu : ℕ) (rest : Bytes)
    → n < 128 ^ suc k
    → m + 7 * k ≤ 100
    → acc < 2 ^ m
    → acc + n * 2 ^ m ≤ 268435455
    → decode_length_loop (groups k n ++ rest) acc m bu
      ≡ decoded (acc + n * 2 ^ m) (bu + length (groups k n) - 1) rest
unfolding groups
decode_length_loop-groups zero n acc m bu rest hn hm ha fits =
    ground (arith, last_group n acc m bu rest)
decode_length_loop-groups (suc k) n acc m bu rest hn hm ha fits = ground (
  arith,
  last_group n acc m bu rest,
  group_and_rest n m,
  inner_group (n % 128) acc m bu (groups k (n / 128) ++ rest),
  acc_bound,
  decode_length_loop-groups k (n / 128) (acc + n % 128 * 2 ^ m) (m + 7) (bu + 1) rest (omega arith)
      (omega arith),
)
  where
    acc_bound : acc + n % 128 * 2 ^ m < 2 ^ (m + 7)
    acc_bound = rw next_power (grind arith)

-- `DecodeLength` reads back every length up to 268435455 that `encodeLength` wrote, whatever follows
-- it, and reports as many bytes as were written.
pub decode_length-encode_length :
    (n : ℕ) (rest : Bytes)
    → n ≤ 268435455
    → decode_length (encode_length n ++ rest) ≡ decoded n (length (encode_length n)) rest
unfolding decode_length
decode_length-encode_length n rest h =
    rw (encode_length-groups n (omega arith))
      (ground (arith, decode_length_loop-groups 8 n 0 0 1 rest))

groups_size :
    (k n : ℕ)
    → n < 128 ^ suc k
    → (1 ≤ length (groups k n)) × (length (groups k n) ≤ suc k) × All IsByte (groups k n)
unfolding groups
groups_size zero n h = omega arith
groups_size (suc k) n h = ground (arith, groups_size k (n / 128) (omega arith))

groups_narrow : (k j n : ℕ) → n < 128 ^ suc k → groups (k + j) n ≡ groups k n
unfolding groups
groups_narrow zero zero n h = refl
groups_narrow zero (suc j) n h = rw (add.zero (suc j)) (ground arith)
groups_narrow (suc k) j n h =
    rw (add.suc k j) (ground (arith, groups_narrow k j (n / 128) (omega arith)))

-- A length up to 268435455 is written as one to four bytes.
pub encode_length_size :
    (n : ℕ)
    → n ≤ 268435455
    → (1 ≤ length (encode_length n)) × (length (encode_length n) ≤ 4) × All IsByte (encode_length n)
encode_length_size n h =
    rw (encode_length-groups n (omega arith))
      (rw (groups_narrow 3 5 n (omega arith)) (groups_size 3 n (omega arith)))

decode_length_loop_sound :
    (b : Bytes) (acc m bu v u : ℕ) (rest : Bytes)
    → decode_length_loop b acc m bu ≡ decoded v u rest
    → (v ≤ 268435455) × (length b + bu ≡ length rest + u + 1) × (bu ≤ u)
unfolding decode_length_loop
decode_length_loop_sound [] acc m bu v u rest h = cc
decode_length_loop_sound (eb ∷ b) acc m bu v u rest h =
    ground
      (arith, decode_length_loop_sound b (add_group acc eb m) ((m + 7) % 2 ^ 32) (bu + 1) v u rest)

-- What `DecodeLength` accepts is at most 268435455, and its count is the number of bytes it used,
-- at least one.
pub decode_length_sound :
    (b : Bytes) (v u : ℕ) (rest : Bytes)
    → decode_length b ≡ decoded v u rest
    → (v ≤ 268435455) × (length b ≡ u + length rest) × (1 ≤ u)
unfolding decode_length
decode_length_sound b v u rest h = ground (arith, decode_length_loop_sound b 0 0 1 v u rest)

abbrev pub padding : ℕ → Bytes → Bytes
padding zero rest = 0 ∷ rest
padding (suc k) rest = 0x80 ∷ padding k rest

decode_length_loop-padding :
    (k m bu : ℕ) (rest : Bytes)
    → decode_length_loop (padding k rest) 0 m bu ≡ decoded 0 (bu + k) rest
unfolding decode_length_loop add_group
decode_length_loop-padding zero m bu rest = ground arith
decode_length_loop-padding (suc k) m bu rest =
    ground (arith, decode_length_loop-padding k ((m + 7) % 2 ^ 32) (bu + 1) rest)

-- `DecodeLength` has no limit on the number of bytes: zero, padded with any number `k` of
-- continuation bytes 0x80, is accepted, where the MQTT standard allows four bytes in all.
pub decode_length_overlong :
    (k : ℕ) (rest : Bytes) → decode_length (padding k rest) ≡ decoded 0 (k + 1) rest
unfolding decode_length
decode_length_overlong k rest = ground (arith, decode_length_loop-padding k 0 1 rest)
