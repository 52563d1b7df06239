-- ===== src/Packets/Header/RoundTrip.antt =====
-- packets/fixedheader.go: `FixedHeader.Decode` against `FixedHeader.Encode`.
use mqtt_server.Prelude.{
  ℕ, ◌+◌, ◌*◌, ◌/◌, ◌%◌, ◌^◌, ◌≤◌, ◌<◌, ◌≡◌, ◌⊎◌, Bool, true, false, ◌||◌, arith, ◌==◌,
  if◌then◌else◌,
}
use mqtt_server.Prelude.Bits.{bit_and-one, bit_and_two, bit_and_three, shift_bit_or}
use mqtt_server.Packets.Codes.{ok}
use mqtt_server.Packets.Codec.{encode_bool}
use mqtt_server.Packets.Types.{publish, pubrel, subscribe, unsubscribe}
use mqtt_server.Packets.Header.{FixedHeader, header_byte, decode_header}
use Prim.Native.Nat.{bit_and, bit_or}

-- The types whose flag bits are 0010.
abbrev pub has_flags : ℕ → Bool
has_flags t = t == pubrel || t == subscribe || t == unsubscribe

-- A header that the standard allows: a publish has a quality of service up to 2, and is no duplicate
-- at 0; the flags of every other type are fixed.
pub record IsValid (fh : FixedHeader) : Type 0 where
  pub narrow : fh.type < 16
  pub qos_range : fh.qos ≤ 2
  pub dup_qos : (fh.dup ≡ false) ⊎ (0 < fh.qos)
  pub other_flags :
      (fh.type ≡ publish)
      ⊎ ((fh.dup ≡ false) × (fh.retain ≡ false) × (fh.qos ≡ (if has_flags fh.type then 1 else 0)))

abbrev pub fresh : ℕ → FixedHeader
fresh n = record { remaining = n; type = 0; qos = 0; dup = false; retain = false }

abbrev bit : Bool → ℕ
bit b = if b then 1 else 0

bit-le-one : (b : Bool) → bit b ≤ 1
bit-le-one true = omega arith
bit-le-one false = omega arith

join :
    (t d q r : ℕ)
    → t < 16
    → d ≤ 1
    → q < 4
    → r ≤ 1
    → bit_or (bit_or (bit_or (t * 2 ^ 4 % 256) (d * 2 ^ 3 % 256)) (q * 2 % 256)) r
      ≡ t * 16 + d * 8 + q * 2 + r
join t d q r ht hd hq hr =
    let type_bits : t * 2 ^ 4 % 256 ≡ t * 2 ^ 4 = omega arith in
    let dup_bits : d * 2 ^ 3 % 256 ≡ d * 8 = omega arith in
    let qos_bits : q * 2 % 256 ≡ q * 2 = omega arith in
    let upper : t * 2 ^ 4 + d * 8 ≡ (t * 2 + d) * 2 ^ 3 = omega arith in
    let middle : (t * 2 + d) * 2 ^ 3 + q * 2 ≡ (t * 8 + d * 4 + q) * 2 ^ 1 = omega arith in
    rw
      (
        type_bits,
        dup_bits,
        qos_bits,
        shift_bit_or 4 (d * 8) t (omega arith),
        upper,
        shift_bit_or 3 (q * 2) (t * 2 + d) (omega arith),
        middle,
        shift_bit_or 1 r (t * 8 + d * 4 + q) (omega arith),
      )
      (omega arith)

header_byte-sum :
    (fh : FixedHeader)
    → fh.type < 16
    → fh.qos < 4
    → header_byte fh ≡ fh.type * 16 + bit fh.dup * 8 + fh.qos * 2 + bit fh.retain
unfolding header_byte encode_bool
header_byte-sum fh ht hq =
    let t = fh.type in
    let d = bit fh.dup in
    let q = fh.qos in
    let r = bit fh.retain in
    let small : (b : Bool) → bit b ≤ 1 = bit-le-one in
    join t d q r ht (small fh.dup) hq (small fh.retain)

-- The fields of a byte that is written as such a sum.
module _ (t d q r : ℕ) (hd : d ≤ 1) (hq : q < 4) (hr : r ≤ 1) where
  abbrev sum : ℕ
  sum = t * 16 + d * 8 + q * 2 + r

  sum_type : sum / 2 ^ 4 ≡ t
  sum_type = omega arith

  sum_dup : bit_and (sum / 2 ^ 3) 1 ≡ d
  sum_dup = omega (arith, bit_and-one (sum / 2 ^ 3))

  sum_qos : bit_and (sum / 2) 3 ≡ q
  sum_qos = omega (arith, bit_and_three (sum / 2))

  sum_retain : bit_and sum 1 ≡ r
  sum_retain = omega (arith, bit_and-one sum)

  sum_low : bit_and (sum / 2) 1 ≡ q % 2
  sum_low = omega (arith, bit_and-one (sum / 2))

  sum_high : bit_and (sum / 2) 2 ≡ q / 2 * 2
  sum_high = omega (arith, bit_and_two (sum / 2))

  sum_second : bit_and (sum / 2 ^ 2) 1 ≡ q / 2
  sum_second = omega (arith, bit_and-one (sum / 2 ^ 2))

  sum_first : bit_and (sum / 2 ^ 0) 1 ≡ r
  sum_first = omega (arith, bit_and-one (sum / 1))

-- `Decode` of a fresh header takes back the first byte that `Encode` writes for a valid header.
pub decode_header-header_byte :
    (fh : FixedHeader) → IsValid fh → decode_header (fresh fh.remaining) (header_byte fh) ≡ ok fh
unfolding decode_header
decode_header-header_byte fh h =
    let t = fh.type in
    let d = bit fh.dup in
    let q = fh.qos in
    let r = bit fh.retain in
    let hd : d ≤ 1 = bit-le-one fh.dup in
    let hr : r ≤ 1 = bit-le-one fh.retain in
    let hq : q < 4 = omega arith in
    rw (header_byte-sum fh h.narrow hq) (
      rw
        (
          sum_type t d q r hd hq hr,
          sum_dup t d q r hd hq hr,
          sum_qos t d q r hd hq hr,
          sum_retain t d q r hd hq hr,
          sum_low t d q r hd hq hr,
          sum_high t d q r hd hq hr,
          sum_second t d q r hd hq hr,
          sum_first t d q r hd hq hr,
        )
        (ground arith))

-- What `Decode` accepts into a fresh header is valid, and its byte is the one that `Encode` writes.
pub decode_header_sound :
    (n hb : ℕ) (fh : FixedHeader)
    → hb < 256
    → decode_header (fresh n) hb ≡ ok fh
    → IsValid fh × (fh.remaining ≡ n) × (header_byte fh ≡ hb)
unfolding decode_header
decode_header_sound n hb fh hh h = ground (
  arith,
  header_byte-sum fh,
  bit_and-one (hb / 1),
  bit_and-one (hb / 2),
  bit_and-one (hb / 4),
  bit_and-one (hb / 8),
  bit_and-one hb,
  bit_and_two (hb / 2),
  bit_and_three (hb / 2),
)
