-- ===== src/Packets/Header.antt =====
-- packets/fixedheader.go: the first byte of a packet and its remaining length.
pub mod RoundTrip
use mqtt_server.Prelude.{
  ℕ, ◌*◌, ◌/◌, ◌%◌, ◌^◌, Bool, false, ◌&&◌, ◌||◌, not, List, [], ◌∷◌, ◌++◌, ltb, ◌==◌,
  if◌then◌else◌,
}
use mqtt_server.Packets.Codes.{
  Result, ok, err, err_protocol_violation_qos_out_of_range, err_malformed_flags,
  err_protocol_violation_dup_no_qos,
}
use mqtt_server.Packets.Codec.{Bytes, encode_bool, encode_length}
use mqtt_server.Packets.Types.{publish, pubrel, subscribe, unsubscribe}
use Prim.Native.Nat.{bit_and, bit_or}

pub record FixedHeader : Type 0 where
  pub remaining : ℕ
  pub type : ℕ
  pub qos : ℕ
  pub dup : Bool
  pub retain : Bool

-- `(hb>>i)&0x01 != 0`
abbrev flag_bit : ℕ → ℕ → Bool
flag_bit hb i = not (bit_and (hb / 2 ^ i) 1 == 0)

-- `fh.Type<<4 | encodeBool(fh.Dup)<<3 | fh.Qos<<1 | encodeBool(fh.Retain)` on bytes.
unfoldable pub header_byte : FixedHeader → ℕ
unfolding encode_bool
header_byte fh =
    bit_or
      (bit_or (bit_or (fh.type * 2 ^ 4 % 256) (encode_bool fh.dup * 2 ^ 3 % 256))
        (fh.qos * 2 % 256))
      (encode_bool fh.retain)

unfoldable pub encode_header : FixedHeader → Bytes → Bytes
encode_header fh buf = buf ++ header_byte fh ∷ encode_length fh.remaining

-- The part of `Decode` behind the switch.
check_dup : FixedHeader → Result FixedHeader
check_dup fh = if fh.qos == 0 && fh.dup then err err_protocol_violation_dup_no_qos else ok fh

-- `Decode` sets fields of the header it is called on: `fh` is that header, with what it held before.
unfoldable pub decode_header : FixedHeader → ℕ → Result FixedHeader
unfolding check_dup
decode_header fh hb =
    let t = hb / 2 ^ 4 in
    if t == publish
    then (if ltb 0 (bit_and (hb / 2) 1) && ltb 0 (bit_and (hb / 2) 2)
        then err err_protocol_violation_qos_out_of_range
        else check_dup (record fh {
          type = t;
          dup = ltb 0 (bit_and (hb / 2 ^ 3) 1);
          qos = bit_and (hb / 2) 3;
          retain = ltb 0 (bit_and hb 1);
        }))
    else if t == pubrel || t == subscribe || t == unsubscribe
    then (if flag_bit hb 0 || not (bit_and (hb / 2) 1 == 1) || flag_bit hb 2 || flag_bit hb 3
        then err err_malformed_flags
        else check_dup (record fh { type = t; qos = bit_and (hb / 2) 3 }))
    else if flag_bit hb 0 || flag_bit hb 1 || flag_bit hb 2 || flag_bit hb 3
    then err err_malformed_flags
    else check_dup (record fh { type = t })
