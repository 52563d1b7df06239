-- ===== src/Packets/Codec.antt =====
-- packets/codec.go: the primitive encoders and decoders. A `[]byte` and a Go string are lists of
-- bytes, an offset is a number, and a decoder returns the value with the offset behind it.
pub mod VarInt
pub mod RoundTrip
use mqtt_server.Prelude.{
  ℕ, zero, suc, ◌+◌, ◌-◌, ◌*◌, ◌/◌, ◌%◌, ◌^◌, Bool, true, false, not, ◌&&◌, Option, none, some,
  List, [], ◌∷◌, ◌++◌, ltb, leb, ◌==◌, if◌then◌else◌, length, get_or, take, drop,
}
use mqtt_server.Packets.Codes.{
  Result, ok, err, ◌>>=◌, err_malformed_offset_uint_out_of_range,
  err_malformed_offset_bytes_out_of_range, err_malformed_offset_byte_out_of_range,
  err_malformed_offset_bool_out_of_range, err_malformed_invalid_utf8,
  err_malformed_variable_byte_integer,
}
use Prim.Native.Nat.{bit_and, bit_or}

abbrev pub Bytes : Type 0
Bytes = List ℕ

-- `buf[i]`, read only behind a bounds test.
abbrev byte_at : Bytes → ℕ → ℕ
byte_at buf i = get_or buf i 0

-- `buf[from : from+n]`
abbrev slice : Bytes → ℕ → ℕ → Bytes
slice buf from n = take n (drop from buf)

unfoldable pub decode_uint16 : Bytes → ℕ → Result (ℕ × ℕ)
decode_uint16 buf offset =
    if ltb (length buf) (offset + 2)
    then err err_malformed_offset_uint_out_of_range
    else ok (byte_at buf offset * 256 + byte_at buf (offset + 1), offset + 2)

unfoldable pub decode_uint32 : Bytes → ℕ → Result (ℕ × ℕ)
decode_uint32 buf offset =
    if ltb (length buf) (offset + 4)
    then err err_malformed_offset_uint_out_of_range
    else ok (
      byte_at buf offset * 2 ^ 24
          + byte_at buf (offset + 1) * 2 ^ 16
          + byte_at buf (offset + 2) * 256
          + byte_at buf (offset + 3),
      offset + 4,
    )

unfoldable pub decode_bytes : Bytes → ℕ → Result (Bytes × ℕ)
decode_bytes buf offset = do
  (len, next) ← decode_uint16 buf offset
  if ltb (length buf) (next + len)
      then err err_malformed_offset_bytes_out_of_range
      else ok (slice buf next len, next + len)

-- `utf8.Valid` of Go's library, as the state machine of the UTF-8 table: how many continuation
-- bytes are due, and the range that the next of them must lie in.
pub record Utf8State : Type 0 where
  pub due : ℕ
  pub lowest : ℕ
  pub highest : ℕ

abbrev pub utf8_start : Utf8State
utf8_start = record { due = 0; lowest = 0x80; highest = 0xbf }

utf8_lead : ℕ → Option Utf8State
utf8_lead b =
    if ltb b 0x80
    then some utf8_start
    else if ltb b 0xc2
    then none
    else if ltb b 0xe0
    then some (record { due = 1; lowest = 0x80; highest = 0xbf })
    else if b == 0xe0
    then some (record { due = 2; lowest = 0xa0; highest = 0xbf })
    else if b == 0xed
    then some (record { due = 2; lowest = 0x80; highest = 0x9f })
    else if ltb b 0xf0
    then some (record { due = 2; lowest = 0x80; highest = 0xbf })
    else if b == 0xf0
    then some (record { due = 3; lowest = 0x90; highest = 0xbf })
    else if ltb b 0xf4
    then some (record { due = 3; lowest = 0x80; highest = 0xbf })
    else if b == 0xf4
    then some (record { due = 3; lowest = 0x80; highest = 0x8f })
    else none

utf8_step : Utf8State → ℕ → Option Utf8State
unfolding utf8_lead
utf8_step s b =
    if s.due == 0
    then utf8_lead b
    else if leb s.lowest b && leb b s.highest
    then some (record { due = s.due - 1; lowest = 0x80; highest = 0xbf })
    else none

utf8_scan : Utf8State → Bytes → Bool
unfolding utf8_step
utf8_scan s [] = s.due == 0
utf8_scan s (b ∷ bs) = elim (utf8_step s b) [ none ↦ false | some t ↦ utf8_scan t bs ]

-- `bytes.IndexByte(b, 0x00) == -1`
no_zero_byte : Bytes → Bool
no_zero_byte [] = true
no_zero_byte (b ∷ bs) = not (b == 0) && no_zero_byte bs

unfoldable pub valid_utf8 : Bytes → Bool
unfolding utf8_scan no_zero_byte
valid_utf8 b = utf8_scan utf8_start b && no_zero_byte b

unfoldable pub decode_string : Bytes → ℕ → Result (Bytes × ℕ)
decode_string buf offset = do
  (b, n) ← decode_bytes buf offset
  if valid_utf8 b then ok (b, n) else err err_malformed_invalid_utf8

unfoldable pub decode_byte : Bytes → ℕ → Result (ℕ × ℕ)
decode_byte buf offset =
    if leb (length buf) offset
    then err err_malformed_offset_byte_out_of_range
    else ok (byte_at buf offset, offset + 1)

unfoldable pub decode_byte_bool : Bytes → ℕ → Result (Bool × ℕ)
decode_byte_bool buf offset =
    if leb (length buf) offset
    then err err_malformed_offset_bool_out_of_range
    else ok (ltb 0 (bit_and 1 (byte_at buf offset)), offset + 1)

unfoldable pub encode_bool : Bool → ℕ
encode_bool b = if b then 1 else 0

unfoldable pub encode_uint16 : ℕ → Bytes
encode_uint16 val = val / 256 % 256 ∷ val % 256 ∷ []

unfoldable pub encode_uint32 : ℕ → Bytes
encode_uint32 val = val / 2 ^ 24 % 256 ∷ val / 2 ^ 16 % 256 ∷ val / 256 % 256 ∷ val % 256 ∷ []

-- The length prefix is `uint16(len(val))`: it wraps.
unfoldable pub encode_bytes : Bytes → Bytes
encode_bytes val = encode_uint16 (length val % 2 ^ 16) ++ val

unfoldable pub encode_string : Bytes → Bytes
encode_string val = encode_uint16 (length val % 2 ^ 16) ++ val

-- The loop of `encodeLength`; `none` is no Go value, it means that the fuel ran out.
unfoldable pub encode_length_loop : ℕ → ℕ → Option Bytes
encode_length_loop zero len = none
encode_length_loop (suc fuel) len =
    let eb = len % 128 in
    let rest = encode_length_loop fuel (len / 128) in
    if ltb 0 (len / 128)
    then elim rest [ none ↦ none | some bs ↦ some (bit_or eb 0x80 ∷ bs) ]
    else some (eb ∷ [])

-- An int64 is below 2 ^ 63, so nine groups of seven bits are enough; `or_empty` is never reached.
abbrev or_empty : Option Bytes → Bytes
or_empty none = []
or_empty (some bs) = bs

unfoldable pub encode_length : ℕ → Bytes
encode_length len = or_empty (encode_length_loop 9 len)

-- What `DecodeLength` reports: the value with the number of bytes used, or an error with it.
-- `end_of_input` is the error of `ReadByte`.
pub data Length : Type 0 where
  decoded : ℕ → ℕ → Bytes → Length
  too_large : ℕ → Length
  end_of_input : ℕ → Length

-- `value |= uint32(eb&127) << multiplier`: Go drops the bits above the 32nd.
pub add_group : ℕ → ℕ → ℕ → ℕ
add_group value eb multiplier = bit_or value (bit_and eb 127 * 2 ^ multiplier % 2 ^ 32)

unfoldable pub decode_length_loop : Bytes → ℕ → ℕ → ℕ → Length
unfolding add_group
decode_length_loop [] value multiplier bu = end_of_input bu
decode_length_loop (eb ∷ rest) value multiplier bu =
    let value' = add_group value eb multiplier in
    let more = decode_length_loop rest value' ((multiplier + 7) % 2 ^ 32) (bu + 1) in
    if ltb 268435455 value'
    then too_large bu
    else if bit_and eb 128 == 0
    then decoded value' bu rest
    else more

unfoldable pub decode_length : Bytes → Length
decode_length b = decode_length_loop b 0 0 1
