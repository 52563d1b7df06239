-- ===== src/Packets/Tests.antt =====
-- Runs of the codec and of packet headers, and the theorems at concrete inputs.
use mqtt_server.Prelude.{◌+◌, ◌≡◌, refl, inl, inr, true, false, List, [], ◌∷◌, ◌++◌, arith, length}
use mqtt_server.Packets.Codes.{ok}
use mqtt_server.Packets.Codec.{
  decoded, too_large, encode_length, encode_length_loop, decode_length, decode_length_loop,
  encode_bytes, decode_uint16, decode_bytes, valid_utf8,
}
use mqtt_server.Packets.Codec.VarInt.{decode_length-encode_length}
use mqtt_server.Packets.Codec.RoundTrip.{decode_bytes-encode_bytes}
use mqtt_server.Packets.Header.{FixedHeader, header_byte, decode_header}
use mqtt_server.Packets.Header.RoundTrip.{IsValid, fresh, decode_header-header_byte}
use mqtt_server.Packets.Packet.{Subscription, filter_only}

encode_length_321 : encode_length 321 ≡ 0xc1 ∷ 0x02 ∷ []
unfolding encode_length encode_length_loop
encode_length_321 = refl

decode_length_321 : decode_length (0xc1 ∷ 0x02 ∷ 7 ∷ []) ≡ decoded 321 2 (7 ∷ [])
unfolding decode_length decode_length_loop
decode_length_321 = refl

-- Five bytes whose value passes 268435455 are refused at the fifth.
decode_length_large : decode_length (0xff ∷ 0xff ∷ 0xff ∷ 0xff ∷ 0x01 ∷ []) ≡ too_large 5
unfolding decode_length decode_length_loop
decode_length_large = refl

-- A set bit above the 32nd is dropped before the test for size sees it.
decode_length_dropped_bit : decode_length (0x80 ∷ 0x80 ∷ 0x80 ∷ 0x80 ∷ 0x10 ∷ []) ≡ decoded 0 5 []
unfolding decode_length decode_length_loop
decode_length_dropped_bit = refl

valid_utf8_euro : valid_utf8 (0xe2 ∷ 0x82 ∷ 0xac ∷ []) ≡ true
unfolding valid_utf8
valid_utf8_euro = refl

valid_utf8_surrogate : valid_utf8 (0xed ∷ 0xa0 ∷ 0x80 ∷ []) ≡ false
unfolding valid_utf8
valid_utf8_surrogate = refl

valid_utf8_zero : valid_utf8 (b'a' ∷ 0 ∷ []) ≡ false
unfolding valid_utf8
valid_utf8_zero = refl

decode_length-encode_length_example :
    decode_length (encode_length 321 ++ (9 ∷ []))
    ≡ decoded 321 (length (encode_length 321)) (9 ∷ [])
decode_length-encode_length_example = decode_length-encode_length 321 (9 ∷ []) (omega arith)

decode_bytes-encode_bytes_example :
    decode_bytes ((9 ∷ []) ++ (encode_bytes (1 ∷ 2 ∷ []) ++ (3 ∷ []))) 1
    ≡ ok (1 ∷ 2 ∷ [], 1 + 2 + 2)
decode_bytes-encode_bytes_example = decode_bytes-encode_bytes (9 ∷ []) (1 ∷ 2 ∷ []) (3 ∷ [])

decode_bytes_run : decode_bytes (0 ∷ 1 ∷ 7 ∷ 8 ∷ []) 0 ≡ ok (7 ∷ [], 3)
unfolding decode_bytes decode_uint16
decode_bytes_run = refl

abbrev dup_publish : FixedHeader
dup_publish = record { remaining = 10; type = 3; qos = 1; dup = true; retain = true }

dup_publish-IsValid : IsValid dup_publish
dup_publish-IsValid = record {
  narrow = omega arith;
  qos_range = omega arith;
  dup_qos = inr (omega arith);
  other_flags = inl refl;
}

header_byte_run : header_byte dup_publish ≡ 0x3b
unfolding header_byte
header_byte_run = refl

decode_header-header_byte_example :
    decode_header (fresh 10) (header_byte dup_publish) ≡ ok dup_publish
decode_header-header_byte_example = decode_header-header_byte dup_publish dup_publish-IsValid

decode_header_run : decode_header (fresh 10) 0x3b ≡ ok dup_publish
unfolding decode_header
decode_header_run = refl

abbrev sensor : Subscription
sensor = record (filter_only (b'a' ∷ [])) { qos = 1; no_local = true; retain_handling = 2 }

abbrev others : List Subscription
others = record (filter_only (b'#' ∷ [])) { qos = 2 } ∷ []
