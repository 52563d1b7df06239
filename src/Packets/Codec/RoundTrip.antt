-- ===== src/Packets/Codec/RoundTrip.antt =====
-- packets/codec.go: the decoders of byte strings and strings against their encoders.
use mqtt_server.Prelude.{
  ℕ, zero, suc, ◌+◌, ◌*◌, ◌/◌, ◌%◌, ◌^◌, ◌≤◌, ◌<◌, ◌≡◌, refl, ap, ◌∙◌, [], ◌∷◌, ◌++◌, arith,
  if◌then◌else◌, length, length-append, length-drop, get_or, take, drop, append_assoc,
}
use mqtt_server.Packets.Codes.{ok, err, err_malformed_invalid_utf8}
use mqtt_server.Packets.Codec.{
  Bytes, decode_uint16, decode_uint32, decode_bytes, decode_string, encode_uint16, encode_uint32,
  encode_bytes, encode_string, valid_utf8,
}

pub drop_pre : (pre xs : Bytes) (k : ℕ) → drop (length pre + k) (pre ++ xs) ≡ drop k xs
drop_pre [] xs k = ap (λ n. drop n xs) (omega arith)
drop_pre (x ∷ pre) xs k = ap (λ n. drop n (x ∷ pre ++ xs)) step ∙ drop_pre pre xs k
  where
    step : suc (length pre) + k ≡ suc (length pre + k)
    step = omega arith

byte_pre : (pre xs : Bytes) (k : ℕ) → get_or (pre ++ xs) (length pre + k) 0 ≡ get_or xs k 0
byte_pre [] xs k = ap (λ n. get_or xs n 0) (omega arith)
byte_pre (x ∷ pre) xs k = ap (λ n. get_or (x ∷ pre ++ xs) n 0) step ∙ byte_pre pre xs k
  where
    step : suc (length pre) + k ≡ suc (length pre + k)
    step = omega arith

pub byte_first : (pre xs : Bytes) → get_or (pre ++ xs) (length pre) 0 ≡ get_or xs 0 0
byte_first [] xs = refl
byte_first (x ∷ pre) xs = byte_first pre xs

-- A uint16 written anywhere in a buffer is read back.
pub decode_uint16-encode_uint16 :
    (pre : Bytes) (v : ℕ) (rest : Bytes)
    → v < 2 ^ 16
    → decode_uint16 (pre ++ (encode_uint16 v ++ rest)) (length pre) ≡ ok (v, length pre + 2)
unfolding decode_uint16 encode_uint16
decode_uint16-encode_uint16 pre v rest h = ground (
  arith,
  length-append pre (v / 256 % 256 ∷ v % 256 ∷ rest),
  byte_first pre (v / 256 % 256 ∷ v % 256 ∷ rest),
  byte_pre pre (v / 256 % 256 ∷ v % 256 ∷ rest) 1,
)

pub decode_uint32-encode_uint32 :
    (pre : Bytes) (v : ℕ) (rest : Bytes)
    → v < 2 ^ 32
    → decode_uint32 (pre ++ (encode_uint32 v ++ rest)) (length pre) ≡ ok (v, length pre + 4)
unfolding decode_uint32 encode_uint32
decode_uint32-encode_uint32 pre v rest h =
    let bs : Bytes = v / 2 ^ 24 % 256 ∷ v / 2 ^ 16 % 256 ∷ v / 256 % 256 ∷ v % 256 ∷ rest in
    ground (
      arith,
      length-append pre bs,
      byte_first pre bs,
      byte_pre pre bs 1,
      byte_pre pre bs 2,
      byte_pre pre bs 3,
    )

take_le-append : (n : ℕ) (xs ys : Bytes) → n ≤ length xs → take n (xs ++ ys) ≡ take n xs
take_le-append zero xs ys h = refl
take_le-append (suc n) [] ys h = absurd (omega arith)
take_le-append (suc n) (x ∷ xs) ys h = λ i. x ∷ take_le-append n xs ys (omega arith) i

-- `decodeBytes` on what `encodeBytes` wrote. The prefix wraps at 65536, so a longer value comes back
-- cut to its length modulo 65536, and only a value of at most 65535 bytes is read back whole.
pub decode_bytes-encode_bytes :
    (pre val rest : Bytes)
    → decode_bytes (pre ++ (encode_bytes val ++ rest)) (length pre)
      ≡ ok (take (length val % 2 ^ 16) val, length pre + 2 + length val % 2 ^ 16)
unfolding decode_bytes encode_bytes
decode_bytes-encode_bytes pre val rest =
    let n : ℕ = length val % 2 ^ 16 in
    rw (append_assoc (encode_uint16 n) val rest) (
      rw (decode_uint16-encode_uint16 pre n (val ++ rest) (omega arith)) (
        unfold encode_uint16 in
        ground (
          arith,
          length-append pre (encode_uint16 n ++ (val ++ rest)),
          length-append val rest,
          drop_pre pre (encode_uint16 n ++ (val ++ rest)) 2,
          take_le-append n val rest (omega arith),
        )))

pub take_all : (n : ℕ) (xs : Bytes) → n ≡ length xs → take n xs ≡ xs
take_all zero [] h = refl
take_all (suc n) [] h = refl
take_all zero (x ∷ xs) h = absurd (omega arith)
take_all (suc n) (x ∷ xs) h = λ i. x ∷ take_all n xs (omega arith) i

-- A string of at most 65535 bytes that is valid is read back; one that is not valid is refused.
pub decode_string-encode_string :
    (pre val rest : Bytes)
    → length val < 2 ^ 16
    → decode_string (pre ++ (encode_string val ++ rest)) (length pre) ≡ (
        if valid_utf8 val
        then ok (val, length pre + 2 + length val)
        else err err_malformed_invalid_utf8)
unfolding decode_string
decode_string-encode_string pre val rest h = rw (encode_string-eq val) (
    rw (decode_bytes-encode_bytes pre val rest)
      (rw (take_all (length val % 2 ^ 16) val (omega arith), short) refl))
  where
    encode_string-eq : (v : Bytes) → encode_string v ≡ encode_bytes v
    encode_string-eq v = unfold encode_string encode_bytes in refl

    short : length val % 2 ^ 16 ≡ length val
    short = omega arith

length-take_le : (n : ℕ) (xs : Bytes) → n ≤ length xs → length (take n xs) ≡ n
length-take_le zero xs h = refl
length-take_le (suc n) [] h = absurd (omega arith)
length-take_le (suc n) (x ∷ xs) h = ap suc (length-take_le n xs (omega arith))

-- Whatever `decodeBytes` accepts lies inside the buffer behind the offset.
pub decode_bytes_bounds :
    (buf : Bytes) (offset : ℕ) (val : Bytes) (next : ℕ)
    → decode_bytes buf offset ≡ ok (val, next)
    → (next ≤ length buf) × (next ≡ offset + 2 + length val)
unfolding decode_bytes decode_uint16
decode_bytes_bounds buf offset val next h =
    let n : ℕ = get_or buf offset 0 * 256 + get_or buf (offset + 1) 0 in
    ground (arith, length-take_le n (drop (offset + 2) buf), length-drop (offset + 2) buf)
