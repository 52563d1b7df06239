-- ===== src/Packets/Properties/Decode/Termination.antt =====
-- packets/properties.go: each round of the loop of `Decode` steps forward, so the loop ends.
use mqtt_server.Prelude.{
  ℕ, zero, suc, ◌+◌, ◌≤◌, ◌≡◌, ◌≢◌, inl, inr, refl, Bool, true, false, arith, ltb, leb, ◌==◌,
  if◌then◌else◌, Bool-cases, length, length-drop, get_or, drop,
}
use mqtt_server.Packets.Codec.{
  Bytes, Length, decoded, too_large, end_of_input, decode_uint16, decode_uint32, decode_bytes,
  decode_string, decode_byte, decode_length,
}
use mqtt_server.Packets.Codec.VarInt.{decode_length_sound}
use mqtt_server.Packets.Properties.{Properties}
use mqtt_server.Packets.Properties.Valid.{can_encode}
use mqtt_server.Packets.Properties.Decode.{
  Read, read, failed, eof, no_fuel, ◌>>=◌, lift, lift_length, read_property, decode_property,
  decode_properties_loop, decode_properties,
}

-- The outcome of a read from `offset` in a buffer of `size` bytes: the next offset lies between the
-- two, or there is an error of the source.
abbrev pub IsForward {ℓ} : {A : Type ℓ} → ℕ → ℕ → Read (A × ℕ) → Type 0
IsForward offset size (read r) = (offset ≤ r.1) × (r.1 ≤ size)
IsForward offset size (failed e) = Unit
IsForward offset size eof = Unit
IsForward offset size no_fuel = ⊥

module _ (bt : Bytes) (offset : ℕ) where
  decode_byte-IsForward : IsForward offset (length bt) (lift (decode_byte bt offset))
  unfolding decode_byte
  decode_byte-IsForward = ground arith

  decode_uint16-IsForward : IsForward offset (length bt) (lift (decode_uint16 bt offset))
  unfolding decode_uint16
  decode_uint16-IsForward = ground arith

  decode_uint32-IsForward : IsForward offset (length bt) (lift (decode_uint32 bt offset))
  unfolding decode_uint32
  decode_uint32-IsForward = ground arith

  decode_bytes-IsForward : IsForward offset (length bt) (lift (decode_bytes bt offset))
  unfolding decode_bytes decode_uint16
  decode_bytes-IsForward = ground arith

  decode_string-IsForward : IsForward offset (length bt) (lift (decode_string bt offset))
  unfolding decode_string decode_bytes decode_uint16
  decode_string-IsForward = ground arith

if-IsForward :
    {A : Type 0} (offset size : ℕ) (b : Bool) (x y : Read (A × ℕ))
    → IsForward offset size x
    → IsForward offset size y
    → IsForward offset size (if b then x else y)
if-IsForward offset size true x y hx hy = hx
if-IsForward offset size false x y hx hy = hy

bind-IsForward :
    {A B : Type 0} (offset size : ℕ) (m : Read (A × ℕ)) (f : A × ℕ → Read (B × ℕ))
    → IsForward offset size m
    → ((r : A × ℕ) → r.1 ≤ size → IsForward (r.1) size (f r))
    → IsForward offset size (m >>= f)
bind-IsForward {B = B} offset size (read r) f h k = onward (f r) (k r (h.1))
  where
    onward : (x : Read (B × ℕ)) → IsForward (r.1) size x → IsForward offset size x
    onward (read q) g = omega arith
    onward (failed e) g = tt
    onward eof g = tt
    onward no_fuel g = g
bind-IsForward offset size (failed e) f h k = tt
bind-IsForward offset size eof f h k = tt
bind-IsForward offset size no_fuel f h k = h

length-IsForward :
    {B : Type 0} (bt : Bytes) (offset : ℕ) (f : ℕ × ℕ → Read (B × ℕ))
    → offset ≤ length bt
    → ((r : ℕ × ℕ) → offset + r.1 ≤ length bt → IsForward offset (length bt) (f r))
    → IsForward offset (length bt) (lift_length (decode_length (drop offset bt)) >>= f)
length-IsForward bt offset f h k =
    go (decode_length (drop offset bt))
      (λ n bu rest e. decode_length_sound (drop offset bt) n bu rest e)
  where
    go :
        (l : Length)
        → ((n bu : ℕ) (rest : Bytes)
            → l ≡ decoded n bu rest
            → (n ≤ 268435455) × (length (drop offset bt) ≡ bu + length rest) × (1 ≤ bu))
        → IsForward offset (length bt) (lift_length l >>= f)
    go (decoded n bu rest) j = k (n, bu) (omega (arith, j n bu rest refl, length-drop offset bt))
    go (too_large bu) j = tt
    go (end_of_input bu) j = tt

here-IsForward :
    {A : Type 0} (offset size : ℕ) (a : A)
    → offset ≤ size
    → IsForward offset size (read (a, offset))
here-IsForward offset size a h = (omega arith, h)

later-IsForward :
    {A : Type 0} (offset size n : ℕ) (a : A)
    → offset + n ≤ size
    → IsForward offset size (read (a, offset + n))
later-IsForward offset size n a h = (omega arith, h)

read_property-IsForward :
    (k : ℕ) (bt : Bytes) (offset : ℕ) (p : Properties)
    → offset ≤ length bt
    → IsForward offset (length bt) (read_property k bt offset p)
unfolding read_property
read_property-IsForward k bt offset p h =
    search
      (
        if-IsForward, bind-IsForward, length-IsForward, here-IsForward, later-IsForward,
        decode_byte-IsForward, decode_uint16-IsForward, decode_uint32-IsForward,
        decode_bytes-IsForward, decode_string-IsForward,
      )
      depth 60 fits 5000

-- A round of the loop moves on by at least the byte of the identifier.
pub decode_property-IsForward :
    (pkt : ℕ) (bt : Bytes) (offset : ℕ) (p : Properties)
    → IsForward (offset + 1) (length bt) (decode_property pkt bt offset p)
unfolding decode_property decode_byte
decode_property-IsForward pkt bt offset p = elim (Bool-cases (leb (length bt) offset)) [
  | inl e ↦ rw e tt
  | inr e ↦ rw e (
      if-IsForward (offset + 1) (length bt) (can_encode pkt (get_or bt offset 0)) _ _
        (read_property-IsForward (get_or bt offset 0) bt (offset + 1) p (ground arith)) tt)
]

bind_ends :
    {A B : Type 0} (m : Read A) (f : A → Read B)
    → m ≢ no_fuel
    → ((a : A) → f a ≢ no_fuel)
    → (m >>= f) ≢ no_fuel
bind_ends (read a) f h k = k a
bind_ends (failed e) f h k = λ q. cc
bind_ends eof f h k = λ q. cc
bind_ends no_fuel f h k = λ q. h refl

forward_ends :
    {B : Type 0} (offset size : ℕ) (m : Read (Properties × ℕ)) (f : Properties × ℕ → Read B)
    → IsForward offset size m
    → ((r : Properties × ℕ) → offset ≤ r.1 → f r ≢ no_fuel)
    → (m >>= f) ≢ no_fuel
forward_ends offset size (read r) f h k = k r (h.0)
forward_ends offset size (failed e) f h k = λ q. cc
forward_ends offset size eof f h k = λ q. cc
forward_ends offset size no_fuel f h k = absurd h

lift_length_ends : (l : Length) → lift_length l ≢ no_fuel
lift_length_ends (decoded n bu rest) = λ q. cc
lift_length_ends (too_large bu) = λ q. cc
lift_length_ends (end_of_input bu) = λ q. cc

if_ends :
    {A : Type 0} (c : Bool) (x y : Read A)
    → x ≢ no_fuel
    → y ≢ no_fuel
    → (if c then x else y) ≢ no_fuel
if_ends true x y hx hy = hx
if_ends false x y hx hy = hy

decode_properties_loop_ends :
    (fuel pkt n : ℕ) (bt : Bytes) (offset : ℕ) (p : Properties)
    → n ≤ offset + fuel
    → decode_properties_loop fuel pkt n bt offset p ≢ no_fuel
unfolding decode_properties_loop
decode_properties_loop_ends zero pkt n bt offset p h = ground arith
decode_properties_loop_ends (suc fuel) pkt n bt offset p h =
    if_ends (ltb offset n) _ (read p)
      (forward_ends (offset + 1) (length bt) (decode_property pkt bt offset p)
        (λ r. decode_properties_loop fuel pkt n bt (r.1) (r.0))
        (decode_property-IsForward pkt bt offset p)
        (λ r g. decode_properties_loop_ends fuel pkt n bt (r.1) (r.0) (omega arith)))
      (λ q. cc)

-- `Decode` ends with a struct or with an error of the source on every input: the fuel, one round for
-- each byte of the properties, is enough.
pub decode_properties_ends :
    (pkt : ℕ) (b : Bytes) (p : Properties) → decode_properties pkt b p ≢ no_fuel
unfolding decode_properties
decode_properties_ends pkt b p =
    bind_ends (lift_length (decode_length b)) _ (lift_length_ends (decode_length b)) (λ r.
      if_ends (r.0 == 0) (read (p, r.0 + r.1)) _ (λ q. cc)
        (bind_ends (decode_properties_loop (r.0) pkt (r.0) (drop (r.1) b) 0 p) _
          (decode_properties_loop_ends (r.0) pkt (r.0) (drop (r.1) b) 0 p (omega arith))
          (λ q e. cc)))
