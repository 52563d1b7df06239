-- ===== src/Packets/Properties/Decode/Within.antt =====
-- packets/properties.go: how many bytes `Decode` tells its caller to step over.
use mqtt_server.Prelude.{
  ℕ, zero, suc, ◌+◌, ◌≤◌, ◌≡◌, inl, inr, refl, subst, arith, ltb, ◌==◌, if◌then◌else◌, Bool-cases,
  length, length-drop, drop,
}
use mqtt_server.Packets.Codec.{Bytes, Length, decoded, too_large, end_of_input, decode_length}
use mqtt_server.Packets.Codec.VarInt.{decode_length_sound}
use mqtt_server.Packets.Properties.{Properties}
use mqtt_server.Packets.Properties.Decode.{
  Read, read, failed, eof, no_fuel, ◌>>=◌, lift_length, decode_property, decode_properties_loop,
  decode_properties,
}
use mqtt_server.Packets.Properties.Decode.Termination.{IsForward, decode_property-IsForward}

-- A bind-IsForward that reads something read its first part.
pub >>=-read {ℓ κ} :
    {A : Type ℓ} {B : Type κ} (m : Read A) (f : A → Read B) {b : B}
    → (m >>= f) ≡ read b
    → (a : A) × (m ≡ read a) × (f a ≡ read b)
>>=-read (read a) f h = (a, refl, h)
>>=-read (failed e) f h = cc
>>=-read eof f h = cc
>>=-read no_fuel f h = cc

decode_properties_loop_within :
    (fuel pkt n : ℕ) (bt : Bytes) (offset : ℕ) (p q : Properties)
    → offset ≤ length bt
    → decode_properties_loop fuel pkt n bt offset p ≡ read q
    → n ≤ length bt
unfolding decode_properties_loop
decode_properties_loop_within zero pkt n bt offset p q h e = ground arith
decode_properties_loop_within (suc fuel) pkt n bt offset p q h e =
    elim (Bool-cases (ltb offset n)) [
      | inl more ↦
          let round = λ (r : Properties × ℕ). decode_properties_loop fuel pkt n bt (r.1) (r.0) in
          let (r, first, rest) = >>=-read (decode_property pkt bt offset p) round (rw more at e) in
          let forward =
            subst (IsForward (offset + 1) (length bt)) first
              (decode_property-IsForward pkt bt offset p) in
          decode_properties_loop_within fuel pkt n bt (r.1) (r.0) q (forward.1) rest
      | inr done ↦ ground arith
    ]

lift_length_read : (b : Bytes) (r : ℕ × ℕ) → lift_length (decode_length b) ≡ read r → r.1 ≤ length b
lift_length_read b r h = go (decode_length b) refl h
  where
    go : (l : Length) → decode_length b ≡ l → lift_length l ≡ read r → r.1 ≤ length b
    go (decoded n bu rest) e h = grind (arith, decode_length_sound b n bu rest e)
    go (too_large bu) e h = cc
    go (end_of_input bu) e h = cc

-- What `Decode` tells its caller to step over lies inside the buffer, so slicing the rest off does
-- not panic.
pub decode_properties_within :
    (pkt : ℕ) (b : Bytes) (p q : Properties) (m : ℕ)
    → decode_properties pkt b p ≡ read (q, m)
    → m ≤ length b
unfolding decode_properties
decode_properties_within pkt b p q m h =
    let (r, first, rest) = >>=-read (lift_length (decode_length b)) _ h in behind r first rest
  where
    behind :
        (r : ℕ × ℕ)
        → lift_length (decode_length b) ≡ read r
        → if◌then◌else◌ {A = Read (Properties × ℕ)}
            (r.0 == 0)
            (read (p, r.0 + r.1))
            (decode_properties_loop (r.0) pkt (r.0) (drop (r.1) b) 0 p >>= λ q. read (q, r.0 + r.1))
          ≡ read (q, m)
        → m ≤ length b
    behind r first rest = elim (Bool-cases (r.0 == 0)) [
      | inl e ↦ let eq = rw e at rest in grind (arith, lift_length_read b r first)
      | inr e ↦
          let (q', loop, last) =
            >>=-read (decode_properties_loop (r.0) pkt (r.0) (drop (r.1) b) 0 p) _ (rw e at rest) in
          grind (
            arith,
            lift_length_read b r first,
            decode_properties_loop_within (r.0) pkt (r.0) (drop (r.1) b) 0 p q' (omega arith) loop,
            length-drop (r.1) b,
          )
    ]
