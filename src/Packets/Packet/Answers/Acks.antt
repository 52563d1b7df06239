-- ===== src/Packets/Packet/Answers/Acks.antt =====
-- packets/packets.go: decodePubAckRelRecComp on what encodePubAckRelRecComp wrote.
use mqtt_server.Prelude.{
  ℕ, ◌≤◌, ◌<◌, ◌^◌, ◌≡◌, inl, inr, refl, sym, ap, ◌∙◌, subst, Bool, true, false, ◌&&◌, ◌||◌, [],
  ◌∷◌, ◌++◌, arith, ltb, ltb→lt, leb, ◌==◌, if◌then◌else◌, Bool-cases, length, length-append,
  append-nil,
}
use mqtt_server.Packets.Codes
use mqtt_server.Packets.Codes.{ok, code_byte, Result}
use mqtt_server.Packets.Codec.{Bytes, encode_uint16, decode_uint16, decode_byte}
use mqtt_server.Packets.Properties.{no_properties}
use mqtt_server.Packets.Properties.Encode.{encode_properties}
use mqtt_server.Packets.Properties.Items.Wire.{uint16_Reads, byte_Reads}
use mqtt_server.Packets.Packet.{Packet}
use mqtt_server.Packets.Packet.Frame.{
  set_remaining, write_properties, read_properties, read_properties_of,
}
use mqtt_server.Packets.Packet.Reads.{
  read_at, onward, blank, HasSendableProperties, arrived_properties,
  read_properties-write_properties,
}
use mqtt_server.Packets.Packet.Answers.{ack_body, ack_decode}

-- The properties that an acknowledgement of version 5 writes, empty if they hold nothing.
abbrev pub ack_properties : Packet → Bytes
ack_properties pk = encode_properties (pk.fixed_header.type) pk.mods 2 pk.properties

-- The reason code goes over the wire in version 5 if it is an error or there are properties.
unfoldable pub sends_reason : Packet → Bool
sends_reason pk =
    (pk.protocol_version == 5)
    && (leb (code_byte Codes.err_unspecified_error) pk.reason_code
        || ltb 1 (length (ack_properties pk)))

unfoldable pub sends_properties : Packet → Bool
sends_properties pk = (pk.protocol_version == 5) && ltb 1 (length (ack_properties pk))

-- The acknowledgement as it arrives, decoded into `r`.
unfoldable pub arrived_ack : Packet → Packet → Packet
arrived_ack pk r = record r {
  packet_id = pk.packet_id;
  reason_code = if sends_reason pk then pk.reason_code else 0;
  properties = if sends_properties pk then arrived_properties pk 2 else no_properties;
}

both : (a b : Bool) → a && b ≡ true → (a ≡ true) × (b ≡ true)
both a b h = ground arith

neither : (a b : Bool) → a || b ≡ false → (a ≡ false) × (b ≡ false)
neither a b h = ground arith

or_true : (a : Bool) → a || true ≡ true
or_true a = ground arith

-- The statement for a body.
Returns : Packet → Bytes → Type 0
Returns pk body =
    let r = blank (set_remaining pk (length body)) in ack_decode r body ≡ ok (arrived_ack pk r)

-- The three shapes of a body: with properties, with the reason code alone, and with neither.
ack_body-properties :
    (pk : Packet)
    → sends_properties pk ≡ true
    → ack_body pk ≡ encode_uint16 pk.packet_id ++ (pk.reason_code ∷ ack_properties pk)
unfolding ack_body sends_properties encode_uint16
ack_body-properties pk h =
    let (five, many) = both (pk.protocol_version == 5) _ h in
    rw (five, many, or_true (leb (code_byte Codes.err_unspecified_error) pk.reason_code)) refl

ack_body-reason :
    (pk : Packet)
    → sends_reason pk ≡ true
    → sends_properties pk ≡ false
    → ack_body pk ≡ encode_uint16 pk.packet_id ++ (pk.reason_code ∷ [])
unfolding ack_body sends_properties sends_reason encode_uint16
ack_body-reason pk h k =
    let (five, reason) = both (pk.protocol_version == 5) _ h in
    let few = rw five at k in rw (five, reason, few) refl

ack_body-id : (pk : Packet) → sends_reason pk ≡ false → ack_body pk ≡ encode_uint16 pk.packet_id
unfolding ack_body sends_reason encode_uint16
ack_body-id pk h = elim (Bool-cases (pk.protocol_version == 5)) [
  | inl five ↦
      let none_sent = rw five at h in
      let (fine, few) =
        neither (leb (code_byte Codes.err_unspecified_error) pk.reason_code) _ none_sent in
      rw (five, none_sent, few) refl
  | inr other ↦ rw other refl
]

and_false : (a : Bool) → a && false ≡ false
and_false a = ground arith

reason-follows : (pk : Packet) → sends_properties pk ≡ true → sends_reason pk ≡ true
unfolding sends_properties sends_reason
reason-follows pk e =
    let (five, many) = both (pk.protocol_version == 5) _ e in
    rw (five, many) (or_true (leb (code_byte Codes.err_unspecified_error) pk.reason_code))

properties-five : (pk : Packet) → sends_properties pk ≡ true → (pk.protocol_version == 5) ≡ true
unfolding sends_properties
properties-five pk e = (both (pk.protocol_version == 5) _ e).0

properties-many :
    (pk : Packet) → sends_properties pk ≡ true → ltb 1 (length (ack_properties pk)) ≡ true
unfolding sends_properties
properties-many pk e = (both (pk.protocol_version == 5) _ e).1

reason-five : (pk : Packet) → sends_reason pk ≡ true → (pk.protocol_version == 5) ≡ true
unfolding sends_reason
reason-five pk e = (both (pk.protocol_version == 5) _ e).0

abbrev id : Packet → Bytes
id pk = encode_uint16 pk.packet_id

id_size : (pk : Packet) → length (id pk) ≡ 2
unfolding encode_uint16
id_size pk = refl

read_properties_of-ack :
    (pk r : Packet) (buf pre rest : Bytes)
    → (pk.protocol_version == 5) ≡ true
    → r.protocol_version ≡ pk.protocol_version
    → r.fixed_header.type ≡ pk.fixed_header.type
    → r.properties ≡ no_properties
    → HasSendableProperties pk 2
    → buf ≡ pre ++ (ack_properties pk ++ rest)
    → read_properties_of r buf (length pre)
      ≡ ok (record r { properties = arrived_properties pk 2 }, length (pre ++ ack_properties pk))
unfolding read_properties write_properties
read_properties_of-ack pk r buf pre rest five hv ht hp w e =
    sym opened
    ∙ read_properties-write_properties pk r 2 buf pre rest hv ht hp w
        (e ∙ ap (λ xs. pre ++ (xs ++ rest)) (sym written))
    ∙ ap (λ xs. ok (record r { properties = arrived_properties pk 2 }, length (pre ++ xs))) written
  where
    opened : read_properties r buf (length pre) ≡ read_properties_of r buf (length pre)
    opened = simp (hv, five) refl

    written : write_properties pk 2 ≡ ack_properties pk
    written = rw five refl

module _ (pk : Packet) (h : pk.packet_id < 2 ^ 16) (w : HasSendableProperties pk 2) where
  with_properties :
      sends_properties pk ≡ true → Returns pk (id pk ++ (pk.reason_code ∷ ack_properties pk))
  unfolding Returns ack_decode arrived_ack
  with_properties e =
      rw
        (
          read_at decode_uint16 (id pk) pk.packet_id (uint16_Reads pk.packet_id h) body [] rest
              refl,
          properties-five pk e,
          over 2 (omega arith),
          read_at decode_byte (pk.reason_code ∷ []) pk.reason_code (byte_Reads pk.reason_code) body
              (id pk) (ack_properties pk) refl,
          over 3 (omega arith),
          read_properties_of-ack pk
              (record (blank (set_remaining pk (length body))) {
                packet_id = pk.packet_id;
                reason_code = pk.reason_code;
              })
              body (id pk ++ (pk.reason_code ∷ [])) [] (properties-five pk e) refl refl refl w
              split,
          e,
          reason-follows pk e,
        )
        refl
    where
      rest : Bytes
      rest = pk.reason_code ∷ ack_properties pk

      body : Bytes
      body = id pk ++ rest

      over : (k : ℕ) → k ≤ 3 → ltb k (length body) ≡ true
      over k small = ground (
        arith,
        length-append (id pk) rest,
        id_size pk,
        ltb→lt 1 (length (ack_properties pk)) (properties-many pk e),
      )

      split : body ≡ (id pk ++ (pk.reason_code ∷ [])) ++ (ack_properties pk ++ [])
      split =
          onward body (id pk) (pk.reason_code ∷ []) (ack_properties pk) refl
          ∙ ap (λ xs. (id pk ++ (pk.reason_code ∷ [])) ++ xs) (sym (append-nil (ack_properties pk)))

  with_reason :
      sends_reason pk ≡ true
      → sends_properties pk ≡ false
      → Returns pk (id pk ++ (pk.reason_code ∷ []))
  unfolding Returns ack_decode arrived_ack encode_uint16
  with_reason e k =
      rw
        (
          read_at decode_uint16 (id pk) pk.packet_id (uint16_Reads pk.packet_id h)
              (id pk ++ (pk.reason_code ∷ [])) [] (pk.reason_code ∷ []) refl,
          reason-five pk e,
          read_at decode_byte (pk.reason_code ∷ []) pk.reason_code (byte_Reads pk.reason_code)
              (id pk ++ (pk.reason_code ∷ [])) (id pk) [] refl,
          e,
          k,
        )
        refl

  with_id : sends_reason pk ≡ false → sends_properties pk ≡ false → Returns pk (id pk)
  unfolding Returns ack_decode arrived_ack encode_uint16
  with_id e k =
      rw
        (
          read_at decode_uint16 (id pk) pk.packet_id (uint16_Reads pk.packet_id h) (id pk) [] []
              (sym (append-nil (id pk))),
          and_false (pk.protocol_version == 5),
          e,
          k,
        )
        refl

-- decodePubAckRelRecComp reads from the bytes behind the fixed header that encodePubAckRelRecComp
-- wrote the packet id, the reason code if it is 0x80 or more or properties follow it in version 5,
-- and 0 in its place otherwise, and the properties that Properties.Encode lets through, if there are
-- any.
pub ack_decode-ack_body :
    (pk : Packet)
    → pk.packet_id < 2 ^ 16
    → HasSendableProperties pk 2
    → let r = blank (set_remaining pk (length (ack_body pk))) in
      ack_decode r (ack_body pk) ≡ ok (arrived_ack pk r)
unfolding Returns
ack_decode-ack_body pk h w = elim (Bool-cases (sends_properties pk)) [
  | inl e ↦ subst (Returns pk) (sym (ack_body-properties pk e)) (with_properties pk h w e)
  | inr k ↦ elim (Bool-cases (sends_reason pk)) [
    | inl e ↦ subst (Returns pk) (sym (ack_body-reason pk e k)) (with_reason pk h w e k)
    | inr e ↦ subst (Returns pk) (sym (ack_body-id pk e)) (with_id pk h w e k)
  ]
]
