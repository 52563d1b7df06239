-- ===== src/Packets/Packet/Answers/RoundTrip.antt =====
-- packets/packets.go: the decoders of the server's answers on what the encoders wrote.
use mqtt_server.Prelude.{
  ℕ, ◌+◌, ◌<◌, ◌^◌, ◌≡◌, refl, sym, Bool, true, false, [], ◌∷◌, ◌++◌, arith, leb, length,
  length-append, append_assoc, append-nil,
}
use mqtt_server.Packets.Codes.{ok}
use mqtt_server.Packets.Codec.{
  Bytes, encode_uint16, encode_bool, decode_uint16, decode_byte, decode_byte_bool,
}
use mqtt_server.Packets.Codec.RoundTrip.{byte_first}
use mqtt_server.Packets.Properties.Items.Wire.{Reads, uint16_Reads, byte_Reads}
use mqtt_server.Packets.Properties.Items.Reading.{drop-append}
use mqtt_server.Packets.Packet.{Packet}
use mqtt_server.Packets.Packet.Frame.{write_frame, write_properties}
use mqtt_server.Packets.Packet.Reads.{
  read_at, blank, HasSendableProperties, arrived_properties, read_properties-write_properties,
}
use mqtt_server.Packets.Packet.Answers.{
  connack_encode, connack_decode, suback_encode, suback_decode,
}

inside :
    (pre : Bytes) (x : ℕ) (rest : Bytes) → leb (length (pre ++ (x ∷ rest))) (length pre) ≡ false
inside pre x rest = ground (arith, length-append pre (x ∷ rest))

bool_Reads : (b : Bool) → Reads decode_byte_bool (encode_bool b ∷ []) b
unfolding decode_byte_bool encode_bool
bool_Reads true pre rest = rw (inside pre 1 rest, byte_first pre (1 ∷ rest)) refl
bool_Reads false pre rest = rw (inside pre 0 rest, byte_first pre (0 ∷ rest)) refl

-- What ConnackEncode and SubackEncode write behind the fixed header.
abbrev pub connack_body : Packet → Bytes
connack_body pk = encode_bool pk.session_present ∷ pk.reason_code ∷ write_properties pk 4

abbrev pub suback_size : Packet → ℕ
suback_size pk = length (encode_uint16 pk.packet_id) + length pk.reason_codes

abbrev pub suback_body : Packet → Bytes
suback_body pk =
    (encode_uint16 pk.packet_id ++ write_properties pk (suback_size pk)) ++ pk.reason_codes

-- ConnackDecode reads back what ConnackEncode wrote: whether a session is present, the reason code,
-- and in version 5 the properties that Properties.Encode lets through, if they can be sent.
pub connack_decode-connack_encode :
    (pk : Packet) (buf : Bytes)
    → HasSendableProperties pk 4
    → (connack_encode pk buf ≡ ok (write_frame pk (connack_body pk) buf))
      × (connack_decode (blank pk) (connack_body pk)
          ≡ ok (record (blank pk) {
            session_present = pk.session_present;
            reason_code = pk.reason_code;
            properties = arrived_properties pk 4;
          }))
unfolding connack_encode connack_decode
connack_decode-connack_encode pk buf w = (
  refl,
  rw
      (
        read_at decode_byte_bool (encode_bool pk.session_present ∷ []) pk.session_present
            (bool_Reads pk.session_present) body [] (pk.reason_code ∷ write_properties pk 4) refl,
        read_at decode_byte (pk.reason_code ∷ []) pk.reason_code (byte_Reads pk.reason_code) body
            (encode_bool pk.session_present ∷ []) (write_properties pk 4) refl,
        read_properties-write_properties pk
            (record (blank pk) {
              session_present = pk.session_present;
              reason_code = pk.reason_code;
            })
            4 body (encode_bool pk.session_present ∷ pk.reason_code ∷ []) [] refl refl refl w
            (λ i.
              encode_bool pk.session_present
              ∷ pk.reason_code
              ∷ sym (append-nil (write_properties pk 4)) i),
      )
      refl,
)
  where
    body : Bytes
    body = connack_body pk

-- SubackDecode reads back what SubackEncode wrote: the packet id, the reason codes, and in version 5
-- the properties that Properties.Encode lets through, if they can be sent.
pub suback_decode-suback_encode :
    (pk : Packet) (buf : Bytes)
    → pk.packet_id < 2 ^ 16
    → HasSendableProperties pk (suback_size pk)
    → (suback_encode pk buf ≡ ok (write_frame pk (suback_body pk) buf))
      × (suback_decode (blank pk) (suback_body pk)
          ≡ ok (record (blank pk) {
            packet_id = pk.packet_id;
            properties = arrived_properties pk (suback_size pk);
            reason_codes = pk.reason_codes;
          }))
unfolding suback_encode suback_decode
suback_decode-suback_encode pk buf h w = (
  refl,
  rw
      (
        read_at decode_uint16 id pk.packet_id (uint16_Reads pk.packet_id h) body []
            (properties ++ pk.reason_codes) whole,
        read_properties-write_properties pk (record (blank pk) { packet_id = pk.packet_id })
            (suback_size pk) body id pk.reason_codes refl refl refl w whole,
        drop-append (id ++ properties) pk.reason_codes,
      )
      refl,
)
  where
    id : Bytes
    id = encode_uint16 pk.packet_id

    properties : Bytes
    properties = write_properties pk (suback_size pk)

    body : Bytes
    body = suback_body pk

    whole : body ≡ id ++ (properties ++ pk.reason_codes)
    whole = append_assoc id properties pk.reason_codes
