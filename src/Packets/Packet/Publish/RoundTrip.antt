-- ===== src/Packets/Packet/Publish/RoundTrip.antt =====
-- packets/packets.go: PublishDecode on what PublishEncode wrote, in every version.
use mqtt_server.Prelude.{
  ℕ, ◌+◌, ◌<◌, ◌^◌, ◌≡◌, inl, inr, refl, sym, ap, ◌∙◌, true, false, [], ◌++◌, ltb, ◌==◌, Bool-cases,
  length, drop, append_assoc, append-nil,
}
use mqtt_server.Packets.Codes.{ok}
use mqtt_server.Packets.Codec.{Bytes, encode_string, encode_uint16, decode_string, decode_uint16}
use mqtt_server.Packets.Properties.Items.{IsText}
use mqtt_server.Packets.Properties.Items.Wire.{string_Reads, uint16_Reads}
use mqtt_server.Packets.Properties.Items.Reading.{drop-append}
use mqtt_server.Packets.Packet.{Packet}
use mqtt_server.Packets.Packet.Frame.{write_frame, write_properties}
use mqtt_server.Packets.Packet.Reads.{
  read_at, onward, blank, HasSendableProperties, arrived_properties,
  read_properties-write_properties,
}
use mqtt_server.Packets.Packet.Publish.{
  write_id, read_id, publish_body, publish_encode, publish_decode,
}

-- What is left of the size of a publish packet when its properties are encoded.
abbrev pub publish_size : Packet → ℕ
publish_size pk = length (encode_string pk.topic_name ++ write_id pk) + length pk.payload

-- A publish packet that can be written and read back: its topic is a string, its packet id is that
-- of its quality of service, and its properties can be sent.
pub record IsPublishable (pk : Packet) : Type 0 where
  pub topic : IsText pk.topic_name
  pub id_range : pk.packet_id < 2 ^ 16
  pub id_set : ltb 0 (pk.fixed_header.qos) ≡ true → (pk.packet_id == 0) ≡ false
  pub id_unset : ltb 0 (pk.fixed_header.qos) ≡ false → pk.packet_id ≡ 0
  pub properties : HasSendableProperties pk (publish_size pk)

-- The packet as it arrives.
pub arrived_publish : Packet → Packet
arrived_publish pk = record (blank pk) {
  topic_name = pk.topic_name;
  packet_id = pk.packet_id;
  properties = arrived_properties pk (publish_size pk);
  payload = pk.payload;
}

read_id-write_id :
    (pk r : Packet) (buf pre rest : Bytes)
    → r.fixed_header.qos ≡ pk.fixed_header.qos
    → r.packet_id ≡ 0
    → IsPublishable pk
    → buf ≡ pre ++ (write_id pk ++ rest)
    → read_id r buf (length pre)
      ≡ ok (record r { packet_id = pk.packet_id }, length (pre ++ write_id pk))
unfolding read_id write_id
read_id-write_id pk r buf pre rest hq hi w e = elim (Bool-cases (ltb 0 (pk.fixed_header.qos))) [
  | inl some_qos ↦
      rw
        (
          hq,
          some_qos,
          read_at decode_uint16 (encode_uint16 pk.packet_id) pk.packet_id
              (uint16_Reads pk.packet_id w.id_range) buf pre rest (rw some_qos at e),
        )
        refl
  | inr no_qos ↦
      simp (hq, no_qos, append-nil)
        (ap (λ i. ok (record r { packet_id = i }, length pre)) (hi ∙ sym (w.id_unset no_qos)))
]

-- PublishEncode on such a packet succeeds, and PublishDecode reads the packet back from the bytes
-- behind the fixed header: the topic, the packet id, the payload and, in version 5, the properties
-- that Properties.Encode lets through.
pub publish_decode-publish_encode :
    (pk : Packet) (buf : Bytes)
    → IsPublishable pk
    → (publish_encode pk buf ≡ ok (write_frame pk (publish_body pk) buf))
      × (publish_decode (blank pk) (publish_body pk) ≡ ok (arrived_publish pk))
publish_decode-publish_encode pk buf w = (written, back)
  where
    topic : Bytes
    topic = encode_string pk.topic_name

    properties : Bytes
    properties = write_properties pk (publish_size pk)

    body : Bytes
    body = publish_body pk

    whole : body ≡ topic ++ (write_id pk ++ (properties ++ pk.payload))
    whole = unfold publish_body in simp append_assoc refl

    behind : drop (length ((topic ++ write_id pk) ++ properties)) body ≡ pk.payload
    behind = unfold publish_body in drop-append ((topic ++ write_id pk) ++ properties) pk.payload

    written : publish_encode pk buf ≡ ok (write_frame pk (publish_body pk) buf)
    written =
        unfold publish_encode in
        elim (Bool-cases (ltb 0 (pk.fixed_header.qos))) [
          | inl some_qos ↦ rw (some_qos, w.id_set some_qos) refl
          | inr no_qos ↦ rw no_qos refl
        ]

    back : publish_decode (blank pk) (publish_body pk) ≡ ok (arrived_publish pk)
    back =
        unfold publish_decode arrived_publish in
        rw
          (
            read_at decode_string topic pk.topic_name (string_Reads pk.topic_name w.topic) body []
                (write_id pk ++ (properties ++ pk.payload)) whole,
            read_id-write_id pk (record (blank pk) { topic_name = pk.topic_name }) body topic
                (properties ++ pk.payload) refl refl w whole,
            read_properties-write_properties pk
                (record (blank pk) { topic_name = pk.topic_name; packet_id = pk.packet_id })
                (publish_size pk) body (topic ++ write_id pk) pk.payload refl refl refl w.properties
                (onward body topic (write_id pk) (properties ++ pk.payload) whole),
            behind,
          )
          refl
