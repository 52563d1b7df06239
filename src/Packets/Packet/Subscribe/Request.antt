-- ===== src/Packets/Packet/Subscribe/Request.antt =====
-- packets/packets.go: what a subscribe and an unsubscribe packet have in front of their filters.
use mqtt_server.Prelude.{
  ℕ, ◌+◌, ◌<◌, ◌^◌, ◌≡◌, refl, ap, ◌∙◌, false, [], ◌++◌, arith, ltb, ◌==◌, length, length-append,
  append_assoc,
}
use mqtt_server.Packets.Codes.{ok}
use mqtt_server.Packets.Codec.{Bytes, encode_uint16, decode_uint16}
use mqtt_server.Packets.Properties.Items.Wire.{uint16_Reads}
use mqtt_server.Packets.Packet.{Packet}
use mqtt_server.Packets.Packet.Frame.{write_properties, read_properties}
use mqtt_server.Packets.Packet.Reads.{
  read_at, blank, HasSendableProperties, arrived_properties, read_properties-write_properties,
}
use mqtt_server.Packets.Packet.Subscribe.{request_body}

pub at_end : (buf pre : Bytes) → buf ≡ pre ++ [] → ltb (length pre) (length buf) ≡ false
at_end buf pre e = ground (arith, ap length e, length-append pre [])

-- What `Encode` is told of a request whose filters take the bytes `xb`.
abbrev pub request_size : Packet → Bytes → ℕ
request_size pk xb = length (encode_uint16 pk.packet_id) + length xb

-- A request with a packet id and properties that can be sent.
pub record IsSendableRequest (pk : Packet) (xb : Bytes) : Type 0 where
  pub id_set : (pk.packet_id == 0) ≡ false
  pub id_range : pk.packet_id < 2 ^ 16
  pub properties : HasSendableProperties pk (request_size pk xb)

-- The packet id and the properties, in front of the filters `xb`.
abbrev pub request_front : Packet → Bytes → Bytes
request_front pk xb = encode_uint16 pk.packet_id ++ write_properties pk (request_size pk xb)

module _ (pk : Packet) (xb : Bytes) (w : IsSendableRequest pk xb) where
  pub request_split : request_body pk xb ≡ request_front pk xb ++ xb
  unfolding request_body
  request_split = refl

  pub request_id :
      decode_uint16 (request_body pk xb) 0 ≡ ok (pk.packet_id, length (encode_uint16 pk.packet_id))
  request_id =
      read_at decode_uint16 (encode_uint16 pk.packet_id) pk.packet_id
        (uint16_Reads pk.packet_id w.id_range) (request_body pk xb) []
        (write_properties pk (request_size pk xb) ++ xb)
        (request_split
          ∙ append_assoc (encode_uint16 pk.packet_id) (write_properties pk (request_size pk xb)) xb)

  pub request_properties :
      read_properties
        (record (blank pk) { packet_id = pk.packet_id })
        (request_body pk xb)
        (length (encode_uint16 pk.packet_id))
      ≡ ok (
        record (blank pk) {
          packet_id = pk.packet_id;
          properties = arrived_properties pk (request_size pk xb);
        },
        length (request_front pk xb),
      )
  request_properties =
      read_properties-write_properties pk (record (blank pk) { packet_id = pk.packet_id })
        (request_size pk xb) (request_body pk xb) (encode_uint16 pk.packet_id) xb refl refl refl
        w.properties
        (request_split
          ∙ append_assoc (encode_uint16 pk.packet_id) (write_properties pk (request_size pk xb)) xb)
