-- ===== src/Packets/Packet/Connect/Will.antt =====
-- packets/packets.go: the will of a connect packet, as ConnectDecode reads it back.
use mqtt_server.Prelude.{
  ◌≤◌, ◌<◌, ◌^◌, ◌≡◌, inl, inr, refl, ap, ◌∙◌, true, [], ◌++◌, ◌==◌, ==_iff, if◌then◌else◌,
  Bool-cases, length, length-append, drop, append_assoc, append-nil,
}
use mqtt_server.Packets.Codes.{ok}
use mqtt_server.Packets.Codec.{Bytes, encode_bytes, encode_string, decode_bytes, decode_string}
use mqtt_server.Packets.Types
use mqtt_server.Packets.Properties.{Properties, no_properties}
use mqtt_server.Packets.Properties.Encode.{when, encode_properties}
use mqtt_server.Packets.Properties.Items.{IsText, items_bytes}
use mqtt_server.Packets.Properties.Items.Wire.{string_Reads, bytes_Reads}
use mqtt_server.Packets.Properties.Items.Reading.{drop-append}
use mqtt_server.Packets.Properties.Items.Writing.{items_of}
use mqtt_server.Packets.Properties.Items.RoundTrip.{IsSendable}
use mqtt_server.Packets.Properties.Items.Arriving.{arriving, decode_properties-arriving}
use mqtt_server.Packets.Packet.{Packet, no_connect_params}
use mqtt_server.Packets.Packet.Reads.{
  read_at, onward, blank, HasSendableProperties, arrived_properties,
}
use mqtt_server.Packets.Packet.Connect.{write_will, set_connect, read_will_properties, read_will}

-- The will, which counts under its flag alone.
pub record IsSendableWill (pk : Packet) : Type 0 where
  pub topic : IsText (pk.connect.will_topic)
  pub payload : length (pk.connect.will_payload) < 2 ^ 16
  pub properties :
      (pk.protocol_version ≡ 5)
      → IsSendable (pk.connect.will_properties)
        × (length
              (items_bytes (items_of Types.will_properties pk.mods 0 (pk.connect.will_properties)))
            ≤ 268435455)

-- A connect packet that can be written and read back.
pub record IsConnectable (pk : Packet) : Type 0 where
  pub protocol_name : length (pk.connect.protocol_name) < 2 ^ 16
  pub keepalive : pk.connect.keepalive < 2 ^ 16
  pub client_identifier : IsText (pk.connect.client_identifier)
  pub will_qos : pk.connect.will_qos < 4
  pub properties : HasSendableProperties pk 0
  pub will : pk.connect.will_flag ≡ true → IsSendableWill pk
  pub username : length (pk.connect.username) < 2 ^ 16
  pub password : length (pk.connect.password) < 2 ^ 16

-- The packet as it is read up to the client identifier, and then with each part behind it.
abbrev pub parsed : Packet → Packet
parsed pk =
    let c = pk.connect in
    record (blank pk) {
      properties = arrived_properties pk 0;
      connect = record no_connect_params {
        protocol_name = c.protocol_name;
        keepalive = c.keepalive;
        client_identifier = c.client_identifier;
        clean = c.clean;
        will_flag = c.will_flag;
        will_qos = c.will_qos;
        will_retain = c.will_retain;
        password_flag = c.password_flag;
        username_flag = c.username_flag;
      };
    }

unfoldable pub arrived_will : Packet → Properties
arrived_will pk =
    if pk.protocol_version == 5
    then arriving Types.will_properties pk.mods 0 (pk.connect.will_properties)
    else no_properties

abbrev pub with_will : Packet → Packet
with_will pk =
    let c = pk.connect in
    set_connect (parsed pk) (record (parsed pk).connect {
      will_properties = if c.will_flag then arrived_will pk else no_properties;
      will_topic = if c.will_flag then c.will_topic else [];
      will_payload = if c.will_flag then c.will_payload else [];
    })

abbrev will_bytes : Packet → Bytes
will_bytes pk =
    if pk.protocol_version == 5
    then encode_properties Types.will_properties pk.mods 0 (pk.connect.will_properties)
    else []

read_will_properties-bytes :
    (pk : Packet) (buf pre rest : Bytes)
    → IsSendableWill pk
    → buf ≡ pre ++ (will_bytes pk ++ rest)
    → read_will_properties (parsed pk) buf (length pre)
      ≡ ok (
        set_connect (parsed pk) (record (parsed pk).connect { will_properties = arrived_will pk }),
        length (pre ++ will_bytes pk),
      )
unfolding read_will_properties arrived_will
read_will_properties-bytes pk buf pre rest w e = elim (Bool-cases (pk.protocol_version == 5)) [
  | inl five ↦
      let p = encode_properties Types.will_properties pk.mods 0 (pk.connect.will_properties) in
      let (sendable, fits) = w.properties ((==_iff pk.protocol_version 5).0 five) in
      let dropped : drop (length pre) buf ≡ p ++ rest =
        ap (λ b. drop (length pre) b) (rw five at e) ∙ drop-append pre (p ++ rest) in
      rw
        (
          five,
          dropped,
          decode_properties-arriving Types.will_properties pk.mods 0 (pk.connect.will_properties)
              rest sendable fits,
          length-append pre p,
        )
        refl
  | inr other ↦ rw (other, append-nil pre) refl
]

will_split :
    (pk : Packet) (buf pre rest : Bytes)
    → buf ≡ pre ++ (write_will pk ++ rest)
    → buf
      ≡ pre
        ++ (will_bytes pk
            ++ (encode_string (pk.connect.will_topic)
                ++ (encode_bytes (pk.connect.will_payload) ++ rest)))
unfolding write_will
will_split pk buf pre rest e = e ∙ ap (λ xs. pre ++ xs) (simp append_assoc refl)

pub read_will-write_will :
    (pk : Packet) (buf pre rest : Bytes)
    → IsConnectable pk
    → buf ≡ pre ++ (when (pk.connect.will_flag) (write_will pk) ++ rest)
    → read_will (parsed pk) buf (length pre)
      ≡ ok (with_will pk, length (pre ++ when (pk.connect.will_flag) (write_will pk)))
unfolding read_will write_will
read_will-write_will pk buf pre rest w e = elim (Bool-cases (pk.connect.will_flag)) [
  | inl set ↦
      let will = w.will set in
      let split = will_split pk buf pre rest (rw set at e) in
      rw
        (
          set,
          (rw set at
              (read_will_properties-bytes pk buf pre (topic ++ (payload ++ rest)) will split)),
          read_at decode_string topic (pk.connect.will_topic)
              (string_Reads (pk.connect.will_topic) will.topic) buf (pre ++ will_bytes pk)
              (payload ++ rest) (onward buf pre (will_bytes pk) (topic ++ (payload ++ rest)) split),
          read_at decode_bytes payload (pk.connect.will_payload)
              (bytes_Reads (pk.connect.will_payload) will.payload) buf
              ((pre ++ will_bytes pk) ++ topic) rest
              (onward buf (pre ++ will_bytes pk) topic (payload ++ rest)
                (onward buf pre (will_bytes pk) (topic ++ (payload ++ rest)) split)),
        )
        (simp append_assoc refl)
  | inr unset ↦ rw (unset, append-nil pre) refl
]
  where
    topic : Bytes
    topic = encode_string (pk.connect.will_topic)

    payload : Bytes
    payload = encode_bytes (pk.connect.will_payload)
