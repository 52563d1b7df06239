-- ===== src/Packets/Packet/Connect/RoundTrip.antt =====
-- packets/packets.go: ConnectDecode on what ConnectEncode wrote, in every version.
use mqtt_server.Prelude.{
  ◌≡◌, inl, inr, refl, sym, ap, ◌∙◌, false, [], ◌∷◌, ◌++◌, arith, leb, if◌then◌else◌, Bool-cases,
  length, length-append, append-nil,
}
use mqtt_server.Packets.Codes.{ok}
use mqtt_server.Packets.Codec.{
  Bytes, encode_uint16, encode_bytes, encode_string, decode_uint16, decode_bytes, decode_string,
  decode_byte,
}
use mqtt_server.Packets.Properties.Encode.{when}
use mqtt_server.Packets.Properties.Items.Wire.{
  string_Reads, bytes_Reads, length-encode_bytes, uint16_Reads, byte_Reads,
}
use mqtt_server.Packets.Packet.{Packet, ConnectParams, no_connect_params}
use mqtt_server.Packets.Packet.Frame.{write_frame, write_properties}
use mqtt_server.Packets.Packet.Reads.{read_at, onward, blank, read_properties-write_properties}
use mqtt_server.Packets.Packet.Connect.Flags.{set_flags-connect_flags}
use mqtt_server.Packets.Packet.Connect.{
  connect_flags, write_will, connect_body, connect_encode, set_connect, read_username,
  read_password, connect_decode,
}
use mqtt_server.Packets.Packet.Connect.Will.{IsConnectable, parsed, with_will, read_will-write_will}

abbrev with_username : Packet → Packet
with_username pk =
    let c = pk.connect in
    set_connect (parsed pk)
      (record (with_will pk).connect { username = if c.username_flag then c.username else [] })

-- The packet as it arrives: the will, the user name and the password under their flags alone.
pub arrived_connect : Packet → Packet
arrived_connect pk =
    let c = pk.connect in
    set_connect (parsed pk)
      (record (with_username pk).connect { password = if c.password_flag then c.password else [] })

read_username-bytes :
    (pk : Packet) (buf pre rest : Bytes)
    → IsConnectable pk
    → buf ≡ pre ++ (when (pk.connect.username_flag) (encode_bytes (pk.connect.username)) ++ rest)
    → read_username (with_will pk) buf (length pre)
      ≡ ok (
        with_username pk,
        length (pre ++ when (pk.connect.username_flag) (encode_bytes (pk.connect.username))),
      )
unfolding read_username
read_username-bytes pk buf pre rest w e = elim (Bool-cases (pk.connect.username_flag)) [
  | inl set ↦
      rw
        (
          set,
          inside (rw set at e),
          read_at decode_bytes (encode_bytes (pk.connect.username)) (pk.connect.username)
              (bytes_Reads (pk.connect.username) w.username) buf pre rest (rw set at e),
        )
        refl
  | inr unset ↦ rw (unset, append-nil pre) refl
]
  where
    inside :
        buf ≡ pre ++ (encode_bytes (pk.connect.username) ++ rest)
        → leb (length buf) (length pre) ≡ false
    inside e = ground (
      arith,
      ap length e,
      length-append pre (encode_bytes (pk.connect.username) ++ rest),
      length-append (encode_bytes (pk.connect.username)) rest,
      length-encode_bytes (pk.connect.username),
    )

read_password-bytes :
    (pk : Packet) (buf pre : Bytes)
    → IsConnectable pk
    → buf ≡ pre ++ when (pk.connect.password_flag) (encode_bytes (pk.connect.password))
    → read_password (with_username pk) buf (length pre) ≡ ok (arrived_connect pk)
unfolding read_password arrived_connect
read_password-bytes pk buf pre w e = elim (Bool-cases (pk.connect.password_flag)) [
  | inl set ↦
      rw
        (
          set,
          read_at decode_bytes (encode_bytes (pk.connect.password)) (pk.connect.password)
              (bytes_Reads (pk.connect.password) w.password) buf pre []
              ((rw set at e)
                ∙ ap (λ xs. pre ++ xs) (sym (append-nil (encode_bytes (pk.connect.password))))),
        )
        refl
  | inr unset ↦ rw unset refl
]

-- The parameters as they are read up to the flags and the keep-alive.
abbrev flagged : Packet → ConnectParams
flagged pk =
    let c = pk.connect in
    record no_connect_params {
      protocol_name = c.protocol_name;
      keepalive = c.keepalive;
      clean = c.clean;
      will_flag = c.will_flag;
      will_qos = c.will_qos;
      will_retain = c.will_retain;
      password_flag = c.password_flag;
      username_flag = c.username_flag;
    }

-- What stands behind the client identifier, behind the properties and behind the keep-alive.
abbrev after_identifier : Packet → Bytes
after_identifier pk =
    let c = pk.connect in
    when c.will_flag (write_will pk)
    ++ (when c.username_flag (encode_bytes c.username)
        ++ when c.password_flag (encode_bytes c.password))

abbrev after_keepalive : Packet → Bytes
after_keepalive pk =
    write_properties pk 0 ++ (encode_string (pk.connect.client_identifier) ++ after_identifier pk)

-- What stands in front of the properties.
abbrev front : Packet → Bytes
front pk =
    ((encode_bytes (pk.connect.protocol_name) ++ (pk.protocol_version ∷ []))
      ++ (connect_flags pk.connect ∷ []))
    ++ encode_uint16 (pk.connect.keepalive)

-- ConnectEncode succeeds, and ConnectDecode reads a packet that can be sent back from the bytes
-- behind the fixed header: the protocol name and version, the flags, the keep-alive, the client
-- identifier, under their flags alone the will, the user name and the password, and in version 5 the
-- properties, those of the will included, that Properties.Encode lets through.
pub connect_decode-connect_encode :
    (pk : Packet) (buf : Bytes)
    → IsConnectable pk
    → (connect_encode pk buf ≡ ok (write_frame pk (connect_body pk) buf))
      × (connect_decode (blank pk) (connect_body pk) ≡ ok (arrived_connect pk))
unfolding connect_encode
connect_decode-connect_encode pk buf w = (refl, back)
  where
    c : ConnectParams
    c = pk.connect

    body : Bytes
    body = connect_body pk

    name : Bytes
    name = encode_bytes c.protocol_name

    s₀ :
        body
        ≡ name
          ++ (pk.protocol_version
              ∷ connect_flags c
              ∷ (encode_uint16 c.keepalive ++ after_keepalive pk))
    s₀ = unfold connect_body in refl

    s₁ :
        body
        ≡ (name ++ (pk.protocol_version ∷ []))
          ++ (connect_flags c ∷ (encode_uint16 c.keepalive ++ after_keepalive pk))
    s₁ = onward body name (pk.protocol_version ∷ []) _ s₀

    s₂ :
        body
        ≡ ((name ++ (pk.protocol_version ∷ [])) ++ (connect_flags c ∷ []))
          ++ (encode_uint16 c.keepalive ++ after_keepalive pk)
    s₂ = onward body (name ++ (pk.protocol_version ∷ [])) (connect_flags c ∷ []) _ s₁

    s₃ : body ≡ front pk ++ after_keepalive pk
    s₃ =
        onward body ((name ++ (pk.protocol_version ∷ [])) ++ (connect_flags c ∷ []))
          (encode_uint16 c.keepalive) (after_keepalive pk) s₂

    s₄ :
        body
        ≡ (front pk ++ write_properties pk 0)
          ++ (encode_string c.client_identifier ++ after_identifier pk)
    s₄ = onward body (front pk) (write_properties pk 0) _ s₃

    s₅ :
        body
        ≡ ((front pk ++ write_properties pk 0) ++ encode_string c.client_identifier)
          ++ after_identifier pk
    s₅ = onward body (front pk ++ write_properties pk 0) (encode_string c.client_identifier) _ s₄

    pre₅ : Bytes
    pre₅ = (front pk ++ write_properties pk 0) ++ encode_string c.client_identifier

    s₆ :
        body
        ≡ (pre₅ ++ when c.will_flag (write_will pk))
          ++ (when c.username_flag (encode_bytes c.username)
              ++ when c.password_flag (encode_bytes c.password))
    s₆ = onward body pre₅ (when c.will_flag (write_will pk)) _ s₅

    s₇ :
        body
        ≡ ((pre₅ ++ when c.will_flag (write_will pk))
            ++ when c.username_flag (encode_bytes c.username))
          ++ when c.password_flag (encode_bytes c.password)
    s₇ =
        onward body (pre₅ ++ when c.will_flag (write_will pk))
          (when c.username_flag (encode_bytes c.username)) _ s₆

    back : connect_decode (blank pk) (connect_body pk) ≡ ok (arrived_connect pk)
    back =
        unfold connect_decode in
        rw
          (
            read_at decode_bytes name c.protocol_name (bytes_Reads c.protocol_name w.protocol_name)
                body [] _ s₀,
            read_at decode_byte (pk.protocol_version ∷ []) pk.protocol_version
                (byte_Reads pk.protocol_version) body name _ s₀,
            read_at decode_byte (connect_flags c ∷ []) (connect_flags c)
                (byte_Reads (connect_flags c)) body (name ++ (pk.protocol_version ∷ [])) _ s₁,
            read_at decode_uint16 (encode_uint16 c.keepalive) c.keepalive
                (uint16_Reads c.keepalive w.keepalive) body
                ((name ++ (pk.protocol_version ∷ [])) ++ (connect_flags c ∷ []))
                (after_keepalive pk) s₂,
            (set_flags-connect_flags c no_connect_params w.will_qos).0,
            (set_flags-connect_flags c no_connect_params w.will_qos).1,
            read_properties-write_properties pk (record (blank pk) { connect = flagged pk }) 0 body
                (front pk) _ refl refl refl w.properties s₃,
            read_at decode_string (encode_string c.client_identifier) c.client_identifier
                (string_Reads c.client_identifier w.client_identifier) body
                (front pk ++ write_properties pk 0) (after_identifier pk) s₄,
            read_will-write_will pk body pre₅ _ w s₅,
            read_username-bytes pk body (pre₅ ++ when c.will_flag (write_will pk)) _ w s₆,
          )
          (read_password-bytes pk body
            ((pre₅ ++ when c.will_flag (write_will pk))
              ++ when c.username_flag (encode_bytes c.username))
            w s₇)
