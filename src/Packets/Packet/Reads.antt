-- ===== src/Packets/Packet/Reads.antt =====
-- packets/packets.go: decoders that take up a buffer where an encoder wrote.
use mqtt_server.Prelude.{
  ℕ, ◌≤◌, ◌≡◌, refl, sym, ap, ◌∙◌, ◌++◌, inl, inr, ◌==◌, if◌then◌else◌, Bool-cases, ==_iff, length,
  length-append, drop, append_assoc, append-nil,
}
use mqtt_server.Packets.Codes.{Result, ok}
use mqtt_server.Packets.Codec.{Bytes}
use mqtt_server.Packets.Properties.{Properties, no_properties}
use mqtt_server.Packets.Properties.Encode.{encode_properties}
use mqtt_server.Packets.Properties.Items.{items_bytes}
use mqtt_server.Packets.Properties.Items.Wire.{Reads}
use mqtt_server.Packets.Properties.Items.Reading.{drop-append}
use mqtt_server.Packets.Properties.Items.Writing.{items_of}
use mqtt_server.Packets.Properties.Items.RoundTrip.{IsSendable}
use mqtt_server.Packets.Properties.Items.Arriving.{arriving, decode_properties-arriving}
use mqtt_server.Packets.Packet.{Packet, no_packet}
use mqtt_server.Packets.Packet.Frame.{write_properties, read_properties, read_properties_of}

-- A buffer that holds `a` behind `pre`: the decoder reads `x` there and goes on behind `a`.
abbrev pub ReadsAt : {A : Type 0} → (Bytes → ℕ → Result (A × ℕ)) → Bytes → A → Type 0
ReadsAt decode a x =
    (buf pre rest : Bytes)
    → buf ≡ pre ++ (a ++ rest)
    → decode buf (length pre) ≡ ok (x, length (pre ++ a))

pub onward : (buf pre a rest : Bytes) → buf ≡ pre ++ (a ++ rest) → buf ≡ (pre ++ a) ++ rest
onward buf pre a rest e = e ∙ sym (append_assoc pre a rest)

pub read_at :
    {A : Type 0} (decode : Bytes → ℕ → Result (A × ℕ)) (a : Bytes) (x : A)
    → Reads decode a x
    → ReadsAt decode a x
read_at decode a x h buf pre rest e =
    ap (λ b. decode b (length pre)) e ∙ h pre rest ∙ ap (λ n. ok (x, n)) (sym (length-append pre a))

-- What `ReadPacket` decodes into: a packet with the fixed header and the client's version.
abbrev pub blank : Packet → Packet
blank pk = record no_packet {
  fixed_header = pk.fixed_header;
  protocol_version = pk.protocol_version;
}

-- In version 5 the properties can be sent and are not too long, where `n` is what `Encode` is told.
unfoldable pub HasSendableProperties : Packet → ℕ → Type 0
HasSendableProperties pk n =
    (pk.protocol_version ≡ 5)
    → IsSendable pk.properties
      × (length (items_bytes (items_of (pk.fixed_header.type) pk.mods n pk.properties)) ≤ 268435455)

unfoldable pub arrived_properties : Packet → ℕ → Properties
arrived_properties pk n =
    if pk.protocol_version == 5
    then arriving (pk.fixed_header.type) pk.mods n pk.properties
    else no_properties

pub read_properties-write_properties :
    (pk r : Packet) (n : ℕ) (buf pre rest : Bytes)
    → r.protocol_version ≡ pk.protocol_version
    → r.fixed_header.type ≡ pk.fixed_header.type
    → r.properties ≡ no_properties
    → HasSendableProperties pk n
    → buf ≡ pre ++ (write_properties pk n ++ rest)
    → read_properties r buf (length pre)
      ≡ ok
          (record r { properties = arrived_properties pk n }, length (pre ++ write_properties pk n))
unfolding HasSendableProperties write_properties read_properties read_properties_of
    arrived_properties
read_properties-write_properties pk r n buf pre rest hv ht hp w e =
    elim (Bool-cases (pk.protocol_version == 5)) [
      | inl five ↦
          let p = encode_properties (pk.fixed_header.type) pk.mods n pk.properties in
          let (sendable, fits) = w ((==_iff pk.protocol_version 5).0 five) in
          let dropped : drop (length pre) buf ≡ p ++ rest =
            ap (λ b. drop (length pre) b) (rw five at e) ∙ drop-append pre (p ++ rest) in
          rw
            (
              hv,
              five,
              dropped,
              ht,
              hp,
              decode_properties-arriving (pk.fixed_header.type) pk.mods n pk.properties rest
                  sendable fits,
              length-append pre p,
            )
            refl
      | inr other ↦
          rw (hv, other, append-nil pre)
            (ap
              (λ q.
                ok
                  (record r { protocol_version = pk.protocol_version; properties = q }, length pre))
              hp)
    ]
