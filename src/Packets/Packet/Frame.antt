-- ===== src/Packets/Packet/Frame.antt =====
-- packets/packets.go: what the encoders and decoders of all packet types share: the fixed header in
-- front of the body, and the properties that only version 5 has. An encoder is given the buffer to
-- append to; it returns the packet, whose remaining length it set, with the buffer. A decoder returns
-- the packet with the fields it set, or the error alone, as no caller reads the packet then.
use mqtt_server.Prelude.{ℕ, ◌+◌, [], ◌++◌, ◌==◌, if◌then◌else◌, length, drop}
use mqtt_server.Packets.Codes.{Code, Result, ok, err, ◌>>=◌, err_malformed_properties}
use mqtt_server.Packets.Codec.{Bytes}
use mqtt_server.Packets.Header.{encode_header}
use mqtt_server.Packets.Properties.Encode.{encode_properties}
use mqtt_server.Packets.Properties.Decode.{Read, read, failed, eof, no_fuel, decode_properties}
use mqtt_server.Packets.Packet.{Packet}

-- `pk.FixedHeader.Remaining = n`
abbrev pub set_remaining : Packet → ℕ → Packet
set_remaining pk n = record pk { fixed_header = record pk.fixed_header { remaining = n } }

-- The end of an encoder: the remaining length, the header, and the body behind it.
unfoldable pub write_frame : Packet → Bytes → Bytes → Packet × Bytes
write_frame pk body buf =
    let pk' = set_remaining pk (length body) in (pk', encode_header (pk'.fixed_header) buf ++ body)

-- `if pk.ProtocolVersion == 5 { pk.Properties.Encode(…, pb, n); nb.Write(pb.Bytes()) }`
unfoldable pub write_properties : Packet → ℕ → Bytes
write_properties pk n =
    if pk.protocol_version == 5
    then encode_properties (pk.fixed_header.type) pk.mods n pk.properties
    else []

-- The caller's own error in place of the one of `Decode`; with the fuel `Decode` runs on, `no_fuel`
-- does not occur.
abbrev pub or_fail {ℓ} : {A : Type ℓ} → Read A → Code → Result A
or_fail (read a) c = ok a
or_fail (failed e) c = err c
or_fail eof c = err c
or_fail no_fuel c = err c

-- `pk.Properties.Decode(pk.FixedHeader.Type, bytes.NewBuffer(buf[offset:]))`
unfoldable pub read_properties_of : Packet → Bytes → ℕ → Result (Packet × ℕ)
read_properties_of pk buf offset = do
  (q, n) ←
      or_fail (decode_properties (pk.fixed_header.type) (drop offset buf) pk.properties)
        err_malformed_properties
  ok (record pk { properties = q }, offset + n)

-- The same under `if pk.ProtocolVersion == 5`.
unfoldable pub read_properties : Packet → Bytes → ℕ → Result (Packet × ℕ)
read_properties pk buf offset =
    if pk.protocol_version == 5 then read_properties_of pk buf offset else ok (pk, offset)
