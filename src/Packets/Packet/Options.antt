-- ===== src/Packets/Packet/Options.antt =====
-- packets/packets.go: the options byte of a subscription.
use mqtt_server.Prelude.{ℕ, ◌+◌, ◌*◌, ◌/◌, ◌<◌, ◌≡◌, Bool, arith, if◌then◌else◌}
use mqtt_server.Prelude.Bits.{bit_or_shift, bit_and_three, three-bit_and, one-bit_and}
use mqtt_server.Packets.Packet.{Subscription, encode_options, decode_options}

abbrev bit : Bool → ℕ
bit b = if b then 1 else 0

encode_options-sum :
    (s : Subscription)
    → s.qos < 4
    → s.retain_handling < 16
    → encode_options s
      ≡ s.qos + bit s.no_local * 4 + bit s.retain_as_published * 8 + s.retain_handling * 16
unfolding encode_options
encode_options-sum s hq hr = ground (
  arith,
  bit_or_shift 0 0 s.qos,
  bit_or_shift 2 s.qos 1,
  bit_or_shift 3 s.qos 1,
  bit_or_shift 3 (s.qos + 4) 1,
  bit_or_shift 4 s.qos s.retain_handling,
  bit_or_shift 4 (s.qos + 4) s.retain_handling,
  bit_or_shift 4 (s.qos + 8) s.retain_handling,
  bit_or_shift 4 (s.qos + 4 + 8) s.retain_handling,
)

-- The options byte of a subscription whose two-bit fields are in range is read back, into any
-- subscription, and the other fields of that stay as they were.
pub decode_options-encode_options :
    (s t : Subscription)
    → s.qos < 4
    → s.retain_handling < 4
    → decode_options t (encode_options s) ≡ record t {
      qos = s.qos;
      no_local = s.no_local;
      retain_as_published = s.retain_as_published;
      retain_handling = s.retain_handling;
    }
unfolding decode_options
decode_options-encode_options s t hq hr =
    let b = encode_options s in
    ground (
      arith,
      encode_options-sum s,
      bit_and_three b,
      one-bit_and (b / 4),
      one-bit_and (b / 8),
      three-bit_and (b / 16),
    )
