-- ===== src/Packets/Packet/Connect/Flags.antt =====
-- packets/packets.go: the flags byte of a connect packet.
use mqtt_server.Prelude.{
  ℕ, ◌+◌, ◌*◌, ◌/◌, ◌%◌, ◌^◌, ◌≤◌, ◌<◌, ◌≡◌, refl, Bool, true, false, arith, if◌then◌else◌,
}
use mqtt_server.Prelude.Bits.{bit_or_shift, three-bit_and, one-bit_and}
use mqtt_server.Packets.Codec.{encode_bool}
use mqtt_server.Packets.Packet.{ConnectParams}
use mqtt_server.Packets.Packet.Connect.{connect_flags, set_flags}
use Prim.Native.Nat.{bit_and, bit_or}

abbrev bit : Bool → ℕ
bit b = if b then 1 else 0

bit_small : (b : Bool) → bit b ≤ 1
bit_small true = omega arith
bit_small false = omega arith

or_bit : (m a : ℕ) (b : Bool) → a < 2 ^ m → bit_or a (bit b * 2 ^ m) ≡ a + bit b * 2 ^ m
or_bit m a b h = bit_or_shift m a (bit b) h

connect_flags-sum :
    (c : ConnectParams)
    → c.will_qos < 4
    → connect_flags c
      ≡ bit c.clean * 2
        + bit c.will_flag * 4
        + c.will_qos * 8
        + bit c.will_retain * 32
        + bit c.password_flag * 64
        + bit c.username_flag * 128
unfolding connect_flags encode_bool
connect_flags-sum c h =
    rw
      (
        or_bit 2 (bit c.clean * 2) c.will_flag (omega (arith, bit_small c.clean)),
        narrow,
        bit_or_shift 3 (bit c.clean * 2 + bit c.will_flag * 4) c.will_qos
            (omega (arith, bit_small c.clean, bit_small c.will_flag)),
        or_bit 5 (bit c.clean * 2 + bit c.will_flag * 4 + c.will_qos * 8) c.will_retain
            (omega (arith, h, bit_small c.clean, bit_small c.will_flag)),
        or_bit 6 (bit c.clean * 2 + bit c.will_flag * 4 + c.will_qos * 8 + bit c.will_retain * 32)
            c.password_flag
            (omega (arith, h, bit_small c.clean, bit_small c.will_flag, bit_small c.will_retain)),
        or_bit 7
            (bit c.clean * 2
              + bit c.will_flag * 4
              + c.will_qos * 8
              + bit c.will_retain * 32
              + bit c.password_flag * 64)
            c.username_flag
            (omega (
              arith,
              h,
              bit_small c.clean,
              bit_small c.will_flag,
              bit_small c.will_retain,
              bit_small c.password_flag,
            )),
      )
      refl
  where
    narrow : c.will_qos * 8 % 256 ≡ c.will_qos * 8
    narrow = omega arith

-- The flags of a connect packet whose quality of service of the will has two bits are read back, and
-- the reserved bit is not set.
pub set_flags-connect_flags :
    (c d : ConnectParams)
    → c.will_qos < 4
    → (set_flags d (connect_flags c) ≡ record d {
      clean = c.clean;
      will_flag = c.will_flag;
      will_qos = c.will_qos;
      will_retain = c.will_retain;
      password_flag = c.password_flag;
      username_flag = c.username_flag;
    })
      × (bit_and 1 (connect_flags c) ≡ 0)
unfolding set_flags
set_flags-connect_flags c d h =
    let f = connect_flags c in
    ground (
      arith,
      connect_flags-sum c h,
      one-bit_and f,
      one-bit_and (f / 2),
      one-bit_and (f / 4),
      three-bit_and (f / 8),
      one-bit_and (f / 32),
      one-bit_and (f / 64),
      one-bit_and (f / 128),
    )
