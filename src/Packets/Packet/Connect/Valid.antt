-- ===== src/Packets/Packet/Connect/Valid.antt =====
-- packets/packets.go: which connect packets ConnectValidate accepts.
use mqtt_server.Prelude.{
  ◌≤◌, ◌<◌, ◌≡◌, ◌⊎◌, ◌↔◌, inl, inr, true, arith, ==_iff, bytes_eq, bytes_eq_iff, length,
}
use mqtt_server.Packets.Codes
use mqtt_server.Packets.Packet.{Packet}
use mqtt_server.Packets.Packet.Connect.{connect_validate, mqisdp, mqtt}

pub record IsCompliant (pk : Packet) : Type 0 where
  pub protocol :
      ((pk.connect.protocol_name ≡ mqisdp) × (pk.protocol_version ≡ 3))
      ⊎ ((pk.connect.protocol_name ≡ mqtt)
          × ((pk.protocol_version ≡ 4) ⊎ (pk.protocol_version ≡ 5)))
  pub reserved_bit : pk.reserved_bit ≡ 0
  pub password_size : length (pk.connect.password) ≤ 65535
  pub username_size : length (pk.connect.username) ≤ 65535
  pub username : (pk.connect.username_flag ≡ true) ⊎ (length (pk.connect.username) ≡ 0)
  pub password : (pk.connect.password_flag ≡ true) ↔ (0 < length (pk.connect.password))
  pub client_identifier : length (pk.connect.client_identifier) ≤ 65535
  pub will :
      pk.connect.will_flag ≡ true
      → (0 < length (pk.connect.will_payload))
        × (0 < length (pk.connect.will_topic))
        × (pk.connect.will_qos ≤ 2)
  pub will_retain : pk.connect.will_retain ≡ true → pk.connect.will_flag ≡ true

-- ConnectValidate accepts exactly the packets with a protocol name and a version of it, no reserved bit, a
-- password, a user name and an identifier of at most 65535 bytes, no user name without its flag, a
-- password that is empty exactly without its flag, under the flag a will with a payload, a topic and a
-- quality of service of at most 2, and no retained will without the flag.
pub connect_validate-IsCompliant :
    (pk : Packet) → (connect_validate pk ≡ Codes.code_success) ↔ IsCompliant pk
unfolding connect_validate bytes_eq
connect_validate-IsCompliant pk = (into, back)
  where
    into : connect_validate pk ≡ Codes.code_success → IsCompliant pk
    into e = record {
      protocol = ground (
        arith,
        bytes_eq_iff pk.connect.protocol_name mqisdp,
        bytes_eq_iff pk.connect.protocol_name mqtt,
        ==_iff pk.protocol_version 3,
        ==_iff pk.protocol_version 4,
        ==_iff pk.protocol_version 5,
      );
      reserved_bit = ground arith;
      password_size = ground arith;
      username_size = ground arith;
      username = ground arith;
      password = ground arith;
      client_identifier = ground arith;
      will = ground arith;
      will_retain = ground arith;
    }

    back : IsCompliant pk → connect_validate pk ≡ Codes.code_success
    back w = elim w.protocol [
      | inl (name, version) ↦
          rw (name, version) (ground (arith, w.password.0, w.password.1, w.will))
      | inr (name, inl version) ↦
          rw (name, version) (ground (arith, w.password.0, w.password.1, w.will))
      | inr (name, inr version) ↦
          rw (name, version) (ground (arith, w.password.0, w.password.1, w.will))
    ]
