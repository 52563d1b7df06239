-- ===== src/Packets/Packet.antt =====
-- packets/packets.go: the packet struct and its copy. A map of Go that may be nil is an option.
pub mod Options
pub mod Frame
pub mod Reads
pub mod Publish
pub mod Connect
pub mod Subscribe
pub mod Answers
mod Tests
pub mod Copies
use mqtt_server.Prelude.{
  ℕ, ◌*◌, ◌%◌, ◌/◌, ◌^◌, Bool, true, false, Option, none, some, List, [], ◌∷◌, ltb, ◌||◌,
  if◌then◌else◌, length,
}
use mqtt_server.Prelude.Int.{ℤ, pos, ltb_ℤ}
use mqtt_server.Prelude.Maps.{Map, insert, string_eq}
use mqtt_server.Packets.Codec.{Bytes}
use mqtt_server.Packets.Header.{FixedHeader}
use mqtt_server.Packets.Properties.{Properties, no_properties, copy_properties}
use Prim.Native.Nat.{bit_and, bit_or}

pub record Mods : Type 0 where
  pub max_size : ℕ
  pub disallow_problem_info : Bool
  pub allow_response_info : Bool

pub record ConnectParams : Type 0 where
  pub will_properties : Properties
  pub password : Bytes
  pub username : Bytes
  pub protocol_name : Bytes
  pub will_payload : Bytes
  pub client_identifier : Bytes
  pub will_topic : Bytes
  pub keepalive : ℕ
  pub password_flag : Bool
  pub username_flag : Bool
  pub will_qos : ℕ
  pub will_flag : Bool
  pub will_retain : Bool
  pub clean : Bool

pub record Subscription : Type 0 where
  pub share_name : List Bytes
  pub filter : Bytes
  pub identifier : ℤ
  pub identifiers : Option (Map Bytes ℤ)
  pub retain_handling : ℕ
  pub qos : ℕ
  pub retain_as_published : Bool
  pub no_local : Bool
  pub fwd_retained_flag : Bool

pub record Packet : Type 0 where
  pub connect : ConnectParams
  pub properties : Properties
  pub payload : Bytes
  pub reason_codes : Bytes
  pub filters : List Subscription
  pub topic_name : Bytes
  pub origin : Bytes
  pub fixed_header : FixedHeader
  pub created : ℤ
  pub expiry : ℤ
  pub mods : Mods
  pub packet_id : ℕ
  pub protocol_version : ℕ
  pub session_present : Bool
  pub reason_code : ℕ
  pub reserved_bit : ℕ
  pub ignore : Bool

-- `ConnectParams{}`, `Subscription{Filter: filter}` and `Packet{}`.
abbrev pub no_connect_params : ConnectParams
no_connect_params = record {
  will_properties = no_properties;
  password = [];
  username = [];
  protocol_name = [];
  will_payload = [];
  client_identifier = [];
  will_topic = [];
  keepalive = 0;
  password_flag = false;
  username_flag = false;
  will_qos = 0;
  will_flag = false;
  will_retain = false;
  clean = false;
}

abbrev pub filter_only : Bytes → Subscription
filter_only f = record {
  share_name = [];
  filter = f;
  identifier = pos 0;
  identifiers = none;
  retain_handling = 0;
  qos = 0;
  retain_as_published = false;
  no_local = false;
  fwd_retained_flag = false;
}

abbrev pub no_header : FixedHeader
no_header = record { remaining = 0; type = 0; qos = 0; dup = false; retain = false }

abbrev pub no_packet : Packet
no_packet = record {
  connect = no_connect_params;
  properties = no_properties;
  payload = [];
  reason_codes = [];
  filters = [];
  topic_name = [];
  origin = [];
  fixed_header = no_header;
  created = pos 0;
  expiry = pos 0;
  mods = record { max_size = 0; disallow_problem_info = false; allow_response_info = false };
  packet_id = 0;
  protocol_version = 0;
  session_present = false;
  reason_code = 0;
  reserved_bit = 0;
  ignore = false;
}

-- `Connect: ConnectParams{…}` of `Copy`, with the fields that it sets afterwards.
copy_connect : Bool → ConnectParams → ConnectParams
copy_connect allow_transfer c = record {
  will_properties = copy_properties allow_transfer c.will_properties;
  password = c.password;
  username = c.username;
  protocol_name = c.protocol_name;
  will_payload = c.will_payload;
  client_identifier = c.client_identifier;
  will_topic = c.will_topic;
  keepalive = c.keepalive;
  password_flag = ltb 0 (length c.password);
  username_flag = ltb 0 (length c.username);
  will_qos = c.will_qos;
  will_flag = c.will_flag;
  will_retain = c.will_retain;
  clean = c.clean;
}

unfoldable pub copy_packet : Bool → Packet → Packet
unfolding copy_connect
copy_packet allow_transfer pk = record {
  connect = copy_connect allow_transfer pk.connect;
  properties = copy_properties allow_transfer pk.properties;
  payload = pk.payload;
  reason_codes = pk.reason_codes;
  filters = pk.filters;
  topic_name = pk.topic_name;
  origin = pk.origin;
  fixed_header = record pk.fixed_header { dup = false };
  created = pk.created;
  expiry = pk.expiry;
  mods = record {
    max_size = pk.mods.max_size;
    disallow_problem_info = false;
    allow_response_info = false;
  };
  packet_id = if allow_transfer then pk.packet_id else 0;
  protocol_version = pk.protocol_version;
  session_present = pk.session_present;
  reason_code = pk.reason_code;
  reserved_bit = pk.reserved_bit;
  ignore = false;
}

-- `s.Identifiers`, made from the subscription's own identifier where it is nil.
own_identifiers : Subscription → Map Bytes ℤ
own_identifiers s = elim s.identifiers [ none ↦ (s.filter, s.identifier) ∷ [] | some ids ↦ ids ]

-- `s.Merge(n)`. The map of identifiers is a value here: the source may share it.
unfoldable pub merge : Subscription → Subscription → Subscription
unfolding own_identifiers
merge s n = record s {
  identifiers = some (
      if ltb_ℤ (pos 0) n.identifier
      then insert n.filter n.identifier (own_identifiers s)
      else own_identifiers s);
  qos = if ltb s.qos n.qos then n.qos else s.qos;
  no_local = if n.no_local then true else s.no_local;
}

-- The options byte of a subscription in a subscribe packet.
unfoldable pub encode_options : Subscription → ℕ
encode_options s =
    let flag = bit_or 0 s.qos in
    let flag₁ = if s.no_local then bit_or flag 4 else flag in
    let flag₂ = if s.retain_as_published then bit_or flag₁ 8 else flag₁ in
    bit_or flag₂ (s.retain_handling * 2 ^ 4 % 256)

unfoldable pub decode_options : Subscription → ℕ → Subscription
decode_options s b = record s {
  qos = bit_and b 3;
  no_local = ltb 0 (bit_and 1 (b / 2 ^ 2));
  retain_as_published = ltb 0 (bit_and 1 (b / 2 ^ 3));
  retain_handling = bit_and 3 (b / 2 ^ 4);
}
