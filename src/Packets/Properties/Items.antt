-- ===== src/Packets/Properties/Items.antt =====
-- packets/properties.go: the properties on the wire as a list of items, the abstract view of what
-- `Encode` writes and `Decode` reads, and a `Properties` struct as the items set in it.
pub mod Wire
pub mod Reading
pub mod Writing
pub mod RoundTrip
pub mod Flagged
pub mod Fields
pub mod Arriving
pub mod Refusal
use mqtt_server.Prelude.{
  ℕ, ◌^◌, ◌≤◌, ◌<◌, ◌≡◌, Bool, true, false, List, [], ◌∷◌, ◌++◌, length, IsByte,
}
use mqtt_server.Prelude.Int.{pos}
use mqtt_server.Packets.Codec.{
  Bytes, encode_uint16, encode_uint32, encode_bytes, encode_string, encode_length, valid_utf8,
}
use mqtt_server.Packets.Properties.{Properties}
use mqtt_server.Packets.Properties.Valid

-- One property with its value.
pub data Item : Type 0 where
  payload_format : ℕ → Item
  message_expiry_interval : ℕ → Item
  content_type : Bytes → Item
  response_topic : Bytes → Item
  correlation_data : Bytes → Item
  subscription_identifier : ℕ → Item
  session_expiry_interval : ℕ → Item
  assigned_client_id : Bytes → Item
  server_keep_alive : ℕ → Item
  authentication_method : Bytes → Item
  authentication_data : Bytes → Item
  request_problem_info : ℕ → Item
  will_delay_interval : ℕ → Item
  request_response_info : ℕ → Item
  response_info : Bytes → Item
  server_reference : Bytes → Item
  reason_string : Bytes → Item
  receive_maximum : ℕ → Item
  topic_alias_maximum : ℕ → Item
  topic_alias : ℕ → Item
  maximum_qos : ℕ → Item
  retain_available : ℕ → Item
  user : Bytes → Bytes → Item
  maximum_packet_size : ℕ → Item
  wildcard_sub_available : ℕ → Item
  sub_id_available : ℕ → Item
  shared_sub_available : ℕ → Item

-- The byte that the property begins with.
unfoldable pub identifier : Item → ℕ
identifier (payload_format v) = Valid.prop_payload_format
identifier (message_expiry_interval v) = Valid.prop_message_expiry_interval
identifier (content_type v) = Valid.prop_content_type
identifier (response_topic v) = Valid.prop_response_topic
identifier (correlation_data v) = Valid.prop_correlation_data
identifier (subscription_identifier v) = Valid.prop_subscription_identifier
identifier (session_expiry_interval v) = Valid.prop_session_expiry_interval
identifier (assigned_client_id v) = Valid.prop_assigned_client_id
identifier (server_keep_alive v) = Valid.prop_server_keep_alive
identifier (authentication_method v) = Valid.prop_authentication_method
identifier (authentication_data v) = Valid.prop_authentication_data
identifier (request_problem_info v) = Valid.prop_request_problem_info
identifier (will_delay_interval v) = Valid.prop_will_delay_interval
identifier (request_response_info v) = Valid.prop_request_response_info
identifier (response_info v) = Valid.prop_response_info
identifier (server_reference v) = Valid.prop_server_reference
identifier (reason_string v) = Valid.prop_reason_string
identifier (receive_maximum v) = Valid.prop_receive_maximum
identifier (topic_alias_maximum v) = Valid.prop_topic_alias_maximum
identifier (topic_alias v) = Valid.prop_topic_alias
identifier (maximum_qos v) = Valid.prop_maximum_qos
identifier (retain_available v) = Valid.prop_retain_available
identifier (user key val) = Valid.prop_user
identifier (maximum_packet_size v) = Valid.prop_maximum_packet_size
identifier (wildcard_sub_available v) = Valid.prop_wildcard_sub_available
identifier (sub_id_available v) = Valid.prop_sub_id_available
identifier (shared_sub_available v) = Valid.prop_shared_sub_available

-- The bytes behind the identifier.
unfoldable pub value_bytes : Item → Bytes
value_bytes (payload_format v) = v ∷ []
value_bytes (message_expiry_interval v) = encode_uint32 v
value_bytes (content_type v) = encode_string v
value_bytes (response_topic v) = encode_string v
value_bytes (correlation_data v) = encode_bytes v
value_bytes (subscription_identifier v) = encode_length v
value_bytes (session_expiry_interval v) = encode_uint32 v
value_bytes (assigned_client_id v) = encode_string v
value_bytes (server_keep_alive v) = encode_uint16 v
value_bytes (authentication_method v) = encode_string v
value_bytes (authentication_data v) = encode_bytes v
value_bytes (request_problem_info v) = v ∷ []
value_bytes (will_delay_interval v) = encode_uint32 v
value_bytes (request_response_info v) = v ∷ []
value_bytes (response_info v) = encode_string v
value_bytes (server_reference v) = encode_string v
value_bytes (reason_string v) = encode_string v
value_bytes (receive_maximum v) = encode_uint16 v
value_bytes (topic_alias_maximum v) = encode_uint16 v
value_bytes (topic_alias v) = encode_uint16 v
value_bytes (maximum_qos v) = v ∷ []
value_bytes (retain_available v) = v ∷ []
value_bytes (user key val) = encode_string key ++ encode_string val
value_bytes (maximum_packet_size v) = encode_uint32 v
value_bytes (wildcard_sub_available v) = v ∷ []
value_bytes (sub_id_available v) = v ∷ []
value_bytes (shared_sub_available v) = v ∷ []

-- A string that goes over the wire as it is.
abbrev pub IsText : Bytes → Type 0
IsText s = (length s < 2 ^ 16) × (valid_utf8 s ≡ true)

-- The value fits its encoding.
unfoldable pub IsWritable : Item → Type 0
IsWritable (payload_format v) = IsByte v
IsWritable (message_expiry_interval v) = v < 2 ^ 32
IsWritable (content_type v) = IsText v
IsWritable (response_topic v) = IsText v
IsWritable (correlation_data v) = length v < 2 ^ 16
IsWritable (subscription_identifier v) = v ≤ 268435455
IsWritable (session_expiry_interval v) = v < 2 ^ 32
IsWritable (assigned_client_id v) = IsText v
IsWritable (server_keep_alive v) = v < 2 ^ 16
IsWritable (authentication_method v) = IsText v
IsWritable (authentication_data v) = length v < 2 ^ 16
IsWritable (request_problem_info v) = IsByte v
IsWritable (will_delay_interval v) = v < 2 ^ 32
IsWritable (request_response_info v) = IsByte v
IsWritable (response_info v) = IsText v
IsWritable (server_reference v) = IsText v
IsWritable (reason_string v) = IsText v
IsWritable (receive_maximum v) = v < 2 ^ 16
IsWritable (topic_alias_maximum v) = v < 2 ^ 16
IsWritable (topic_alias v) = v < 2 ^ 16
IsWritable (maximum_qos v) = IsByte v
IsWritable (retain_available v) = IsByte v
IsWritable (user key val) = IsText key × IsText val
IsWritable (maximum_packet_size v) = v < 2 ^ 32
IsWritable (wildcard_sub_available v) = IsByte v
IsWritable (sub_id_available v) = IsByte v
IsWritable (shared_sub_available v) = IsByte v

-- The struct with the item set.
unfoldable pub set_item : Item → Properties → Properties
set_item (payload_format v) p = record p { payload_format = v; payload_format_flag = true }
set_item (message_expiry_interval v) p = record p { message_expiry_interval = v }
set_item (content_type v) p = record p { content_type = v }
set_item (response_topic v) p = record p { response_topic = v }
set_item (correlation_data v) p = record p { correlation_data = v }
set_item (subscription_identifier v) p = record p {
  subscription_identifier = p.subscription_identifier ++ (pos v ∷ []);
}
set_item (session_expiry_interval v) p = record p {
  session_expiry_interval = v;
  session_expiry_interval_flag = true;
}
set_item (assigned_client_id v) p = record p { assigned_client_id = v }
set_item (server_keep_alive v) p = record p { server_keep_alive = v; server_keep_alive_flag = true }
set_item (authentication_method v) p = record p { authentication_method = v }
set_item (authentication_data v) p = record p { authentication_data = v }
set_item (request_problem_info v) p = record p {
  request_problem_info = v;
  request_problem_info_flag = true;
}
set_item (will_delay_interval v) p = record p { will_delay_interval = v }
set_item (request_response_info v) p = record p { request_response_info = v }
set_item (response_info v) p = record p { response_info = v }
set_item (server_reference v) p = record p { server_reference = v }
set_item (reason_string v) p = record p { reason_string = v }
set_item (receive_maximum v) p = record p { receive_maximum = v }
set_item (topic_alias_maximum v) p = record p { topic_alias_maximum = v }
set_item (topic_alias v) p = record p { topic_alias = v; topic_alias_flag = true }
set_item (maximum_qos v) p = record p { maximum_qos = v; maximum_qos_flag = true }
set_item (retain_available v) p = record p { retain_available = v; retain_available_flag = true }
set_item (user key val) p = record p { user = p.user ++ (record { key = key; val = val } ∷ []) }
set_item (maximum_packet_size v) p = record p { maximum_packet_size = v }
set_item (wildcard_sub_available v) p = record p {
  wildcard_sub_available = v;
  wildcard_sub_available_flag = true;
}
set_item (sub_id_available v) p = record p { sub_id_available = v; sub_id_available_flag = true }
set_item (shared_sub_available v) p = record p {
  shared_sub_available = v;
  shared_sub_available_flag = true;
}

abbrev pub set_items : List Item → Properties → Properties
set_items [] p = p
set_items (i ∷ is) p = set_items is (set_item i p)

abbrev pub item_bytes : Item → Bytes
item_bytes i = identifier i ∷ value_bytes i

abbrev pub items_bytes : List Item → Bytes
items_bytes [] = []
items_bytes (i ∷ is) = item_bytes i ++ items_bytes is
