-- ===== src/Packets/Properties.antt =====
-- packets/properties.go: the properties of an MQTT 5 packet and their copy. A string or a slice that
-- is nil is an empty list; uint32, uint16 and byte fields are numbers, an int is an integer.
pub mod Valid
pub mod Encode
pub mod Decode
pub mod Items
pub mod Tests
use mqtt_server.Prelude.{ℕ, Bool, false, List, [], if◌then◌else◌}
use mqtt_server.Prelude.Int.{ℤ}
use mqtt_server.Packets.Codec.{Bytes}

pub record UserProperty : Type 0 where
  pub key : Bytes
  pub val : Bytes

pub record Properties : Type 0 where
  pub correlation_data : Bytes
  pub subscription_identifier : List ℤ
  pub authentication_data : Bytes
  pub user : List UserProperty
  pub content_type : Bytes
  pub response_topic : Bytes
  pub assigned_client_id : Bytes
  pub authentication_method : Bytes
  pub response_info : Bytes
  pub server_reference : Bytes
  pub reason_string : Bytes
  pub message_expiry_interval : ℕ
  pub session_expiry_interval : ℕ
  pub will_delay_interval : ℕ
  pub maximum_packet_size : ℕ
  pub server_keep_alive : ℕ
  pub receive_maximum : ℕ
  pub topic_alias_maximum : ℕ
  pub topic_alias : ℕ
  pub payload_format : ℕ
  pub payload_format_flag : Bool
  pub session_expiry_interval_flag : Bool
  pub server_keep_alive_flag : Bool
  pub request_problem_info : ℕ
  pub request_problem_info_flag : Bool
  pub request_response_info : ℕ
  pub topic_alias_flag : Bool
  pub maximum_qos : ℕ
  pub maximum_qos_flag : Bool
  pub retain_available : ℕ
  pub retain_available_flag : Bool
  pub wildcard_sub_available : ℕ
  pub wildcard_sub_available_flag : Bool
  pub sub_id_available : ℕ
  pub sub_id_available_flag : Bool
  pub shared_sub_available : ℕ
  pub shared_sub_available_flag : Bool

-- `Properties{}`
abbrev pub no_properties : Properties
no_properties = record {
  correlation_data = [];
  subscription_identifier = [];
  authentication_data = [];
  user = [];
  content_type = [];
  response_topic = [];
  assigned_client_id = [];
  authentication_method = [];
  response_info = [];
  server_reference = [];
  reason_string = [];
  message_expiry_interval = 0;
  session_expiry_interval = 0;
  will_delay_interval = 0;
  maximum_packet_size = 0;
  server_keep_alive = 0;
  receive_maximum = 0;
  topic_alias_maximum = 0;
  topic_alias = 0;
  payload_format = 0;
  payload_format_flag = false;
  session_expiry_interval_flag = false;
  server_keep_alive_flag = false;
  request_problem_info = 0;
  request_problem_info_flag = false;
  request_response_info = 0;
  topic_alias_flag = false;
  maximum_qos = 0;
  maximum_qos_flag = false;
  retain_available = 0;
  retain_available_flag = false;
  wildcard_sub_available = 0;
  wildcard_sub_available_flag = false;
  sub_id_available = 0;
  sub_id_available_flag = false;
  shared_sub_available = 0;
  shared_sub_available_flag = false;
}

-- A slice is copied if it is not empty, which as a list of values is the list itself.
unfoldable pub copy_properties : Bool → Properties → Properties
copy_properties allow_transfer p = record {
  correlation_data = p.correlation_data;
  subscription_identifier = p.subscription_identifier;
  authentication_data = p.authentication_data;
  user = p.user;
  content_type = p.content_type;
  response_topic = p.response_topic;
  assigned_client_id = p.assigned_client_id;
  authentication_method = p.authentication_method;
  response_info = p.response_info;
  server_reference = p.server_reference;
  reason_string = p.reason_string;
  message_expiry_interval = p.message_expiry_interval;
  session_expiry_interval = p.session_expiry_interval;
  will_delay_interval = p.will_delay_interval;
  maximum_packet_size = p.maximum_packet_size;
  server_keep_alive = p.server_keep_alive;
  receive_maximum = p.receive_maximum;
  topic_alias_maximum = p.topic_alias_maximum;
  topic_alias = if allow_transfer then p.topic_alias else 0;
  payload_format = p.payload_format;
  payload_format_flag = p.payload_format_flag;
  session_expiry_interval_flag = p.session_expiry_interval_flag;
  server_keep_alive_flag = p.server_keep_alive_flag;
  request_problem_info = p.request_problem_info;
  request_problem_info_flag = p.request_problem_info_flag;
  request_response_info = p.request_response_info;
  topic_alias_flag = if allow_transfer then p.topic_alias_flag else false;
  maximum_qos = p.maximum_qos;
  maximum_qos_flag = p.maximum_qos_flag;
  retain_available = p.retain_available;
  retain_available_flag = p.retain_available_flag;
  wildcard_sub_available = p.wildcard_sub_available;
  wildcard_sub_available_flag = p.wildcard_sub_available_flag;
  sub_id_available = p.sub_id_available;
  sub_id_available_flag = p.sub_id_available_flag;
  shared_sub_available = p.shared_sub_available;
  shared_sub_available_flag = p.shared_sub_available_flag;
}
