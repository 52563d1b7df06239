-- ===== src/Packets/Codes.antt =====
-- packets/codes.go: the reason codes that operations return, one constructor for each variable of
-- that file, with the byte that goes on the wire.
use mqtt_server.Prelude.{ℕ}

pub data Code : Type 0 where
  code_success_ignore code_success code_disconnect code_granted_qos0 code_granted_qos1 : Code
  code_granted_qos2 code_disconnect_will_message code_no_matching_subscribers : Code
  code_no_subscription_existed code_continue_authentication code_re_authenticate : Code
  err_unspecified_error err_malformed_packet err_malformed_protocol_name : Code
  err_malformed_protocol_version err_malformed_flags err_malformed_keepalive : Code
  err_malformed_packet_id err_malformed_topic err_malformed_will_topic : Code
  err_malformed_will_payload err_malformed_username err_malformed_password : Code
  err_malformed_qos err_malformed_offset_uint_out_of_range : Code
  err_malformed_offset_bytes_out_of_range err_malformed_offset_byte_out_of_range : Code
  err_malformed_offset_bool_out_of_range err_malformed_invalid_utf8 : Code
  err_malformed_variable_byte_integer err_malformed_bad_property err_malformed_properties : Code
  err_malformed_will_properties err_malformed_session_present err_malformed_reason_code : Code
  err_protocol_violation err_protocol_violation_protocol_name : Code
  err_protocol_violation_protocol_version err_protocol_violation_reserved_bit : Code
  err_protocol_violation_flag_no_username err_protocol_violation_flag_no_password : Code
  err_protocol_violation_username_no_flag err_protocol_violation_password_no_flag : Code
  err_protocol_violation_password_too_long err_protocol_violation_username_too_long : Code
  err_protocol_violation_no_packet_id err_protocol_violation_surplus_packet_id : Code
  err_protocol_violation_qos_out_of_range err_protocol_violation_second_connect : Code
  err_protocol_violation_zero_non_zero_expiry err_protocol_violation_require_first_connect : Code
  err_protocol_violation_will_flag_no_payload : Code
  err_protocol_violation_will_flag_surplus_retain err_protocol_violation_surplus_wildcard : Code
  err_protocol_violation_surplus_sub_id err_protocol_violation_invalid_topic : Code
  err_protocol_violation_invalid_shared_no_local err_protocol_violation_no_filters : Code
  err_protocol_violation_invalid_reason err_protocol_violation_oversize_sub_id : Code
  err_protocol_violation_dup_no_qos err_protocol_violation_unsupported_property : Code
  err_protocol_violation_no_topic err_implementation_specific_error err_reject_packet : Code
  err_unsupported_protocol_version err_client_identifier_not_valid : Code
  err_client_identifier_too_long err_bad_username_or_password err_not_authorized : Code
  err_server_unavailable err_server_busy err_banned err_server_shutting_down : Code
  err_bad_authentication_method err_keep_alive_timeout err_session_taken_over : Code
  err_topic_filter_invalid err_topic_name_invalid err_packet_identifier_in_use : Code
  err_packet_identifier_not_found err_receive_maximum err_topic_alias_invalid : Code
  err_packet_too_large err_message_rate_too_high err_quota_exceeded : Code
  err_pending_client_writes_exceeded err_administrative_action err_payload_format_invalid : Code
  err_retain_not_supported err_qos_not_supported err_use_another_server err_server_moved : Code
  err_shared_subscriptions_not_supported err_connection_rate_exceeded err_max_connect_time : Code
  err_subscription_identifiers_not_supported err_wildcard_subscriptions_not_supported : Code
  err_inline_subscription_handler_invalid err3_unsupported_protocol_version : Code
  err3_client_identifier_not_valid err3_server_unavailable : Code
  err_malformed_username_or_password err3_not_authorized : Code

-- The field `Code` of the source's struct.
unfoldable pub code_byte : Code → ℕ
code_byte code_success_ignore = 0x00
code_byte code_success = 0x00
code_byte code_disconnect = 0x00
code_byte code_granted_qos0 = 0x00
code_byte code_granted_qos1 = 0x01
code_byte code_granted_qos2 = 0x02
code_byte code_disconnect_will_message = 0x04
code_byte code_no_matching_subscribers = 0x10
code_byte code_no_subscription_existed = 0x11
code_byte code_continue_authentication = 0x18
code_byte code_re_authenticate = 0x19
code_byte err_unspecified_error = 0x80
code_byte err_malformed_packet = 0x81
code_byte err_malformed_protocol_name = 0x81
code_byte err_malformed_protocol_version = 0x81
code_byte err_malformed_flags = 0x81
code_byte err_malformed_keepalive = 0x81
code_byte err_malformed_packet_id = 0x81
code_byte err_malformed_topic = 0x81
code_byte err_malformed_will_topic = 0x81
code_byte err_malformed_will_payload = 0x81
code_byte err_malformed_username = 0x81
code_byte err_malformed_password = 0x81
code_byte err_malformed_qos = 0x81
code_byte err_malformed_offset_uint_out_of_range = 0x81
code_byte err_malformed_offset_bytes_out_of_range = 0x81
code_byte err_malformed_offset_byte_out_of_range = 0x81
code_byte err_malformed_offset_bool_out_of_range = 0x81
code_byte err_malformed_invalid_utf8 = 0x81
code_byte err_malformed_variable_byte_integer = 0x81
code_byte err_malformed_bad_property = 0x81
code_byte err_malformed_properties = 0x81
code_byte err_malformed_will_properties = 0x81
code_byte err_malformed_session_present = 0x81
code_byte err_malformed_reason_code = 0x81
code_byte err_protocol_violation = 0x82
code_byte err_protocol_violation_protocol_name = 0x82
code_byte err_protocol_violation_protocol_version = 0x82
code_byte err_protocol_violation_reserved_bit = 0x82
code_byte err_protocol_violation_flag_no_username = 0x82
code_byte err_protocol_violation_flag_no_password = 0x82
code_byte err_protocol_violation_username_no_flag = 0x82
code_byte err_protocol_violation_password_no_flag = 0x82
code_byte err_protocol_violation_password_too_long = 0x82
code_byte err_protocol_violation_username_too_long = 0x82
code_byte err_protocol_violation_no_packet_id = 0x82
code_byte err_protocol_violation_surplus_packet_id = 0x82
code_byte err_protocol_violation_qos_out_of_range = 0x82
code_byte err_protocol_violation_second_connect = 0x82
code_byte err_protocol_violation_zero_non_zero_expiry = 0x82
code_byte err_protocol_violation_require_first_connect = 0x82
code_byte err_protocol_violation_will_flag_no_payload = 0x82
code_byte err_protocol_violation_will_flag_surplus_retain = 0x82
code_byte err_protocol_violation_surplus_wildcard = 0x82
code_byte err_protocol_violation_surplus_sub_id = 0x82
code_byte err_protocol_violation_invalid_topic = 0x82
code_byte err_protocol_violation_invalid_shared_no_local = 0x82
code_byte err_protocol_violation_no_filters = 0x82
code_byte err_protocol_violation_invalid_reason = 0x82
code_byte err_protocol_violation_oversize_sub_id = 0x82
code_byte err_protocol_violation_dup_no_qos = 0x82
code_byte err_protocol_violation_unsupported_property = 0x82
code_byte err_protocol_violation_no_topic = 0x82
code_byte err_implementation_specific_error = 0x83
code_byte err_reject_packet = 0x83
code_byte err_unsupported_protocol_version = 0x84
code_byte err_client_identifier_not_valid = 0x85
code_byte err_client_identifier_too_long = 0x85
code_byte err_bad_username_or_password = 0x86
code_byte err_not_authorized = 0x87
code_byte err_server_unavailable = 0x88
code_byte err_server_busy = 0x89
code_byte err_banned = 0x8a
code_byte err_server_shutting_down = 0x8b
code_byte err_bad_authentication_method = 0x8c
code_byte err_keep_alive_timeout = 0x8d
code_byte err_session_taken_over = 0x8e
code_byte err_topic_filter_invalid = 0x8f
code_byte err_topic_name_invalid = 0x90
code_byte err_packet_identifier_in_use = 0x91
code_byte err_packet_identifier_not_found = 0x92
code_byte err_receive_maximum = 0x93
code_byte err_topic_alias_invalid = 0x94
code_byte err_packet_too_large = 0x95
code_byte err_message_rate_too_high = 0x96
code_byte err_quota_exceeded = 0x97
code_byte err_pending_client_writes_exceeded = 0x97
code_byte err_administrative_action = 0x98
code_byte err_payload_format_invalid = 0x99
code_byte err_retain_not_supported = 0x9a
code_byte err_qos_not_supported = 0x9b
code_byte err_use_another_server = 0x9c
code_byte err_server_moved = 0x9d
code_byte err_shared_subscriptions_not_supported = 0x9e
code_byte err_connection_rate_exceeded = 0x9f
code_byte err_max_connect_time = 0xa0
code_byte err_subscription_identifiers_not_supported = 0xa1
code_byte err_wildcard_subscriptions_not_supported = 0xa2
code_byte err_inline_subscription_handler_invalid = 0xa3
code_byte err3_unsupported_protocol_version = 0x01
code_byte err3_client_identifier_not_valid = 0x02
code_byte err3_server_unavailable = 0x03
code_byte err_malformed_username_or_password = 0x04
code_byte err3_not_authorized = 0x05

-- A call of the source that returns a value and an error.
pub data Result {ℓ} (A : Type ℓ) : Type ℓ where
  ok : A → Result A
  err : Code → Result A

infixl 5 ◌>>=◌
abbrev pub ◌>>=◌ {ℓ κ} : {A : Type ℓ} {B : Type κ} → Result A → (A → Result B) → Result B
ok a >>= f = f a
err e >>= f = err e

-- `if err != nil { return c }`: the caller's own error in place of the callee's.
abbrev pub or_code {ℓ} : {A : Type ℓ} → Result A → Code → Result A
or_code (ok a) c = ok a
or_code (err e) c = err c
