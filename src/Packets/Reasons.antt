-- ===== src/Packets/Reasons.antt =====
-- packets/packets.go: which reason codes an acknowledgement may carry.
use mqtt_server.Prelude.{ℕ, Bool, true, false, ◌||◌, List, [], ◌∷◌, ◌==◌, if◌then◌else◌}
use mqtt_server.Packets.Codes
use mqtt_server.Packets.Codes.{Code, code_byte}
use mqtt_server.Packets.Types
use mqtt_server.Packets.Packet.{Packet}

-- `bytes.Contains(codes, []byte{code})`
contains_code : List Code → ℕ → Bool
contains_code [] code = false
contains_code (c ∷ cs) code = code_byte c == code || contains_code cs code

unfoldable pub reason_code_valid : Packet → Bool
unfolding contains_code
reason_code_valid pk =
    let type = pk.fixed_header.type in
    if type == Types.pubrec
    then contains_code
        (Codes.code_success ∷ Codes.code_no_matching_subscribers ∷ Codes.err_unspecified_error
          ∷ Codes.err_implementation_specific_error ∷ Codes.err_not_authorized
          ∷ Codes.err_topic_name_invalid ∷ Codes.err_packet_identifier_in_use
          ∷ Codes.err_quota_exceeded ∷ Codes.err_payload_format_invalid ∷ [])
        pk.reason_code
    else if type == Types.pubrel || type == Types.pubcomp
    then contains_code (Codes.code_success ∷ Codes.err_packet_identifier_not_found ∷ [])
        pk.reason_code
    else if type == Types.suback
    then contains_code
        (Codes.code_granted_qos0 ∷ Codes.code_granted_qos1 ∷ Codes.code_granted_qos2
          ∷ Codes.err_unspecified_error ∷ Codes.err_implementation_specific_error
          ∷ Codes.err_not_authorized ∷ Codes.err_topic_filter_invalid
          ∷ Codes.err_packet_identifier_in_use ∷ Codes.err_quota_exceeded
          ∷ Codes.err_shared_subscriptions_not_supported
          ∷ Codes.err_subscription_identifiers_not_supported
          ∷ Codes.err_wildcard_subscriptions_not_supported ∷ [])
        pk.reason_code
    else if type == Types.unsuback
    then contains_code
        (Codes.code_success ∷ Codes.code_no_subscription_existed ∷ Codes.err_unspecified_error
          ∷ Codes.err_implementation_specific_error ∷ Codes.err_not_authorized
          ∷ Codes.err_topic_filter_invalid ∷ Codes.err_packet_identifier_in_use ∷ [])
        pk.reason_code
    else true
