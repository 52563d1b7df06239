-- ===== src/Packets/Properties/Valid.antt =====
-- packets/properties.go: the identifiers of the properties, and which packets may carry which.
use mqtt_server.Prelude.{ℕ, Bool, false, ◌||◌, List, [], ◌∷◌, ◌==◌, if◌then◌else◌}
use mqtt_server.Packets.Types.{
  connect, connack, publish, puback, pubrec, pubrel, pubcomp, subscribe, suback, unsubscribe,
  unsuback, disconnect, auth, will_properties,
}

abbrev pub prop_payload_format : ℕ
prop_payload_format = 1

abbrev pub prop_message_expiry_interval : ℕ
prop_message_expiry_interval = 2

abbrev pub prop_content_type : ℕ
prop_content_type = 3

abbrev pub prop_response_topic : ℕ
prop_response_topic = 8

abbrev pub prop_correlation_data : ℕ
prop_correlation_data = 9

abbrev pub prop_subscription_identifier : ℕ
prop_subscription_identifier = 11

abbrev pub prop_session_expiry_interval : ℕ
prop_session_expiry_interval = 17

abbrev pub prop_assigned_client_id : ℕ
prop_assigned_client_id = 18

abbrev pub prop_server_keep_alive : ℕ
prop_server_keep_alive = 19

abbrev pub prop_authentication_method : ℕ
prop_authentication_method = 21

abbrev pub prop_authentication_data : ℕ
prop_authentication_data = 22

abbrev pub prop_request_problem_info : ℕ
prop_request_problem_info = 23

abbrev pub prop_will_delay_interval : ℕ
prop_will_delay_interval = 24

abbrev pub prop_request_response_info : ℕ
prop_request_response_info = 25

abbrev pub prop_response_info : ℕ
prop_response_info = 26

abbrev pub prop_server_reference : ℕ
prop_server_reference = 28

abbrev pub prop_reason_string : ℕ
prop_reason_string = 31

abbrev pub prop_receive_maximum : ℕ
prop_receive_maximum = 33

abbrev pub prop_topic_alias_maximum : ℕ
prop_topic_alias_maximum = 34

abbrev pub prop_topic_alias : ℕ
prop_topic_alias = 35

abbrev pub prop_maximum_qos : ℕ
prop_maximum_qos = 36

abbrev pub prop_retain_available : ℕ
prop_retain_available = 37

abbrev pub prop_user : ℕ
prop_user = 38

abbrev pub prop_maximum_packet_size : ℕ
prop_maximum_packet_size = 39

abbrev pub prop_wildcard_sub_available : ℕ
prop_wildcard_sub_available = 40

abbrev pub prop_sub_id_available : ℕ
prop_sub_id_available = 41

abbrev pub prop_shared_sub_available : ℕ
prop_shared_sub_available = 42

-- `validPacketProperties[k]`: the packet types of the entry, none for a key that is missing.
unfoldable pub packets_of : ℕ → List ℕ
packets_of k =
    if k == prop_payload_format
    then publish ∷ will_properties ∷ []
    else if k == prop_message_expiry_interval
    then publish ∷ will_properties ∷ []
    else if k == prop_content_type
    then publish ∷ will_properties ∷ []
    else if k == prop_response_topic
    then publish ∷ will_properties ∷ []
    else if k == prop_correlation_data
    then publish ∷ will_properties ∷ []
    else if k == prop_subscription_identifier
    then publish ∷ subscribe ∷ []
    else if k == prop_session_expiry_interval
    then connect ∷ connack ∷ disconnect ∷ []
    else if k == prop_assigned_client_id
    then connack ∷ []
    else if k == prop_server_keep_alive
    then connack ∷ []
    else if k == prop_authentication_method
    then connect ∷ connack ∷ auth ∷ []
    else if k == prop_authentication_data
    then connect ∷ connack ∷ auth ∷ []
    else if k == prop_request_problem_info
    then connect ∷ []
    else if k == prop_will_delay_interval
    then will_properties ∷ []
    else if k == prop_request_response_info
    then connect ∷ []
    else if k == prop_response_info
    then connack ∷ []
    else if k == prop_server_reference
    then connack ∷ disconnect ∷ []
    else if k == prop_reason_string
    then connack ∷ puback ∷ pubrec ∷ pubrel ∷ pubcomp ∷ suback ∷ unsuback ∷ disconnect ∷ auth ∷ []
    else if k == prop_receive_maximum
    then connect ∷ connack ∷ []
    else if k == prop_topic_alias_maximum
    then connect ∷ connack ∷ []
    else if k == prop_topic_alias
    then publish ∷ []
    else if k == prop_maximum_qos
    then connack ∷ []
    else if k == prop_retain_available
    then connack ∷ []
    else if k == prop_user
    then connect ∷ connack ∷ publish ∷ puback ∷ pubrec ∷ pubrel ∷ pubcomp ∷ subscribe ∷ suback
      ∷ unsubscribe ∷ unsuback ∷ disconnect ∷ auth ∷ will_properties ∷ []
    else if k == prop_maximum_packet_size
    then connect ∷ connack ∷ []
    else if k == prop_wildcard_sub_available
    then connack ∷ []
    else if k == prop_sub_id_available
    then connack ∷ []
    else if k == prop_shared_sub_available
    then connack ∷ []
    else []

unfoldable pub contains_type : ℕ → List ℕ → Bool
contains_type x [] = false
contains_type x (y ∷ ys) = x == y || contains_type x ys

-- `validPacketProperties[k][pkt]` is there: every value of the inner maps is 1.
unfoldable pub can_encode : ℕ → ℕ → Bool
unfolding contains_type packets_of
can_encode pkt k = contains_type pkt (packets_of k)
