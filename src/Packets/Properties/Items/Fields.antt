-- ===== src/Packets/Properties/Items/Fields.antt =====
-- packets/properties.go: what Decode does to a struct for each item that may stand in the bytes.
use mqtt_server.Prelude.{
  ℕ, ◌≡◌, refl, Bool, true, false, List, [], ◌∷◌, ◌++◌, if◌then◌else◌, append_assoc, append-nil,
}
use mqtt_server.Prelude.Int.{ℤ, pos, ltb_ℤ, pos_part}
use mqtt_server.Packets.Codec.{Bytes}
use mqtt_server.Packets.Properties.{UserProperty, Properties}
use mqtt_server.Packets.Properties.Encode.{when}
use mqtt_server.Packets.Properties.Items
use mqtt_server.Packets.Properties.Items.{Item, set_item, set_items, items_bytes}
use mqtt_server.Packets.Properties.Items.Writing.{identifier_items, user_items}
use mqtt_server.Packets.Properties.Items.Flagged.{
  set_payload_format, set_session_expiry_interval, set_server_keep_alive, set_request_problem_info,
  set_topic_alias, set_maximum_qos, set_retain_available, set_wildcard_sub_available,
  set_sub_id_available, set_shared_sub_available,
}

-- The identifiers that are above zero.
unfoldable pub positive : List ℤ → List ℤ
positive [] = []
positive (v ∷ vs) = when (ltb_ℤ (pos 0) v) (pos (pos_part v) ∷ []) ++ positive vs

pub set_items-append :
    (is js : List Item) (q : Properties) → set_items (is ++ js) q ≡ set_items js (set_items is q)
set_items-append [] js q = refl
set_items-append (i ∷ is) js q = set_items-append is js (set_item i q)

pub set_message_expiry_interval :
    (c : Bool) (v : ℕ) (q : Properties)
    → set_items (when c (Items.message_expiry_interval v ∷ [])) q
      ≡ record q { message_expiry_interval = if c then v else q.message_expiry_interval }
unfolding set_item
set_message_expiry_interval true v q = refl
set_message_expiry_interval false v q = refl

pub set_content_type :
    (c : Bool) (v : Bytes) (q : Properties)
    → set_items (when c (Items.content_type v ∷ [])) q
      ≡ record q { content_type = if c then v else q.content_type }
unfolding set_item
set_content_type true v q = refl
set_content_type false v q = refl

pub set_response_topic :
    (c : Bool) (v : Bytes) (q : Properties)
    → set_items (when c (Items.response_topic v ∷ [])) q
      ≡ record q { response_topic = if c then v else q.response_topic }
unfolding set_item
set_response_topic true v q = refl
set_response_topic false v q = refl

pub set_correlation_data :
    (c : Bool) (v : Bytes) (q : Properties)
    → set_items (when c (Items.correlation_data v ∷ [])) q
      ≡ record q { correlation_data = if c then v else q.correlation_data }
unfolding set_item
set_correlation_data true v q = refl
set_correlation_data false v q = refl

pub set_assigned_client_id :
    (c : Bool) (v : Bytes) (q : Properties)
    → set_items (when c (Items.assigned_client_id v ∷ [])) q
      ≡ record q { assigned_client_id = if c then v else q.assigned_client_id }
unfolding set_item
set_assigned_client_id true v q = refl
set_assigned_client_id false v q = refl

pub set_authentication_method :
    (c : Bool) (v : Bytes) (q : Properties)
    → set_items (when c (Items.authentication_method v ∷ [])) q
      ≡ record q { authentication_method = if c then v else q.authentication_method }
unfolding set_item
set_authentication_method true v q = refl
set_authentication_method false v q = refl

pub set_authentication_data :
    (c : Bool) (v : Bytes) (q : Properties)
    → set_items (when c (Items.authentication_data v ∷ [])) q
      ≡ record q { authentication_data = if c then v else q.authentication_data }
unfolding set_item
set_authentication_data true v q = refl
set_authentication_data false v q = refl

pub set_will_delay_interval :
    (c : Bool) (v : ℕ) (q : Properties)
    → set_items (when c (Items.will_delay_interval v ∷ [])) q
      ≡ record q { will_delay_interval = if c then v else q.will_delay_interval }
unfolding set_item
set_will_delay_interval true v q = refl
set_will_delay_interval false v q = refl

pub set_request_response_info :
    (c : Bool) (v : ℕ) (q : Properties)
    → set_items (when c (Items.request_response_info v ∷ [])) q
      ≡ record q { request_response_info = if c then v else q.request_response_info }
unfolding set_item
set_request_response_info true v q = refl
set_request_response_info false v q = refl

pub set_response_info :
    (c : Bool) (v : Bytes) (q : Properties)
    → set_items (when c (Items.response_info v ∷ [])) q
      ≡ record q { response_info = if c then v else q.response_info }
unfolding set_item
set_response_info true v q = refl
set_response_info false v q = refl

pub set_server_reference :
    (c : Bool) (v : Bytes) (q : Properties)
    → set_items (when c (Items.server_reference v ∷ [])) q
      ≡ record q { server_reference = if c then v else q.server_reference }
unfolding set_item
set_server_reference true v q = refl
set_server_reference false v q = refl

pub set_reason_string :
    (c : Bool) (v : Bytes) (q : Properties)
    → set_items (when c (Items.reason_string v ∷ [])) q
      ≡ record q { reason_string = if c then v else q.reason_string }
unfolding set_item
set_reason_string true v q = refl
set_reason_string false v q = refl

pub set_receive_maximum :
    (c : Bool) (v : ℕ) (q : Properties)
    → set_items (when c (Items.receive_maximum v ∷ [])) q
      ≡ record q { receive_maximum = if c then v else q.receive_maximum }
unfolding set_item
set_receive_maximum true v q = refl
set_receive_maximum false v q = refl

pub set_topic_alias_maximum :
    (c : Bool) (v : ℕ) (q : Properties)
    → set_items (when c (Items.topic_alias_maximum v ∷ [])) q
      ≡ record q { topic_alias_maximum = if c then v else q.topic_alias_maximum }
unfolding set_item
set_topic_alias_maximum true v q = refl
set_topic_alias_maximum false v q = refl

pub set_maximum_packet_size :
    (c : Bool) (v : ℕ) (q : Properties)
    → set_items (when c (Items.maximum_packet_size v ∷ [])) q
      ≡ record q { maximum_packet_size = if c then v else q.maximum_packet_size }
unfolding set_item
set_maximum_packet_size true v q = refl
set_maximum_packet_size false v q = refl

pub set_identifier :
    (c : Bool) (v : ℕ) (q : Properties)
    → set_items (when c (Items.subscription_identifier v ∷ [])) q
      ≡ record q { subscription_identifier = q.subscription_identifier ++ when c (pos v ∷ []) }
unfolding set_item
set_identifier true v q = refl
set_identifier false v q = rw (append-nil q.subscription_identifier) refl

pub set_identifiers :
    (vs : List ℤ) (q : Properties)
    → set_items (identifier_items vs) q
      ≡ record q { subscription_identifier = q.subscription_identifier ++ positive vs }
unfolding identifier_items positive
set_identifiers [] q = rw (append-nil q.subscription_identifier) refl
set_identifiers (v ∷ vs) q =
    simp (set_items-append, set_identifier, set_identifiers vs, append_assoc) refl

pub set_users :
    (vs : List UserProperty) (q : Properties)
    → set_items (user_items vs) q ≡ record q { user = q.user ++ vs }
unfolding set_item user_items
set_users [] q = rw (append-nil q.user) refl
set_users (v ∷ vs) q = simp (set_users vs, append_assoc) refl

pub set_identifiers_when :
    (c : Bool) (vs : List ℤ) (q : Properties)
    → set_items (when c (identifier_items vs)) q
      ≡ record q { subscription_identifier = q.subscription_identifier ++ when c (positive vs) }
set_identifiers_when true vs q = set_identifiers vs q
set_identifiers_when false vs q = rw (append-nil q.subscription_identifier) refl

pub set_users_when :
    (c : Bool) (vs : List UserProperty) (q : Properties)
    → set_items (when c (user_items vs)) q ≡ record q { user = q.user ++ when c vs }
set_users_when true vs q = set_users vs q
set_users_when false vs q = rw (append-nil q.user) refl

pub ruleset fields = (
  set_items-append, set_payload_format, set_message_expiry_interval, set_content_type,
  set_response_topic, set_correlation_data, set_session_expiry_interval, set_assigned_client_id,
  set_server_keep_alive, set_authentication_method, set_authentication_data,
  set_request_problem_info, set_will_delay_interval, set_request_response_info, set_response_info,
  set_server_reference, set_reason_string, set_receive_maximum, set_topic_alias_maximum,
  set_topic_alias, set_maximum_qos, set_retain_available, set_maximum_packet_size,
  set_wildcard_sub_available, set_sub_id_available, set_shared_sub_available, set_identifiers_when,
  set_users_when,
)
