-- ===== src/Packets/Properties/Items/Writing.antt =====
-- packets/properties.go: what `Encode` writes is the bytes of a list of items, in its order.
use mqtt_server.Prelude.{
  ℕ, ◌≡◌, refl, sym, ap, ◌∙◌, Bool, true, false, not, ◌&&◌, List, [], ◌∷◌, ◌++◌, ltb, length,
  append_assoc, append-nil,
}
use mqtt_server.Prelude.Int.{ℤ, pos, ltb_ℤ, pos_part}
use mqtt_server.Packets.Codec.{encode_string, encode_length}
use mqtt_server.Packets.Properties.{UserProperty, Properties}
use mqtt_server.Packets.Properties.Valid
use mqtt_server.Packets.Properties.Valid.{can_encode}
use mqtt_server.Packets.Properties.Encode.{
  when, has_wildcard, is_some, encode_identifiers, encode_user, fits, encode_first, encode_second,
  encode_properties,
}
use mqtt_server.Packets.Properties.Items
use mqtt_server.Packets.Properties.Items.{Item, identifier, value_bytes, item_bytes, items_bytes}
use mqtt_server.Packets.Packet.{Mods}

unfoldable pub identifier_items : List ℤ → List Item
identifier_items [] = []
identifier_items (v ∷ vs) =
    when (ltb_ℤ (pos 0) v) (Items.subscription_identifier (pos_part v) ∷ []) ++ identifier_items vs

unfoldable pub user_items : List UserProperty → List Item
user_items [] = []
user_items (v ∷ vs) = Items.user v.key v.val ∷ user_items vs

unfoldable pub first_items : ℕ → Mods → Properties → List Item
first_items pkt mods p =
    when (can_encode pkt Valid.prop_payload_format && p.payload_format_flag)
      (Items.payload_format p.payload_format ∷ [])
    ++ when (can_encode pkt Valid.prop_message_expiry_interval && ltb 0 p.message_expiry_interval)
        (Items.message_expiry_interval p.message_expiry_interval ∷ [])
    ++ when (can_encode pkt Valid.prop_content_type && is_some p.content_type)
        (Items.content_type p.content_type ∷ [])
    ++ when
        (mods.allow_response_info
          && can_encode pkt Valid.prop_response_topic
          && is_some p.response_topic
          && not (has_wildcard p.response_topic))
        (Items.response_topic p.response_topic ∷ [])
    ++ when
        (mods.allow_response_info
          && can_encode pkt Valid.prop_correlation_data
          && is_some p.correlation_data)
        (Items.correlation_data p.correlation_data ∷ [])
    ++ when (can_encode pkt Valid.prop_subscription_identifier)
        (identifier_items p.subscription_identifier)
    ++ when (can_encode pkt Valid.prop_session_expiry_interval && p.session_expiry_interval_flag)
        (Items.session_expiry_interval p.session_expiry_interval ∷ [])
    ++ when (can_encode pkt Valid.prop_assigned_client_id && is_some p.assigned_client_id)
        (Items.assigned_client_id p.assigned_client_id ∷ [])
    ++ when (can_encode pkt Valid.prop_server_keep_alive && p.server_keep_alive_flag)
        (Items.server_keep_alive p.server_keep_alive ∷ [])
    ++ when (can_encode pkt Valid.prop_authentication_method && is_some p.authentication_method)
        (Items.authentication_method p.authentication_method ∷ [])
    ++ when (can_encode pkt Valid.prop_authentication_data && is_some p.authentication_data)
        (Items.authentication_data p.authentication_data ∷ [])
    ++ when (can_encode pkt Valid.prop_request_problem_info && p.request_problem_info_flag)
        (Items.request_problem_info p.request_problem_info ∷ [])
    ++ when (can_encode pkt Valid.prop_will_delay_interval && ltb 0 p.will_delay_interval)
        (Items.will_delay_interval p.will_delay_interval ∷ [])
    ++ when (can_encode pkt Valid.prop_request_response_info && ltb 0 p.request_response_info)
        (Items.request_response_info p.request_response_info ∷ [])
    ++ when
        (mods.allow_response_info
          && can_encode pkt Valid.prop_response_info
          && is_some p.response_info)
        (Items.response_info p.response_info ∷ [])
    ++ when (can_encode pkt Valid.prop_server_reference && is_some p.server_reference)
        (Items.server_reference p.server_reference ∷ [])

unfoldable pub second_items : ℕ → Mods → ℕ → Properties → List Item
second_items pkt mods n p =
    when
      (not mods.disallow_problem_info
        && can_encode pkt Valid.prop_reason_string
        && is_some p.reason_string
        && fits mods n (length (encode_string p.reason_string)))
      (Items.reason_string p.reason_string ∷ [])
    ++ when (can_encode pkt Valid.prop_receive_maximum && ltb 0 p.receive_maximum)
        (Items.receive_maximum p.receive_maximum ∷ [])
    ++ when (can_encode pkt Valid.prop_topic_alias_maximum && ltb 0 p.topic_alias_maximum)
        (Items.topic_alias_maximum p.topic_alias_maximum ∷ [])
    ++ when (can_encode pkt Valid.prop_topic_alias && p.topic_alias_flag && ltb 0 p.topic_alias)
        (Items.topic_alias p.topic_alias ∷ [])
    ++ when (can_encode pkt Valid.prop_maximum_qos && p.maximum_qos_flag && ltb p.maximum_qos 2)
        (Items.maximum_qos p.maximum_qos ∷ [])
    ++ when (can_encode pkt Valid.prop_retain_available && p.retain_available_flag)
        (Items.retain_available p.retain_available ∷ [])
    ++ when
        (not mods.disallow_problem_info
          && can_encode pkt Valid.prop_user
          && fits mods n (length (encode_user p.user)))
        (user_items p.user)
    ++ when (can_encode pkt Valid.prop_maximum_packet_size && ltb 0 p.maximum_packet_size)
        (Items.maximum_packet_size p.maximum_packet_size ∷ [])
    ++ when (can_encode pkt Valid.prop_wildcard_sub_available && p.wildcard_sub_available_flag)
        (Items.wildcard_sub_available p.wildcard_sub_available ∷ [])
    ++ when (can_encode pkt Valid.prop_sub_id_available && p.sub_id_available_flag)
        (Items.sub_id_available p.sub_id_available ∷ [])
    ++ when (can_encode pkt Valid.prop_shared_sub_available && p.shared_sub_available_flag)
        (Items.shared_sub_available p.shared_sub_available ∷ [])

-- The items of a struct for a packet type, in the order in which `Encode` writes them.
unfoldable pub items_of : ℕ → Mods → ℕ → Properties → List Item
items_of pkt mods n p = first_items pkt mods p ++ second_items pkt mods n p

items_bytes-append : (is js : List Item) → items_bytes (is ++ js) ≡ items_bytes is ++ items_bytes js
items_bytes-append [] js = refl
items_bytes-append (i ∷ is) js =
    ap (λ xs. item_bytes i ++ xs) (items_bytes-append is js)
    ∙ sym (append_assoc (item_bytes i) (items_bytes is) (items_bytes js))

items_bytes-when : (c : Bool) (is : List Item) → items_bytes (when c is) ≡ when c (items_bytes is)
items_bytes-when true is = refl
items_bytes-when false is = refl

items_bytes-one : (i : Item) → items_bytes (i ∷ []) ≡ identifier i ∷ value_bytes i
items_bytes-one i = append-nil (item_bytes i)

encode_identifiers-items : (vs : List ℤ) → encode_identifiers vs ≡ items_bytes (identifier_items vs)
unfolding encode_identifiers identifier_items identifier value_bytes
encode_identifiers-items [] = refl
encode_identifiers-items (v ∷ vs) =
    simp (items_bytes-append, items_bytes-when, items_bytes-one, encode_identifiers-items vs) refl

encode_user-items : (vs : List UserProperty) → encode_user vs ≡ items_bytes (user_items vs)
unfolding encode_user user_items identifier value_bytes
encode_user-items [] = refl
encode_user-items (v ∷ vs) =
    ap (λ xs. item_bytes (Items.user v.key v.val) ++ xs) (encode_user-items vs)

ruleset pieces = (
  items_bytes-append, items_bytes-when, items_bytes-one, encode_identifiers-items,
  encode_user-items,
)

encode_first-items :
    (pkt : ℕ) (mods : Mods) (p : Properties)
    → encode_first pkt mods p ≡ items_bytes (first_items pkt mods p)
unfolding encode_first first_items identifier value_bytes
encode_first-items pkt mods p = simp pieces refl

encode_second-items :
    (pkt : ℕ) (mods : Mods) (n : ℕ) (p : Properties)
    → encode_second pkt mods n p ≡ items_bytes (second_items pkt mods n p)
unfolding encode_second second_items identifier value_bytes
encode_second-items pkt mods n p = simp pieces refl

-- `Encode` writes the bytes of the items, with their number in front.
pub encode_properties-items :
    (pkt : ℕ) (mods : Mods) (n : ℕ) (p : Properties)
    → encode_properties pkt mods n p
      ≡ encode_length (length (items_bytes (items_of pkt mods n p)))
        ++ items_bytes (items_of pkt mods n p)
unfolding encode_properties items_of
encode_properties-items pkt mods n p =
    ap (λ xs. encode_length (length xs) ++ xs)
      ((λ i. encode_first-items pkt mods p i ++ encode_second-items pkt mods n p i)
        ∙ sym (items_bytes-append (first_items pkt mods p) (second_items pkt mods n p)))
