-- ===== src/Packets/Properties/Items/RoundTrip.antt =====
-- packets/properties.go: the values that `Encode` can put on the wire, and the round trip.
use mqtt_server.Prelude.{
  ℕ, ◌^◌, ◌≤◌, ◌<◌, ◌≡◌, refl, ap, Bool, true, false, ◌&&◌, List, [], ◌∷◌, ◌++◌, arith, length,
  length-append, IsByte, All, append_assoc,
}
use mqtt_server.Prelude.Int.{ℤ, pos, ltb_ℤ, pos_part}
use mqtt_server.Packets.Codec.{Bytes, encode_length}
use mqtt_server.Packets.Properties.{UserProperty, Properties}
use mqtt_server.Packets.Properties.Valid
use mqtt_server.Packets.Properties.Valid.{can_encode}
use mqtt_server.Packets.Properties.Encode.{when, encode_properties}
use mqtt_server.Packets.Properties.Decode.{read, decode_properties}
use mqtt_server.Packets.Properties.Items
use mqtt_server.Packets.Properties.Items.{
  Item, IsText, IsWritable, identifier, set_items, items_bytes,
}
use mqtt_server.Packets.Properties.Items.Reading.{IsCarried, decode_properties-items}
use mqtt_server.Packets.Properties.Items.Writing.{
  identifier_items, user_items, first_items, second_items, items_of, encode_properties-items,
}
use mqtt_server.Packets.Packet.{Mods}

-- Every field fits its encoding: the numbers their width, the strings and the bytes a length of
-- sixteen bits, the strings being valid, and the subscription identifiers a variable byte integer.
pub record IsSendable (p : Properties) : Type 0 where
  pub payload_format : IsByte p.payload_format
  pub message_expiry_interval : p.message_expiry_interval < 2 ^ 32
  pub content_type : IsText p.content_type
  pub response_topic : IsText p.response_topic
  pub correlation_data : length p.correlation_data < 2 ^ 16
  pub subscription_identifier : All (λ v. pos_part v ≤ 268435455) p.subscription_identifier
  pub session_expiry_interval : p.session_expiry_interval < 2 ^ 32
  pub assigned_client_id : IsText p.assigned_client_id
  pub server_keep_alive : p.server_keep_alive < 2 ^ 16
  pub authentication_method : IsText p.authentication_method
  pub authentication_data : length p.authentication_data < 2 ^ 16
  pub request_problem_info : IsByte p.request_problem_info
  pub will_delay_interval : p.will_delay_interval < 2 ^ 32
  pub request_response_info : IsByte p.request_response_info
  pub response_info : IsText p.response_info
  pub server_reference : IsText p.server_reference
  pub reason_string : IsText p.reason_string
  pub receive_maximum : p.receive_maximum < 2 ^ 16
  pub topic_alias_maximum : p.topic_alias_maximum < 2 ^ 16
  pub topic_alias : p.topic_alias < 2 ^ 16
  pub maximum_qos : IsByte p.maximum_qos
  pub retain_available : IsByte p.retain_available
  pub user : All (λ (u : UserProperty). IsText u.key × IsText u.val) p.user
  pub maximum_packet_size : p.maximum_packet_size < 2 ^ 32
  pub wildcard_sub_available : IsByte p.wildcard_sub_available
  pub sub_id_available : IsByte p.sub_id_available
  pub shared_sub_available : IsByte p.shared_sub_available

All-append : {A : Type 0} (P : A → Type 0) (xs ys : List A) → All P xs → All P ys → All P (xs ++ ys)
All-append P [] ys h k = k
All-append P (x ∷ xs) ys (hx, h) k = (hx, All-append P xs ys h k)

and_first : (a b : Bool) → a && b ≡ true → a ≡ true
and_first true b h = refl
and_first false b h = h

and_second : (a b c : Bool) → a && b && c ≡ true → b ≡ true
and_second a b c h = ground arith

and_first_of_three : (a b c : Bool) → a && b && c ≡ true → a ≡ true
and_first_of_three a b c h = ground arith

and_second_of_four : (a b c d : Bool) → a && b && c && d ≡ true → b ≡ true
and_second_of_four a b c d h = ground arith

module _ (pkt : ℕ) where
  one-IsCarried :
      (c : Bool) (i : Item)
      → (c ≡ true → can_encode pkt (identifier i) ≡ true)
      → IsWritable i
      → All (IsCarried pkt) (when c (i ∷ []))
  one-IsCarried true i h w = (record { allowed = h refl; writable = w }, tt)
  one-IsCarried false i h w = tt

  when-IsCarried :
      (c : Bool) (is : List Item)
      → (c ≡ true → All (IsCarried pkt) is)
      → All (IsCarried pkt) (when c is)
  when-IsCarried true is h = h refl
  when-IsCarried false is h = tt

  identifiers-IsCarried :
      (vs : List ℤ)
      → can_encode pkt Valid.prop_subscription_identifier ≡ true
      → All (λ v. pos_part v ≤ 268435455) vs
      → All (IsCarried pkt) (identifier_items vs)
  unfolding identifier_items identifier IsWritable
  identifiers-IsCarried [] h all = tt
  identifiers-IsCarried (v ∷ vs) h (w, all) =
      All-append (IsCarried pkt)
        (when (ltb_ℤ (pos 0) v) (Items.subscription_identifier (pos_part v) ∷ []))
        (identifier_items vs)
        (one-IsCarried (ltb_ℤ (pos 0) v) (Items.subscription_identifier (pos_part v)) (λ _. h) w)
        (identifiers-IsCarried vs h all)

  users-IsCarried :
      (vs : List UserProperty)
      → can_encode pkt Valid.prop_user ≡ true
      → All (λ (u : UserProperty). IsText u.key × IsText u.val) vs
      → All (IsCarried pkt) (user_items vs)
  unfolding user_items identifier IsWritable
  users-IsCarried [] h all = tt
  users-IsCarried (v ∷ vs) h (w, all) =
      (record { allowed = h; writable = w }, users-IsCarried vs h all)

first-IsCarried :
    (pkt : ℕ) (mods : Mods) (p : Properties)
    → IsSendable p
    → All (IsCarried pkt) (first_items pkt mods p)
unfolding first_items identifier IsWritable
first-IsCarried pkt mods p w =
    search
      (
        All-append, one-IsCarried, when-IsCarried, identifiers-IsCarried, and_first, and_second,
        and_first_of_three, and_second_of_four, w.payload_format, w.message_expiry_interval,
        w.content_type, w.response_topic, w.correlation_data, w.subscription_identifier,
        w.session_expiry_interval, w.assigned_client_id, w.server_keep_alive,
        w.authentication_method, w.authentication_data, w.request_problem_info,
        w.will_delay_interval, w.request_response_info, w.response_info, w.server_reference,
      )
      depth 40 fits 5000

second-IsCarried :
    (pkt : ℕ) (mods : Mods) (n : ℕ) (p : Properties)
    → IsSendable p
    → All (IsCarried pkt) (second_items pkt mods n p)
unfolding second_items identifier IsWritable
second-IsCarried pkt mods n p w =
    search
      (
        All-append, one-IsCarried, when-IsCarried, users-IsCarried, and_first, and_second,
        and_first_of_three, and_second_of_four, w.reason_string, w.receive_maximum,
        w.topic_alias_maximum, w.topic_alias, w.maximum_qos, w.retain_available, w.user,
        w.maximum_packet_size, w.wildcard_sub_available, w.sub_id_available, w.shared_sub_available,
      )
      depth 40 fits 5000

items-IsCarried :
    (pkt : ℕ) (mods : Mods) (n : ℕ) (p : Properties)
    → IsSendable p
    → All (IsCarried pkt) (items_of pkt mods n p)
unfolding items_of
items-IsCarried pkt mods n p w =
    All-append (IsCarried pkt) (first_items pkt mods p) (second_items pkt mods n p)
      (first-IsCarried pkt mods p w) (second-IsCarried pkt mods n p w)

-- `Decode` of what `Encode` wrote for a struct that can be sent, as long as that is at most 268435455
-- bytes, sets the items that `Encode` chose, and reports as many bytes as were written.
pub decode_properties-encode_properties :
    (pkt : ℕ) (mods : Mods) (n : ℕ) (p q : Properties) (rest : Bytes)
    → IsSendable p
    → length (items_bytes (items_of pkt mods n p)) ≤ 268435455
    → decode_properties pkt (encode_properties pkt mods n p ++ rest) q
      ≡ read (set_items (items_of pkt mods n p) q, length (encode_properties pkt mods n p))
decode_properties-encode_properties pkt mods n p q rest w h =
    let is : List Item = items_of pkt mods n p in
    rw
      (
        encode_properties-items pkt mods n p,
        append_assoc (encode_length (length (items_bytes is))) (items_bytes is) rest,
        decode_properties-items pkt is rest q (items-IsCarried pkt mods n p w) h,
        length-append (encode_length (length (items_bytes is))) (items_bytes is),
      )
      (ap (λ k. read (set_items is q, k)) (omega arith))
