-- ===== src/Packets/Properties/Items/Wire.antt =====
-- packets/properties.go: `Decode` reads one property that stands in a buffer as `Encode` writes it.
use mqtt_server.Prelude.{
  ℕ, suc, ◌+◌, ◌≤◌, ◌<◌, ◌^◌, ◌%◌, ◌≡◌, refl, sym, ap, ◌∙◌, true, [], ◌∷◌, ◌++◌, arith, length,
  length-append, drop, append_assoc,
}
use mqtt_server.Packets.Codes.{Result, ok}
use mqtt_server.Packets.Codec.{
  Bytes, decode_uint16, decode_uint32, decode_bytes, decode_string, decode_byte, decode_length,
  decoded, encode_uint16, encode_uint32, encode_bytes, encode_string, encode_length,
}
use mqtt_server.Packets.Codec.VarInt.{decode_length-encode_length}
use mqtt_server.Packets.Codec.RoundTrip.{
  decode_uint16-encode_uint16, decode_uint32-encode_uint32, decode_bytes-encode_bytes,
  decode_string-encode_string, take_all, byte_first, drop_pre,
}
use mqtt_server.Packets.Properties.{Properties}
use mqtt_server.Packets.Properties.Valid
use mqtt_server.Packets.Properties.Valid.{can_encode}
use mqtt_server.Packets.Properties.Decode.{read, read_property, decode_property}
use mqtt_server.Packets.Properties.Items
use mqtt_server.Packets.Properties.Items.{
  Item, IsText, IsWritable, identifier, value_bytes, set_item, item_bytes,
}

-- A field that a decoder reads back wherever it stands.
abbrev pub Reads : {A : Type 0} → (Bytes → ℕ → Result (A × ℕ)) → Bytes → A → Type 0
Reads decode bs v =
    (pre rest : Bytes) → decode (pre ++ (bs ++ rest)) (length pre) ≡ ok (v, length pre + length bs)

pub byte_Reads : (v : ℕ) → Reads decode_byte (v ∷ []) v
unfolding decode_byte
byte_Reads v pre rest = ground (arith, length-append pre (v ∷ rest), byte_first pre (v ∷ rest))

pub uint16_Reads : (v : ℕ) → v < 2 ^ 16 → Reads decode_uint16 (encode_uint16 v) v
unfolding encode_uint16
uint16_Reads v h pre rest = decode_uint16-encode_uint16 pre v rest h

pub uint32_Reads : (v : ℕ) → v < 2 ^ 32 → Reads decode_uint32 (encode_uint32 v) v
unfolding encode_uint32
uint32_Reads v h pre rest = decode_uint32-encode_uint32 pre v rest h

pub length-encode_bytes : (v : Bytes) → length (encode_bytes v) ≡ 2 + length v
unfolding encode_bytes encode_uint16
length-encode_bytes v = omega arith

pub length-encode_string : (v : Bytes) → length (encode_string v) ≡ 2 + length v
unfolding encode_string encode_uint16
length-encode_string v = omega arith

pub bytes_Reads : (v : Bytes) → length v < 2 ^ 16 → Reads decode_bytes (encode_bytes v) v
bytes_Reads v h pre rest = rw (decode_bytes-encode_bytes pre v rest) (
    rw (take_all (length v % 2 ^ 16) v (omega arith), length-encode_bytes v)
      (ap (λ n. ok (v, n)) (omega arith)))

pub string_Reads : (v : Bytes) → IsText v → Reads decode_string (encode_string v) v
string_Reads v (h, valid) pre rest =
    rw (decode_string-encode_string pre v rest h)
      (rw (valid, length-encode_string v) (ap (λ n. ok (v, n)) (omega arith)))

-- The same field behind an identifier.
behind :
    {A : Type 0} (decode : Bytes → ℕ → Result (A × ℕ)) (bs : Bytes) (v : A)
    → Reads decode bs v
    → (pre rest : Bytes) (k : ℕ)
    → decode (pre ++ (k ∷ bs ++ rest)) (length pre + 1) ≡ ok (v, length pre + suc (length bs))
behind decode bs v h pre rest k =
    sym (λ i. decode (append_assoc pre (k ∷ []) (bs ++ rest) i) (size i))
    ∙ h (pre ++ (k ∷ [])) rest
    ∙ ap (λ n. ok (v, n)) (omega (arith, size))
  where
    size : length (pre ++ (k ∷ [])) ≡ length pre + 1
    size = length-append pre (k ∷ [])

-- The same field behind an identifier and another field.
behind_two :
    {A : Type 0} (decode : Bytes → ℕ → Result (A × ℕ)) (bs : Bytes) (v : A)
    → Reads decode bs v
    → (pre first rest : Bytes) (k : ℕ)
    → decode (pre ++ (k ∷ (first ++ bs) ++ rest)) (length pre + suc (length first))
      ≡ ok (v, length pre + suc (length (first ++ bs)))
behind_two decode bs v h pre first rest k =
    sym (λ i. decode (whole i) (size i))
    ∙ h (pre ++ (k ∷ first)) rest
    ∙ ap (λ n. ok (v, n)) (omega (arith, size, length-append first bs))
  where
    size : length (pre ++ (k ∷ first)) ≡ length pre + suc (length first)
    size = length-append pre (k ∷ first)

    whole : (pre ++ (k ∷ first)) ++ (bs ++ rest) ≡ pre ++ (k ∷ (first ++ bs) ++ rest)
    whole =
        append_assoc pre (k ∷ first) (bs ++ rest)
        ∙ ap (λ xs. pre ++ (k ∷ xs)) (sym (append_assoc first bs rest))

identifier_step :
    (pre rest : Bytes) (k v : ℕ)
    → v ≤ 268435455
    → decode_length (drop (length pre + 1) (pre ++ (k ∷ encode_length v ++ rest)))
      ≡ decoded v (length (encode_length v)) rest
identifier_step pre rest k v h =
    rw (drop_pre pre (k ∷ encode_length v ++ rest) 1) (decode_length-encode_length v rest h)

-- The kinds of fields behind an identifier.
module _ (pre rest : Bytes) (k : ℕ) where
  byte_behind :
      (v : ℕ)
      → decode_byte (pre ++ (k ∷ (v ∷ []) ++ rest)) (length pre + 1) ≡ ok (v, length pre + 2)
  byte_behind v = behind decode_byte (v ∷ []) v (byte_Reads v) pre rest k

  uint16_behind :
      (v : ℕ)
      → v < 2 ^ 16
      → decode_uint16 (pre ++ (k ∷ encode_uint16 v ++ rest)) (length pre + 1)
        ≡ ok (v, length pre + suc (length (encode_uint16 v)))
  uint16_behind v h = behind decode_uint16 (encode_uint16 v) v (uint16_Reads v h) pre rest k

  uint32_behind :
      (v : ℕ)
      → v < 2 ^ 32
      → decode_uint32 (pre ++ (k ∷ encode_uint32 v ++ rest)) (length pre + 1)
        ≡ ok (v, length pre + suc (length (encode_uint32 v)))
  uint32_behind v h = behind decode_uint32 (encode_uint32 v) v (uint32_Reads v h) pre rest k

  bytes_behind :
      (v : Bytes)
      → length v < 2 ^ 16
      → decode_bytes (pre ++ (k ∷ encode_bytes v ++ rest)) (length pre + 1)
        ≡ ok (v, length pre + suc (length (encode_bytes v)))
  bytes_behind v h = behind decode_bytes (encode_bytes v) v (bytes_Reads v h) pre rest k

  string_behind :
      (v : Bytes)
      → IsText v
      → decode_string (pre ++ (k ∷ encode_string v ++ rest)) (length pre + 1)
        ≡ ok (v, length pre + suc (length (encode_string v)))
  string_behind v h = behind decode_string (encode_string v) v (string_Reads v h) pre rest k

-- `Decode`'s switch on an item whose identifier was read.
pub read_property-item :
    (i : Item) (pre rest : Bytes) (p : Properties)
    → IsWritable i
    → read_property (identifier i) (pre ++ (item_bytes i ++ rest)) (length pre + 1) p
      ≡ read (set_item i p, length pre + length (item_bytes i))
unfolding read_property identifier value_bytes IsWritable set_item
read_property-item (Items.payload_format v) pre rest p h =
    rw (byte_behind pre rest Valid.prop_payload_format v) refl
read_property-item (Items.message_expiry_interval v) pre rest p h =
    rw (uint32_behind pre rest Valid.prop_message_expiry_interval v h) refl
read_property-item (Items.content_type v) pre rest p h =
    rw (string_behind pre rest Valid.prop_content_type v h) refl
read_property-item (Items.response_topic v) pre rest p h =
    rw (string_behind pre rest Valid.prop_response_topic v h) refl
read_property-item (Items.correlation_data v) pre rest p h =
    rw (bytes_behind pre rest Valid.prop_correlation_data v h) refl
read_property-item (Items.subscription_identifier v) pre rest p h =
    rw (identifier_step pre rest Valid.prop_subscription_identifier v h)
      (ap (λ n. read (set_item (Items.subscription_identifier v) p, n)) (omega arith))
read_property-item (Items.session_expiry_interval v) pre rest p h =
    rw (uint32_behind pre rest Valid.prop_session_expiry_interval v h) refl
read_property-item (Items.assigned_client_id v) pre rest p h =
    rw (string_behind pre rest Valid.prop_assigned_client_id v h) refl
read_property-item (Items.server_keep_alive v) pre rest p h =
    rw (uint16_behind pre rest Valid.prop_server_keep_alive v h) refl
read_property-item (Items.authentication_method v) pre rest p h =
    rw (string_behind pre rest Valid.prop_authentication_method v h) refl
read_property-item (Items.authentication_data v) pre rest p h =
    rw (bytes_behind pre rest Valid.prop_authentication_data v h) refl
read_property-item (Items.request_problem_info v) pre rest p h =
    rw (byte_behind pre rest Valid.prop_request_problem_info v) refl
read_property-item (Items.will_delay_interval v) pre rest p h =
    rw (uint32_behind pre rest Valid.prop_will_delay_interval v h) refl
read_property-item (Items.request_response_info v) pre rest p h =
    rw (byte_behind pre rest Valid.prop_request_response_info v) refl
read_property-item (Items.response_info v) pre rest p h =
    rw (string_behind pre rest Valid.prop_response_info v h) refl
read_property-item (Items.server_reference v) pre rest p h =
    rw (string_behind pre rest Valid.prop_server_reference v h) refl
read_property-item (Items.reason_string v) pre rest p h =
    rw (string_behind pre rest Valid.prop_reason_string v h) refl
read_property-item (Items.receive_maximum v) pre rest p h =
    rw (uint16_behind pre rest Valid.prop_receive_maximum v h) refl
read_property-item (Items.topic_alias_maximum v) pre rest p h =
    rw (uint16_behind pre rest Valid.prop_topic_alias_maximum v h) refl
read_property-item (Items.topic_alias v) pre rest p h =
    rw (uint16_behind pre rest Valid.prop_topic_alias v h) refl
read_property-item (Items.maximum_qos v) pre rest p h =
    rw (byte_behind pre rest Valid.prop_maximum_qos v) refl
read_property-item (Items.retain_available v) pre rest p h =
    rw (byte_behind pre rest Valid.prop_retain_available v) refl
read_property-item (Items.user key val) pre rest p (hk, hv) =
    rw
      (
        first,
        behind_two decode_string (encode_string val) val (string_Reads val hv) pre
            (encode_string key) rest Valid.prop_user,
      )
      refl
  where
    first :
        decode_string
          (pre ++ (Valid.prop_user ∷ (encode_string key ++ encode_string val) ++ rest))
          (length pre + 1)
        ≡ ok (key, length pre + suc (length (encode_string key)))
    first = rw (append_assoc (encode_string key) (encode_string val) rest) (
        behind decode_string (encode_string key) key (string_Reads key hk) pre
          (encode_string val ++ rest) Valid.prop_user)
read_property-item (Items.maximum_packet_size v) pre rest p h =
    rw (uint32_behind pre rest Valid.prop_maximum_packet_size v h) refl
read_property-item (Items.wildcard_sub_available v) pre rest p h =
    rw (byte_behind pre rest Valid.prop_wildcard_sub_available v) refl
read_property-item (Items.sub_id_available v) pre rest p h =
    rw (byte_behind pre rest Valid.prop_sub_id_available v) refl
read_property-item (Items.shared_sub_available v) pre rest p h =
    rw (byte_behind pre rest Valid.prop_shared_sub_available v) refl

-- One round of `Decode` on an item that the packet may carry.
pub decode_property-item :
    (pkt : ℕ) (i : Item) (pre rest : Bytes) (p : Properties)
    → can_encode pkt (identifier i) ≡ true
    → IsWritable i
    → decode_property pkt (pre ++ (item_bytes i ++ rest)) (length pre) p
      ≡ read (set_item i p, length pre + length (item_bytes i))
unfolding decode_property
decode_property-item pkt i pre rest p allowed h =
    rw (byte_Reads (identifier i) pre (value_bytes i ++ rest), allowed)
      (read_property-item i pre rest p h)
