-- ===== src/Packets/Packet/Subscribe/RoundTrip.antt =====
-- packets/packets.go: SubscribeDecode on what SubscribeEncode wrote, in every version.
use mqtt_server.Prelude.{
  ℕ, zero, suc, ◌≤◌, ◌<◌, ◌≡◌, inl, inr, refl, ap, ◌∙◌, true, false, List, [], ◌∷◌, ◌++◌, map,
  arith, ltb, ◌==◌, if◌then◌else◌, Bool-cases, length, length-append, All, get_elem?, some,
  append_assoc, append-nil,
}
use mqtt_server.Prelude.Int.{ℤ, pos}
use mqtt_server.Packets.Codes.{ok}
use mqtt_server.Packets.Codec.{Bytes, encode_string, decode_string, decode_byte}
use mqtt_server.Packets.Properties.Items.{IsText}
use mqtt_server.Packets.Properties.Items.Wire.{string_Reads, byte_Reads}
use mqtt_server.Packets.Packet.{Packet, Subscription, filter_only, encode_options}
use mqtt_server.Packets.Packet.Options.{decode_options-encode_options}
use mqtt_server.Packets.Packet.Frame.{write_frame}
use mqtt_server.Packets.Packet.Reads.{read_at, onward, blank, arrived_properties}
use mqtt_server.Packets.Packet.Subscribe.Request.{
  at_end, request_size, request_front, IsSendableRequest, request_split, request_id,
  request_properties,
}
use mqtt_server.Packets.Packet.Subscribe.{
  write_subscriptions, request_body, subscribe_encode, done, read_options, set_identifier,
  read_subscription, read_subscriptions, subscribe_decode,
}

-- A subscription that a subscribe packet can carry.
pub record IsRequest (s : Subscription) : Type 0 where
  pub filter : IsText s.filter
  pub qos : s.qos ≤ 2
  pub retain_handling : s.retain_handling < 4

-- The options as they arrive: only version 5 carries more than the quality of service.
abbrev arrived_options : ℕ → Subscription → Subscription
arrived_options version s =
    if version == 5
    then record (filter_only s.filter) {
      qos = s.qos;
      no_local = s.no_local;
      retain_as_published = s.retain_as_published;
      retain_handling = s.retain_handling;
    }
    else record (filter_only s.filter) { qos = s.qos }

-- The first of the subscription identifiers, and 0 if there is none.
abbrev first_identifier : List ℤ → ℤ
first_identifier [] = pos 0
first_identifier (v ∷ vs) = v

-- The subscription as it arrives, with the first subscription identifier of the packet.
unfoldable pub arrived_subscription : ℕ → List ℤ → Subscription → Subscription
arrived_subscription version ids s = record (arrived_options version s) {
  identifier = first_identifier ids;
}

abbrev pub options_byte : ℕ → Subscription → ℕ
options_byte version s = if version == 5 then encode_options s else s.qos

element_at :
    (buf pre rest : Bytes) (b : ℕ) → buf ≡ pre ++ (b ∷ rest) → get_elem? buf (length pre) ≡ some b
element_at buf pre rest b e = ap (λ xs. get_elem? xs (length pre)) e ∙ go pre
  where
    go : (pre : Bytes) → get_elem? (pre ++ (b ∷ rest)) (length pre) ≡ some b
    go [] = refl
    go (x ∷ pre) = go pre

read_options-options_byte :
    (version : ℕ) (s : Subscription) (buf pre rest : Bytes)
    → IsRequest s
    → buf ≡ pre ++ (options_byte version s ∷ rest)
    → read_options version buf (length pre) (filter_only s.filter)
      ≡ done (arrived_options version s, length (pre ++ (options_byte version s ∷ [])))
unfolding read_options
read_options-options_byte version s buf pre rest w e = elim (Bool-cases (version == 5)) [
  | inl five ↦
      rw
        (
          five,
          element_at buf pre rest (encode_options s) (rw five at e),
          decode_options-encode_options s (filter_only s.filter) (omega (arith, w.qos))
              w.retain_handling,
          length-append pre (encode_options s ∷ []),
        )
        refl
  | inr other ↦
      rw
        (
          other,
          read_at decode_byte (s.qos ∷ []) s.qos (byte_Reads s.qos) buf pre rest (rw other at e),
        )
        refl
]

abbrev pub subscription_bytes : ℕ → Subscription → Bytes
subscription_bytes version s = encode_string s.filter ++ (options_byte version s ∷ [])

set_identifier-arrived :
    (version : ℕ) (ids : List ℤ) (s : Subscription)
    → set_identifier ids (arrived_options version s) ≡ arrived_subscription version ids s
unfolding set_identifier arrived_subscription
set_identifier-arrived version [] s = elim (Bool-cases (version == 5)) [
  | inl e ↦ rw e refl
  | inr e ↦ rw e refl
]
set_identifier-arrived version (v ∷ vs) s = refl

arrived_options_qos : (version : ℕ) (s : Subscription) → (arrived_options version s).qos ≡ s.qos
arrived_options_qos version s = elim (Bool-cases (version == 5)) [
  | inl e ↦ rw e refl
  | inr e ↦ rw e refl
]

pub read_subscription-bytes :
    (version : ℕ) (ids : List ℤ) (s : Subscription) (buf pre rest : Bytes)
    → IsRequest s
    → buf ≡ pre ++ (subscription_bytes version s ++ rest)
    → read_subscription version ids buf (length pre)
      ≡ done (arrived_subscription version ids s, length (pre ++ subscription_bytes version s))
unfolding read_subscription
read_subscription-bytes version ids s buf pre rest w e =
    rw
      (
        read_at decode_string f s.filter (string_Reads s.filter w.filter) buf pre
            (options_byte version s ∷ rest) split,
        read_options-options_byte version s buf (pre ++ f) rest w
            (onward buf pre f (options_byte version s ∷ rest) split),
        in_range,
        append_assoc pre f (options_byte version s ∷ []),
      )
      (ap (λ t. done (t, length (pre ++ subscription_bytes version s)))
        (set_identifier-arrived version ids s))
  where
    f : Bytes
    f = encode_string s.filter

    split : buf ≡ pre ++ (f ++ (options_byte version s ∷ rest))
    split = e ∙ ap (λ xs. pre ++ xs) (append_assoc f (options_byte version s ∷ []) rest)

    in_range : ltb 2 ((arrived_options version s).qos) ≡ false
    in_range = rw (arrived_options_qos version s) (ground (arith, w.qos))

read_subscriptions-bytes :
    (fuel version : ℕ) (ids : List ℤ) (subs : List Subscription) (buf pre : Bytes)
    (before : List Subscription)
    → All IsRequest subs
    → buf ≡ pre ++ write_subscriptions version subs
    → length subs ≤ fuel
    → read_subscriptions fuel version ids buf (length pre) before
      ≡ done (before ++ map (arrived_subscription version ids) subs)
unfolding read_subscriptions write_subscriptions
read_subscriptions-bytes zero version ids [] buf pre before all e enough =
    rw (at_end buf pre e, append-nil before) refl
read_subscriptions-bytes (suc fuel) version ids [] buf pre before all e enough =
    rw (at_end buf pre e, append-nil before) refl
read_subscriptions-bytes zero version ids (s ∷ subs) buf pre before all e enough =
    absurd (omega arith)
read_subscriptions-bytes (suc fuel) version ids (s ∷ subs) buf pre before (w, all) e enough =
    rw
      (
        more,
        read_subscription-bytes version ids s buf pre (write_subscriptions version subs) w split,
      )
      (read_subscriptions-bytes fuel version ids subs buf (pre ++ subscription_bytes version s)
          (before ++ (arrived_subscription version ids s ∷ [])) all
          (onward buf pre (subscription_bytes version s) (write_subscriptions version subs) split)
          (omega arith)
        ∙ ap done (
            append_assoc before (arrived_subscription version ids s ∷ [])
              (map (arrived_subscription version ids) subs)))
  where
    split : buf ≡ pre ++ (subscription_bytes version s ++ write_subscriptions version subs)
    split = e

    more : ltb (length pre) (length buf) ≡ true
    more = ground (
      arith,
      ap length split,
      length-append pre (subscription_bytes version s ++ write_subscriptions version subs),
      length-append (subscription_bytes version s) (write_subscriptions version subs),
      length-append (encode_string s.filter) (options_byte version s ∷ []),
    )

pub subscriptions_count :
    (version : ℕ) (subs : List Subscription)
    → length subs ≤ length (write_subscriptions version subs)
unfolding write_subscriptions
subscriptions_count version [] = omega arith
subscriptions_count version (s ∷ subs) = omega (
  arith,
  subscriptions_count version subs,
  length-append (subscription_bytes version s) (write_subscriptions version subs),
  length-append (encode_string s.filter) (options_byte version s ∷ []),
)

-- The packet as it arrives.
pub arrived_subscribe : Packet → Packet
arrived_subscribe pk =
    let xb = write_subscriptions pk.protocol_version pk.filters in
    let properties = arrived_properties pk (request_size pk xb) in
    record (blank pk) {
      packet_id = pk.packet_id;
      properties = properties;
      filters =
          map (arrived_subscription pk.protocol_version properties.subscription_identifier)
            pk.filters;
    }

-- SubscribeEncode succeeds on a packet with a packet id whose properties can be sent and whose
-- subscriptions can be carried, and SubscribeDecode reads from the bytes behind the fixed header the
-- packet id, the properties that Properties.Encode lets through in version 5, and every subscription
-- in order: its filter, its quality of service, in version 5 its other options, and the first
-- subscription identifier of the packet, if it has one.
pub subscribe_decode-subscribe_encode :
    (pk : Packet) (buf : Bytes)
    → IsSendableRequest pk (write_subscriptions pk.protocol_version pk.filters)
    → All IsRequest pk.filters
    → let body = request_body pk (write_subscriptions pk.protocol_version pk.filters) in
      (subscribe_encode pk buf ≡ ok (write_frame pk body buf))
      × (subscribe_decode (blank pk) body ≡ done (arrived_subscribe pk))
unfolding subscribe_encode subscribe_decode arrived_subscribe
subscribe_decode-subscribe_encode pk buf w all =
    let xb = write_subscriptions pk.protocol_version pk.filters in
    (
      rw w.id_set refl,
      rw
          (
            request_id pk xb w,
            request_properties pk xb w,
            read_subscriptions-bytes (length (request_body pk xb)) pk.protocol_version
                (arrived_properties pk (request_size pk xb)).subscription_identifier pk.filters
                (request_body pk xb) (request_front pk xb) [] all (request_split pk xb w)
                (omega (
                  arith,
                  subscriptions_count pk.protocol_version pk.filters,
                  ap length (request_split pk xb w),
                  length-append (request_front pk xb) xb,
                )),
          )
          refl,
    )
