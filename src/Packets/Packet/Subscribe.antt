-- ===== src/Packets/Packet/Subscribe.antt =====
-- packets/packets.go: Subscribe and Unsubscribe. An index out of range panics in Go: `panics`.
pub mod Request
pub mod RoundTrip
pub mod Ends
pub mod Panics
pub mod Unsubscribe
use mqtt_server.Prelude.{
  ℕ, zero, suc, ◌+◌, Bool, true, false, ◌&&◌, Option, none, some, List, [], ◌∷◌, ◌++◌, ltb, leb,
  ◌==◌, if◌then◌else◌, length, get_elem?,
}
use mqtt_server.Prelude.Int.{ℤ, pos, ltb_ℤ}
use mqtt_server.Packets.Codes
use mqtt_server.Packets.Codes.{Code, Result, ok, err, ◌>>=◌, or_code}
use mqtt_server.Packets.Codec.{
  Bytes, encode_uint16, encode_string, decode_uint16, decode_string, decode_byte,
}
use mqtt_server.Packets.Packet.{Packet, Subscription, filter_only, encode_options, decode_options}
use mqtt_server.Packets.Packet.Frame.{write_frame, write_properties, read_properties}

-- The loops over `pk.Filters`.
unfoldable pub write_subscriptions : ℕ → List Subscription → Bytes
write_subscriptions version [] = []
write_subscriptions version (s ∷ subs) =
    (encode_string s.filter ++ ((if version == 5 then encode_options s else s.qos) ∷ []))
    ++ write_subscriptions version subs

unfoldable pub write_filters : List Subscription → Bytes
write_filters [] = []
write_filters (s ∷ subs) = encode_string s.filter ++ write_filters subs

-- The packet id, the properties and the filters `xb`.
unfoldable pub request_body : Packet → Bytes → Bytes
request_body pk xb =
    let nb = encode_uint16 pk.packet_id in (nb ++ write_properties pk (length nb + length xb)) ++ xb

unfoldable pub subscribe_encode : Packet → Bytes → Result (Packet × Bytes)
subscribe_encode pk buf =
    if pk.packet_id == 0
    then err Codes.err_protocol_violation_no_packet_id
    else ok
        (write_frame pk (request_body pk (write_subscriptions pk.protocol_version pk.filters)) buf)

unfoldable pub unsubscribe_encode : Packet → Bytes → Result (Packet × Bytes)
unsubscribe_encode pk buf =
    if pk.packet_id == 0
    then err Codes.err_protocol_violation_no_packet_id
    else ok (write_frame pk (request_body pk (write_filters pk.filters)) buf)

-- What a decoder that may panic gives; `no_fuel` is no Go value.
pub data Attempt {ℓ} (A : Type ℓ) : Type ℓ where
  done : A → Attempt A
  rejected : Code → Attempt A
  panics no_fuel : Attempt A

abbrev pub attempt {ℓ} : {A : Type ℓ} → Result A → Attempt A
attempt (ok a) = done a
attempt (err e) = rejected e

abbrev pub and_then {ℓ κ} : {A : Type ℓ} {B : Type κ} → Attempt A → (A → Attempt B) → Attempt B
and_then (done a) f = f a
and_then (rejected e) f = rejected e
and_then panics f = panics
and_then no_fuel f = no_fuel

-- The options byte: `buf[offset]` in version 5, and `decodeByte` otherwise.
unfoldable pub read_options : ℕ → Bytes → ℕ → Subscription → Attempt (Subscription × ℕ)
read_options version buf offset sub =
    if version == 5
    then elim (get_elem? buf offset) [
      | none ↦ panics
      | some b ↦ done (decode_options sub b, offset + 1)
    ]
    else attempt (do
      (option, next) ← or_code (decode_byte buf offset) Codes.err_malformed_qos
      ok (record sub { qos = option }, next))

-- `pk.Properties.SubscriptionIdentifier[0]`, if there is one.
unfoldable pub set_identifier : List ℤ → Subscription → Subscription
set_identifier [] sub = sub
set_identifier (v ∷ vs) sub = record sub { identifier = v }

-- One round of SubscribeDecode's loop.
unfoldable pub read_subscription : ℕ → List ℤ → Bytes → ℕ → Attempt (Subscription × ℕ)
unfolding read_options set_identifier
read_subscription version ids buf offset =
    and_then (attempt (or_code (decode_string buf offset) Codes.err_malformed_topic)) λ f.
      and_then (read_options version buf (f.1) (filter_only (f.0))) λ r.
        if ltb 2 (r.0.qos)
        then rejected Codes.err_protocol_violation_qos_out_of_range
        else done (set_identifier ids (r.0), r.1)

-- The loop, on fuel: one round for each byte of the buffer.
unfoldable pub read_subscriptions :
    ℕ → ℕ → List ℤ → Bytes → ℕ → List Subscription → Attempt (List Subscription)
read_subscriptions zero version ids buf offset subs =
    if ltb offset (length buf) then no_fuel else done subs
read_subscriptions (suc fuel) version ids buf offset subs =
    if ltb offset (length buf)
    then and_then (read_subscription version ids buf offset)
        (λ r. read_subscriptions fuel version ids buf (r.1) (subs ++ (r.0 ∷ [])))
    else done subs

unfoldable pub subscribe_decode : Packet → Bytes → Attempt Packet
subscribe_decode pk buf =
    and_then (attempt (or_code (decode_uint16 buf 0) Codes.err_malformed_packet_id)) λ id.
      and_then (attempt (read_properties (record pk { packet_id = id.0 }) buf (id.1))) λ r.
        let version = r.0.protocol_version in
        let ids = r.0.properties.subscription_identifier in
        and_then (read_subscriptions (length buf) version ids buf (r.1) [])
          λ subs. done (record (r.0) { filters = subs })

-- The loop of UnsubscribeDecode.
unfoldable pub read_filters : ℕ → Bytes → ℕ → List Subscription → Attempt (List Subscription)
read_filters zero buf offset subs = if ltb offset (length buf) then no_fuel else done subs
read_filters (suc fuel) buf offset subs =
    if ltb offset (length buf)
    then and_then (attempt (or_code (decode_string buf offset) Codes.err_malformed_topic))
        (λ f. read_filters fuel buf (f.1) (subs ++ (filter_only (f.0) ∷ [])))
    else done subs

unfoldable pub unsubscribe_decode : Packet → Bytes → Attempt Packet
unsubscribe_decode pk buf =
    and_then (attempt (or_code (decode_uint16 buf 0) Codes.err_malformed_packet_id)) λ id.
      and_then (attempt (read_properties (record pk { packet_id = id.0 }) buf (id.1))) λ r.
        and_then (read_filters (length buf) buf (r.1) [])
          λ subs. done (record (r.0) { filters = subs })

-- The loop over the filters of SubscribeValidate.
unfoldable pub has_oversize_identifier : List Subscription → Bool
has_oversize_identifier [] = false
has_oversize_identifier (s ∷ subs) =
    if ltb_ℤ (pos 268435455) s.identifier then true else has_oversize_identifier subs

unfoldable pub subscribe_validate : Packet → Code
unfolding has_oversize_identifier
subscribe_validate pk =
    if ltb 0 (pk.fixed_header.qos) && (pk.packet_id == 0)
    then Codes.err_protocol_violation_no_packet_id
    else if length pk.filters == 0
    then Codes.err_protocol_violation_no_filters
    else if has_oversize_identifier pk.filters
    then Codes.err_protocol_violation_oversize_sub_id
    else Codes.code_success

unfoldable pub unsubscribe_validate : Packet → Code
unsubscribe_validate pk =
    if ltb 0 (pk.fixed_header.qos) && (pk.packet_id == 0)
    then Codes.err_protocol_violation_no_packet_id
    else if length pk.filters == 0
    then Codes.err_protocol_violation_no_filters
    else Codes.code_success
