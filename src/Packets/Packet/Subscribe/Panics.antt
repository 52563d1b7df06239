-- ===== src/Packets/Packet/Subscribe/Panics.antt =====
-- packets/packets.go: SubscribeDecode in version 5 on a filter without an options byte.
use mqtt_server.Prelude.{
  ℕ, zero, suc, ◌<◌, All, append_assoc, ◌≡◌, refl, sym, ap, ◌∙◌, true, List, [], ◌∷◌, ◌++◌, arith,
  ltb, ◌==◌, none, length, length-append, get_elem?, append-nil,
}
use mqtt_server.Prelude.Int.{ℤ}
use mqtt_server.Packets.Codec.{Bytes, encode_string, decode_string}
use mqtt_server.Packets.Properties.Items.{IsText}
use mqtt_server.Packets.Properties.Items.Wire.{string_Reads, length-encode_string}
use mqtt_server.Packets.Packet.{Packet, Subscription}
use mqtt_server.Packets.Packet.Reads.{read_at, onward, blank, arrived_properties}
use mqtt_server.Packets.Packet.Subscribe.{
  write_subscriptions, request_body, panics, read_options, read_subscription, read_subscriptions,
  subscribe_decode,
}
use mqtt_server.Packets.Packet.Subscribe.RoundTrip.{
  IsRequest, options_byte, subscription_bytes, read_subscription-bytes, subscriptions_count,
}
use mqtt_server.Packets.Packet.Subscribe.Request.{
  request_size, request_front, IsSendableRequest, request_split, request_id, request_properties,
}

past_the_end : (buf : Bytes) → get_elem? buf (length buf) ≡ none
past_the_end [] = refl
past_the_end (x ∷ buf) = past_the_end buf

read_subscription_panics :
    (version : ℕ) (ids : List ℤ) (f buf pre : Bytes)
    → (version == 5) ≡ true
    → IsText f
    → buf ≡ pre ++ encode_string f
    → read_subscription version ids buf (length pre) ≡ panics
unfolding read_subscription read_options
read_subscription_panics version ids f buf pre five text e =
    rw
      (
        read_at decode_string (encode_string f) f (string_Reads f text) buf pre []
            (e ∙ ap (λ xs. pre ++ xs) (sym (append-nil (encode_string f)))),
        five,
        missing,
      )
      refl
  where
    missing : get_elem? buf (length (pre ++ encode_string f)) ≡ none
    missing =
        ap (λ b. get_elem? b (length (pre ++ encode_string f))) e
        ∙ past_the_end (pre ++ encode_string f)

read_subscriptions_panics :
    (fuel version : ℕ) (ids : List ℤ) (subs : List Subscription) (f buf pre : Bytes)
    (before : List Subscription)
    → length subs < fuel
    → (version == 5) ≡ true
    → All IsRequest subs
    → IsText f
    → buf ≡ pre ++ (write_subscriptions version subs ++ encode_string f)
    → read_subscriptions fuel version ids buf (length pre) before ≡ panics
unfolding read_subscriptions write_subscriptions
read_subscriptions_panics zero version ids subs f buf pre before enough five all text e =
    absurd (omega arith)
read_subscriptions_panics (suc fuel) version ids [] f buf pre before enough five all text e =
    rw (more, read_subscription_panics version ids f buf pre five text e) refl
  where
    more : ltb (length pre) (length buf) ≡ true
    more = ground (arith, ap length e, length-append pre (encode_string f), length-encode_string f)
read_subscriptions_panics (suc fuel) version ids (s ∷ subs) f buf pre before enough five (w, all)
      text e =
    rw (more, read_subscription-bytes version ids s buf pre rest w split)
      (read_subscriptions_panics fuel version ids subs f buf (pre ++ subscription_bytes version s) _
        (omega arith) five all text (onward buf pre (subscription_bytes version s) rest split))
  where
    rest : Bytes
    rest = write_subscriptions version subs ++ encode_string f

    split : buf ≡ pre ++ (subscription_bytes version s ++ rest)
    split =
        e
        ∙ ap (λ xs. pre ++ xs)
            (append_assoc (subscription_bytes version s) (write_subscriptions version subs)
              (encode_string f))

    more : ltb (length pre) (length buf) ≡ true
    more = ground (
      arith,
      ap length split,
      length-append pre (subscription_bytes version s ++ rest),
      length-append (subscription_bytes version s) rest,
      length-append (encode_string s.filter) (options_byte version s ∷ []),
    )

-- A subscribe packet of version 5 that ends behind a filter, with no options byte, and where any number
-- of complete subscriptions may stand in front of that filter, makes SubscribeDecode index out of range:
-- it panics. The packet has a packet id, its properties can be sent, and the filters are strings.
pub subscribe_decode_panics :
    (pk : Packet) (subs : List Subscription) (f : Bytes)
    → (pk.protocol_version == 5) ≡ true
    → IsSendableRequest pk (write_subscriptions pk.protocol_version subs ++ encode_string f)
    → All IsRequest subs
    → IsText f
    → subscribe_decode
        (blank pk)
        (request_body pk (write_subscriptions pk.protocol_version subs ++ encode_string f))
      ≡ panics
unfolding subscribe_decode
subscribe_decode_panics pk subs f five w all text =
    let xb = write_subscriptions pk.protocol_version subs ++ encode_string f in
    rw
      (
        request_id pk xb w,
        request_properties pk xb w,
        read_subscriptions_panics (length (request_body pk xb)) pk.protocol_version
            (arrived_properties pk (request_size pk xb)).subscription_identifier subs f
            (request_body pk xb) (request_front pk xb) []
            (omega (
              arith,
              ap length (request_split pk xb w),
              length-append (request_front pk xb) xb,
              length-append (write_subscriptions pk.protocol_version subs) (encode_string f),
              subscriptions_count pk.protocol_version subs,
              length-encode_string f,
            ))
            five all text (request_split pk xb w),
      )
      refl
