-- ===== src/Packets/Packet/Subscribe/Unsubscribe.antt =====
-- packets/packets.go: UnsubscribeDecode on what UnsubscribeEncode wrote, in every version.
use mqtt_server.Prelude.{
  ℕ, zero, suc, ◌≤◌, ◌≡◌, refl, ap, ◌∙◌, true, List, [], ◌∷◌, ◌++◌, map, arith, ltb, length,
  length-append, All, append_assoc, append-nil,
}
use mqtt_server.Packets.Codes.{ok}
use mqtt_server.Packets.Codec.{Bytes, encode_string, decode_string}
use mqtt_server.Packets.Properties.Items.{IsText}
use mqtt_server.Packets.Properties.Items.Wire.{string_Reads, length-encode_string}
use mqtt_server.Packets.Packet.{Packet, Subscription, filter_only}
use mqtt_server.Packets.Packet.Frame.{write_frame}
use mqtt_server.Packets.Packet.Reads.{read_at, onward, blank, arrived_properties}
use mqtt_server.Packets.Packet.Subscribe.{
  write_filters, request_body, unsubscribe_encode, done, read_filters, unsubscribe_decode,
}
use mqtt_server.Packets.Packet.Subscribe.Request.{
  at_end, request_size, request_front, IsSendableRequest, request_split, request_id,
  request_properties,
}

abbrev pub arrived_filter : Subscription → Subscription
arrived_filter s = filter_only s.filter

read_filters-bytes :
    (fuel : ℕ) (subs : List Subscription) (buf pre : Bytes) (before : List Subscription)
    → All (λ (s : Subscription). IsText s.filter) subs
    → buf ≡ pre ++ write_filters subs
    → length subs ≤ fuel
    → read_filters fuel buf (length pre) before ≡ done (before ++ map arrived_filter subs)
unfolding read_filters write_filters
read_filters-bytes zero [] buf pre before all e enough =
    rw (at_end buf pre e, append-nil before) refl
read_filters-bytes (suc fuel) [] buf pre before all e enough =
    rw (at_end buf pre e, append-nil before) refl
read_filters-bytes zero (s ∷ subs) buf pre before all e enough = absurd (omega arith)
read_filters-bytes (suc fuel) (s ∷ subs) buf pre before (text, all) e enough =
    rw
      (
        more,
        read_at decode_string (encode_string s.filter) s.filter (string_Reads s.filter text) buf pre
            (write_filters subs) e,
      )
      (read_filters-bytes fuel subs buf (pre ++ encode_string s.filter)
          (before ++ (arrived_filter s ∷ [])) all
          (onward buf pre (encode_string s.filter) (write_filters subs) e) (omega arith)
        ∙ ap done (append_assoc before (arrived_filter s ∷ []) (map arrived_filter subs)))
  where
    more : ltb (length pre) (length buf) ≡ true
    more = ground (
      arith,
      ap length e,
      length-append pre (encode_string s.filter ++ write_filters subs),
      length-append (encode_string s.filter) (write_filters subs),
      length-encode_string s.filter,
    )

filters_count : (subs : List Subscription) → length subs ≤ length (write_filters subs)
unfolding write_filters
filters_count [] = omega arith
filters_count (s ∷ subs) = omega (
  arith,
  filters_count subs,
  length-append (encode_string s.filter) (write_filters subs),
  length-encode_string s.filter,
)

-- The packet as it arrives.
pub arrived_unsubscribe : Packet → Packet
arrived_unsubscribe pk = record (blank pk) {
  packet_id = pk.packet_id;
  properties = arrived_properties pk (request_size pk (write_filters pk.filters));
  filters = map arrived_filter pk.filters;
}

-- A packet with a packet id whose properties can be sent and whose filters are strings is encoded
-- by UnsubscribeEncode, and UnsubscribeDecode reads from the bytes behind the fixed header the
-- packet id, the properties that Properties.Encode lets through in version 5, and the filters in
-- order.
pub unsubscribe_decode-unsubscribe_encode :
    (pk : Packet) (buf : Bytes)
    → IsSendableRequest pk (write_filters pk.filters)
    → All (λ (s : Subscription). IsText s.filter) pk.filters
    → let body = request_body pk (write_filters pk.filters) in
      (unsubscribe_encode pk buf ≡ ok (write_frame pk body buf))
      × (unsubscribe_decode (blank pk) body ≡ done (arrived_unsubscribe pk))
unfolding unsubscribe_encode unsubscribe_decode arrived_unsubscribe
unsubscribe_decode-unsubscribe_encode pk buf w all =
    let xb = write_filters pk.filters in
    (
      rw w.id_set refl,
      rw
          (
            request_id pk xb w,
            request_properties pk xb w,
            read_filters-bytes (length (request_body pk xb)) pk.filters (request_body pk xb)
                (request_front pk xb) [] all (request_split pk xb w)
                (omega (
                  arith,
                  filters_count pk.filters,
                  ap length (request_split pk xb w),
                  length-append (request_front pk xb) xb,
                )),
          )
          refl,
    )
