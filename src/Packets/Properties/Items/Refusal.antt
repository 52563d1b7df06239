-- ===== src/Packets/Properties/Items/Refusal.antt =====
-- packets/properties.go: `Decode` on a property that the packet type may not carry.
use mqtt_server.Prelude.{
  ℕ, suc, ◌+◌, ◌-◌, ◌≤◌, ◌<◌, ◌≡◌, refl, sym, ap, ◌∙◌, true, false, List, [], ◌∷◌, ◌++◌, arith, ltb,
  ◌==◌, length, length-append, All, append_assoc, append-nil,
}
use mqtt_server.Packets.Codes.{err_protocol_violation_unsupported_property}
use mqtt_server.Packets.Codec.{Bytes, encode_length}
use mqtt_server.Packets.Codec.VarInt.{decode_length-encode_length}
use mqtt_server.Packets.Properties.{Properties}
use mqtt_server.Packets.Properties.Valid.{can_encode}
use mqtt_server.Packets.Properties.Decode.{
  failed, decode_property, decode_properties_loop, decode_properties,
}
use mqtt_server.Packets.Properties.Items.{Item, set_item, set_items, item_bytes, items_bytes}
use mqtt_server.Packets.Properties.Items.Wire.{byte_Reads}
use mqtt_server.Packets.Properties.Items.Reading.{
  IsCarried, drop-append, decode_properties_loop-item,
}

-- The loop, with the bytes of some items still in front of it, comes to what stands behind them.
decode_properties_loop_past :
    (fuel pkt n : ℕ) (is : List Item) (pre rest : Bytes) (p : Properties)
    → All (IsCarried pkt) is
    → length pre + length (items_bytes is) ≤ n
    → decode_properties_loop
        (length is + fuel)
        pkt
        n
        (pre ++ (items_bytes is ++ rest))
        (length pre)
        p
      ≡ decode_properties_loop fuel pkt n
          ((pre ++ items_bytes is) ++ rest)
          (length (pre ++ items_bytes is))
          (set_items is p)
decode_properties_loop_past fuel pkt n [] pre rest p all room = rw (append-nil pre, none_left) refl
  where
    none_left : 0 + fuel ≡ fuel
    none_left = omega arith
decode_properties_loop_past fuel pkt n (i ∷ is) pre rest p (h, all) room =
    rw (one_more, sym (append_assoc pre (item_bytes i) (items_bytes is)))
      (decode_properties_loop-item (length is + fuel) pkt n i (items_bytes is) pre rest p h
          (omega (arith, room, parts))
        ∙ decode_properties_loop_past fuel pkt n is (pre ++ item_bytes i) rest (set_item i p) all
            (omega (arith, room, parts, length-append pre (item_bytes i))))
  where
    one_more : suc (length is) + fuel ≡ suc (length is + fuel)
    one_more = omega arith

    parts : length (items_bytes (i ∷ is)) ≡ length (item_bytes i) + length (items_bytes is)
    parts = length-append (item_bytes i) (items_bytes is)

items_count : (is : List Item) → length is ≤ length (items_bytes is)
items_count [] = omega arith
items_count (i ∷ is) = omega (arith, items_count is, length-append (item_bytes i) (items_bytes is))

decode_properties_loop_refuses :
    (fuel pkt k n : ℕ) (is : List Item) (after : Bytes) (p : Properties)
    → All (IsCarried pkt) is
    → can_encode pkt k ≡ false
    → length (items_bytes is) < n
    → decode_properties_loop (length is + suc fuel) pkt n (items_bytes is ++ (k ∷ after)) 0 p
      ≡ failed err_protocol_violation_unsupported_property
unfolding decode_properties_loop decode_property
decode_properties_loop_refuses fuel pkt k n is after p all refused h =
    decode_properties_loop_past (suc fuel) pkt n is [] (k ∷ after) p all (omega arith)
    ∙ rw (inside, byte_Reads k (items_bytes is) after, refused) refl
  where
    inside : ltb (length (items_bytes is)) n ≡ true
    inside = ground arith

-- `Decode` refuses a property that the packet type may not carry, wherever it stands behind
-- properties that the packet may carry, and whatever follows it.
pub decode_properties_unsupported :
    (pkt k : ℕ) (is : List Item) (tail rest : Bytes) (p : Properties)
    → All (IsCarried pkt) is
    → can_encode pkt k ≡ false
    → length (items_bytes is) + suc (length tail) ≤ 268435455
    → decode_properties pkt
        (encode_length (length (items_bytes is) + suc (length tail))
          ++ (items_bytes is ++ (k ∷ tail ++ rest)))
        p
      ≡ failed err_protocol_violation_unsupported_property
unfolding decode_properties
decode_properties_unsupported pkt k is tail rest p all refused h =
    rw
      (
        decode_length-encode_length n (items_bytes is ++ (k ∷ tail ++ rest)) h,
        not_zero,
        drop-append (encode_length n) (items_bytes is ++ (k ∷ tail ++ rest)),
        loop,
      )
      refl
  where
    n : ℕ
    n = length (items_bytes is) + suc (length tail)

    not_zero : (n == 0) ≡ false
    not_zero = ground arith

    fuel : n ≡ length is + suc (n - length is - 1)
    fuel = omega (arith, items_count is)

    loop :
        decode_properties_loop n pkt n (items_bytes is ++ (k ∷ tail ++ rest)) 0 p
        ≡ failed err_protocol_violation_unsupported_property
    loop =
        ap (λ f. decode_properties_loop f pkt n (items_bytes is ++ (k ∷ tail ++ rest)) 0 p) fuel
        ∙ decode_properties_loop_refuses (n - length is - 1) pkt k n is (tail ++ rest) p all refused
            (omega arith)
