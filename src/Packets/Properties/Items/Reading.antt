-- ===== src/Packets/Properties/Items/Reading.antt =====
-- packets/properties.go: the loop of `Decode` over a list of items.
use mqtt_server.Prelude.{
  ℕ, zero, suc, ◌+◌, ◌≤◌, ◌<◌, ◌≡◌, refl, sym, ap, ◌∙◌, true, false, List, [], ◌∷◌, ◌++◌, arith,
  ltb, ◌==◌, length, length-append, All, drop, append_assoc,
}
use mqtt_server.Packets.Codec.{Bytes, encode_length}
use mqtt_server.Packets.Codec.VarInt.{decode_length-encode_length}
use mqtt_server.Packets.Properties.{Properties}
use mqtt_server.Packets.Properties.Valid.{can_encode}
use mqtt_server.Packets.Properties.Decode.{
  read, decode_property, decode_properties_loop, decode_properties,
}
use mqtt_server.Packets.Properties.Items.{
  Item, IsWritable, identifier, set_item, set_items, item_bytes, items_bytes,
}
use mqtt_server.Packets.Properties.Items.Wire.{decode_property-item}

-- The item may stand in the packet, and its value fits.
pub record IsCarried (pkt : ℕ) (i : Item) : Type 0 where
  pub allowed : can_encode pkt (identifier i) ≡ true
  pub writable : IsWritable i

-- One round of the loop.
pub decode_properties_loop-item :
    (fuel pkt n : ℕ) (i : Item) (more pre rest : Bytes) (p : Properties)
    → IsCarried pkt i
    → length pre < n
    → decode_properties_loop
        (suc fuel)
        pkt
        n
        (pre ++ ((item_bytes i ++ more) ++ rest))
        (length pre)
        p
      ≡ decode_properties_loop fuel pkt n
          ((pre ++ item_bytes i) ++ (more ++ rest))
          (length (pre ++ item_bytes i))
          (set_item i p)
unfolding decode_properties_loop
decode_properties_loop-item fuel pkt n i more pre rest p h room =
    rw (inside, step)
      (sym (λ j. decode_properties_loop fuel pkt n (whole j) (place j) (set_item i p)))
  where
    inside : ltb (length pre) n ≡ true
    inside = ground (arith, room)

    step :
        decode_property pkt (pre ++ ((item_bytes i ++ more) ++ rest)) (length pre) p
        ≡ read (set_item i p, length pre + length (item_bytes i))
    step =
        rw (append_assoc (item_bytes i) more rest)
          (decode_property-item pkt i pre (more ++ rest) p h.allowed h.writable)

    place : length (pre ++ item_bytes i) ≡ length pre + length (item_bytes i)
    place = length-append pre (item_bytes i)

    whole : (pre ++ item_bytes i) ++ (more ++ rest) ≡ pre ++ ((item_bytes i ++ more) ++ rest)
    whole =
        append_assoc pre (item_bytes i) (more ++ rest)
        ∙ ap (λ xs. pre ++ xs) (sym (append_assoc (item_bytes i) more rest))

decode_properties_loop-items :
    (fuel pkt n : ℕ) (is : List Item) (pre rest : Bytes) (p : Properties)
    → All (IsCarried pkt) is
    → n ≡ length pre + length (items_bytes is)
    → length (items_bytes is) ≤ fuel
    → decode_properties_loop fuel pkt n (pre ++ (items_bytes is ++ rest)) (length pre) p
      ≡ read (set_items is p)
decode_properties_loop-items zero pkt n [] pre rest p all size enough =
    unfold decode_properties_loop in ground arith
decode_properties_loop-items (suc fuel) pkt n [] pre rest p all size enough =
    unfold decode_properties_loop in ground arith
decode_properties_loop-items zero pkt n (i ∷ is) pre rest p all size enough =
    absurd (omega (arith, length-append (item_bytes i) (items_bytes is)))
decode_properties_loop-items (suc fuel) pkt n (i ∷ is) pre rest p (h, all) size enough =
    decode_properties_loop-item fuel pkt n i (items_bytes is) pre rest p h
      (omega (arith, size, parts))
    ∙ decode_properties_loop-items fuel pkt n is (pre ++ item_bytes i) rest (set_item i p) all
        (omega (arith, size, parts, length-append pre (item_bytes i)))
        (omega (arith, enough, parts))
  where
    parts : length (items_bytes (i ∷ is)) ≡ length (item_bytes i) + length (items_bytes is)
    parts = length-append (item_bytes i) (items_bytes is)

pub drop-append : (xs ys : Bytes) → drop (length xs) (xs ++ ys) ≡ ys
drop-append [] ys = refl
drop-append (x ∷ xs) ys = drop-append xs ys

-- `Decode` on the bytes of items that the packet may carry, at most 268435455 of them, sets these
-- items in order, and reports the number of bytes, the length in front included.
pub decode_properties-items :
    (pkt : ℕ) (is : List Item) (rest : Bytes) (p : Properties)
    → All (IsCarried pkt) is
    → length (items_bytes is) ≤ 268435455
    → decode_properties pkt (encode_length (length (items_bytes is)) ++ (items_bytes is ++ rest)) p
      ≡ read (
        set_items is p,
        length (items_bytes is) + length (encode_length (length (items_bytes is))),
      )
unfolding decode_properties
decode_properties-items pkt [] rest p all h = rw (decode_length-encode_length 0 rest h) refl
decode_properties-items pkt (i ∷ is) rest p all h =
    let n : ℕ = length (items_bytes (i ∷ is)) in
    rw
      (
        decode_length-encode_length n (items_bytes (i ∷ is) ++ rest) h,
        drop-append (encode_length n) (items_bytes (i ∷ is) ++ rest),
        decode_properties_loop-items n pkt n (i ∷ is) [] rest p all (omega arith) (omega arith),
        not_zero,
      )
      refl
  where
    not_zero : (length (items_bytes (i ∷ is)) == 0) ≡ false
    not_zero = ground arith
