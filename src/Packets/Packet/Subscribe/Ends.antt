-- ===== src/Packets/Packet/Subscribe/Ends.antt =====
-- packets/packets.go: how SubscribeDecode and UnsubscribeDecode end on any buffer.
use mqtt_server.Prelude.{
  ℕ, zero, suc, ◌+◌, ◌≤◌, ◌<◌, ◌≡◌, inl, inr, refl, subst, Bool, true, false, List, [], ◌∷◌, ◌++◌,
  arith, ltb, ◌==◌, ==_iff, if◌then◌else◌, Bool-cases, Option-cases, length, drop, get_elem?,
}
use mqtt_server.Prelude.Int.{ℤ}
use mqtt_server.Packets.Codes
use mqtt_server.Packets.Codes.{Code, Result, ok, err, ◌>>=◌, or_code}
use mqtt_server.Packets.Codec.{Bytes, decode_string, decode_bytes, decode_uint16, decode_byte}
use mqtt_server.Packets.Properties.{Properties}
use mqtt_server.Packets.Properties.Decode.{Read, read, failed, eof, decode_properties}
use mqtt_server.Packets.Packet.{Packet, Subscription, filter_only}
use mqtt_server.Packets.Packet.Frame.{read_properties, read_properties_of, or_fail}
use mqtt_server.Packets.Packet.Subscribe.{
  Attempt, done, rejected, panics, no_fuel, attempt, and_then, read_options, read_subscription,
  read_subscriptions, subscribe_decode, read_filters, unsubscribe_decode,
}

-- A packet or an error, and a panic only under `P`; never `no_fuel`.
pub data Ends {ℓ} (P : Type 0) {A : Type ℓ} : Attempt A → Type ℓ where
  with_value : (a : A) → Ends P (done a)
  with_error : (c : Code) → Ends P (rejected c)
  with_panic : P → Ends P panics

attempt-Ends {ℓ} : (P : Type 0) {A : Type ℓ} (r : Result A) → Ends P (attempt r)
attempt-Ends P (ok a) = with_value a
attempt-Ends P (err c) = with_error c

and_then-Ends {ℓ κ} :
    (P : Type 0) {A : Type ℓ} {B : Type κ} (m : Attempt A) (f : A → Attempt B)
    → Ends P m
    → ((a : A) → m ≡ done a → Ends P (f a))
    → Ends P (and_then m f)
and_then-Ends P (done a) f (with_value b) k = k a refl
and_then-Ends P (rejected c) f (with_error d) k = with_error c
and_then-Ends P panics f (with_panic p) k = with_panic p
and_then-Ends P no_fuel f h k = elim h [ ]

and_then-done {ℓ κ} :
    {A : Type ℓ} {B : Type κ} (m : Attempt A) (f : A → Attempt B) {b : B}
    → and_then m f ≡ done b
    → (a : A) × (m ≡ done a) × (f a ≡ done b)
and_then-done (done a) f h = (a, refl, h)
and_then-done (rejected c) f h = cc
and_then-done panics f h = cc
and_then-done no_fuel f h = cc

if-Ends {ℓ} :
    (P : Type 0) {A : Type ℓ} (c : Bool) (x y : Attempt A)
    → Ends P x
    → Ends P y
    → Ends P (if c then x else y)
if-Ends P true x y hx hy = hx
if-Ends P false x y hx hy = hy

string_onward :
    (buf : Bytes) (offset : ℕ) (c : Code) (f : Bytes × ℕ)
    → attempt (or_code (decode_string buf offset) c) ≡ done f
    → offset < f.1
unfolding decode_string decode_bytes decode_uint16
string_onward buf offset c f e = ground arith

options_onward :
    (version : ℕ) (buf : Bytes) (offset : ℕ) (sub : Subscription) (r : Subscription × ℕ)
    → read_options version buf offset sub ≡ done r
    → offset < r.1
unfolding read_options decode_byte
options_onward version buf offset sub r e = ground arith

options-Ends :
    (version : ℕ) (buf : Bytes) (offset : ℕ) (sub : Subscription)
    → Ends (version ≡ 5) (read_options version buf offset sub)
unfolding read_options
options-Ends version buf offset sub = elim (Bool-cases (version == 5)) [
  | inl five ↦ elim (Option-cases (get_elem? buf offset)) [
    | inl e ↦ rw (five, e) (with_panic ((==_iff version 5).0 five))
    | inr (b, e) ↦ rw (five, e) (with_value _)
  ]
  | inr other ↦ rw other (attempt-Ends (version ≡ 5) _)
]

read_subscription-Ends :
    (version : ℕ) (ids : List ℤ) (buf : Bytes) (offset : ℕ)
    → Ends (version ≡ 5) (read_subscription version ids buf offset)
unfolding read_subscription
read_subscription-Ends version ids buf offset =
    and_then-Ends (version ≡ 5)
      (attempt (or_code (decode_string buf offset) Codes.err_malformed_topic)) _
      (attempt-Ends (version ≡ 5) _)
      λ (f : Bytes × ℕ). λ e.
        and_then-Ends (version ≡ 5) (read_options version buf (f.1) (filter_only (f.0))) _
          (options-Ends version buf (f.1) (filter_only (f.0)))
          λ (r : Subscription × ℕ).
            λ g. if-Ends (version ≡ 5) (ltb 2 (r.0.qos)) _ _ (with_error _) (with_value _)

read_subscription_onward :
    (version : ℕ) (ids : List ℤ) (buf : Bytes) (offset : ℕ) (r : Subscription × ℕ)
    → read_subscription version ids buf offset ≡ done r
    → offset < r.1
unfolding read_subscription
read_subscription_onward version ids buf offset r h =
    let (f, first, rest) =
      and_then-done (attempt (or_code (decode_string buf offset) Codes.err_malformed_topic)) _ h in
    let (o, second, last) =
      and_then-done (read_options version buf (f.1) (filter_only (f.0))) _ rest in
    grind (
      arith,
      string_onward buf offset Codes.err_malformed_topic f first,
      options_onward version buf (f.1) (filter_only (f.0)) o second,
    )

read_subscriptions-Ends :
    (fuel version : ℕ) (ids : List ℤ) (buf : Bytes) (offset : ℕ) (subs : List Subscription)
    → length buf ≤ offset + fuel
    → Ends (version ≡ 5) (read_subscriptions fuel version ids buf offset subs)
unfolding read_subscriptions
read_subscriptions-Ends zero version ids buf offset subs h = rw over (with_value subs)
  where
    over : ltb offset (length buf) ≡ false
    over = ground arith
read_subscriptions-Ends (suc fuel) version ids buf offset subs h =
    if-Ends (version ≡ 5) (ltb offset (length buf)) _ _
      (and_then-Ends (version ≡ 5) _ _ (read_subscription-Ends version ids buf offset)
        λ (r : Subscription × ℕ). λ e.
          read_subscriptions-Ends fuel version ids buf (r.1) (subs ++ (r.0 ∷ []))
            (omega (arith, h, read_subscription_onward version ids buf offset r e)))
      (with_value subs)

read_filters-Ends :
    (fuel : ℕ) (buf : Bytes) (offset : ℕ) (subs : List Subscription)
    → length buf ≤ offset + fuel
    → Ends ⊥ (read_filters fuel buf offset subs)
unfolding read_filters
read_filters-Ends zero buf offset subs h = rw over (with_value subs)
  where
    over : ltb offset (length buf) ≡ false
    over = ground arith
read_filters-Ends (suc fuel) buf offset subs h =
    if-Ends ⊥ (ltb offset (length buf)) _ _
      (and_then-Ends ⊥ (attempt (or_code (decode_string buf offset) Codes.err_malformed_topic)) _
        (attempt-Ends ⊥ _)
        λ (f : Bytes × ℕ). λ e.
          read_filters-Ends fuel buf (f.1) (subs ++ (filter_only (f.0) ∷ []))
            (omega (arith, h, string_onward buf offset Codes.err_malformed_topic f e)))
      (with_value subs)

read_properties_version :
    (pk : Packet) (buf : Bytes) (offset : ℕ) (r : Packet × ℕ)
    → attempt (read_properties pk buf offset) ≡ done r
    → r.0.protocol_version ≡ pk.protocol_version
unfolding read_properties read_properties_of
read_properties_version pk buf offset r h = elim (Bool-cases (pk.protocol_version == 5)) [
  | inl five ↦
      go (decode_properties (pk.fixed_header.type) (drop offset buf) pk.properties) (rw five at h)
  | inr other ↦ let g = rw other at h in cc
]
  where
    go :
        (m : Read (Properties × ℕ))
        → attempt (
            or_fail m Codes.err_malformed_properties >>= λ x.
            ok (record pk { properties = x.0 }, offset + x.1))
          ≡ done r
        → r.0.protocol_version ≡ pk.protocol_version
    go (read x) h = cc
    go (failed c) h = cc
    go eof h = cc
    go Read.no_fuel h = cc

-- SubscribeDecode ends on every packet and every buffer: with the packet, with an error, or, in version
-- 5 alone, with a panic. The fuel of its loop, one round for each byte, is enough.
pub subscribe_decode-Ends :
    (pk : Packet) (buf : Bytes) → Ends (pk.protocol_version ≡ 5) (subscribe_decode pk buf)
unfolding subscribe_decode
subscribe_decode-Ends pk buf =
    and_then-Ends P (attempt (or_code (decode_uint16 buf 0) Codes.err_malformed_packet_id)) _
      (attempt-Ends P _)
      λ (id : ℕ × ℕ). λ e.
        and_then-Ends P (attempt (read_properties (record pk { packet_id = id.0 }) buf (id.1))) _
          (attempt-Ends P _)
          λ (r : Packet × ℕ). λ g.
            let loop =
              read_subscriptions (length buf) (r.0.protocol_version)
                (r.0.properties.subscription_identifier) buf (r.1) [] in
            and_then-Ends P loop _
              (subst (λ v. Ends (v ≡ 5) loop)
                (read_properties_version (record pk { packet_id = id.0 }) buf (id.1) r g)
                (read_subscriptions-Ends (length buf) (r.0.protocol_version)
                  (r.0.properties.subscription_identifier) buf (r.1) [] (omega arith)))
              λ subs h. with_value _
  where
    P : Type 0
    P = pk.protocol_version ≡ 5

-- UnsubscribeDecode ends on every packet and every buffer with the packet or with an error.
pub unsubscribe_decode-Ends : (pk : Packet) (buf : Bytes) → Ends ⊥ (unsubscribe_decode pk buf)
unfolding unsubscribe_decode
unsubscribe_decode-Ends pk buf =
    and_then-Ends ⊥ (attempt (or_code (decode_uint16 buf 0) Codes.err_malformed_packet_id)) _
      (attempt-Ends ⊥ _)
      λ (id : ℕ × ℕ). λ e.
        and_then-Ends ⊥ (attempt (read_properties (record pk { packet_id = id.0 }) buf (id.1))) _
          (attempt-Ends ⊥ _)
          λ (r : Packet × ℕ). λ g.
            and_then-Ends ⊥ (read_filters (length buf) buf (r.1) []) _
              (read_filters-Ends (length buf) buf (r.1) [] (omega arith)) λ subs h. with_value _
