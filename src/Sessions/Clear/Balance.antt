-- ===== src/Sessions/Clear/Balance.antt =====
-- clients.go: `ClearInflights` and the server's count of messages in flight.
use mqtt_server.Prelude.{
  ℕ, ◌≡◌, refl, sym, ap, ◌∙◌, ◌⊎◌, inl, inr, Bool, true, false, not, ◌&&◌, ◌||◌, Option, none, some,
  List, [], ◌∷◌, arith, ◌==◌, ==_iff, if◌then◌else◌, leb, All, Bool-cases,
}
use mqtt_server.Prelude.Int.{pos, ◌-ℤ◌, int_laws, pos_part, neg_part}
use mqtt_server.Prelude.Maps.{Map, lookup, delete, held, nat_eq, IsMap, count-delete, lookup-delete}
use mqtt_server.Packets.Packet.{Packet}
use mqtt_server.Inflight.{
  get_all, collect, sort_created, insert_sorted, delete_entry, is_reserved, created_key,
}
use mqtt_server.Inflight.Invariant.{IsValid, IsKeyed, Step-IsValid, step_delete}
use mqtt_server.Sessions.Acks.{Session}
use mqtt_server.Sessions.Acks.Balance.{
  IsBalanced, is_counted, counted, one_less, same_number, counted_deleted, reserved_deleted,
}
use mqtt_server.Sessions.Clear.{clear_each, clear_inflights}

-- Each packet of the snapshot still stands under its id, or nothing does.
abbrev IsCurrent : Map ℕ Packet → Packet → Type 0
IsCurrent m p = (lookup p.packet_id m ≡ some p) ⊎ (lookup p.packet_id m ≡ none)

insert_sorted-All :
    (P : Packet → Type 0) (p : Packet) (ps : List Packet)
    → P p
    → All P ps
    → All P (insert_sorted p ps)
unfolding insert_sorted
insert_sorted-All P p [] h hs = (h, tt)
insert_sorted-All P p (q ∷ qs) h (k, ks) = elim (Bool-cases (leb (created_key p) (created_key q))) [
  | inl e ↦ rw e (h, (k, ks))
  | inr e ↦ rw e (k, insert_sorted-All P p qs h ks)
]

sort_created-All : (P : Packet → Type 0) (ps : List Packet) → All P ps → All P (sort_created ps)
unfolding sort_created
sort_created-All P [] h = tt
sort_created-All P (p ∷ ps) (h, hs) =
    insert_sorted-All P p (sort_created ps) h (sort_created-All P ps hs)

at_head : (k : ℕ) (v : Packet) (m : Map ℕ Packet) → lookup k ((k, v) ∷ m) ≡ some v
unfolding lookup
at_head k v m = rw ((==_iff k k).1 refl) refl

in_tail :
    (k j : ℕ) (v w : Packet) (m : Map ℕ Packet)
    → lookup k m ≡ none
    → lookup j m ≡ some w
    → lookup j ((k, v) ∷ m) ≡ some w
unfolding lookup
in_tail k j v w m fresh l = elim (Bool-cases (k == j)) [
  | inl e ↦ absurd (clash (sym (ap (λ (i : ℕ). lookup i m) ((==_iff k j).0 e) ∙ l) ∙ fresh))
  | inr e ↦ rw e l
]
  where
    clash : some w ≡ none → ⊥
    clash h = cc

collect-All :
    (whole m : Map ℕ Packet)
    → IsMap m
    → IsKeyed m
    → ((k : ℕ) (v : Packet) → lookup k m ≡ some v → lookup k whole ≡ some v)
    → All (IsCurrent whole) (collect false m)
unfolding collect lookup
collect-All whole [] u h sub = tt
collect-All whole ((k, v) ∷ m) (fresh, u) (e, h) sub = (
  inl (ap (λ (j : ℕ). lookup j whole) e ∙ sub k v (at_head k v m)),
  collect-All whole m u h (λ j w l. sub j w (in_tail k j v w m fresh l)),
)

has : ℕ → List Packet → Bool
has id [] = false
has id (p ∷ ps) = p.packet_id == id || has id ps

has-insert_sorted :
    (id : ℕ) (p : Packet) (ps : List Packet)
    → has id (insert_sorted p ps) ≡ (p.packet_id == id || has id ps)
unfolding insert_sorted has
has-insert_sorted id p [] = refl
has-insert_sorted id p (q ∷ qs) = ground (arith, has-insert_sorted id p qs)

has-sort_created : (id : ℕ) (ps : List Packet) → has id (sort_created ps) ≡ has id ps
unfolding sort_created has
has-sort_created id [] = refl
has-sort_created id (p ∷ ps) =
    has-insert_sorted id p (sort_created ps)
    ∙ ap (λ b. p.packet_id == id || b) (has-sort_created id ps)

has-collect :
    (id : ℕ) (m : Map ℕ Packet) → IsKeyed m → has id (collect false m) ≡ false → lookup id m ≡ none
unfolding has collect lookup
has-collect id [] h e = refl
has-collect id ((k, v) ∷ m) (p, h) e = ground (arith, has-collect id m h)

-- The state after one round.
abbrev step : Session → Packet → Session
step c tk = record {
  inflight = (delete_entry c.inflight tk.packet_id).0;
  info_inflight =
      if (delete_entry c.inflight tk.packet_id).1 && not (is_reserved tk)
      then c.info_inflight -ℤ pos 1
      else c.info_inflight;
}

lookup-clear_each :
    (ps : List Packet) (c : Session) (id : ℕ)
    → lookup id (clear_each ps c).0.inflight.internal
      ≡ (if has id ps then none else lookup id c.inflight.internal)
unfolding clear_each has delete_entry
lookup-clear_each [] c id = refl
lookup-clear_each (p ∷ ps) c id =
    lookup-clear_each ps (step c p) id
    ∙ ap (λ (o : Option Packet). if has id ps then none else o)
        (lookup-delete p.packet_id id c.inflight.internal)
    ∙ either (p.packet_id == id) (has id ps)
  where
    either :
        (a b : Bool)
        → (if b then none else if a then none else lookup id c.inflight.internal)
          ≡ (if a || b then none else lookup id c.inflight.internal)
    either true true = refl
    either true false = refl
    either false true = refl
    either false false = refl

step-IsBalanced :
    (c : Session) (p : Packet)
    → IsValid c.inflight
    → IsCurrent c.inflight.internal p
    → IsBalanced c (step c p)
unfolding delete_entry
step-IsBalanced c p v (inl e) = elim (Bool-cases (is_reserved p)) [
  | inl r ↦
      rw (e, r)
        (same_number c (delete_entry c.inflight p.packet_id).0
          (reserved_deleted c p.packet_id p v e r))
  | inr r ↦
      rw (e, r) (one_less c.info_inflight (counted c) _ (counted_deleted c p.packet_id p v e r))
]
step-IsBalanced c p v (inr e) =
    let zero_held : held is_counted (lookup p.packet_id c.inflight.internal) ≡ 0 = rw e refl in
    rw e (
      same_number c (delete_entry c.inflight p.packet_id).0 (
        omega (arith, count-delete is_counted p.packet_id c.inflight.internal v.unique, zero_held)))

IsBalanced-trans : (c d e : Session) → IsBalanced c d → IsBalanced d e → IsBalanced c e
IsBalanced-trans c d e h k =
    omega (int_laws, ap pos_part h, ap neg_part h, ap pos_part k, ap neg_part k)

still-IsCurrent :
    (id : ℕ) (m : Map ℕ Packet) (ps : List Packet)
    → All (IsCurrent m) ps
    → All (IsCurrent (delete id m)) ps
still-IsCurrent id m [] h = tt
still-IsCurrent id m (p ∷ ps) (h, hs) = (one h, still-IsCurrent id m ps hs)
  where
    one : IsCurrent m p → IsCurrent (delete id m) p
    one h = elim (Bool-cases (id == p.packet_id)) [
      | inl e ↦ inr (lookup-delete id p.packet_id m ∙ rw e refl)
      | inr e ↦ elim h [
        | inl l ↦ inl (lookup-delete id p.packet_id m ∙ rw e l)
        | inr l ↦ inr (lookup-delete id p.packet_id m ∙ rw e l)
      ]
    ]

clear_each-IsBalanced :
    (ps : List Packet) (c : Session)
    → IsValid c.inflight
    → All (IsCurrent c.inflight.internal) ps
    → IsBalanced c (clear_each ps c).0
unfolding clear_each delete_entry
clear_each-IsBalanced [] c v h = refl
clear_each-IsBalanced (p ∷ ps) c v (h, hs) =
    IsBalanced-trans c (step c p) (clear_each ps (step c p)).0 (step-IsBalanced c p v h) (
      clear_each-IsBalanced ps (step c p) (Step-IsValid (step_delete c.inflight p.packet_id) v)
        (still-IsCurrent p.packet_id c.inflight.internal ps hs))

-- After ClearInflights of a valid state no packet id holds a message, and the server's count moved by as
-- much as the number of entries that are no reservations.
pub clear_inflights-IsBalanced :
    (c : Session)
    → IsValid c.inflight
    → ((id : ℕ) → lookup id (clear_inflights c).0.inflight.internal ≡ none)
      × IsBalanced c (clear_inflights c).0
unfolding clear_inflights get_all
clear_inflights-IsBalanced c v =
    let all = collect false c.inflight.internal in
    (
      λ id. lookup-clear_each (sort_created all) c id ∙ rw (has-sort_created id all) (gone id),
      clear_each-IsBalanced (sort_created all) c v (
          sort_created-All (IsCurrent c.inflight.internal) all
            (collect-All c.inflight.internal c.inflight.internal v.unique v.keyed (λ k w l. l))),
    )
  where
    gone :
        (id : ℕ)
        → (if has id (collect false c.inflight.internal)
            then none
            else lookup id c.inflight.internal)
          ≡ none
    gone id = elim (Bool-cases (has id (collect false c.inflight.internal))) [
      | inl e ↦ rw e refl
      | inr e ↦ rw e (has-collect id c.inflight.internal v.keyed e)
    ]
