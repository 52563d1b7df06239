-- ===== src/Topics/Trie/Laws.antt =====
-- topics.go: what `set`, `seek` and `trim` leave at every path of the tree.
use mqtt_server.Prelude.{
  ◌≡◌, refl, sym, ap, ◌∙◌, inl, inr, Bool, true, false, ◌&&◌, none, some, List, [], ◌∷◌, arith,
  bytes_eq, bytes_eq_iff, if◌then◌else◌, Bool-cases, Option-cases, length, ◌≤◌,
}
use mqtt_server.Prelude.Maps.{lookup}
use mqtt_server.Packets.Codec.{Bytes}
use mqtt_server.Topics.Trie.{
  Values, no_values, Particle, Children, particle, no_children, child, values, children,
  new_particle, child_at, put_child, delete_child, children_len, or_new, set_at, trim_at, is_bare,
  SharedSubscriptions, shared_len, shared_get, or_empty,
}

pub child_at-put_child :
    (k j : Bytes) (q : Particle) (cs : Children)
    → child_at j (put_child k q cs) ≡ (if bytes_eq k j then some q else child_at j cs)
unfolding child_at put_child
child_at-put_child k j q no_children = refl
child_at-put_child k j q (child i p cs) =
    ground
      (arith, bytes_eq_iff k j, bytes_eq_iff i k, bytes_eq_iff i j, child_at-put_child k j q cs)

pub child_at-delete_child :
    (k j : Bytes) (cs : Children)
    → child_at j (delete_child k cs) ≡ (if bytes_eq k j then none else child_at j cs)
unfolding child_at delete_child
child_at-delete_child k j no_children = ground arith
child_at-delete_child k j (child i p cs) =
    ground
      (arith, bytes_eq_iff k j, bytes_eq_iff i k, bytes_eq_iff i j, child_at-delete_child k j cs)

-- The values at a path; a particle that is not there holds nothing.
abbrev pub vals : List Bytes → Particle → Values
vals [] p = values p
vals (k ∷ ks) p = vals ks (or_new (child_at k (children p)))

unfoldable pub path_eq : List Bytes → List Bytes → Bool
path_eq [] [] = true
path_eq [] (k ∷ ks) = false
path_eq (j ∷ js) [] = false
path_eq (j ∷ js) (k ∷ ks) = bytes_eq k j && path_eq js ks

pub vals-new_particle : (ks : List Bytes) → vals ks new_particle ≡ no_values
unfolding child_at
vals-new_particle [] = refl
vals-new_particle (k ∷ ks) = vals-new_particle ks

-- `set` followed by a change `f` of the particle changes the values at that path by `f`, and those
-- at no other path, made or not.
pub vals-set_at :
    (js ks : List Bytes) (f : Values → Values) (p : Particle)
    → vals js (set_at ks f p) ≡ (if path_eq js ks then f (vals ks p) else vals js p)
unfolding set_at path_eq
vals-set_at [] [] f (particle v cs) = refl
vals-set_at (j ∷ js) [] f (particle v cs) = refl
vals-set_at [] (k ∷ ks) f (particle v cs) = refl
vals-set_at (j ∷ js) (k ∷ ks) f (particle v cs) = elim (Bool-cases (bytes_eq k j)) [
  | inl e ↦ rw (child_at-put_child k j (set_at ks f (or_new (child_at k cs))) cs) (
      rw e (
        vals-set_at js ks f (or_new (child_at k cs))
        ∙ ap
            (λ (i : Bytes).
              if path_eq js ks
              then f (vals ks (or_new (child_at k cs)))
              else vals js (or_new (child_at i cs)))
            ((bytes_eq_iff k j).0 e)))
  | inr e ↦ rw (child_at-put_child k j (set_at ks f (or_new (child_at k cs))) cs) (rw e refl)
]

no_entries {ℓ} : {A : Type ℓ} (m : List A) → length m ≤ 0 → m ≡ []
no_entries [] h = refl
no_entries (x ∷ xs) h = absurd (omega arith)

bare_childless : (v : Values) (cs : Children) → is_bare (particle v cs) ≡ true → children_len cs ≤ 0
unfolding is_bare
bare_childless v cs h = ground arith

no_child : (cs : Children) → children_len cs ≤ 0 → cs ≡ no_children
unfolding children_len
no_child no_children h = refl
no_child (child k p cs) h = absurd (omega arith)

-- The way back of `trim` from a child `q`.
abbrev back : Bytes → Particle → Children → Children
back k q cs = if is_bare q then delete_child k cs else put_child k q cs

-- What `g` reads of the values of a particle, and reads of a bare one as of an empty one.
module _ {ℓ} {B : Type ℓ} (g : Values → B)
    (bare : (v : Values) → is_bare (particle v no_children) ≡ true → g v ≡ g no_values) where
  bare-vals : (js : List Bytes) (q : Particle) → is_bare q ≡ true → g (vals js q) ≡ g no_values
  unfolding child_at
  bare-vals [] (particle v cs) h = bare v (rw (no_child cs (bare_childless v cs h)) at h)
  bare-vals (j ∷ js) (particle v cs) h =
      rw (no_child cs (bare_childless v cs h)) (rw (vals-new_particle js) refl)

  values_back :
      (j k : Bytes) (js : List Bytes) (q : Particle) (cs : Children)
      → g (vals js (or_new (child_at j (back k q cs))))
        ≡ (if bytes_eq k j then g (vals js q) else g (vals js (or_new (child_at j cs))))
  values_back j k js q cs = elim (Bool-cases (is_bare q)) [
    | inl b ↦
        rw (b, child_at-delete_child k j cs)
          (elim (Bool-cases (bytes_eq k j)) [
            | inl e ↦ rw e (rw (vals-new_particle js, bare-vals js q b) refl)
            | inr e ↦ rw e refl
          ])
    | inr b ↦
        rw (b, child_at-put_child k j q cs)
          (elim (Bool-cases (bytes_eq k j)) [ inl e ↦ rw e refl | inr e ↦ rw e refl ])
  ]

  absent_child :
      (j k : Bytes) (js ks : List Bytes) (f : Values → Values) (cs : Children)
      → g (f no_values) ≡ g no_values
      → child_at k cs ≡ none
      → g (vals js (or_new (child_at j cs))) ≡ (
          if bytes_eq k j && path_eq js ks
          then g (f (vals ks new_particle))
          else g (vals js (or_new (child_at j cs))))
  absent_child j k js ks f cs h e = elim (Bool-cases (bytes_eq k j)) [
    | inr a ↦ rw a refl
    | inl a ↦ elim (Bool-cases (path_eq js ks)) [
      | inr b ↦ rw (a, b) refl
      | inl b ↦
          rw (a, b)
            (ap (λ (i : Bytes). g (vals js (or_new (child_at i cs)))) (sym ((bytes_eq_iff k j).0 a))
              ∙ rw (e, vals-new_particle js, vals-new_particle ks) (sym h))
    ]
  ]

  -- A change of a particle that `trim` follows changes what is read at that path, and at no other path:
  -- what `trim` cuts off held nothing.
  pub trim_at-vals :
      (js ks : List Bytes) (f : Values → Values) (p : Particle)
      → g (f no_values) ≡ g no_values
      → g (vals js (trim_at ks f p)) ≡ (if path_eq js ks then g (f (vals ks p)) else g (vals js p))
  unfolding trim_at path_eq
  trim_at-vals [] [] f (particle v cs) h = refl
  trim_at-vals (j ∷ js) [] f (particle v cs) h = refl
  trim_at-vals [] (k ∷ ks) f (particle v cs) h = elim (Option-cases (child_at k cs)) [
    | inl e ↦ rw (e, trim_at) refl
    | inr (p, e) ↦ rw (e, trim_at) refl
  ]
  trim_at-vals (j ∷ js) (k ∷ ks) f (particle v cs) h = elim (Option-cases (child_at k cs)) [
    | inl e ↦ rw (e, trim_at) (absent_child j k js ks f cs h e)
    | inr (p, e) ↦
        rw (e, trim_at)
          (values_back j k js (trim_at ks f p) cs ∙ (elim (Bool-cases (bytes_eq k j)) [
            | inl a ↦ rw a (
                trim_at-vals js ks f p h
                ∙ sym (
                    ap (λ o. if path_eq js ks then g (f (vals ks p)) else g (vals js (or_new o)))
                      (ap (λ (i : Bytes). child_at i cs) (sym ((bytes_eq_iff k j).0 a)) ∙ e)))
            | inr a ↦ rw a refl
          ]))
  ]

no_share :
    (group client : Bytes) (s : SharedSubscriptions)
    → shared_len s ≤ 0
    → shared_get s group client ≡ shared_get [] group client
unfolding shared_len shared_get lookup or_empty
no_share group client [] h = refl
no_share group client ((k, subs) ∷ s) h =
    let empty : subs ≡ [] = no_entries subs (omega arith) in
    elim (Bool-cases (bytes_eq k group)) [
      | inl e ↦ rw (e, lookup) (rw empty refl)
      | inr e ↦ rw (e, lookup) (no_share group client s (omega arith))
    ]

-- What a bare particle holds: no subscription of any kind.
pub bare_subscriptions :
    (v : Values) → is_bare (particle v no_children) ≡ true → v.subscriptions ≡ []
unfolding is_bare
bare_subscriptions v h = no_entries v.subscriptions (ground arith)

pub bare_inline :
    (v : Values) → is_bare (particle v no_children) ≡ true → v.inline_subscriptions ≡ []
unfolding is_bare
bare_inline v h = no_entries v.inline_subscriptions (ground arith)

pub bare_shared :
    (group client : Bytes) (v : Values)
    → is_bare (particle v no_children) ≡ true
    → shared_get v.shared group client ≡ shared_get [] group client
unfolding is_bare
bare_shared group client v h = no_share group client v.shared (ground arith)
