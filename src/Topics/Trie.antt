-- ===== src/Topics/Trie.antt =====
-- topics.go: the particles of the index, a tree by topic levels. The source's parent pointers are the
-- path from the root; `trim` climbs them, here the way back of the recursion.
pub mod Laws
use mqtt_server.Prelude.{
  ℕ, ◌+◌, Bool, true, false, ◌&&◌, Option, none, some, List, [], ◌∷◌, ◌==◌, bytes_eq, if◌then◌else◌,
}
use mqtt_server.Prelude.Int.{ℤ, eq_ℤ, eq_ℤ_iff}
use mqtt_server.Prelude.Maps.{Map, Eq, lookup, insert, delete, size, is_some, string_eq}
use mqtt_server.Packets.Codec.{Bytes}
use mqtt_server.Packets.Packet.{Subscription}

instance abbrev pub int_eq : Eq ℤ
int_eq = record { beq = eq_ℤ; beq_iff = eq_ℤ_iff }

-- The handler is a callback of the embedding program; the model keeps its name.
pub record InlineSubscription : Type 0 where
  pub subscription : Subscription
  pub handler : ℕ

-- Group name, then client id.
abbrev pub SharedSubscriptions : Type 0
SharedSubscriptions = Map Bytes (Map Bytes Subscription)

or_empty : Option (Map Bytes Subscription) → Map Bytes Subscription
or_empty none = []
or_empty (some m) = m

unfoldable pub shared_add : SharedSubscriptions → Bytes → Bytes → Subscription → SharedSubscriptions
unfolding or_empty
shared_add s group id val = insert group (insert id val (or_empty (lookup group s))) s

unfoldable pub shared_delete : SharedSubscriptions → Bytes → Bytes → SharedSubscriptions
unfolding or_empty
shared_delete s group id =
    let rest = delete id (or_empty (lookup group s)) in
    if size rest == 0 then delete group s else insert group rest s

unfoldable pub shared_get : SharedSubscriptions → Bytes → Bytes → Option Subscription
unfolding or_empty
shared_get s group id = lookup id (or_empty (lookup group s))

-- `GroupLen` is the size of the map, `Len` the number of subscriptions in all groups.
unfoldable pub shared_len : SharedSubscriptions → ℕ
shared_len [] = 0
shared_len ((group, subs) ∷ s) = size subs + shared_len s

-- What a particle holds besides its children.
pub record Values : Type 0 where
  pub subscriptions : Map Bytes Subscription
  pub shared : SharedSubscriptions
  pub inline_subscriptions : Map ℤ InlineSubscription
  pub retain_path : Bytes

abbrev pub no_values : Values
no_values = record { subscriptions = []; shared = []; inline_subscriptions = []; retain_path = [] }

mutual
  pub data Particle : Type 0 where
    particle : Values → Children → Particle

  pub data Children : Type 0 where
    no_children : Children
    child : Bytes → Particle → Children → Children

abbrev pub values : Particle → Values
values (particle v cs) = v

abbrev pub children : Particle → Children
children (particle v cs) = cs

-- `newParticle`
abbrev pub new_particle : Particle
new_particle = particle no_values no_children

-- The map of child particles: `get`, `add`, `delete` and `len`.
unfoldable pub child_at : Bytes → Children → Option Particle
child_at key no_children = none
child_at key (child k p cs) = if bytes_eq k key then some p else child_at key cs

unfoldable pub put_child : Bytes → Particle → Children → Children
put_child key q no_children = child key q no_children
put_child key q (child k p cs) =
    let rest = put_child key q cs in if bytes_eq k key then child key q cs else child k p rest

unfoldable pub delete_child : Bytes → Children → Children
delete_child key no_children = no_children
delete_child key (child k p cs) =
    let rest = delete_child key cs in if bytes_eq k key then rest else child k p rest

unfoldable pub children_len : Children → ℕ
children_len no_children = 0
children_len (child k p cs) = 1 + children_len cs

-- `if p == nil { p = newParticle(key, n) }`
abbrev pub or_new : Option Particle → Particle
or_new none = new_particle
or_new (some p) = p

-- `set` walks down the keys, makes the particles that are missing, and returns the last, to which
-- its caller applies `f`.
unfoldable pub set_at : List Bytes → (Values → Values) → Particle → Particle
set_at [] f (particle v cs) = particle (f v) cs
set_at (key ∷ ks) f (particle v cs) =
    particle v (put_child key (set_at ks f (or_new (child_at key cs))) cs)

unfoldable pub seek : List Bytes → Particle → Option Particle
seek [] p = some p
seek (key ∷ ks) (particle v cs) = elim (child_at key cs) [ none ↦ none | some p ↦ seek ks p ]

-- The test of `trim`: no retained message, no child and no subscription of any kind.
unfoldable pub is_bare : Particle → Bool
is_bare (particle v cs) =
    bytes_eq v.retain_path []
    && (children_len cs + size v.subscriptions + shared_len v.shared + size v.inline_subscriptions
        == 0)

-- A caller of `seek` that changes the particle by `f`, and then calls `trim` on it.
unfoldable pub trim_at : List Bytes → (Values → Values) → Particle → Particle
trim_at [] f (particle v cs) = particle (f v) cs
trim_at (key ∷ ks) f (particle v cs) = elim (child_at key cs) [
  | none ↦ particle v cs
  | some p ↦
      let q = trim_at ks f p in
      particle v (if is_bare q then delete_child key cs else put_child key q cs)
]
