-- ===== src/Ledger.antt =====
-- hooks/auth/ledger.go: the authentication and access rules. A string is its bytes.
pub mod Matching
pub mod Strings
pub mod Rules
mod Tests
use mqtt_server.Prelude.{
  ℕ, suc, ◌+◌, Bool, true, false, not, ◌&&◌, ◌||◌, Option, none, some, List, [], ◌∷◌, ◌++◌, ltb,
  ◌==◌, bytes_eq, if◌then◌else◌, length, take,
}
use mqtt_server.Prelude.Maps.{Map, lookup, size, string_eq}
use mqtt_server.Packets.Codec.{Bytes}
use mqtt_server.Topics.Filter.{cut_at, slash}
use mqtt_server.Topics.Filter.Levels.{levels}

-- `Access` is a byte.
abbrev pub read_only : ℕ
read_only = 1

abbrev pub write_only : ℕ
write_only = 2

abbrev pub read_write : ℕ
read_write = 3

abbrev pub Filters : Type 0
Filters = Map Bytes ℕ

pub record UserRule : Type 0 where
  pub username : Bytes
  pub password : Bytes
  pub acl : Filters
  pub disallow : Bool

pub record AuthRule : Type 0 where
  pub client : Bytes
  pub username : Bytes
  pub remote : Bytes
  pub password : Bytes
  pub allow : Bool

pub record AclRule : Type 0 where
  pub client : Bytes
  pub username : Bytes
  pub remote : Bytes
  pub filters : Filters

-- The map of users may be nil; a lookup in it finds nothing, as in an empty one.
pub record Ledger : Type 0 where
  pub users : Map Bytes UserRule
  pub auth : List AuthRule
  pub acl : List AclRule

-- What the rules read of a client.
pub record Client : Type 0 where
  pub id : Bytes
  pub username : Bytes
  pub remote : Bytes

abbrev pub star : Bytes
star = b'*' ∷ []

-- `i > 0 && len(a) > i && rr[:i] == a[:i]`, where `i` is the index of the first star.
starred : Bytes → Bytes → Bool
unfolding cut_at
starred rr a = elim (cut_at b'*' rr) [
  | none ↦ false
  | some (before, behind) ↦
      ltb 0 (length before)
      && ltb (length before) (length a)
      && bytes_eq before (take (length before) a)
]

unfoldable pub rule_matches : Bytes → Bytes → Bool
unfolding starred
rule_matches r a = bytes_eq r [] || bytes_eq r star || bytes_eq a r || starred r a

-- `strings.Join(parts, "/")`
unfoldable pub join : List Bytes → Bytes
join [] = []
join (l ∷ []) = l
join (l ∷ m ∷ ls) = l ++ (slash ∷ join (m ∷ ls))

abbrev pub plus_level : Bytes
plus_level = b'+' ∷ []

abbrev pub hash_level : Bytes
hash_level = b'#' ∷ []

-- The loop over the parts of the filter, with the elements so far.
unfoldable pub match_parts : List Bytes → List Bytes → List Bytes → List Bytes × Bool
match_parts [] ts elements = (elements, true)
match_parts (f ∷ fs) [] elements = (elements, false)
match_parts (f ∷ fs) (t ∷ ts) elements =
    let wild = match_parts fs ts (elements ++ (t ∷ [])) in
    let same = match_parts fs ts elements in
    if bytes_eq f plus_level
    then wild
    else if bytes_eq f hash_level
    then (elements ++ (join (t ∷ ts) ∷ []), true)
    else if not (bytes_eq f t)
    then (elements, false)
    else same

unfoldable pub match_topic : Bytes → Bytes → List Bytes × Bool
unfolding match_parts
match_topic filter topic = match_parts (levels filter) (levels topic) []

abbrev pub filter_matches : Bytes → Bytes → Bool
filter_matches filter topic = (match_topic filter topic).1

unfoldable pub auth_rule_matches : Client → Bytes → AuthRule → Bool
auth_rule_matches cl password rule =
    rule_matches rule.client cl.id
    && rule_matches rule.username cl.username
    && rule_matches rule.password password
    && rule_matches rule.remote cl.remote

-- The loop over the rules, from index `n` on.
unfoldable pub auth_rules : Client → Bytes → ℕ → List AuthRule → ℕ × Bool
auth_rules cl password n [] = (0, false)
auth_rules cl password n (rule ∷ rules) =
    let rest = auth_rules cl password (suc n) rules in
    if auth_rule_matches cl password rule then (n, rule.allow) else rest

-- Does the map of users settle the question: a user with a password that is not empty and is given?
unfoldable pub user_allows : Map Bytes UserRule → Client → Bytes → Option Bool
user_allows users cl password = elim (lookup cl.username users) [
  | none ↦ none
  | some u ↦
      if not (bytes_eq u.password []) && bytes_eq u.password password
      then some (not u.disallow)
      else none
]

unfoldable pub auth_ok : Ledger → Client → Bytes → ℕ × Bool
unfolding user_allows auth_rules
auth_ok l cl password = elim (user_allows l.users cl password) [
  | some allowed ↦ (0, allowed)
  | none ↦ auth_rules cl password 0 l.auth
]

-- Does an access cover the reading, or the writing?
abbrev pub grants : Bool → ℕ → Bool
grants write access =
    if write
    then access == write_only || access == read_write
    else access == read_only || access == read_write

-- The first filter of a user that matches, in the order of the range loop.
unfoldable pub user_acl : Bytes → Bool → Filters → Option Bool
user_acl topic write [] = none
user_acl topic write ((filter, access) ∷ acl) =
    let rest = user_acl topic write acl in
    if filter_matches filter topic then some (grants write access) else rest

-- Is there a filter that matches and whose access covers it?
unfoldable pub any_grants : Bytes → Bool → Filters → Bool
any_grants topic write [] = false
any_grants topic write ((filter, access) ∷ fs) =
    (grants write access && filter_matches filter topic) || any_grants topic write fs

unfoldable pub any_matches : Bytes → Filters → Bool
any_matches topic [] = false
any_matches topic ((filter, access) ∷ fs) = filter_matches filter topic || any_matches topic fs

unfoldable pub acl_rules : Client → Bytes → Bool → ℕ → List AclRule → ℕ × Bool
unfolding any_grants any_matches
acl_rules cl topic write n [] = (0, true)
acl_rules cl topic write n (rule ∷ rules) =
    let rest = acl_rules cl topic write (suc n) rules in
    if not (
      rule_matches rule.client cl.id
      && rule_matches rule.username cl.username
      && rule_matches rule.remote cl.remote)
    then rest
    else if size rule.filters == 0
    then (n, true)
    else if any_grants topic write rule.filters
    then (n, true)
    else if any_matches topic rule.filters
    then (n, false)
    else rest

-- The filters of the user in the map of users decide first, if one matches.
abbrev user_filters : Ledger → Client → Filters
user_filters l cl = elim (lookup cl.username l.users) [ none ↦ [] | some u ↦ u.acl ]

unfoldable pub acl_ok : Ledger → Client → Bytes → Bool → ℕ × Bool
unfolding user_acl acl_rules
acl_ok l cl topic write = elim (user_acl topic write (user_filters l cl)) [
  | some allowed ↦ (0, allowed)
  | none ↦ acl_rules cl topic write 0 l.acl
]

-- `Update` replaces the rules, but not the users.
unfoldable pub update : Ledger → Ledger → Ledger
update l ln = record l { auth = ln.auth; acl = ln.acl }
