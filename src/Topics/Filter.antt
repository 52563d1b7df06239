-- ===== src/Topics/Filter.antt =====
-- topics.go: the levels of a topic or a filter, and which filters are valid. A string is its bytes.
pub mod Levels
pub mod Valid
use mqtt_server.Prelude.{
  ℕ, zero, suc, ◌+◌, Bool, true, false, not, ◌&&◌, ◌||◌, Option, none, some, List, [], ◌∷◌, ltb,
  leb, ◌==◌, if◌then◌else◌, length, take, bytes_eq,
}
use mqtt_server.Packets.Codec.{Bytes}

abbrev pub slash : ℕ
slash = b'/'

-- `strings.IndexRune(s, c)` at an ASCII rune, as the text before and the text behind it.
unfoldable pub cut_at : ℕ → Bytes → Option (Bytes × Bytes)
cut_at c [] = none
cut_at c (x ∷ xs) =
    let rest = cut_at c xs in
    if x == c
    then some ([], xs)
    else elim rest [ none ↦ none | some (before, behind) ↦ some (x ∷ before, behind) ]

-- The loop of `isolateParticle`: round `d` takes the text before the next slash, an earlier round
-- drops it, and without a slash the text that is left is the particle.
unfoldable pub isolate_particle : Bytes → ℕ → Bytes × Bool
unfolding cut_at
isolate_particle filter zero = elim (cut_at slash filter) [
  | none ↦ (filter, false)
  | some (before, behind) ↦ (before, true)
]
isolate_particle filter (suc d) = elim (cut_at slash filter) [
  | none ↦ (filter, false)
  | some (before, behind) ↦ isolate_particle behind d
]

-- The loop of `set` and `seek`: the particles from index `d` on, until there is no next one. The fuel
-- bounds the rounds; there is at most one level more than there are bytes.
unfoldable pub keys_from : ℕ → Bytes → ℕ → List Bytes
keys_from zero filter d = []
keys_from (suc fuel) filter d =
    let (key, has_next) = isolate_particle filter d in
    let rest = keys_from fuel filter (suc d) in if has_next then key ∷ rest else key ∷ []

unfoldable pub keys : Bytes → ℕ → List Bytes
unfolding keys_from
keys filter d = keys_from (suc (length filter)) filter d

-- `strings.ContainsRune` at an ASCII rune.
unfoldable pub contains_byte : Bytes → ℕ → Bool
contains_byte [] c = false
contains_byte (x ∷ xs) c = x == c || contains_byte xs c

-- Lower case of an ASCII letter.
abbrev lower : ℕ → ℕ
lower c = if leb b'A' c && leb c b'Z' then c + 32 else c

-- `strings.EqualFold(s, t)` for an ASCII `t` without the letter k: besides upper and lower case, the
-- long s (bytes c5 bf) folds to s.
long_s : ℕ → Bytes → Option Bytes
long_s c [] = none
long_s c (d ∷ ds) = if c == 0xc5 && d == 0xbf then some ds else none

strip_folded : Bytes → ℕ → Option Bytes
unfolding long_s
strip_folded [] p = none
strip_folded (c ∷ cs) p =
    if lower c == lower p then some cs else if lower p == b's' then long_s c cs else none

unfoldable pub equal_fold : Bytes → Bytes → Bool
unfolding strip_folded
equal_fold [] [] = true
equal_fold (c ∷ cs) [] = false
equal_fold s (p ∷ ps) = elim (strip_folded s p) [ none ↦ false | some rest ↦ equal_fold rest ps ]

abbrev pub share_prefix : Bytes
share_prefix = b'$' ∷ b'S' ∷ b'H' ∷ b'A' ∷ b'R' ∷ b'E' ∷ []

abbrev pub sys_prefix : Bytes
sys_prefix = b'$' ∷ b'S' ∷ b'Y' ∷ b'S' ∷ []

abbrev pub plus : ℕ
plus = b'+'

abbrev pub hash : ℕ
hash = b'#'

unfoldable pub is_shared_filter : Bytes → Bool
unfolding isolate_particle equal_fold
is_shared_filter filter = equal_fold (isolate_particle filter 0).0 share_prefix

-- `wildhash >= 0 && wildhash != len(filter)-1`: the first hash, if any, is not the last byte.
hash_before_end : Bytes → Bool
unfolding cut_at
hash_before_end filter = elim (cut_at hash filter) [
  | none ↦ false
  | some (before, behind) ↦ not (bytes_eq behind [])
]

-- The tests that `IsValidFilter` makes only for a topic that is published to.
bad_for_publish : Bytes → Bool
unfolding equal_fold contains_byte
bad_for_publish filter =
    (leb (length sys_prefix) (length filter)
      && equal_fold (take (length sys_prefix) filter) sys_prefix)
    || contains_byte filter plus
    || contains_byte filter hash

-- A share prefix wants a group, without wildcards, and a topic behind it.
bad_share : Bytes → Bool
unfolding isolate_particle equal_fold contains_byte
bad_share filter =
    let (prefix, has_next) = isolate_particle filter 0 in
    let (group, has_topic) = isolate_particle filter 1 in
    (not has_next && equal_fold prefix share_prefix)
    || (has_next
        && equal_fold prefix share_prefix
        && (not has_topic || contains_byte group plus || contains_byte group hash))

unfoldable pub is_valid_filter : Bytes → Bool → Bool
unfolding hash_before_end bad_for_publish bad_share
is_valid_filter filter for_publish =
    if not for_publish && length filter == 0
    then false
    else if for_publish && bad_for_publish filter
    then false
    else if hash_before_end filter
    then false
    else not (bad_share filter)
