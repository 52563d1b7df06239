-- ===== src/Ledger/Tests.antt =====
-- Runs of the ledger, and the theorems at concrete inputs.
use mqtt_server.Prelude.{◌↔◌, not, ◌≡◌, ◌⊎◌, ◌↔◌, ℕ, refl, Bool, true, false, [], ◌∷◌, bytes_eq}
use mqtt_server.Prelude.Maps.{lookup}
use mqtt_server.Packets.Codec.{Bytes}
use mqtt_server.Topics.Filter.Levels.{levels}
use mqtt_server.Ledger.{
  Ledger, UserRule, Client, match_topic, filter_matches, auth_ok, rule_matches, auth_rule_matches,
}
use mqtt_server.Ledger.Matching.{CoversFront, match_topic-CoversFront}
use mqtt_server.Ledger.Strings.{Accepts, rule_matches-Accepts}
use mqtt_server.Ledger.Rules.{FirstRule, Decides, auth_ok-FirstRule}

abbrev a_b : Bytes
a_b = b'a' ∷ b'/' ∷ b'b' ∷ []

abbrev a_b_c : Bytes
a_b_c = b'a' ∷ b'/' ∷ b'b' ∷ b'/' ∷ b'c' ∷ []

-- A filter accepts a topic that is longer.
match_topic_longer : filter_matches a_b a_b_c ≡ true
unfolding match_topic levels bytes_eq
match_topic_longer = refl

match_topic-CoversFront_example :
    (filter_matches a_b a_b_c ≡ true) ↔ CoversFront (levels a_b) (levels a_b_c)
match_topic-CoversFront_example = match_topic-CoversFront a_b a_b_c

-- The first rule is for the client `x*`, the second for everyone.
abbrev two_rules : Ledger
two_rules = record {
  users = [];
  auth =
      record { client = b'x' ∷ b'*' ∷ []; username = []; remote = []; password = []; allow = false }
      ∷ record { client = []; username = []; remote = []; password = []; allow = true }
      ∷ [];
  acl = [];
}

abbrev client_x1 : Client
client_x1 = record { id = b'x' ∷ b'1' ∷ []; username = []; remote = [] }

auth_ok_refuses : ◌≡◌ {A = ℕ × Bool} (auth_ok two_rules client_x1 []) (0, false)
unfolding auth_ok lookup auth_rule_matches rule_matches bytes_eq
auth_ok_refuses = refl

auth_ok-FirstRule_example :
    ((u : UserRule) × Decides client_x1 [] (two_rules).users u
      × ◌≡◌ {A = ℕ × Bool} (auth_ok two_rules client_x1 []) (0, not u.disallow))
    ⊎ (((u : UserRule) → ¬ Decides client_x1 [] (two_rules).users u)
        × FirstRule client_x1 [] 0 (two_rules).auth (auth_ok two_rules client_x1 []))
auth_ok-FirstRule_example = auth_ok-FirstRule client_x1 [] two_rules

-- `x*` accepts `x1`.
rule_matches-Accepts_example :
    (rule_matches (b'x' ∷ b'*' ∷ []) (b'x' ∷ b'1' ∷ []) ≡ true)
    ↔ Accepts (b'x' ∷ b'*' ∷ []) (b'x' ∷ b'1' ∷ [])
rule_matches-Accepts_example = rule_matches-Accepts (b'x' ∷ b'*' ∷ []) (b'x' ∷ b'1' ∷ [])
