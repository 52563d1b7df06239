-- ===== src/Ledger/Rules.antt =====
-- hooks/auth/ledger.go: `AuthOk` and the order of its rules.
use mqtt_server.Prelude.{
  ℕ, suc, ◌+◌, ◌≡◌, ◌≢◌, refl, sym, ap, ◌∙◌, ◌⊎◌, inl, inr, Bool, true, false, not, ◌&&◌, none,
  some, List, [], ◌∷◌, ◌++◌, arith, length, All, Bool-cases, Option-cases, bytes_eq, bytes_eq_iff,
}
use mqtt_server.Prelude.Maps.{Map, lookup, string_eq}
use mqtt_server.Packets.Codec.{Bytes}
use mqtt_server.Ledger.Strings.{Accepts, rule_matches-Accepts}
use mqtt_server.Ledger.{
  Ledger, UserRule, AuthRule, Client, auth_rule_matches, auth_rules, user_allows, auth_ok,
}

both : (a b : Bool) → a && b ≡ true → (a ≡ true) × (b ≡ true)
both a b h = ground arith

all_four :
    (a b c d : Bool) → a && b && c && d ≡ true → (a ≡ true) × (b ≡ true) × (c ≡ true) × (d ≡ true)
all_four a b c d h = ground arith

some_inj : (a b : Bool) → some a ≡ some b → a ≡ b
some_inj a b h = cc

is_empty : (p : Bytes) → p ≢ [] → bytes_eq p [] ≡ false
is_empty p d = elim (Bool-cases (bytes_eq p [])) [
  | inl e ↦ absurd (d ((bytes_eq_iff p []).0 e))
  | inr e ↦ e
]

not_empty : (p : Bytes) → not (bytes_eq p []) ≡ true → p ≢ []
not_empty p h = λ e. absurd (ground (arith, h, (bytes_eq_iff p []).1 e))

module _ (cl : Client) (password : Bytes) where
  -- A rule matches if each of its four strings accepts that of the client.
  pub record Matches (rule : AuthRule) : Type 0 where
    pub by_client : Accepts rule.client cl.id
    pub by_username : Accepts rule.username cl.username
    pub by_password : Accepts rule.password password
    pub by_remote : Accepts rule.remote cl.remote

  abbrev pub Fails : AuthRule → Type 0
  Fails rule = ¬ Matches rule

  -- The entry of a user decides if it is there, under a password that is not empty and is given.
  pub record Decides (users : Map Bytes UserRule) (u : UserRule) : Type 0 where
    pub entry : lookup cl.username users ≡ some u
    pub secret : u.password ≢ []
    pub given : u.password ≡ password

  auth_rule_matches-Matches :
      (rule : AuthRule) → auth_rule_matches cl password rule ≡ true → Matches rule
  unfolding auth_rule_matches
  auth_rule_matches-Matches rule h =
      let (c, u, p, r) = all_four _ _ _ _ h in
      record {
        by_client = (rule_matches-Accepts rule.client cl.id).0 c;
        by_username = (rule_matches-Accepts rule.username cl.username).0 u;
        by_password = (rule_matches-Accepts rule.password password).0 p;
        by_remote = (rule_matches-Accepts rule.remote cl.remote).0 r;
      }

  auth_rule_matches-Fails :
      (rule : AuthRule) → auth_rule_matches cl password rule ≡ false → Fails rule
  unfolding auth_rule_matches
  auth_rule_matches-Fails rule h = λ m. absurd (
      ground (
        arith,
        h,
        (rule_matches-Accepts rule.client cl.id).1 m.by_client,
        (rule_matches-Accepts rule.username cl.username).1 m.by_username,
        (rule_matches-Accepts rule.password password).1 m.by_password,
        (rule_matches-Accepts rule.remote cl.remote).1 m.by_remote,
      ))

  -- The first rule that matches, with the rules before it, and the result that it gives; or none matches.
  abbrev pub FirstRule : ℕ → List AuthRule → ℕ × Bool → Type 0
  FirstRule n rules result =
      ((earlier : List AuthRule) × (rule : AuthRule) × (later : List AuthRule) × (rules
          ≡ earlier ++ (rule ∷ later))
        × All Fails earlier
        × Matches rule
        × ◌≡◌ {A = ℕ × Bool} result (n + length earlier, rule.allow))
      ⊎ (All Fails rules × ◌≡◌ {A = ℕ × Bool} result (0, false))

  at : (rule : AuthRule) (m n : ℕ) → m ≡ n → ◌≡◌ {A = ℕ × Bool} (m, rule.allow) (n, rule.allow)
  at rule m n e = ap (λ (k : ℕ). (k, rule.allow)) e

  auth_rules-FirstRule :
      (n : ℕ) (rules : List AuthRule) → FirstRule n rules (auth_rules cl password n rules)
  unfolding auth_rules
  auth_rules-FirstRule n [] = inr (tt, refl)
  auth_rules-FirstRule n (rule ∷ rules) = elim (Bool-cases (auth_rule_matches cl password rule)) [
    | inl m ↦ inl (
      [],
      rule,
      rules,
      refl,
      tt,
      auth_rule_matches-Matches rule m,
      rw (m, auth_rules) (at rule n (n + 0) (omega arith)),
    )
    | inr m ↦ elim (auth_rules-FirstRule (suc n) rules) [
      | inl (earlier, found, later, e, fails, hit, r) ↦ inl (
        rule ∷ earlier,
        found,
        later,
        ap (λ (rs : List AuthRule). rule ∷ rs) e,
        (auth_rule_matches-Fails rule m, fails),
        hit,
        rw (m, auth_rules)
            (r ∙ at found (suc n + length earlier) (n + suc (length earlier)) (omega arith)),
      )
      | inr (fails, r) ↦ inr ((auth_rule_matches-Fails rule m, fails), rw (m, auth_rules) r)
    ]
  ]

  user_allows-Decides :
      (users : Map Bytes UserRule) (allowed : Bool)
      → user_allows users cl password ≡ some allowed
      → (u : UserRule) × Decides users u × (allowed ≡ not u.disallow)
  unfolding user_allows
  user_allows-Decides users allowed h = elim (Option-cases (lookup cl.username users)) [
    | inl e ↦ absurd (ground (arith, rw (e, user_allows) at h))
    | inr (u, e) ↦
        elim (Bool-cases (not (bytes_eq u.password []) && bytes_eq u.password password)) [
          | inl c ↦
              let (secret, given) = both (not (bytes_eq u.password [])) _ c in
              (
                u,
                record {
                  entry = e;
                  secret = not_empty u.password secret;
                  given = (bytes_eq_iff u.password password).0 given;
                },
                sym (some_inj _ _ (rw (e, user_allows, c) at h)),
              )
          | inr c ↦ absurd (ground (arith, rw (e, user_allows, c) at h))
        ]
  ]

  undecided :
      (users : Map Bytes UserRule)
      → user_allows users cl password ≡ none
      → (u : UserRule) → ¬ Decides users u
  unfolding user_allows
  undecided users h u d = absurd (
      ground (
        arith,
        rw
            (
              d.entry,
              user_allows,
              is_empty u.password d.secret,
              (bytes_eq_iff u.password password).1 d.given,
            )
            at h,
      ))

  -- AuthOk lets the entry of the user decide if it has a password that is not empty and is the given one,
  -- by whether it is disallowed; otherwise the first rule whose client, username, password and remote
  -- all match decides, with its index; and if none matches it answers no.
  pub auth_ok-FirstRule :
      (l : Ledger)
      → ((u : UserRule) × Decides l.users u
          × ◌≡◌ {A = ℕ × Bool} (auth_ok l cl password) (0, not u.disallow))
        ⊎ (((u : UserRule) → ¬ Decides l.users u) × FirstRule 0 l.auth (auth_ok l cl password))
  unfolding auth_ok
  auth_ok-FirstRule l = elim (Option-cases (user_allows l.users cl password)) [
    | inl e ↦ inr (undecided l.users e, rw (e, auth_ok) (auth_rules-FirstRule 0 l.auth))
    | inr (allowed, e) ↦
        let (u, d, same) = user_allows-Decides l.users allowed e in
        inl (u, d, rw (e, auth_ok) (ap (λ (b : Bool). (0, b)) same))
  ]
