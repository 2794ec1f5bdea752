-- ===== src/Safety/Env/Merge.antt =====
-- `MergePolicyFromEnvStrict` against `MergePolicyFromEnv`, and what a plugin reads from the
-- variables that the program sets for it.
use aliyun_cli.Base.{
  split-cons, ok-inj, trim_space_idem, ℕ, suc, Text, text_eq, is_empty, cut, split, trim_left,
  trim_right, trim_space, to_lower, Bool, true, false, Bool-cases, Option-cases, ◌≡◌, refl, sym, ap,
  subst, ◌∙◌, inl, inr, Option, none, some, List, [], ◌∷◌, All, ok, and_then-eq-ok, arith,
}
use aliyun_cli.Safety.Policy.{
  Action, Rule, rule_of, Policy, policy_of, base_policy, PolicyError, is_known_action,
  validate_rules, validate_policy,
}
use aliyun_cli.Safety.Policy.Valid.{IsValidRule, validate_policy_valid, validate_policy-IsValidRule}
use aliyun_cli.Safety.Env.{
  Env, action_from_env_token, strict_entry, strict_entries, parse_rules_strict, lenient_entry,
  lenient_entries, parse_rules, merge_enabled, merge_rules, merge_policy, strict_enabled,
  strict_rules, validated, merge_policy_strict,
}

token_filled : (s : Text) (a : Action) → action_from_env_token s ≡ some a → is_empty s ≡ false
unfolding action_from_env_token trim_space trim_left trim_right to_lower text_eq
token_filled [] a h = cc
token_filled (c ∷ s) a h = refl

-- What the strict parser takes, the lenient one takes too.
entry_agrees :
    (i : ℕ) (part : Text) (r : Rule) → strict_entry i part ≡ ok r → lenient_entry part ≡ some r
unfolding strict_entry lenient_entry
entry_agrees i part r h =
    let token = trim_space (cut b'=' (trim_space part)).1 in
    elim (Option-cases (action_from_env_token token)) [
      | inl unknown ↦ ground arith
      | inr (a, known) ↦ ground (arith, token_filled token a known)
    ]

lenient-cons :
    (part : Text) (parts : List Text) (r : Rule)
    → lenient_entry part ≡ some r
    → lenient_entries (part ∷ parts) ≡ r ∷ lenient_entries parts
unfolding lenient_entries
lenient-cons part parts r h = ground arith

entries_agree :
    (i : ℕ) (parts : List Text) (rs : List Rule)
    → strict_entries i parts ≡ ok rs
    → lenient_entries parts ≡ rs
unfolding strict_entries lenient_entries
entries_agree i [] rs h = cc
entries_agree i (part ∷ parts) rs h =
    let (r, one, rest) = and_then-eq-ok (strict_entry i part) _ h in
    let (qs, others, all) = and_then-eq-ok (strict_entries (suc i) parts) _ rest in
    lenient-cons part parts r (entry_agrees i part r one)
    ∙ ap (λ t. r ∷ t) (entries_agree (suc i) parts qs others)
    ∙ ok-inj all

token_known : (s : Text) (a : Action) → action_from_env_token s ≡ some a → is_known_action a ≡ true
unfolding action_from_env_token
token_known s a h = ground arith

entry_valid : (i : ℕ) (part : Text) (r : Rule) → strict_entry i part ≡ ok r → IsValidRule r
unfolding strict_entry
entry_valid i part r h =
    let pattern0 = (cut b'=' (trim_space part)).0 in
    let token = trim_space (cut b'=' (trim_space part)).1 in
    elim (Option-cases (action_from_env_token token)) [
      | inl unknown ↦ ground arith
      | inr (a, known) ↦
          let e : (is_empty (trim_space pattern0) ≡ false) × (rule_of (trim_space pattern0) a ≡ r) =
            ground arith in
          subst IsValidRule e.1 (e.0, trim_space_idem pattern0, token_known token a known)
    ]

entries_valid :
    (i : ℕ) (parts : List Text) (rs : List Rule)
    → strict_entries i parts ≡ ok rs
    → All IsValidRule rs
unfolding strict_entries
entries_valid i [] rs h = subst (All IsValidRule) (ok-inj h) tt
entries_valid i (part ∷ parts) rs h =
    let (r, one, rest) = and_then-eq-ok (strict_entry i part) _ h in
    let (qs, others, all) = and_then-eq-ok (strict_entries (suc i) parts) _ rest in
    subst (All IsValidRule) (ok-inj all)
      (entry_valid i part r one, entries_valid (suc i) parts qs others)

-- The strict parser never returns an empty list.
entries-cons :
    (i : ℕ) (part : Text) (parts : List Text) (rs : List Rule)
    → strict_entries i (part ∷ parts) ≡ ok rs
    → (r : Rule) × (qs : List Rule) × (rs ≡ r ∷ qs)
unfolding strict_entries
entries-cons i part parts rs h =
    let (r, one, rest) = and_then-eq-ok (strict_entry i part) _ h in
    let (qs, others, all) = and_then-eq-ok (strict_entries (suc i) parts) _ rest in
    (r, qs, sym (ok-inj all))

-- Every list that the strict parser accepts, the lenient one reads as the same rules.
pub parse_rules_agree :
    (raw : Text) (rs : List Rule) → parse_rules_strict raw ≡ ok rs → parse_rules raw ≡ some rs
unfolding parse_rules_strict parse_rules
parse_rules_agree raw rs h =
    let (part, parts, e) = split-cons b',' raw in
    let h1 : strict_entries 0 (part ∷ parts) ≡ ok rs =
      subst (λ t. strict_entries 0 t ≡ ok rs) e h in
    let (r, qs, filled) = entries-cons 0 part parts rs h1 in
    let agreed : lenient_entries (split b',' raw) ≡ r ∷ qs =
      entries_agree 0 (split b',' raw) rs h ∙ filled in
    ground (arith, agreed, filled)

strict_enabled_agree :
    (b c : Bool) (v : Option Text) → strict_enabled b v ≡ ok c → merge_enabled b v ≡ c
unfolding strict_enabled merge_enabled
strict_enabled_agree b c none h = ok-inj h
strict_enabled_agree b c (some v) h = ground arith

strict_rules_agree :
    (rules rs : List Rule) (v : Option Text)
    → strict_rules rules v ≡ ok rs
    → merge_rules rules v ≡ rs
unfolding strict_rules merge_rules
strict_rules_agree rules rs none h = ok-inj h
strict_rules_agree rules rs (some raw0) h = elim (Bool-cases (is_empty (trim_space raw0))) [
  | inl blank ↦ ground arith
  | inr filled ↦
      let h1 : parse_rules_strict (trim_space raw0) ≡ ok rs = ground arith in
      ground (arith, parse_rules_agree (trim_space raw0) rs h1)
]

strict_rules_valid :
    (rules rs : List Rule) (v : Option Text)
    → All IsValidRule rules
    → strict_rules rules v ≡ ok rs
    → All IsValidRule rs
unfolding strict_rules parse_rules_strict
strict_rules_valid rules rs none valid h = subst (All IsValidRule) (ok-inj h) valid
strict_rules_valid rules rs (some raw0) valid h = elim (Bool-cases (is_empty (trim_space raw0))) [
  | inl blank ↦ let e : [] ≡ rs = ground arith in subst (All IsValidRule) e tt
  | inr filled ↦
      let h1 : strict_entries 0 (split b',' (trim_space raw0)) ≡ ok rs = ground arith in
      entries_valid 0 _ rs h1
]

validated_of :
    (enabled : Bool) (r : Option PolicyError × List Rule) (q : Policy)
    → validated (r.0, some (policy_of enabled r.1)) ≡ ok q
    → ◌≡◌ {A = Option PolicyError × Option Policy}
        (r.0, some (policy_of enabled r.1))
        (none, some q)
validated_of enabled (none, rs) q h = ap (λ t. (none, some t)) (ok-inj h)
validated_of enabled (some e, rs) q h = cc

validated_ok :
    (p q : Policy)
    → validated (validate_policy (some p)) ≡ ok q
    → validate_policy (some p) ≡ (none, some q)
unfolding validate_policy
validated_ok p q h = validated_of p.enabled (validate_rules 0 p.rules) q h

-- The three steps that `MergePolicyFromEnvStrict` has taken where it succeeds.
strict_steps :
    (base : Option Policy) (env : Env) (p : Policy)
    → merge_policy_strict base env ≡ ok p
    → (q : Policy) × (validate_policy (some (base_policy base)) ≡ (none, some q))
      × (strict_enabled q.enabled env.enabled ≡ ok p.enabled)
      × (strict_rules q.rules env.rules ≡ ok p.rules)
unfolding merge_policy_strict
strict_steps base env p h =
    let (q, valid, rest) =
      and_then-eq-ok (validated (validate_policy (some (base_policy base)))) _ h in
    let (enabled, switched, rest1) = and_then-eq-ok (strict_enabled q.enabled env.enabled) _ rest in
    let (rules, listed, same) = and_then-eq-ok (strict_rules q.rules env.rules) _ rest1 in
    let e : policy_of enabled rules ≡ p = ok-inj same in
    (
      q,
      validated_ok (base_policy base) q valid,
      subst (λ t. strict_enabled q.enabled env.enabled ≡ ok t.enabled) e switched,
      subst (λ t. strict_rules q.rules env.rules ≡ ok t.rules) e listed,
    )

-- A policy that `MergePolicyFromEnvStrict` returns has valid rules only, whatever the base policy
-- and the two variables were: each pattern is trimmed and not empty, and each action is one of the
-- four in lower case.
pub merge_policy_strict_valid :
    (base : Option Policy) (env : Env) (p : Policy)
    → merge_policy_strict base env ≡ ok p
    → All IsValidRule p.rules
merge_policy_strict_valid base env p h =
    let (q, valid, switched, listed) = strict_steps base env p h in
    strict_rules_valid q.rules p.rules env.rules
      (validate_policy_valid (base_policy base) q valid).1 listed

-- Where `MergePolicyFromEnvStrict` succeeds on a policy of valid rules, `MergePolicyFromEnv` gives
-- the same policy for the same variables.
pub merge_policy_agrees :
    (b p : Policy) (env : Env)
    → All IsValidRule b.rules
    → merge_policy_strict (some b) env ≡ ok p
    → merge_policy (some b) env ≡ p
unfolding merge_policy
merge_policy_agrees b p env valid h =
    let (q, v, switched, listed) = strict_steps (some b) env p h in
    let e : some b ≡ some q = ap (λ t. t.1) (sym (validate_policy-IsValidRule b valid) ∙ v) in
    let same : q ≡ b = ap base_policy (sym e) in
    rw (
      strict_enabled_agree b.enabled p.enabled env.enabled
          (subst (λ t. strict_enabled t.enabled env.enabled ≡ ok p.enabled) same switched),
      strict_rules_agree b.rules p.rules env.rules
          (subst (λ t. strict_rules t.rules env.rules ≡ ok p.rules) same listed),
    )
