-- ===== src/Safety/Env.antt =====
-- The environment variables of sysconfig/safety/policy.go: the list of rules that
-- `ALIBABA_CLOUD_SAFETY_POLICY_RULES` holds, and how it overrides a policy.
pub mod RoundTrip
pub mod Merge
pub mod Plugin
pub mod Comma
use aliyun_cli.Base.{
  ℕ, suc, Text, text_eq, txt, is_empty, to_lower, trim_space, split, cut, join, Bool, true, false,
  ◌||◌, ◌==◌, Option, none, some, List, [], ◌∷◌, ◌++◌, if◌then◌else◌, Res, ok, err, and_then, ◌+◌,
  length,
}
use aliyun_cli.Safety.Policy.{
  Action, Rule, rule_of, Policy, policy_of, base_policy, PolicyError, entry_is_empty,
  entry_without_action, entry_without_pattern, entry_with_invalid_action, invalid_boolean,
  is_known_action, validate_policy,
}

pub data NoPanic : Type 0 where

abbrev pub PolicyResult : Type 0 → Type 0
PolicyResult A = Res PolicyError NoPanic A

-- `os.LookupEnv` of the two variables
pub record Env : Type 0 where
  pub enabled : Option Text
  pub rules : Option Text

abbrev pub env_of : Option Text → Option Text → Env
env_of e rs = record { enabled = e; rules = rs }

-- `strconv.ParseBool`
unfoldable pub parse_bool : Text → Option Bool
parse_bool s =
    if text_eq s (txt "1")
      || text_eq s (txt "t")
      || text_eq s (txt "T")
      || text_eq s (txt "true")
      || text_eq s (txt "TRUE")
      || text_eq s (txt "True")
    then some true
    else if text_eq s (txt "0")
        || text_eq s (txt "f")
        || text_eq s (txt "F")
        || text_eq s (txt "false")
        || text_eq s (txt "FALSE")
        || text_eq s (txt "False")
    then some false
    else none

-- `strconv.FormatBool`
unfoldable pub format_bool : Bool → Text
format_bool true = txt "true"
format_bool false = txt "false"

unfoldable pub action_from_env_token : Text → Option Action
action_from_env_token s =
    let a = to_lower (trim_space s) in if is_known_action a then some a else none

-- One entry of the list, or why it is none; `i` counts the entries from 0.
unfoldable pub strict_entry : ℕ → Text → PolicyResult Rule
strict_entry i raw =
    let part = trim_space raw in
    if is_empty part
    then err (entry_is_empty (i + 1))
    else let (pattern0, action0, found) = cut b'=' part in
      let pattern = trim_space pattern0 in
      let action_str = trim_space action0 in
      if found
      then if is_empty pattern
        then err (entry_without_pattern (i + 1))
        else elim (action_from_env_token action_str) [
          | none ↦ err (entry_with_invalid_action (i + 1) action_str)
          | some a ↦ ok (rule_of pattern a)
        ]
      else err (entry_without_action (i + 1))

unfoldable pub strict_entries : ℕ → List Text → PolicyResult (List Rule)
strict_entries i [] = ok []
strict_entries i (part ∷ parts) =
    and_then (strict_entry i part)
      (λ r. and_then (strict_entries (suc i) parts) (λ rs. ok (r ∷ rs)))

-- `parseEnvRulesListStrict`
unfoldable pub parse_rules_strict : Text → PolicyResult (List Rule)
parse_rules_strict raw = strict_entries 0 (split b',' raw)

-- One entry of `parseEnvRulesList`, `none` where it goes on without it.
unfoldable pub lenient_entry : Text → Option Rule
lenient_entry raw =
    let part = trim_space raw in
    if is_empty part
    then none
    else let (pattern0, action0, found) = cut b'=' part in
      let pattern = trim_space pattern0 in
      let action_str = trim_space action0 in
      if found
      then if is_empty pattern || is_empty action_str
        then none
        else elim (action_from_env_token action_str) [
          | none ↦ none
          | some a ↦ some (rule_of pattern a)
        ]
      else none

unfoldable pub lenient_entries : List Text → List Rule
lenient_entries [] = []
lenient_entries (part ∷ parts) =
    let rest = lenient_entries parts in
    elim (lenient_entry part) [ none ↦ rest | some r ↦ r ∷ rest ]

-- `parseEnvRulesList`
unfoldable pub parse_rules : Text → Option (List Rule)
parse_rules raw = elim (lenient_entries (split b',' raw)) [ [] ↦ none | r ∷ rs ↦ some (r ∷ rs) ]

-- The entries of `serializeRulesForEnv`; a rule without pattern or action has none.
unfoldable pub serialized_parts : List Rule → List Text
serialized_parts [] = []
serialized_parts (r ∷ rs) =
    let rest = serialized_parts rs in
    let pattern = trim_space r.pattern in
    let action = to_lower (trim_space r.action) in
    if is_empty pattern || is_empty action then rest else (pattern ++ (b'=' ∷ action)) ∷ rest

-- `serializeRulesForEnv`
unfoldable pub serialize_rules : List Rule → Text
serialize_rules rs = if length rs == 0 then [] else join (b',' ∷ []) (serialized_parts rs)

-- `MergePolicyFromEnv`: what does not parse is passed over.
unfoldable pub merge_enabled : Bool → Option Text → Bool
merge_enabled enabled none = enabled
merge_enabled enabled (some v) = elim (parse_bool (trim_space v)) [ none ↦ enabled | some b ↦ b ]

unfoldable pub merge_rules : List Rule → Option Text → List Rule
merge_rules rules none = rules
merge_rules rules (some raw0) =
    let raw = trim_space raw0 in
    if is_empty raw then [] else elim (parse_rules raw) [ none ↦ rules | some r ↦ r ]

unfoldable pub merge_policy : Option Policy → Env → Policy
merge_policy base env =
    let p = base_policy base in
    policy_of (merge_enabled p.enabled env.enabled) (merge_rules p.rules env.rules)

-- `MergePolicyFromEnvStrict`: what does not parse is an error. (That the base policy is left
-- normalized is not kept.)
unfoldable pub strict_enabled : Bool → Option Text → PolicyResult Bool
strict_enabled enabled none = ok enabled
strict_enabled enabled (some v) = elim (parse_bool (trim_space v)) [
  | none ↦ err (invalid_boolean v)
  | some b ↦ ok b
]

unfoldable pub strict_rules : List Rule → Option Text → PolicyResult (List Rule)
strict_rules rules none = ok rules
strict_rules rules (some raw0) =
    let raw = trim_space raw0 in if is_empty raw then ok [] else parse_rules_strict raw

-- What is left of the result of `validate_policy`: its error, or the policy as it stands.
abbrev pub validated : Option PolicyError × Option Policy → PolicyResult Policy
validated (some e, p) = err e
validated (none, p) = ok (base_policy p)

unfoldable pub merge_policy_strict : Option Policy → Env → PolicyResult Policy
merge_policy_strict base env =
    and_then (validated (validate_policy (some (base_policy base)))) (λ p.
      and_then (strict_enabled p.enabled env.enabled) (λ enabled.
        and_then (strict_rules p.rules env.rules) (λ rules. ok (policy_of enabled rules))))

-- What `MergeSafetyPolicyPathIntoEnvs` hands to a plugin of the effective policy.
unfoldable pub policy_envs : Policy → Env
policy_envs p = env_of (some (format_bool p.enabled)) (some (serialize_rules p.rules))
