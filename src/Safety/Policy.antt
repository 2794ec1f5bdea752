-- ===== src/Safety/Policy.antt =====
-- sysconfig/safety/policy.go without its environment variables: rules, how they match a command
-- and what `Check` decides. A regular expression that `matchPattern` builds is the list of its
-- items, since `QuoteMeta` leaves only literals and `.*`.
pub mod Glob
pub mod Decision
pub mod Valid
use aliyun_cli.Base.{
  ℕ, suc, Text, text_eq, txt, is_empty, has_prefix, to_lower, to_upper, lower_char, trim_space,
  Bool, true, false, not, ◌&&◌, ◌||◌, ◌==◌, Option, none, some, List, [], ◌∷◌, ◌++◌, length,
  if◌then◌else◌,
}

-- A Go string type: the four constants are its known values, but any text is one.
abbrev pub Action : Type 0
Action = Text

abbrev pub action_allow : Action
action_allow = txt "allow"

abbrev pub action_deny : Action
action_deny = txt "deny"

abbrev pub action_confirm : Action
action_confirm = txt "confirm"

abbrev pub action_forbid : Action
action_forbid = txt "forbid"

pub record Rule : Type 0 where
  pub pattern : Text
  pub action : Action

abbrev pub rule_of : Text → Action → Rule
rule_of p a = record { pattern = p; action = a }

pub record Policy : Type 0 where
  pub enabled : Bool
  pub rules : List Rule

abbrev pub policy_of : Bool → List Rule → Policy
policy_of e rs = record { enabled = e; rules = rs }

unfoldable pub default_policy : Policy
default_policy = policy_of false []

-- A nil policy is the default one.
abbrev pub base_policy : Option Policy → Policy
base_policy none = default_policy
base_policy (some p) = p

-- `Matched` is whether there is a rule.
pub record CheckResult : Type 0 where
  pub action : Action
  pub matched : Bool
  pub rule : Option Rule

abbrev pub check_result : Action → Bool → Option Rule → CheckResult
check_result a m r = record { action = a; matched = m; rule = r }

pub record CommandInfo : Type 0 where
  pub product : Text
  pub api_or_method : Text
  pub path : Text

abbrev pub command_info : Text → Text → Text → CommandInfo
command_info p a q = record { product = p; api_or_method = a; path = q }

unfoldable pub build_command_pattern : CommandInfo → Text
build_command_pattern cmd =
    let product = to_lower cmd.product in
    if not (is_empty cmd.path)
    then product ++ (b':' ∷ to_upper cmd.api_or_method ++ cmd.path)
    else product ++ (b':' ∷ cmd.api_or_method)

-- What a pattern's text compiles to: `QuoteMeta` escapes a code point, and an escaped `*` is
-- replaced by `.*`.
pub data Item : Type 0 where
  literal : ℕ → Item
  any_sequence : Item

unfoldable pub items_of : Text → List Item
items_of [] = []
items_of (c ∷ s) = (if c == b'*' then any_sequence else literal c) ∷ items_of s

-- `(?i)` compares letters without their case.
abbrev pub same_letter : ℕ → ℕ → Bool
same_letter a b = lower_char a == lower_char b

-- `.` is no line break.
abbrev pub line_break : ℕ
line_break = 10

-- `.*` and what follows it
unfoldable pub some_suffix : (Text → Bool) → Text → Bool
some_suffix p [] = p []
some_suffix p (c ∷ s) = p (c ∷ s) || (not (c == line_break) && some_suffix p s)

-- `regexp.MatchString`, anchored at both ends
unfoldable pub match_items : List Item → Text → Bool
match_items [] [] = true
match_items [] (c ∷ s) = false
match_items (any_sequence ∷ items) s = some_suffix (match_items items) s
match_items (literal a ∷ items) [] = false
match_items (literal a ∷ items) (c ∷ s) = same_letter a c && match_items items s

unfoldable pub match_pattern : Text → Text → Bool
match_pattern pattern cmd =
    if is_empty pattern then false else match_items (items_of (trim_space pattern)) (trim_space cmd)

-- The action that a matching rule stands for.
unfoldable pub decided_action : Action → Action
decided_action a =
    let a1 = if text_eq a action_forbid then action_confirm else a in
    let a2 = if is_empty a1 then action_deny else a1 in
    if not (text_eq a2 action_allow)
      && not (text_eq a2 action_deny)
      && not (text_eq a2 action_confirm)
    then action_deny
    else a2

abbrev pub not_matched : CheckResult
not_matched = check_result action_allow false none

-- The loop of `Check`.
unfoldable pub check_rules : List Rule → Text → CheckResult
check_rules [] cmd = not_matched
check_rules (r ∷ rs) cmd =
    let rest = check_rules rs cmd in
    if match_pattern r.pattern cmd
    then check_result (decided_action r.action) true (some r)
    else rest

unfoldable pub check : Policy → CommandInfo → CheckResult
check p cmd =
    if not p.enabled || length p.rules == 0
    then not_matched
    else check_rules p.rules (build_command_pattern cmd)

-- `InferOperationFromApiName`
unfoldable pub infer_operation : Text → Text
infer_operation api_name =
    let api_lower = to_lower api_name in
    if has_prefix api_lower (txt "delete")
    then txt "delete"
    else if has_prefix api_lower (txt "update") || has_prefix api_lower (txt "modify")
    then txt "update"
    else if has_prefix api_lower (txt "create") || has_prefix api_lower (txt "add")
    then txt "create"
    else []

pub data PolicyError : Type 0 where
  policy_is_nil : PolicyError
  pattern_is_empty : ℕ → PolicyError
  action_is_invalid : ℕ → Action → PolicyError
  entry_is_empty : ℕ → PolicyError
  entry_without_action : ℕ → PolicyError
  entry_without_pattern : ℕ → PolicyError
  entry_with_invalid_action : ℕ → Text → PolicyError
  invalid_boolean : Text → PolicyError

abbrev pub is_known_action : Action → Bool
is_known_action a =
    text_eq a action_allow
    || text_eq a action_deny
    || text_eq a action_confirm
    || text_eq a action_forbid

-- What `validatePolicy` writes into a rule.
unfoldable pub normalize_rule : Rule → Rule
normalize_rule r = rule_of (trim_space r.pattern) (to_lower (trim_space r.action))

-- The loop of `validatePolicy` from rule `i` on: the error it stops with, and the rules as they
-- stand then, since it writes them in place.
unfoldable pub validate_rules : ℕ → List Rule → Option PolicyError × List Rule
validate_rules i [] = (none, [])
validate_rules i (r ∷ rs) =
    let n = normalize_rule r in
    let (e, rest) = validate_rules (suc i) rs in
    if is_empty n.pattern
    then (some (pattern_is_empty i), n ∷ rs)
    else if is_known_action n.action
    then (e, n ∷ rest)
    else (some (action_is_invalid i r.action), n ∷ rs)

-- A nil policy is an error; otherwise the policy's rules are replaced.
unfoldable pub validate_policy : Option Policy → Option PolicyError × Option Policy
validate_policy none = (some policy_is_nil, none)
validate_policy (some p) =
    let (e, rules) = validate_rules 0 p.rules in (e, some (policy_of p.enabled rules))
