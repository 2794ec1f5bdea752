-- ===== src/Tests/Policies.antt =====
-- The safety policy (sysconfig/safety) at concrete data.
use aliyun_cli.Base.{
  ◌≢◌, Text, txt, text_eq, has_prefix, cut, split, trim_space, to_lower, true, false, ◌≡◌, refl,
  ◌↔◌, ◌⊎◌, none, some, List, [], ◌∷◌, All, ok, err, arith,
}
use aliyun_cli.Safety.Policy.{
  action_allow, action_confirm, Rule, rule_of, Policy, policy_of, check_result, CommandInfo,
  command_info, build_command_pattern, items_of, match_items, match_pattern, decided_action, check,
  validate_policy, normalize_rule, infer_operation,
}
use aliyun_cli.Safety.Policy.Glob.{Reads, match_pattern_iff}
use aliyun_cli.Safety.Policy.Decision.{
  FirstMatch, match_here, match_later, Allowed, check_allows_iff,
}
use aliyun_cli.Safety.Policy.Valid.{IsValidRule}
use aliyun_cli.Safety.Env.{
  Env, env_of, parse_rules_strict, serialize_rules, merge_policy, merge_policy_strict, policy_envs,
}
use aliyun_cli.Safety.Env.RoundTrip.{IsPlainRule, parse_rules_strict-serialize_rules}
use aliyun_cli.Safety.Env.Merge.{merge_policy_strict_valid, merge_policy_agrees}
use aliyun_cli.Safety.Env.Plugin.{merge_policy_strict-policy_envs}
use aliyun_cli.Safety.Confirm.{Terminal, terminal, check_and_confirm, needs_approval}
use aliyun_cli.Safety.Confirm.Approval.{MayRun, check_and_confirm_iff}

abbrev rule_list : Rule
rule_list = rule_of (txt "ecs:List*") (txt "allow")

abbrev rule_delete : Rule
rule_delete = rule_of (txt "*:delete*") (txt "confirm")

abbrev rules : List Rule
rules = rule_list ∷ rule_delete ∷ []

abbrev policy : Policy
policy = policy_of true rules

abbrev delete_cmd : CommandInfo
delete_cmd = command_info (txt "ECS") (txt "DeleteInstance") []

-- The letters' case does not count, and `*` stands for any text.
matches : match_pattern (txt "*:delete*") (txt "ecs:DeleteInstance") ≡ true
unfolding match_pattern match_items items_of trim_space aliyun_cli.Safety.Policy.some_suffix
matches = refl

-- But not for a line break.
one_line : match_pattern (txt "ecs:*") (txt "ecs:a\nb") ≡ false
unfolding match_pattern match_items items_of trim_space aliyun_cli.Safety.Policy.some_suffix
one_line = refl

asked : check policy delete_cmd ≡ check_result action_confirm true (some rule_delete)
unfolding check aliyun_cli.Safety.Policy.check_rules match_pattern match_items items_of trim_space
    build_command_pattern to_lower aliyun_cli.Safety.Policy.some_suffix decided_action text_eq
asked = refl

inferred : infer_operation (txt "ModifyDisk") ≡ txt "update"
unfolding infer_operation has_prefix to_lower
inferred = refl

match_pattern_iff_example :
    (match_pattern (txt " a*") (txt "Abc") ≡ true)
    ↔ ((txt " a*" ≢ []) × Reads (trim_space (txt " a*")) (trim_space (txt "Abc")))
match_pattern_iff_example = match_pattern_iff (txt " a*") (txt "Abc")

list_misses : match_pattern (txt "ecs:List*") (build_command_pattern delete_cmd) ≡ false
unfolding match_pattern match_items items_of trim_space build_command_pattern to_lower
list_misses = refl

delete_hits : match_pattern (txt "*:delete*") (build_command_pattern delete_cmd) ≡ true
unfolding match_pattern match_items items_of trim_space aliyun_cli.Safety.Policy.some_suffix
    build_command_pattern to_lower
delete_hits = refl

second_matches : FirstMatch rules (build_command_pattern delete_cmd) rule_delete
second_matches = match_later list_misses (match_here delete_hits)

check_allows_iff_example :
    ((check policy delete_cmd).action ≡ action_allow)
    ↔ ((true ≡ false) ⊎ Allowed rules (build_command_pattern delete_cmd))
check_allows_iff_example = check_allows_iff policy delete_cmd

abbrev untidy : Rule
untidy = rule_of (txt " ecs:* ") (txt " DENY")

abbrev unknown : Rule
unknown = rule_of (txt "ecs:*") (txt "block")

tidied :
    validate_policy (some (policy_of true (untidy ∷ [])))
    ≡ (none, some (policy_of true (rule_of (txt "ecs:*") (txt "deny") ∷ [])))
unfolding validate_policy aliyun_cli.Safety.Policy.validate_rules normalize_rule trim_space text_eq
    to_lower
tidied = refl

list_valid : IsValidRule rule_list
unfolding trim_space text_eq
list_valid = (refl, refl, refl)

delete_valid : IsValidRule rule_delete
unfolding trim_space text_eq
delete_valid = (refl, refl, refl)

rules_plain : All IsPlainRule rules
rules_plain =
    ((list_valid, ground arith, ground arith), ((delete_valid, ground arith, ground arith), tt))

rules_valid : All IsValidRule rules
rules_valid = (list_valid, (delete_valid, tt))

parse_rules_strict-serialize_rules_example : parse_rules_strict (serialize_rules rules) ≡ ok rules
parse_rules_strict-serialize_rules_example =
    parse_rules_strict-serialize_rules rule_list (rule_delete ∷ []) rules_plain

abbrev raw_rules : Text
raw_rules = txt "a:b=deny, c:* = Allow"

abbrev read_rules : List Rule
read_rules = rule_of (txt "a:b") (txt "deny") ∷ rule_of (txt "c:*") (txt "allow") ∷ []

raw_read : parse_rules_strict raw_rules ≡ ok read_rules
unfolding parse_rules_strict aliyun_cli.Safety.Env.strict_entries split
    aliyun_cli.Safety.Env.strict_entry trim_space cut aliyun_cli.Safety.Env.action_from_env_token
    text_eq to_lower
raw_read = refl

abbrev comma_rule : Rule
comma_rule = rule_of (txt "ecs:a,b") (txt "deny")

comma_valid : IsValidRule comma_rule
unfolding trim_space text_eq
comma_valid = (refl, refl, refl)

comma_first : trim_space (txt "ecs:a") ≡ txt "ecs:a"
unfolding trim_space
comma_first = refl

abbrev env : Env
env = env_of (some (txt " TRUE ")) none

env_merged : merge_policy_strict (some (policy_of false rules)) env ≡ ok policy
unfolding merge_policy_strict validate_policy aliyun_cli.Safety.Policy.validate_rules normalize_rule
    trim_space text_eq to_lower aliyun_cli.Safety.Env.strict_enabled
    aliyun_cli.Safety.Env.parse_bool aliyun_cli.Safety.Env.strict_rules
env_merged = refl

merge_policy_strict_valid_example : All IsValidRule rules
merge_policy_strict_valid_example =
    merge_policy_strict_valid (some (policy_of false rules)) env policy env_merged

merge_policy_agrees_example : merge_policy (some (policy_of false rules)) env ≡ policy
merge_policy_agrees_example =
    merge_policy_agrees (policy_of false rules) policy env rules_valid env_merged

merge_policy_strict-policy_envs_example :
    merge_policy_strict (some (policy_of false [])) (policy_envs policy) ≡ ok policy
merge_policy_strict-policy_envs_example =
    merge_policy_strict-policy_envs (policy_of false []) policy tt rules_plain

-- A script that is not a terminal is stopped.
abbrev script : Terminal
script = terminal false none

stopped :
    check_and_confirm (some policy) delete_cmd false script
    ≡ err (needs_approval (txt "ECS") (txt "DeleteInstance"))
unfolding check_and_confirm text_eq check aliyun_cli.Safety.Policy.check_rules match_pattern
    match_items items_of trim_space build_command_pattern to_lower
    aliyun_cli.Safety.Policy.some_suffix decided_action aliyun_cli.Safety.Confirm.ask
    aliyun_cli.Safety.Confirm.display_command
stopped = refl

agreed :
    check_and_confirm (some policy) delete_cmd false (terminal true (some (txt "Yes\n"))) ≡ ok tt
unfolding check_and_confirm text_eq check aliyun_cli.Safety.Policy.check_rules match_pattern
    match_items items_of trim_space build_command_pattern to_lower
    aliyun_cli.Safety.Policy.some_suffix decided_action aliyun_cli.Safety.Confirm.ask
    aliyun_cli.Safety.Confirm.prompt_confirm
agreed = refl

check_and_confirm_iff_example :
    (check_and_confirm (some policy) delete_cmd true script ≡ ok tt)
    ↔ MayRun (check policy delete_cmd).action true script
check_and_confirm_iff_example = check_and_confirm_iff (some policy) delete_cmd true script
