-- ===== src/Safety/Env/Plugin.antt =====
-- What a plugin reads from the variables that `MergeSafetyPolicyPathIntoEnvs` sets for it.
use aliyun_cli.Base.{
  trim_left-append, trim_right-append, is_empty-append, suc, text_eq, is_empty, join, trim_left,
  trim_right, trim_space, Bool, true, false, ◌==◌, ◌≡◌, refl, some, List, [], ◌∷◌, map, length, All,
  ok, arith,
}
use aliyun_cli.Safety.Policy.{Rule, Policy}
use aliyun_cli.Safety.Policy.Valid.{IsValidRule, validate_policy-IsValidRule}
use aliyun_cli.Safety.Env.{
  parse_bool, format_bool, serialize_rules, strict_enabled, strict_rules, merge_policy_strict,
  policy_envs,
}
use aliyun_cli.Safety.Env.RoundTrip.{
  IsPlainRule, entry_of, parts, suffix_trimmed, pattern_trimmed, parse_rules_strict-serialize_rules,
}

parse_bool-format_bool : (b : Bool) → parse_bool (trim_space (format_bool b)) ≡ some b
unfolding parse_bool format_bool trim_space trim_left trim_right text_eq
parse_bool-format_bool true = refl
parse_bool-format_bool false = refl

switched_over : (b c : Bool) → strict_enabled b (some (format_bool c)) ≡ ok c
unfolding strict_enabled
switched_over b c = rw (strict_enabled, parse_bool-format_bool c)

entry_filled : (r : Rule) → is_empty (entry_of r) ≡ false
entry_filled r = is_empty-append r.pattern (b'=' ∷ r.action) refl

entry_end : (r : Rule) → IsPlainRule r → trim_right (entry_of r) ≡ entry_of r
entry_end r h = trim_right-append r.pattern (b'=' ∷ r.action) refl (suffix_trimmed r.action h.0.2)

joined_filled :
    (r : Rule) (rs : List Rule) → is_empty (join (b',' ∷ []) (map entry_of (r ∷ rs))) ≡ false
unfolding join
joined_filled r [] = entry_filled r
joined_filled r (q ∷ rs) = is_empty-append (entry_of r) _ refl

joined_end :
    (r : Rule) (rs : List Rule)
    → All IsPlainRule (r ∷ rs)
    → trim_right (join (b',' ∷ []) (map entry_of (r ∷ rs)))
      ≡ join (b',' ∷ []) (map entry_of (r ∷ rs))
unfolding join
joined_end r [] h = entry_end r h.0
joined_end r (q ∷ rs) h =
    trim_right-append (entry_of r) _ refl
      (trim_right-append (b',' ∷ []) _ (joined_filled q rs) (joined_end q rs h.1))

entry_start : (r : Rule) → IsPlainRule r → trim_left (entry_of r) ≡ entry_of r
entry_start r h =
    trim_left-append r.pattern (b'=' ∷ r.action) h.0.0 (pattern_trimmed r.pattern h.0.1)

joined_start :
    (r : Rule) (rs : List Rule)
    → IsPlainRule r
    → trim_left (join (b',' ∷ []) (map entry_of (r ∷ rs)))
      ≡ join (b',' ∷ []) (map entry_of (r ∷ rs))
unfolding join
joined_start r [] h = entry_start r h
joined_start r (q ∷ rs) h = trim_left-append (entry_of r) _ (entry_filled r) (entry_start r h)

serialized :
    (r : Rule) (rs : List Rule)
    → All IsPlainRule (r ∷ rs)
    → serialize_rules (r ∷ rs) ≡ join (b',' ∷ []) (map entry_of (r ∷ rs))
unfolding serialize_rules
serialized r rs h =
    let some_rules : (suc (length rs) == 0) ≡ false = ground arith in
    rw (some_rules, parts (r ∷ rs) h)

serialized-trim :
    (r : Rule) (rs : List Rule)
    → All IsPlainRule (r ∷ rs)
    → trim_space (serialize_rules (r ∷ rs)) ≡ serialize_rules (r ∷ rs)
unfolding trim_space
serialized-trim r rs h = rw (serialized r rs h, joined_end r rs h) (joined_start r rs h.0)

serialized-filled :
    (r : Rule) (rs : List Rule)
    → All IsPlainRule (r ∷ rs)
    → is_empty (serialize_rules (r ∷ rs)) ≡ false
serialized-filled r rs h = rw (serialized r rs h) (joined_filled r rs)

nothing_listed : (rules : List Rule) → strict_rules rules (some (serialize_rules [])) ≡ ok []
unfolding strict_rules serialize_rules trim_space trim_left trim_right
nothing_listed rules = ground arith

listed_over :
    (rules rs : List Rule)
    → All IsPlainRule rs
    → strict_rules rules (some (serialize_rules rs)) ≡ ok rs
unfolding strict_rules
listed_over rules [] h = nothing_listed rules
listed_over rules (r ∷ rs) h =
    rw (serialized-trim r rs h, serialized-filled r rs h)
      (parse_rules_strict-serialize_rules r rs h)

-- A plugin that merges the variables which the program sets from an effective policy gets just
-- this policy, whatever valid policy it has itself, provided that the rules are valid and no
-- pattern has a `,` or `=`.
pub merge_policy_strict-policy_envs :
    (own p : Policy)
    → All IsValidRule own.rules
    → All IsPlainRule p.rules
    → merge_policy_strict (some own) (policy_envs p) ≡ ok p
unfolding merge_policy_strict policy_envs
merge_policy_strict-policy_envs own p valid plain = rw (
  validate_policy-IsValidRule own valid,
  switched_over own.enabled p.enabled,
  listed_over own.rules p.rules plain,
)
