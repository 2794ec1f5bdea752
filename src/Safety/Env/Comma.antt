-- ===== src/Safety/Env/Comma.antt =====
-- `serializeRulesForEnv` writes a pattern with a comma as it is.
use aliyun_cli.Base.{
  IsFree, cut-IsFree, split-append, Text, is_empty, join, trim_space, false, ◌==◌, ◌≡◌, ap, ◌∙◌, [],
  ◌∷◌, ◌++◌, append_assoc, err, arith,
}
use aliyun_cli.Safety.Policy.{Rule, entry_without_action}
use aliyun_cli.Safety.Policy.Valid.{IsValidRule, known_action-trim}
use aliyun_cli.Safety.Env.{
  strict_entry, strict_entries, parse_rules_strict, serialized_parts, serialize_rules,
}
use aliyun_cli.Safety.Env.RoundTrip.{entry_of, known_filled}

serialize_one : (r : Rule) → IsValidRule r → serialize_rules (r ∷ []) ≡ entry_of r
unfolding serialize_rules serialized_parts join
serialize_one r h =
    let one_rule : (1 == 0) ≡ false = ground arith in
    rw (h.1, known_action-trim r.action h.2, h.0, known_filled r.action h.2)

without_action :
    (a : Text)
    → is_empty a ≡ false
    → trim_space a ≡ a
    → IsFree b'=' a
    → strict_entry 0 a ≡ err (entry_without_action 1)
unfolding strict_entry
without_action a filled trimmed free = rw (trimmed, filled, cut-IsFree b'=' a free)

-- A valid rule whose pattern has a comma does not survive the variable that is set for a plugin:
-- where a text without comma, `=` and surrounding space stands before the first comma, the strict
-- parser refuses what `serializeRulesForEnv` writes of the rule, since its first entry has no action.
pub parse_rules_strict_comma :
    (r : Rule) (a b : Text)
    → IsValidRule r
    → r.pattern ≡ a ++ (b',' ∷ b)
    → is_empty a ≡ false
    → trim_space a ≡ a
    → IsFree b',' a
    → IsFree b'=' a
    → parse_rules_strict (serialize_rules (r ∷ [])) ≡ err (entry_without_action 1)
unfolding parse_rules_strict strict_entries
parse_rules_strict_comma r a b valid e filled trimmed free unassigned =
    let text : serialize_rules (r ∷ []) ≡ a ++ (b',' ∷ (b ++ (b'=' ∷ r.action))) =
      serialize_one r valid
      ∙ ap (λ p. p ++ (b'=' ∷ r.action)) e
      ∙ append_assoc a (b',' ∷ b) (b'=' ∷ r.action) in
    rw (
      text,
      split-append b',' a (b ++ (b'=' ∷ r.action)) free,
      without_action a filled trimmed unassigned,
    )
