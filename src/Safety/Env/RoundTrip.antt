-- ===== src/Safety/Env/RoundTrip.antt =====
-- `serializeRulesForEnv` against the strict parser of the list.
use aliyun_cli.Base.{
  IsFree, cut-append, split-join, trim_left_idem, trim_left-append, trim_right-append,
  is_empty-append, ℕ, suc, Text, is_empty, trim_left, trim_right, trim_space, true, false, ◌==◌,
  ◌≡◌, refl, sym, ap, ◌∙◌, some, List, [], ◌∷◌, ◌++◌, map, length, All, All-append, ok, arith,
}
use aliyun_cli.Safety.Policy.{Action, Rule, is_known_action}
use aliyun_cli.Safety.Policy.Valid.{IsValidRule, known_action-trim, known_action-cases}
use aliyun_cli.Safety.Env.{
  action_from_env_token, strict_entry, strict_entries, parse_rules_strict, serialized_parts,
  serialize_rules,
}

-- A valid rule whose pattern has neither `,` nor `=`.
abbrev pub IsPlainRule : Rule → Type 0
IsPlainRule r = IsValidRule r × IsFree b',' r.pattern × IsFree b'=' r.pattern

abbrev pub entry_of : Rule → Text
entry_of r = r.pattern ++ (b'=' ∷ r.action)

pub suffix_trimmed : (a : Action) → is_known_action a ≡ true → trim_right (b'=' ∷ a) ≡ b'=' ∷ a
unfolding trim_right
suffix_trimmed a h =
    known_action-cases (λ a. trim_right (b'=' ∷ a) ≡ b'=' ∷ a) a h refl refl refl refl

action_trimmed : (a : Action) → is_known_action a ≡ true → trim_space a ≡ a
unfolding trim_space trim_left trim_right
action_trimmed a h = known_action-cases (λ a. trim_space a ≡ a) a h refl refl refl refl

action-IsFree : (a : Action) → is_known_action a ≡ true → IsFree b',' a
action-IsFree a h =
    known_action-cases (IsFree b',') a h (ground arith) (ground arith) (ground arith) (ground arith)

action_kept : (a : Action) → is_known_action a ≡ true → action_from_env_token a ≡ some a
unfolding action_from_env_token
action_kept a h = rw (known_action-trim a h, h)

pub pattern_trimmed : (s : Text) → trim_space s ≡ s → trim_left s ≡ s
unfolding trim_space
pattern_trimmed s h = ap trim_left (sym h) ∙ trim_left_idem (trim_right s) ∙ h

entry_trimmed : (r : Rule) → IsValidRule r → trim_space (entry_of r) ≡ entry_of r
unfolding trim_space
entry_trimmed r h =
    rw (trim_right-append r.pattern (b'=' ∷ r.action) refl (suffix_trimmed r.action h.2))
      (trim_left-append r.pattern (b'=' ∷ r.action) h.0 (pattern_trimmed r.pattern h.1))

strict_entry-entry_of : (i : ℕ) (r : Rule) → IsPlainRule r → strict_entry i (entry_of r) ≡ ok r
unfolding strict_entry
strict_entry-entry_of i r h =
    let e = entry_trimmed r h.0 in
    let parted = cut-append b'=' r.pattern r.action h.2 in
    rw (
      e,
      is_empty-append r.pattern (b'=' ∷ r.action) refl,
      parted,
      h.0.1,
      h.0.0,
      action_trimmed r.action h.0.2,
      action_kept r.action h.0.2,
      e,
      parted,
      h.0.1,
    )

entry-IsFree : (r : Rule) → IsPlainRule r → IsFree b',' (entry_of r)
entry-IsFree r h =
    All-append _ r.pattern (b'=' ∷ r.action) h.1 (ground arith, action-IsFree r.action h.0.2)

entries : (i : ℕ) (rs : List Rule) → All IsPlainRule rs → strict_entries i (map entry_of rs) ≡ ok rs
unfolding strict_entries
entries i [] h = refl
entries i (r ∷ rs) h = rw (strict_entry-entry_of i r h.0, entries (suc i) rs h.1)

pub known_filled : (a : Action) → is_known_action a ≡ true → is_empty a ≡ false
known_filled a h = known_action-cases (λ b. is_empty b ≡ false) a h refl refl refl refl

pub parts : (rs : List Rule) → All IsPlainRule rs → serialized_parts rs ≡ map entry_of rs
unfolding serialized_parts
parts [] h = refl
parts (r ∷ rs) h = rw (
  parts rs h.1,
  h.0.0.1,
  known_action-trim r.action h.0.0.2,
  h.0.0.0,
  known_filled r.action h.0.0.2,
)

parts-IsFree : (rs : List Rule) → All IsPlainRule rs → All (IsFree b',') (map entry_of rs)
parts-IsFree [] h = tt
parts-IsFree (r ∷ rs) h = (entry-IsFree r h.0, parts-IsFree rs h.1)

-- The rules of a list that is not empty, all valid and with neither `,` nor `=` in a pattern, are
-- read back unchanged and in order by the strict parser from what `serializeRulesForEnv` writes.
pub parse_rules_strict-serialize_rules :
    (r : Rule) (rs : List Rule)
    → All IsPlainRule (r ∷ rs)
    → parse_rules_strict (serialize_rules (r ∷ rs)) ≡ ok (r ∷ rs)
unfolding parse_rules_strict serialize_rules
parse_rules_strict-serialize_rules r rs h =
    let some_rules : (suc (length rs) == 0) ≡ false = ground arith in
    rw
      (
        parts (r ∷ rs) h,
        some_rules,
        split-join b',' (entry_of r) (map entry_of rs) (parts-IsFree (r ∷ rs) h),
      )
      (entries 0 (r ∷ rs) h)
