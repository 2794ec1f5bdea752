-- ===== src/Safety/Policy/Valid.antt =====
-- What `validatePolicy` accepts, and what it has written where it stops.
use aliyun_cli.Base.{
  trim_space_idem, ℕ, suc, ◌+◌, text_eq, text_eq_iff, is_empty, trim_left, trim_right, trim_space,
  to_lower, Bool, true, false, Bool-cases, ◌≡◌, refl, sym, ap, subst, ◌∙◌, ◌≢◌, ◌⊎◌, inl, inr,
  false≢true, Option, none, some, List, [], ◌∷◌, ◌++◌, map, length, All, if◌then◌else◌, arith,
}
use aliyun_cli.Safety.Policy.{
  Action, action_allow, action_deny, action_confirm, action_forbid, Rule, Policy, policy_of,
  PolicyError, pattern_is_empty, action_is_invalid, is_known_action, normalize_rule, validate_rules,
  validate_policy, base_policy,
}

-- The pattern is not blank, and the action is one of the four, up to case and space around it.
abbrev pub Acceptable : Rule → Type 0
Acceptable r =
    (is_empty (trim_space r.pattern) ≡ false)
    × (is_known_action (to_lower (trim_space r.action)) ≡ true)

-- What a rule is after it was accepted.
abbrev pub IsValidRule : Rule → Type 0
IsValidRule r =
    (is_empty r.pattern ≡ false)
    × (trim_space r.pattern ≡ r.pattern)
    × (is_known_action r.action ≡ true)

pub validate_rules-Acceptable :
    (i : ℕ) (rs : List Rule)
    → All Acceptable rs
    → validate_rules i rs ≡ (none, map normalize_rule rs)
unfolding validate_rules normalize_rule
validate_rules-Acceptable i [] h = refl
validate_rules-Acceptable i (r ∷ rs) h = rw (h.0.0, h.0.1, validate_rules-Acceptable (suc i) rs h.1)

-- The errors of the rule at index `i`.
abbrev pub rule_error : ℕ → Rule → Option PolicyError
rule_error i r =
    if is_empty (trim_space r.pattern)
    then some (pattern_is_empty i)
    else some (action_is_invalid i r.action)

-- Not `Acceptable`.
abbrev pub IsRejected : Rule → Type 0
IsRejected r =
    (is_empty (trim_space r.pattern) ≡ true)
    ⊎ (is_known_action (to_lower (trim_space r.action)) ≡ false)

stops_at :
    (i : ℕ) (r : Rule) (behind : List Rule)
    → IsRejected r
    → validate_rules i (r ∷ behind) ≡ (rule_error i r, normalize_rule r ∷ behind)
unfolding validate_rules normalize_rule
stops_at i r behind bad = elim (Bool-cases (is_empty (trim_space r.pattern))) [
  | inl blank ↦ rw blank
  | inr good ↦ elim bad [
    | inl blank ↦ absurd (false≢true (sym good ∙ blank))
    | inr unknown ↦ rw (good, unknown)
  ]
]

validate_rules-append :
    (i : ℕ) (before : List Rule) (r : Rule) (behind : List Rule)
    → All Acceptable before
    → IsRejected r
    → validate_rules i (before ++ (r ∷ behind))
      ≡ (rule_error (i + length before) r, map normalize_rule before ++ (normalize_rule r ∷ behind))
unfolding validate_rules normalize_rule
validate_rules-append i [] r behind h bad =
    let e : i + 0 ≡ i = omega arith in rw e (stops_at i r behind bad)
validate_rules-append i (q ∷ before) r behind h bad =
    let e : i + suc (length before) ≡ suc i + length before = omega arith in
    rw (h.0.0, h.0.1, validate_rules-append (suc i) before r behind h.1 bad, e)

-- `validatePolicy` stops at the first rule that is not acceptable, with an error that tells this
-- rule's index and which of the two conditions failed first; the rules up to and including that
-- one are left trimmed and in lower case, and those behind it are left as they were.
pub validate_policy_stops :
    (enabled : Bool) (before : List Rule) (r : Rule) (behind : List Rule)
    → All Acceptable before
    → IsRejected r
    → validate_policy (some (policy_of enabled (before ++ (r ∷ behind)))) ≡ (
      rule_error (length before) r,
      some (policy_of enabled (map normalize_rule before ++ (normalize_rule r ∷ behind))),
    )
unfolding validate_policy
validate_policy_stops enabled before r behind h bad =
    let e : 0 + length before ≡ length before = omega arith in
    rw (validate_rules-append 0 before r behind h bad, e)

-- Every rule is acceptable, or there is a first one that is not.
pub split-IsRejected :
    (rs : List Rule)
    → All Acceptable rs
      ⊎ ((before : List Rule) × (r : Rule) × (behind : List Rule) × All Acceptable before
          × IsRejected r
          × (rs ≡ before ++ (r ∷ behind)))
split-IsRejected [] = inl tt
split-IsRejected (r ∷ rs) = elim (Bool-cases (is_empty (trim_space r.pattern))) [
  | inl blank ↦ inr ([], r, rs, tt, inl blank, refl)
  | inr good ↦ elim (Bool-cases (is_known_action (to_lower (trim_space r.action)))) [
    | inl known ↦ elim (split-IsRejected rs) [
      | inl h ↦ inl ((good, known), h)
      | inr (before, q, behind, h, bad, e) ↦
          inr (r ∷ before, q, behind, ((good, known), h), bad, ap (λ t. r ∷ t) e)
    ]
    | inr unknown ↦ inr ([], r, rs, tt, inr unknown, refl)
  ]
]

-- An action is one of four.
pub known_action-cases :
    (P : Action → Type 0) (a : Action)
    → is_known_action a ≡ true
    → P action_allow
    → P action_deny
    → P action_confirm
    → P action_forbid
    → P a
known_action-cases P a h l d c f = elim (Bool-cases (text_eq a action_allow)) [
  | inl e ↦ subst P (sym ((text_eq_iff a _).0 e)) l
  | inr n0 ↦ elim (Bool-cases (text_eq a action_deny)) [
    | inl e ↦ subst P (sym ((text_eq_iff a _).0 e)) d
    | inr n1 ↦ elim (Bool-cases (text_eq a action_confirm)) [
      | inl e ↦ subst P (sym ((text_eq_iff a _).0 e)) c
      | inr n2 ↦ subst P (sym ((text_eq_iff a action_forbid).0 (ground arith))) f
    ]
  ]
]

-- Of the rules that it accepts, validation leaves nothing to normalize.
pub known_action-trim : (a : Action) → is_known_action a ≡ true → to_lower (trim_space a) ≡ a
unfolding to_lower trim_space trim_left trim_right
known_action-trim a h =
    known_action-cases (λ b. to_lower (trim_space b) ≡ b) a h refl refl refl refl

pub normalize_rule-IsValidRule : (r : Rule) → Acceptable r → IsValidRule (normalize_rule r)
unfolding normalize_rule
normalize_rule-IsValidRule r h = (h.0, trim_space_idem r.pattern, h.1)

pub IsValidRule-Acceptable : (r : Rule) → IsValidRule r → Acceptable r
IsValidRule-Acceptable r h = (rw h.1 h.0, rw (known_action-trim r.action h.2) h.2)

pub IsValidRule-normalize_rule : (r : Rule) → IsValidRule r → normalize_rule r ≡ r
unfolding normalize_rule
IsValidRule-normalize_rule r h = rw (h.1, known_action-trim r.action h.2)

All-valid : (rs : List Rule) → All Acceptable rs → All IsValidRule (map normalize_rule rs)
All-valid [] h = tt
All-valid (r ∷ rs) h = (normalize_rule-IsValidRule r h.0, All-valid rs h.1)

All-Acceptable : (rs : List Rule) → All IsValidRule rs → All Acceptable rs
All-Acceptable [] h = tt
All-Acceptable (r ∷ rs) h = (IsValidRule-Acceptable r h.0, All-Acceptable rs h.1)

All-normal : (rs : List Rule) → All IsValidRule rs → map normalize_rule rs ≡ rs
All-normal [] h = refl
All-normal (r ∷ rs) h = rw (IsValidRule-normalize_rule r h.0, All-normal rs h.1)

-- A policy of valid rules passes validation unchanged.
pub validate_policy-IsValidRule :
    (p : Policy) → All IsValidRule p.rules → validate_policy (some p) ≡ (none, some p)
unfolding validate_policy
validate_policy-IsValidRule p h =
    rw (validate_rules-Acceptable 0 p.rules (All-Acceptable p.rules h), All-normal p.rules h)

rejected_by :
    (enabled : Bool) (rs : List Rule)
    → ((before : List Rule) × (r : Rule) × (behind : List Rule) × All Acceptable before
        × IsRejected r
        × (rs ≡ before ++ (r ∷ behind)))
    → (e : PolicyError) × ((validate_policy (some (policy_of enabled rs))).0 ≡ some e)
rejected_by enabled rs (before, r, behind, h, bad, e) =
    let stop = validate_policy_stops enabled before r behind h bad in
    let (x, ex) = some_error (length before) r in
    (
      x,
      subst (λ t. (validate_policy (some (policy_of enabled t))).0 ≡ some x) (sym e)
          (ap (λ t. t.0) stop ∙ ex),
    )
  where
    some_error : (i : ℕ) (r : Rule) → (e : PolicyError) × (rule_error i r ≡ some e)
    some_error i r = elim (Bool-cases (is_empty (trim_space r.pattern))) [
      | inl blank ↦ (pattern_is_empty i, rw blank)
      | inr good ↦ (action_is_invalid i r.action, rw good)
    ]

accepted :
    (p : Policy)
    → All Acceptable p.rules
    → (validate_policy (some p)).1 ≡ some (policy_of p.enabled (map normalize_rule p.rules))
unfolding validate_policy
accepted p h = rw (validate_rules-Acceptable 0 p.rules h)

-- Where `validatePolicy` reports no error, it leaves the policy switched as it was and every rule
-- valid: the pattern is not empty and has no space around it, and the action is one of the four
-- in lower case. A second validation of that policy succeeds and changes nothing.
pub validate_policy_valid :
    (p q : Policy)
    → validate_policy (some p) ≡ (none, some q)
    → (q.enabled ≡ p.enabled)
      × All IsValidRule q.rules
      × (validate_policy (some q) ≡ (none, some q))
validate_policy_valid p q h = elim (split-IsRejected p.rules) [
  | inl good ↦
      let e : some q ≡ some (policy_of p.enabled (map normalize_rule p.rules)) =
        sym (ap (λ t. t.1) h) ∙ accepted p good in
      let same : q ≡ policy_of p.enabled (map normalize_rule p.rules) = ap (base_policy) e in
      let valid : All IsValidRule q.rules =
        subst (λ t. All IsValidRule t.rules) (sym same) (All-valid p.rules good) in
      (ap (λ t. t.enabled) same, valid, validate_policy-IsValidRule q valid)
  | inr bad ↦
      let (x, e) = rejected_by p.enabled p.rules bad in
      absurd (none≢some (sym (ap (λ t. t.0) h) ∙ e))
]
  where
    none≢some : {x : PolicyError} → none ≢ some x
    none≢some e = cc
