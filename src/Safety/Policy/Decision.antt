-- ===== src/Safety/Policy/Decision.antt =====
-- What `Check` decides: the first rule that matches, and that it fails closed.
use aliyun_cli.Base.{
  Text, text_eq, text_eq_iff, true, false, ◌==◌, Bool-cases, ◌≡◌, refl, sym, ap, subst, ◌∙◌, ◌≢◌,
  ◌↔◌, ◌⊎◌, inl, inr, false≢true, some, List, [], ◌∷◌, length, All, if◌then◌else◌, arith,
}
use aliyun_cli.Safety.Policy.{
  Action, action_allow, action_deny, action_confirm, action_forbid, Rule, Policy, check_result,
  not_matched, CommandInfo, build_command_pattern, match_pattern, decided_action, check_rules,
  check,
}

-- The rule stands in the list, and no rule before it matches.
pub data FirstMatch : List Rule → Text → Rule → Type 0 where
  match_here :
      {r : Rule} {rs : List Rule} {cmd : Text}
      → match_pattern r.pattern cmd ≡ true
      → FirstMatch (r ∷ rs) cmd r
  match_later :
      {r q : Rule} {rs : List Rule} {cmd : Text}
      → match_pattern r.pattern cmd ≡ false
      → FirstMatch rs cmd q
      → FirstMatch (r ∷ rs) cmd q

abbrev pub NoMatch : List Rule → Text → Type 0
NoMatch rs cmd = All (λ r. match_pattern r.pattern cmd ≡ false) rs

pub FirstMatch-or-NoMatch :
    (rs : List Rule) (cmd : Text) → NoMatch rs cmd ⊎ ((r : Rule) × FirstMatch rs cmd r)
FirstMatch-or-NoMatch [] cmd = inl tt
FirstMatch-or-NoMatch (r ∷ rs) cmd = elim (Bool-cases (match_pattern r.pattern cmd)) [
  | inl hit ↦ inr (r, match_here hit)
  | inr miss ↦ elim (FirstMatch-or-NoMatch rs cmd) [
    | inl none_of ↦ inl (miss, none_of)
    | inr (q, m) ↦ inr (q, match_later miss m)
  ]
]

pub check_rules-FirstMatch :
    {rs : List Rule} {cmd : Text} {r : Rule}
    → FirstMatch rs cmd r
    → check_rules rs cmd ≡ check_result (decided_action r.action) true (some r)
unfolding check_rules
check_rules-FirstMatch (match_here hit) = rw hit
check_rules-FirstMatch (match_later miss m) = rw (miss, check_rules-FirstMatch m)

pub check_rules-NoMatch :
    (rs : List Rule) (cmd : Text) → NoMatch rs cmd → check_rules rs cmd ≡ not_matched
unfolding check_rules
check_rules-NoMatch [] cmd h = refl
check_rules-NoMatch (r ∷ rs) cmd h = rw (h.0, check_rules-NoMatch rs cmd h.1)

loop_decides :
    (rs : List Rule) (cmd : Text)
    → (if length rs == 0 then not_matched else check_rules rs cmd) ≡ check_rules rs cmd
unfolding check_rules
loop_decides [] cmd = refl
loop_decides (r ∷ rs) cmd = ground arith

-- `Check` looks only at the rules, since an empty list decides like its loop.
check_enabled :
    (p : Policy) (cmd : CommandInfo)
    → p.enabled ≡ true
    → check p cmd ≡ check_rules p.rules (build_command_pattern cmd)
unfolding check
check_enabled p cmd h = rw h (loop_decides p.rules _)

check_disabled : (p : Policy) (cmd : CommandInfo) → p.enabled ≡ false → check p cmd ≡ not_matched
unfolding check
check_disabled p cmd h = rw h

-- With an enabled policy, `Check` reports the first rule of the list whose pattern matches the
-- command, with the action that this rule stands for, whatever rules follow.
pub check_first :
    (p : Policy) (cmd : CommandInfo) (r : Rule)
    → p.enabled ≡ true
    → FirstMatch p.rules (build_command_pattern cmd) r
    → check p cmd ≡ check_result (decided_action r.action) true (some r)
check_first p cmd r on m = check_enabled p cmd on ∙ check_rules-FirstMatch m

-- The decision on a rule's action: `confirm` and `forbid` ask, `allow` allows, all else denies.
pub data Decides : Action → Action → Type 0 where
  allows : Decides action_allow action_allow
  confirms : Decides action_confirm action_confirm
  forbids : Decides action_forbid action_confirm
  denies :
      {a : Action}
      → a ≢ action_allow
      → a ≢ action_confirm
      → a ≢ action_forbid
      → Decides a action_deny

text_eq-cases : (a b : Text) → (a ≡ b) ⊎ ((text_eq a b ≡ false) × (a ≢ b))
text_eq-cases a b = elim (Bool-cases (text_eq a b)) [
  | inl same ↦ inl ((text_eq_iff a b).0 same)
  | inr not_same ↦ inr (not_same, λ e. false≢true (sym not_same ∙ (text_eq_iff a b).1 e))
]

decided_action-nil : decided_action [] ≡ action_deny
unfolding decided_action text_eq
decided_action-nil = refl

decided_action-deny : decided_action action_deny ≡ action_deny
unfolding decided_action text_eq
decided_action-deny = refl

decided_action-other :
    (a : Action)
    → text_eq a action_forbid ≡ false
    → text_eq a action_allow ≡ false
    → text_eq a action_confirm ≡ false
    → decided_action a ≡ action_deny
unfolding decided_action
decided_action-other [] f l c = decided_action-nil
decided_action-other (x ∷ a) f l c = elim (text_eq-cases (x ∷ a) action_deny) [
  | inl e ↦ ap decided_action e ∙ decided_action-deny
  | inr (d, _) ↦ rw (f, l, c, d)
]

-- A rule's action decides as follows: `allow` allows, `confirm` and its alias `forbid` ask, and
-- every other text denies, the empty and the unknown ones included.
pub decided_action-Decides : (a : Action) → Decides a (decided_action a)
unfolding decided_action text_eq
decided_action-Decides a = elim (text_eq-cases a action_forbid) [
  | inl e ↦ subst (λ b. Decides b (decided_action b)) (sym e) forbids
  | inr (f, nf) ↦ elim (text_eq-cases a action_allow) [
    | inl e ↦ subst (λ b. Decides b (decided_action b)) (sym e) allows
    | inr (l, nl) ↦ elim (text_eq-cases a action_confirm) [
      | inl e ↦ subst (λ b. Decides b (decided_action b)) (sym e) confirms
      | inr (c, nc) ↦ subst (Decides a) (sym (decided_action-other a f l c)) (denies nl nc nf)
    ]
  ]
]

decided_action-allow : (a : Action) → decided_action a ≡ action_allow → a ≡ action_allow
decided_action-allow a e = Decides-allow (decided_action-Decides a) e
  where
    Decides-allow : {a d : Action} → Decides a d → d ≡ action_allow → a ≡ action_allow
    Decides-allow allows e = refl
    Decides-allow confirms e = cc
    Decides-allow forbids e = cc
    Decides-allow (denies _ _ _) e = cc

allow-decided_action : decided_action action_allow ≡ action_allow
unfolding decided_action text_eq
allow-decided_action = refl

-- No rule keeps the command from running: none matches, or the first that does says `allow`.
pub data Allowed : List Rule → Text → Type 0 where
  unmatched : {rs : List Rule} {cmd : Text} → NoMatch rs cmd → Allowed rs cmd
  by_rule :
      {rs : List Rule} {cmd : Text} {r : Rule}
      → FirstMatch rs cmd r
      → r.action ≡ action_allow
      → Allowed rs cmd

allowed :
    {rs : List Rule} {cmd : Text}
    → NoMatch rs cmd ⊎ ((r : Rule) × FirstMatch rs cmd r)
    → (check_rules rs cmd).action ≡ action_allow
    → Allowed rs cmd
allowed (inl n) h = unmatched n
allowed (inr (r, m)) h =
    by_rule m
      (decided_action-allow r.action (sym (ap (λ c. c.action) (check_rules-FirstMatch m)) ∙ h))

Allowed-check_rules :
    {rs : List Rule} {cmd : Text} → Allowed rs cmd → (check_rules rs cmd).action ≡ action_allow
Allowed-check_rules (unmatched n) = ap (λ c. c.action) (check_rules-NoMatch _ _ n)
Allowed-check_rules (by_rule m e) =
    ap (λ c. c.action) (check_rules-FirstMatch m) ∙ ap decided_action e ∙ allow-decided_action

-- `Check` allows a command exactly if the policy is disabled, if no rule's pattern matches it, or
-- if the action of the first matching rule is the text `allow`: every other first rule, one with
-- an empty or unknown action included, keeps the command from running.
pub check_allows_iff :
    (p : Policy) (cmd : CommandInfo)
    → ((check p cmd).action ≡ action_allow)
      ↔ ((p.enabled ≡ false) ⊎ Allowed p.rules (build_command_pattern cmd))
check_allows_iff p cmd = elim (Bool-cases p.enabled) [
  | inl on ↦
      let at : check p cmd ≡ check_rules p.rules (build_command_pattern cmd) =
        check_enabled p cmd on in
      (
        λ h. inr (allowed (FirstMatch-or-NoMatch _ _) (sym (ap (λ c. c.action) at) ∙ h)),
        elim [
          | inl off ↦ absurd (false≢true (sym off ∙ on))
          | inr a ↦ ap (λ c. c.action) at ∙ Allowed-check_rules a
        ],
      )
  | inr off ↦ (λ h. inl off, λ h. ap (λ c. c.action) (check_disabled p cmd off))
]

-- What `Check` can report.
pub check-cases :
    (p : Policy) (cmd : CommandInfo)
    → (check p cmd ≡ not_matched)
      ⊎ ((r : Rule) × (check p cmd ≡ check_result (decided_action r.action) true (some r)))
check-cases p cmd = elim (Bool-cases p.enabled) [
  | inl on ↦ elim (FirstMatch-or-NoMatch p.rules (build_command_pattern cmd)) [
    | inl n ↦ inl (check_enabled p cmd on ∙ check_rules-NoMatch _ _ n)
    | inr (r, m) ↦ inr (r, check_first p cmd r on m)
  ]
  | inr off ↦ inl (check_disabled p cmd off)
]

-- The decided action is one of three.
pub decided_action-cases :
    (a : Action)
    → (decided_action a ≡ action_allow)
      ⊎ (decided_action a ≡ action_confirm)
      ⊎ (decided_action a ≡ action_deny)
decided_action-cases a = of_decision (decided_action-Decides a)
  where
    of_decision :
        {a d : Action} → Decides a d → (d ≡ action_allow) ⊎ (d ≡ action_confirm) ⊎ (d ≡ action_deny)
    of_decision allows = inl refl
    of_decision confirms = inr (inl refl)
    of_decision forbids = inr (inl refl)
    of_decision (denies _ _ _) = inr (inr refl)
