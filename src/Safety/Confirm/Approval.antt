-- ===== src/Safety/Confirm/Approval.antt =====
-- When `CheckAndConfirm` lets a command go on.
use aliyun_cli.Base.{
  Text, txt, text_eq, text_eq_iff, trim_space, to_lower, Bool-cases, Bool, true, false, ◌≡◌, refl,
  sym, ap, subst, ◌∙◌, ◌≢◌, ◌↔◌, ◌⊎◌, inl, inr, Option, none, some, if◌then◌else◌, ok, panic, arith,
}
use aliyun_cli.Safety.Policy.{
  Action, action_allow, action_deny, action_confirm, Rule, Policy, base_policy, CheckResult,
  check_result, not_matched, CommandInfo, decided_action, check,
}
use aliyun_cli.Safety.Policy.Decision.{check-cases, decided_action-cases}
use aliyun_cli.Safety.Confirm.{
  Terminal, prompt_confirm, nil_rule, Verdict, refuse_by, ask, check_and_confirm,
}

-- The line says yes: with the space around it left out and its letters in lower case, it is `y` or `yes`.
abbrev pub SaysYes : Text → Type 0
SaysYes line = (trim_space (to_lower line) ≡ txt "y") ⊎ (trim_space (to_lower line) ≡ txt "yes")

prompt_confirm_sound :
    (answer : Option Text)
    → prompt_confirm answer ≡ true
    → (line : Text) × (answer ≡ some line) × SaysYes line
unfolding prompt_confirm
prompt_confirm_sound none h = cc
prompt_confirm_sound (some line) h =
    let given = trim_space (to_lower line) in
    elim (Bool-cases (text_eq given (txt "y"))) [
      | inl y ↦ (line, refl, inl ((text_eq_iff given (txt "y")).0 y))
      | inr other ↦ (line, refl, inr ((text_eq_iff given (txt "yes")).0 (ground arith)))
    ]

prompt_confirm_complete : (line : Text) → SaysYes line → prompt_confirm (some line) ≡ true
unfolding prompt_confirm text_eq
prompt_confirm_complete line (inl y) = rw y refl
prompt_confirm_complete line (inr says) = rw says refl

-- Somebody has agreed: `--yes` was given, or the line read from a terminal says yes.
pub data Agreed : Bool → Terminal → Type 0 where
  by_flag : {t : Terminal} → Agreed true t
  by_answer :
      {skip : Bool} {t : Terminal} (line : Text)
      → t.interactive ≡ true
      → t.line ≡ some line
      → SaysYes line
      → Agreed skip t

pub data MayRun : Action → Bool → Terminal → Type 0 where
  if_allowed : {skip : Bool} {t : Terminal} → MayRun action_allow skip t
  if_agreed : {skip : Bool} {t : Terminal} → Agreed skip t → MayRun action_confirm skip t

ask-Agreed :
    (cmd : CommandInfo) (skip : Bool) (t : Terminal) → ask cmd skip t ≡ ok tt → Agreed skip t
unfolding ask
ask-Agreed cmd true t h = by_flag
ask-Agreed cmd false t h =
    let e : (t.interactive ≡ true) × (prompt_confirm t.line ≡ true) = ground arith in
    let (line, read, says) = prompt_confirm_sound t.line e.1 in by_answer line e.0 read says

Agreed-ask :
    (cmd : CommandInfo) {skip : Bool} {t : Terminal} → Agreed skip t → ask cmd skip t ≡ ok tt
unfolding ask
Agreed-ask cmd by_flag = refl
Agreed-ask cmd (by_answer {skip = skip} {t = t} line i read says) =
    let p : prompt_confirm t.line ≡ true =
      ap prompt_confirm read ∙ prompt_confirm_complete line says in
    ground arith

-- What follows once the rules were looked through.
abbrev after : CommandInfo → Bool → Terminal → CheckResult → Verdict
after cmd skip t result =
    if text_eq result.action action_deny
    then refuse_by cmd result.rule
    else if text_eq result.action action_confirm
    then ask cmd skip t
    else ok tt

refuse_by-fails : (cmd : CommandInfo) (r : Option Rule) → refuse_by cmd r ≢ ok tt
unfolding refuse_by
refuse_by-fails cmd none e = cc
refuse_by-fails cmd (some r) e = cc

deny-MayRun : {a : Action} {skip : Bool} {t : Terminal} → MayRun a skip t → a ≢ action_deny
deny-MayRun if_allowed e = cc
deny-MayRun (if_agreed g) e = cc

confirm-MayRun :
    {a : Action} {skip : Bool} {t : Terminal} → MayRun a skip t → a ≡ action_confirm → Agreed skip t
confirm-MayRun if_allowed e = cc
confirm-MayRun (if_agreed g) e = g

after_allow :
    (cmd : CommandInfo) (skip : Bool) (t : Terminal) (r : CheckResult)
    → r.action ≡ action_allow
    → after cmd skip t r ≡ ok tt
unfolding text_eq
after_allow cmd skip t r e = rw e

after_confirm :
    (cmd : CommandInfo) (skip : Bool) (t : Terminal) (r : CheckResult)
    → r.action ≡ action_confirm
    → after cmd skip t r ≡ ask cmd skip t
unfolding text_eq
after_confirm cmd skip t r e = rw e

after_deny :
    (cmd : CommandInfo) (skip : Bool) (t : Terminal) (r : CheckResult)
    → r.action ≡ action_deny
    → after cmd skip t r ≡ refuse_by cmd r.rule
unfolding text_eq
after_deny cmd skip t r e = rw e

after_iff :
    (cmd : CommandInfo) (skip : Bool) (t : Terminal) (r : CheckResult)
    → (r.action ≡ action_allow) ⊎ (r.action ≡ action_confirm) ⊎ (r.action ≡ action_deny)
    → (after cmd skip t r ≡ ok tt) ↔ MayRun r.action skip t
after_iff cmd skip t r (inl e) =
    (λ _. subst (λ a. MayRun a skip t) (sym e) if_allowed, λ _. after_allow cmd skip t r e)
after_iff cmd skip t r (inr (inl e)) = (
  λ h.
      subst (λ a. MayRun a skip t) (sym e)
        (if_agreed (ask-Agreed cmd skip t (sym (after_confirm cmd skip t r e) ∙ h))),
  λ m. after_confirm cmd skip t r e ∙ Agreed-ask cmd (confirm-MayRun m e),
)
after_iff cmd skip t r (inr (inr e)) = (
  λ h. absurd (refuse_by-fails cmd r.rule (sym (after_deny cmd skip t r e) ∙ h)),
  λ m. absurd (deny-MayRun m e),
)

known_result :
    (p : Policy) (cmd : CommandInfo)
    → ((check p cmd).action ≡ action_allow)
      ⊎ ((check p cmd).action ≡ action_confirm)
      ⊎ ((check p cmd).action ≡ action_deny)
known_result p cmd = elim (check-cases p cmd) [
  | inl n ↦ inl (ap (λ c. c.action) n)
  | inr (r, e) ↦
      subst
        (λ c. (c.action ≡ action_allow) ⊎ (c.action ≡ action_confirm) ⊎ (c.action ≡ action_deny))
        (sym e) (decided_action-cases r.action)
]

-- `CheckAndConfirm` lets a command go on exactly if `Check` allows it, or if `Check` asks to
-- confirm it and somebody has agreed: the confirmation is skipped by `--yes`, or the input is a
-- terminal and the line read from it is `y` or `yes`, up to case and surrounding space.
pub check_and_confirm_iff :
    (policy : Option Policy) (cmd : CommandInfo) (skip : Bool) (t : Terminal)
    → (check_and_confirm policy cmd skip t ≡ ok tt)
      ↔ MayRun (check (base_policy policy) cmd).action skip t
unfolding check_and_confirm
check_and_confirm_iff policy cmd skip t =
    after_iff cmd skip t (check (base_policy policy) cmd) (known_result (base_policy policy) cmd)

ask_rule : (cmd : CommandInfo) (skip : Bool) (t : Terminal) → ask cmd skip t ≢ panic nil_rule
unfolding ask
ask_rule cmd skip t e = ground arith

refuse_by_rule : (cmd : CommandInfo) (q : Rule) → refuse_by cmd (some q) ≢ panic nil_rule
unfolding refuse_by
refuse_by_rule cmd q e = cc

allowed_rule : ◌≢◌ {A = Verdict} (ok tt) (panic nil_rule)
allowed_rule e = cc

after_settles :
    (cmd : CommandInfo) (skip : Bool) (t : Terminal) (r : CheckResult)
    → (r ≡ not_matched) ⊎ ((q : Rule) × (r ≡ check_result (decided_action q.action) true (some q)))
    → after cmd skip t r ≢ panic nil_rule
after_settles cmd skip t r (inl n) e =
    allowed_rule (sym (after_allow cmd skip t r (ap (λ c. c.action) n)) ∙ e)
after_settles cmd skip t r (inr (q, n)) e = elim (decided_action-cases q.action) [
  | inl allow ↦
      let same = ap (λ c. c.action) n ∙ allow in
      allowed_rule (sym (after_allow cmd skip t r same) ∙ e)
  | inr (inl confirm) ↦
      let same = ap (λ c. c.action) n ∙ confirm in
      ask_rule cmd skip t (sym (after_confirm cmd skip t r same) ∙ e)
  | inr (inr deny) ↦
      let same = ap (λ c. c.action) n ∙ deny in
      refuse_by_rule cmd q
        (ap (refuse_by cmd) (sym (ap (λ c. c.rule) n)) ∙ sym (after_deny cmd skip t r same) ∙ e)
]

-- `CheckAndConfirm` never reads the pattern of a missing rule: where it refuses a command by
-- policy, `Check` has named a rule.
pub check_and_confirm_rule :
    (policy : Option Policy) (cmd : CommandInfo) (skip : Bool) (t : Terminal)
    → check_and_confirm policy cmd skip t ≢ panic nil_rule
unfolding check_and_confirm
check_and_confirm_rule policy cmd skip t =
    after_settles cmd skip t (check (base_policy policy) cmd) (check-cases (base_policy policy) cmd)
