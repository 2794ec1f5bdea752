-- ===== src/Safety/Confirm.antt =====
-- sysconfig/safety/check.go: whether a command may go on. What the terminal gives is an argument:
-- whether it is one, and the line that is read from it, if any.
pub mod Approval
use aliyun_cli.Base.{
  Text, text_eq, txt, is_empty, to_lower, to_upper, trim_space, Bool, false, not, ◌||◌, Option,
  none, some, ◌∷◌, ◌++◌, if◌then◌else◌, Res, ok, err, panic,
}
use aliyun_cli.Safety.Policy.{
  action_deny, action_confirm, Rule, Policy, CommandInfo, check, base_policy,
}

pub record Terminal : Type 0 where
  pub interactive : Bool
  pub line : Option Text

abbrev pub terminal : Bool → Option Text → Terminal
terminal i l = record { interactive = i; line = l }

-- `PromptConfirm`
unfoldable pub prompt_confirm : Option Text → Bool
prompt_confirm none = false
prompt_confirm (some line) =
    let answer = trim_space (to_lower line) in
    text_eq answer (txt "y") || text_eq answer (txt "yes")

unfoldable pub display_command : CommandInfo → Text
display_command cmd =
    if not (is_empty cmd.path)
    then to_upper cmd.api_or_method ++ (b' ' ∷ cmd.path)
    else cmd.api_or_method

-- The errors of `CheckAndConfirm` with the parts of their messages.
pub data Refusal : Type 0 where
  blocked : Text → Text → Text → Refusal
  needs_approval : Text → Text → Refusal
  cancelled : Refusal

-- `result.Rule.Pattern` of a nil rule
pub data NilRule : Type 0 where
  nil_rule : NilRule

abbrev pub Verdict : Type 0
Verdict = Res {0} Refusal NilRule Unit

unfoldable pub refuse_by : CommandInfo → Option Rule → Verdict
refuse_by cmd none = panic nil_rule
refuse_by cmd (some r) = err (blocked cmd.product (display_command cmd) r.pattern)

unfoldable pub ask : CommandInfo → Bool → Terminal → Verdict
ask cmd skip_confirm t =
    if skip_confirm
    then ok tt
    else if not t.interactive
    then err (needs_approval cmd.product (display_command cmd))
    else if not (prompt_confirm t.line)
    then err cancelled
    else ok tt

unfoldable pub check_and_confirm : Option Policy → CommandInfo → Bool → Terminal → Verdict
check_and_confirm policy cmd skip_confirm t =
    let result = check (base_policy policy) cmd in
    if text_eq result.action action_deny
    then refuse_by cmd result.rule
    else if text_eq result.action action_confirm
    then ask cmd skip_confirm t
    else ok tt
