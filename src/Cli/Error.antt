-- ===== src/Cli/Error.antt =====
-- The errors that package `cli` returns (`cli/errors.go` and the `fmt.Errorf` calls), a
-- constructor for each message with the values that the message shows, and the panics.
use aliyun_cli.Base.{ℕ, Text, Res}

-- `Field.check`
pub data FieldError : Type 0 where
  field_required : Text → FieldError
  field_duplicated : Text → FieldError

pub data CliError : Type 0 where
  -- `setIsAssigned`, `assign`, `validate`, `assignField`, `checkFields`
  flag_duplicated : Text → CliError
  flag_not_assignable : Text → CliError
  flag_needs_value : Text → CliError
  bad_field : Text → Text → CliError
  bad_value : Text → CliError
  bad_format : Text → FieldError → CliError
  -- `FlagSet.AddByName`
  name_duplicated : Text → CliError
  -- `Context.CheckFlags`, `detectFlag`, `detectFlagByShorthand`
  missing_flag : Text → CliError
  exclusive_flags : Text → Text → CliError
  invalid_flag : Text → CliError
  unknown_shorthand : ℕ → CliError
  -- `Parser.parseCommandArg`
  double_dash : CliError
  bad_flag_form : Text → CliError
  -- `Command.executeInner`
  invalid_command : Text → CliError
  parse_failed : CliError → CliError

pub data Panic : Type 0 where
  -- `needValue`: the mode is none of the four constants
  unexpected_mode : Panic
  -- `checkValid`
  fields_need_repeatable : Text → Panic
  -- `FlagSet.Add`
  formation_duplicated : Text → Panic
  -- a call of a nil function or a method of a nil object
  nil_pointer : Panic

abbrev pub Outcome {ℓ} : Type ℓ → Type ℓ
Outcome A = Res CliError Panic A
