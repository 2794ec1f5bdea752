-- ===== src/Cli/Field.antt =====
-- `Field` of cli/flag_field.go. (The help text `Short` is left out.)
use aliyun_cli.Base.{
  Text, is_empty, Bool, true, false, not, ◌&&◌, Option, none, some, List, [], ◌∷◌, ◌++◌, length,
  ltb, if◌then◌else◌,
}
use aliyun_cli.Cli.Error.{FieldError, field_required, field_duplicated}

pub record Field : Type 0 where
  pub key : Text
  pub required : Bool
  pub repeatable : Bool
  pub default_value : Text
  pub assigned : Bool
  pub value : Text
  pub values : List Text

-- The method `assign`.
abbrev pub assign_to : Field → Text → Field
assign_to f v = record f { assigned = true; value = v; values = f.values ++ (v ∷ []) }

-- `getValue`
unfoldable pub field_value : Field → Text × Bool
field_value f =
    if f.assigned
    then (f.value, true)
    else if not (is_empty f.default_value)
    then (f.default_value, false)
    else ([], false)

-- `check`: `none` is success. The message names the key, or says "value" where the key is empty.
unfoldable pub check_field : Field → Option FieldError
check_field f =
    if f.required && not f.assigned
    then some (field_required f.key)
    else if not f.repeatable && ltb 1 (length f.values)
    then some (field_duplicated f.key)
    else none
