-- ===== src/Tests/Flags.antt =====
-- Flags and flag sets (cli/flag.go, cli/flag_set.go) at concrete data.
use aliyun_cli.Base.{txt, text_eq, true, false, ◌≡◌, refl, some, [], ◌∷◌, ok, and_then}
use aliyun_cli.Cli.Field.{Field}
use aliyun_cli.Cli.Flag.{
  assigned_once, assigned_default, assigned_repeatable, Flag, empty_flag, get_formations,
  find_field, assign, assign_field,
}
use aliyun_cli.Cli.FlagSet.{
  index_get, FlagSet, new_flag_set, add, add_formations, put, put_formations, contains_ref,
  merge_with, add_all, put_persistent,
}

abbrev pub name_flag : Flag
name_flag = record empty_flag { name = txt "name"; shorthand = b'n'; assigned_mode = assigned_once }

abbrev pub tag_flag : Flag
tag_flag = record empty_flag {
  name = txt "tag";
  assigned_mode = assigned_repeatable;
  persistent = true;
}

abbrev pub name_set : FlagSet
name_set = record { flags = 0 ∷ []; index = (txt "--name", 0) ∷ (txt "-n", 0) ∷ [] }

abbrev keyless : Field
keyless = record {
  key = [];
  required = false;
  repeatable = false;
  default_value = [];
  assigned = false;
  value = [];
  values = [];
}

-- A repeatable flag collects its values.
assign_twice :
    and_then (assign tag_flag (txt "a")) (λ f. assign f (txt "b"))
    ≡ ok (record tag_flag { assigned = true; value = txt "b"; values = txt "a" ∷ txt "b" ∷ [] })
unfolding assign assign_field find_field
assign_twice = refl

added : add (name_flag ∷ []) new_flag_set 0 ≡ ok name_set
unfolding add add_formations get_formations aliyun_cli.Cli.Flag.check_valid index_get
    aliyun_cli.Cli.FlagSet.index_put text_eq
added = refl

abbrev tag_set : FlagSet
tag_set = record { flags = 1 ∷ []; index = (txt "--tag", 1) ∷ [] }

abbrev merged_set : FlagSet
merged_set = record { flags = 1 ∷ []; index = (txt "--tag", 1) ∷ [] }

merged : merge_with (name_flag ∷ tag_flag ∷ []) new_flag_set (some tag_set) ≡ ok merged_set
unfolding merge_with add_all put_persistent put contains_ref put_formations get_formations
    aliyun_cli.Cli.FlagSet.index_put
merged = refl

abbrev x_flag : Flag
x_flag = record empty_flag { name = txt "x"; assigned_mode = assigned_default }

abbrev x_set : FlagSet
x_set = record { flags = 0 ∷ []; index = (txt "--x", 0) ∷ [] }
