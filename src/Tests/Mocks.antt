-- ===== src/Tests/Mocks.antt =====
-- The mock records (sysconfig/mock) at concrete data.
use aliyun_cli.Mock.Intercept.Answered.{Answers}
use aliyun_cli.Base.{
  Text, txt, text_eq, has_prefix, one_of, split_at, true, false, ◌≡◌, refl, ◌↔◌, ◌⊎◌, List, [], ◌∷◌,
  ◌++◌, ℤ, pos, ok,
}
use mathlib.Core.List.Perm
use aliyun_cli.Mock.{Record, expand_to_size}
use aliyun_cli.Mock.Matcher.{
  match_token, strip_leading_global_flags, split_parameter_groups, words, star,
}
use aliyun_cli.Mock.Matcher.Wildcard.{Expressed, match_token_iff}
use aliyun_cli.Mock.Matcher.Placement.{Placement}
use aliyun_cli.Mock.Matcher.Search.{
  match_parameter_groups, match_parameter_groups_from, unused, match_command, mark_used,
}
use aliyun_cli.Mock.Matcher.Search.Refines.{
  match_parameter_groups_iff, match_from_restores, match_parameter_groups_order,
}
use aliyun_cli.Mock.Store.{
  File, content, absent, saved, load, append, remove_by_name, validate_record,
}
use aliyun_cli.Mock.Store.Valid.{load_of_saved, remove_by_name-append}
use aliyun_cli.Mock.Intercept.{intercept}
use aliyun_cli.Mock.Intercept.Budget.{intercept_first}
use aliyun_cli.Tests.Codec.{codec, codec-IsLawful}

abbrev mock_of : Text → Text → ℤ → Record
mock_of name cmd times = record {
  name = name;
  cmd = cmd;
  exit_code = pos 0;
  stdout = txt "{}";
  stderr = [];
  times = times;
  delay_ms = pos 0;
  response_body_size = pos 0;
}

abbrev list_mock : Record
list_mock = mock_of (txt "list") (txt "ecs List* --RegionId ? *") (pos 2)

abbrev other_mock : Record
other_mock = mock_of (txt "vpc") (txt "vpc *") (pos 1)

abbrev list_args : List Text
list_args =
    txt "--profile"
    ∷ txt "p"
    ∷ txt "ecs"
    ∷ txt "ListDisks"
    ∷ txt "--Size"
    ∷ txt "1"
    ∷ txt "--RegionId"
    ∷ txt "cn"
    ∷ []

flags_stripped :
    strip_leading_global_flags list_args
    ≡ txt "ecs" ∷ txt "ListDisks" ∷ txt "--Size" ∷ txt "1" ∷ txt "--RegionId" ∷ txt "cn" ∷ []
unfolding strip_leading_global_flags aliyun_cli.Mock.Matcher.leading has_prefix text_eq
    aliyun_cli.Mock.Matcher.flag_name_and_inline_value split_at one_of
    aliyun_cli.Mock.Matcher.is_no_value_long_flag
flags_stripped = refl

split_in_groups :
    split_parameter_groups (txt "--a" ∷ txt "1" ∷ txt "*" ∷ txt "x" ∷ []) true
    ≡ words (txt "--a" ∷ txt "1" ∷ []) ∷ star ∷ words (txt "x" ∷ []) ∷ []
unfolding split_parameter_groups aliyun_cli.Mock.Matcher.split_from
    aliyun_cli.Mock.Matcher.add_token text_eq aliyun_cli.Mock.Matcher.is_flag_token has_prefix
split_in_groups = refl

wild_word : match_token (txt "List*") (txt "ListDisks") ≡ true
unfolding match_token text_eq aliyun_cli.Mock.Matcher.has_wild one_of
    aliyun_cli.Mock.Matcher.match_expression aliyun_cli.Mock.Matcher.some_rest
wild_word = refl

wild_one_or_more : match_token (txt "a?") (txt "a") ≡ false
unfolding match_token text_eq aliyun_cli.Mock.Matcher.has_wild one_of
    aliyun_cli.Mock.Matcher.match_expression
wild_one_or_more = refl

padded : expand_to_size (txt "ab") 4 ≡ txt "abxx"
unfolding expand_to_size aliyun_cli.Mock.padding
padded = refl

list_matches : match_command list_mock.cmd list_args ≡ true
unfolding match_command aliyun_cli.Mock.Matcher.Search.match_words
    aliyun_cli.Mock.Matcher.Search.match_identity aliyun_cli.Mock.Matcher.Search.match_rest
    aliyun_cli.Mock.Matcher.Search.all_used aliyun_cli.Mock.Matcher.Search.match_parameter_group_at
    aliyun_cli.Mock.Matcher.Search.min_rule_token_count aliyun_cli.Mock.Matcher.Search.try_start
    aliyun_cli.Mock.Matcher.Search.try_starts aliyun_cli.Mock.Matcher.fields
    aliyun_cli.Mock.Matcher.fields_from aliyun_cli.Mock.Matcher.command_identity_end
    aliyun_cli.Mock.Matcher.is_flag_token aliyun_cli.Mock.Matcher.leading
    aliyun_cli.Mock.Matcher.flag_name_and_inline_value aliyun_cli.Mock.Matcher.is_no_value_long_flag
    aliyun_cli.Mock.Matcher.has_wild aliyun_cli.Mock.Matcher.add_token
    aliyun_cli.Mock.Matcher.contains_star_group aliyun_cli.Mock.Matcher.is_no_value_short_flag
    aliyun_cli.Mock.Matcher.match_expression aliyun_cli.Mock.Matcher.non_star_groups
    aliyun_cli.Mock.Matcher.some_rest aliyun_cli.Mock.Matcher.split_from text_eq has_prefix
    strip_leading_global_flags split_at one_of match_token mark_used match_parameter_groups
    match_parameter_groups_from unused split_parameter_groups
list_matches = refl

other_misses : match_command other_mock.cmd list_args ≡ false
unfolding match_command aliyun_cli.Mock.Matcher.Search.match_words
    aliyun_cli.Mock.Matcher.Search.match_identity aliyun_cli.Mock.Matcher.Search.match_rest
    aliyun_cli.Mock.Matcher.Search.all_used aliyun_cli.Mock.Matcher.Search.match_parameter_group_at
    aliyun_cli.Mock.Matcher.Search.min_rule_token_count aliyun_cli.Mock.Matcher.Search.try_start
    aliyun_cli.Mock.Matcher.Search.try_starts aliyun_cli.Mock.Matcher.fields
    aliyun_cli.Mock.Matcher.fields_from aliyun_cli.Mock.Matcher.command_identity_end
    aliyun_cli.Mock.Matcher.is_flag_token aliyun_cli.Mock.Matcher.leading
    aliyun_cli.Mock.Matcher.flag_name_and_inline_value aliyun_cli.Mock.Matcher.is_no_value_long_flag
    aliyun_cli.Mock.Matcher.has_wild aliyun_cli.Mock.Matcher.add_token
    aliyun_cli.Mock.Matcher.contains_star_group aliyun_cli.Mock.Matcher.is_no_value_short_flag
    aliyun_cli.Mock.Matcher.match_expression aliyun_cli.Mock.Matcher.non_star_groups
    aliyun_cli.Mock.Matcher.some_rest aliyun_cli.Mock.Matcher.split_from text_eq has_prefix
    strip_leading_global_flags split_at one_of match_token mark_used match_parameter_groups
    match_parameter_groups_from unused split_parameter_groups
other_misses = refl

abbrev mocks : List Record
mocks = other_mock ∷ list_mock ∷ []

abbrev mock_file : File
mock_file = content (codec.encode mocks ++ (10 ∷ []))

mock_file_loads : load codec mock_file true ≡ ok mocks
unfolding aliyun_cli.Mock.Store.validate_records validate_record
mock_file_loads = load_of_saved codec codec-IsLawful mocks refl

abbrev size_group : List Text
size_group = txt "--Size" ∷ txt "1" ∷ []

abbrev region_group : List Text
region_group = txt "--Region*" ∷ txt "?" ∷ []

abbrev arg_words : List Text
arg_words = txt "--RegionId" ∷ txt "cn" ∷ txt "--Size" ∷ txt "1" ∷ []

region_then_size : match_parameter_groups (region_group ∷ size_group ∷ []) arg_words true ≡ true
unfolding match_parameter_groups aliyun_cli.Mock.Matcher.Search.min_rule_token_count
    match_parameter_groups_from aliyun_cli.Mock.Matcher.Search.try_starts
    aliyun_cli.Mock.Matcher.Search.try_start aliyun_cli.Mock.Matcher.Search.match_parameter_group_at
    unused match_token text_eq aliyun_cli.Mock.Matcher.has_wild one_of
    aliyun_cli.Mock.Matcher.match_expression aliyun_cli.Mock.Matcher.some_rest mark_used
region_then_size = refl

match_token_iff_example :
    (match_token (txt "L*s") (txt "Lists") ≡ true)
    ↔ ((txt "L*s" ≡ txt "Lists") ⊎ Expressed (txt "L*s") (txt "Lists"))
match_token_iff_example = match_token_iff (txt "L*s") (txt "Lists")

match_parameter_groups_iff_example : Placement arg_words (region_group ∷ size_group ∷ []) []
match_parameter_groups_iff_example =
    (match_parameter_groups_iff (region_group ∷ size_group ∷ []) arg_words).0 region_then_size

match_parameter_groups_order_example :
    match_parameter_groups (size_group ∷ region_group ∷ []) arg_words true
    ≡ match_parameter_groups (region_group ∷ size_group ∷ []) arg_words true
unfolding match_parameter_groups aliyun_cli.Mock.Matcher.Search.min_rule_token_count
    match_parameter_groups_from aliyun_cli.Mock.Matcher.Search.try_starts
    aliyun_cli.Mock.Matcher.Search.try_start aliyun_cli.Mock.Matcher.Search.match_parameter_group_at
    match_token text_eq aliyun_cli.Mock.Matcher.has_wild aliyun_cli.Mock.Matcher.match_expression
    one_of aliyun_cli.Mock.Matcher.some_rest unused mark_used
match_parameter_groups_order_example =
    match_parameter_groups_order arg_words (Perm.swap size_group region_group [])

match_from_restores_example :
    match_parameter_groups_from (size_group ∷ size_group ∷ []) arg_words true (unused 4)
    ≡ (false, unused 4)
unfolding unused match_parameter_groups_from aliyun_cli.Mock.Matcher.Search.try_starts
    aliyun_cli.Mock.Matcher.Search.try_start aliyun_cli.Mock.Matcher.Search.match_parameter_group_at
    match_token text_eq aliyun_cli.Mock.Matcher.has_wild one_of mark_used
match_from_restores_example =
    match_from_restores (size_group ∷ size_group ∷ []) arg_words (unused 4) refl refl

remove_by_name-append_example :
    load codec
      (remove_by_name codec saved (txt "list") (append codec saved (list_mock ∷ []) absent).1).1
      true
    ≡ ok []
unfolding load validate_record
remove_by_name-append_example =
    (remove_by_name-append codec codec-IsLawful absent [] list_mock refl refl tt).1

intercept_first_example : Answers list_mock (intercept true codec saved list_args mock_file).0
intercept_first_example =
    (intercept_first codec codec-IsLawful list_args mock_file (other_mock ∷ []) [] list_mock
      mock_file_loads (other_misses, tt) list_matches).0
