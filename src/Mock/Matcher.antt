-- ===== src/Mock/Matcher.antt =====
-- sysconfig/mock/matcher.go: which record answers a command line.
pub mod Wildcard
pub mod Search
pub mod Placement
use aliyun_cli.Base.{
  ℕ, suc, Text, txt, text_eq, is_empty, has_prefix, one_of, split_at, Bool, true, false, not, ◌&&◌,
  ◌||◌, ◌==◌, if◌then◌else◌, List, [], ◌∷◌, ◌++◌, length, drop, get_or,
}

-- `parameterGroup`: a flag with the words behind it, or a star.
pub data Group : Type 0 where
  words : List Text → Group
  star : Group

-- What a word of the command line is to `StripLeadingGlobalFlags`: the first word of the command,
-- the end of the flags, a flag by itself, or a flag whose value is the next word.
pub data Leading : Type 0 where
  command_word flags_end lone_flag flag_with_value : Leading

unfoldable pub is_no_value_long_flag : Text → Bool
is_no_value_long_flag name =
    text_eq name (txt "help")
    || text_eq name (txt "yes")
    || text_eq name (txt "secure")
    || text_eq name (txt "insecure")
    || text_eq name (txt "force")
    || text_eq name (txt "dryrun")
    || text_eq name (txt "quiet")
    || text_eq name (txt "skip-secure-verify")
    || text_eq name (txt "cli-auto-prompt")
    || text_eq name (txt "cli-no-auto-prompt")
    || text_eq name (txt "cli-ai-mode")
    || text_eq name (txt "no-cli-ai-mode")

unfoldable pub is_no_value_short_flag : ℕ → Bool
is_no_value_short_flag ch = ch == b'h' || ch == b'y' || ch == b'q'

-- `flagNameAndInlineValue`: the name, and whether a value follows in the same word.
unfoldable pub flag_name_and_inline_value : Text → Text × Bool
flag_name_and_inline_value token =
    let (name, value, found) = split_at (one_of (txt "=:")) token in (name, found)

abbrev pub long_flag : Text × Bool → Leading
long_flag (name, inline) =
    if not inline && not (is_no_value_long_flag name) then flag_with_value else lone_flag

unfoldable pub leading : Text → Leading
leading token =
    if not (has_prefix token (txt "-")) || has_prefix token (txt "---")
    then command_word
    else if text_eq token (txt "--")
    then flags_end
    else if has_prefix token (txt "--")
    then long_flag (flag_name_and_inline_value (drop 2 token))
    else if length token == 2
    then if is_no_value_short_flag (get_or token 1 0) then lone_flag else flag_with_value
    else command_word

unfoldable pub strip_leading_global_flags : List Text → List Text
strip_leading_global_flags [] = []
strip_leading_global_flags (token ∷ []) = elim (leading token) [
  | command_word ↦ token ∷ []
  | flags_end ↦ []
  | lone_flag ↦ []
  | flag_with_value ↦ []
]
strip_leading_global_flags (token ∷ next ∷ args) = elim (leading token) [
  | command_word ↦ token ∷ next ∷ args
  | flags_end ↦ next ∷ args
  | lone_flag ↦ strip_leading_global_flags (next ∷ args)
  | flag_with_value ↦ strip_leading_global_flags args
]

-- `FirstCommandToken`
unfoldable pub first_command_token : List Text → Text
first_command_token args = get_or (strip_leading_global_flags args) 0 []

unfoldable pub is_flag_token : Text → Bool
is_flag_token token = has_prefix token (txt "--")

-- How many words name the command.
unfoldable pub command_identity_end : List Text → ℕ
command_identity_end [] = 0
command_identity_end (token ∷ tokens) =
    let later = command_identity_end tokens in
    if text_eq token (txt "*") || is_flag_token token then 0 else suc later

-- Does a word that is no flag begin a group of its own?
abbrev pub begins_group : List Group → Bool
begins_group [] = true
begins_group (star ∷ []) = true
begins_group (words tokens ∷ []) = false
begins_group (group ∷ next ∷ groups) = begins_group (next ∷ groups)

abbrev pub extend_last : List Group → Text → List Group
extend_last [] token = []
extend_last (words tokens ∷ []) token = words (tokens ++ (token ∷ [])) ∷ []
extend_last (star ∷ []) token = star ∷ []
extend_last (group ∷ next ∷ groups) token = group ∷ extend_last (next ∷ groups) token

-- One round of the loop of `splitParameterGroups`.
unfoldable pub add_token : Bool → List Group → Text → List Group
add_token rule groups token =
    if rule && text_eq token (txt "*")
    then groups ++ (star ∷ [])
    else if is_flag_token token || begins_group groups
    then groups ++ (words (token ∷ []) ∷ [])
    else extend_last groups token

unfoldable pub split_from : Bool → List Group → List Text → List Group
split_from rule groups [] = groups
split_from rule groups (token ∷ tokens) = split_from rule (add_token rule groups token) tokens

unfoldable pub split_parameter_groups : List Text → Bool → List Group
split_parameter_groups tokens rule = split_from rule [] tokens

unfoldable pub contains_star_group : List Group → Bool
contains_star_group [] = false
contains_star_group (star ∷ groups) = true
contains_star_group (words tokens ∷ groups) = contains_star_group groups

-- `nonStarGroups`: the words of the groups that are no star.
unfoldable pub non_star_groups : List Group → List (List Text)
non_star_groups [] = []
non_star_groups (star ∷ groups) = non_star_groups groups
non_star_groups (words tokens ∷ groups) = tokens ∷ non_star_groups groups

-- `matchToken`: the rule's `?` is `[^\s]+` and its `*` is `.*` in the regular expression.
pub data Wild : Type 0 where
  any_run word_run : Wild
  letter : ℕ → Wild

abbrev pub wild_of : ℕ → Wild
wild_of c = if c == b'*' then any_run else if c == b'?' then word_run else letter c

-- `.` is all but a line break.
abbrev pub in_line : ℕ → Bool
in_line c = not (c == 10)

-- `[^\s]` is all but the white space of the regular expressions.
abbrev pub in_word : ℕ → Bool
in_word c = not (c == 9 || c == 10 || c == 12 || c == 13 || c == 32)

-- Does `p` hold of what is left behind some letters that are all allowed?
unfoldable pub some_rest : (ℕ → Bool) → (Text → Bool) → Text → Bool
some_rest allowed p [] = p []
some_rest allowed p (c ∷ s) = let later = some_rest allowed p s in p (c ∷ s) || (allowed c && later)

abbrev pub match_wild : Wild → (Text → Bool) → Text → Bool
match_wild any_run p s = some_rest in_line p s
match_wild word_run p [] = false
match_wild word_run p (c ∷ s) = in_word c && some_rest in_word p s
match_wild (letter a) p [] = false
match_wild (letter a) p (c ∷ s) = a == c && p s

unfoldable pub match_expression : Text → Text → Bool
match_expression [] s = is_empty s
match_expression (c ∷ rule) s = match_wild (wild_of c) (match_expression rule) s

unfoldable pub has_wild : Text → Bool
has_wild [] = false
has_wild (c ∷ rule) = one_of (txt "?*") c || has_wild rule

unfoldable pub match_token : Text → Text → Bool
match_token rule arg =
    if text_eq rule arg then true else if has_wild rule then match_expression rule arg else false

-- `strings.Fields`: the words between white space.
abbrev pub add_word : Text → List Text → List Text
add_word [] rest = rest
add_word (c ∷ word) rest = (c ∷ word) ∷ rest

abbrev pub is_field_space : ℕ → Bool
is_field_space c = c == 9 || c == 10 || c == 11 || c == 12 || c == 13 || c == 32

unfoldable pub fields_from : Text → Text → List Text
fields_from word [] = add_word word []
fields_from word (c ∷ s) =
    let later = fields_from (if is_field_space c then [] else word ++ (c ∷ [])) s in
    if is_field_space c then add_word word later else later

unfoldable pub fields : Text → List Text
fields s = fields_from [] s
