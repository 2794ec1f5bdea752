-- ===== src/Mock/Matcher/Search.antt =====
-- sysconfig/mock/matcher.go: the search for places of a rule's groups among the words of a command
-- line, and `MatchCommand`. The search changes the marks of the words in place, so each function
-- gives the marks that it leaves.
pub mod Marks
pub mod Restores
pub mod Refines
use aliyun_cli.Base.{
  ℕ, zero, suc, ◌+◌, ◌-◌, Text, Bool, true, false, not, ◌&&◌, ◌||◌, ◌==◌, ltb, List, [], ◌∷◌,
  length, take, drop, get_or, set, if◌then◌else◌,
}
use aliyun_cli.Mock.Matcher.{
  Group, strip_leading_global_flags, command_identity_end, split_parameter_groups,
  contains_star_group, non_star_groups, match_token, fields,
}

-- `matchParameterGroupAt`. The caller has made sure that the positions exist.
unfoldable pub match_parameter_group_at : List Text → List Text → List Bool → ℕ → Bool
match_parameter_group_at [] arg_tokens used start = true
match_parameter_group_at (rule_token ∷ tokens) arg_tokens used start =
    let later = match_parameter_group_at tokens arg_tokens used (suc start) in
    if get_or used start true || not (match_token rule_token (get_or arg_tokens start []))
    then false
    else later

unfoldable pub mark_used : List Bool → ℕ → ℕ → Bool → List Bool
mark_used used start zero value = used
mark_used used start (suc count) value = mark_used (set used start value) (suc start) count value

unfoldable pub all_used : List Bool → Bool
all_used [] = true
all_used (u ∷ used) = u && all_used used

-- The result of the search below a place, with the marks taken back where it failed.
abbrev pub unmarked : Bool × List Bool → ℕ → ℕ → Bool × List Bool
unmarked (true, used) start count = (true, used)
unmarked (false, used) start count = (false, mark_used used start count false)

abbrev pub or_next : Bool × List Bool → (List Bool → Bool × List Bool) → Bool × List Bool
or_next (true, used) k = (true, used)
or_next (false, used) k = k used

-- One start of the loop: the group is placed there, and the search goes on below.
unfoldable pub try_start :
    List Text → List Text → (List Bool → Bool × List Bool) → ℕ → List Bool → Bool × List Bool
try_start tokens arg_tokens below start used =
    if match_parameter_group_at tokens arg_tokens used start
    then unmarked (below (mark_used used start (length tokens) true)) start (length tokens)
    else (false, used)

-- The loop over the starts, with the number of rounds that are left.
unfoldable pub try_starts :
    List Text → List Text → (List Bool → Bool × List Bool) → ℕ → ℕ → List Bool → Bool × List Bool
try_starts tokens arg_tokens below zero start used = (false, used)
try_starts tokens arg_tokens below (suc n) start used =
    or_next (try_start tokens arg_tokens below start used)
      (try_starts tokens arg_tokens below n (suc start))

-- How many starts `i` have `i + count <= total`.
abbrev pub rounds : ℕ → ℕ → ℕ
rounds count total = suc total - count

-- `matchParameterGroupsFrom`, on the groups from `ruleIndex` on.
unfoldable pub match_parameter_groups_from :
    List (List Text) → List Text → Bool → List Bool → Bool × List Bool
match_parameter_groups_from [] arg_tokens allow_extra used = (allow_extra || all_used used, used)
match_parameter_groups_from (tokens ∷ groups) arg_tokens allow_extra used =
    try_starts tokens arg_tokens (match_parameter_groups_from groups arg_tokens allow_extra)
      (rounds (length tokens) (length arg_tokens)) 0 used

unfoldable pub min_rule_token_count : List (List Text) → ℕ
min_rule_token_count [] = 0
min_rule_token_count (tokens ∷ groups) = length tokens + min_rule_token_count groups

unfoldable pub unused : ℕ → List Bool
unused zero = []
unused (suc n) = false ∷ unused n

unfoldable pub match_parameter_groups : List (List Text) → List Text → Bool → Bool
match_parameter_groups [] arg_tokens allow_extra = allow_extra || length arg_tokens == 0
match_parameter_groups (tokens ∷ groups) arg_tokens allow_extra =
    if ltb (length arg_tokens) (min_rule_token_count (tokens ∷ groups))
    then false
    else (match_parameter_groups_from (tokens ∷ groups) arg_tokens allow_extra
        (unused (length arg_tokens))).0

-- Do the words of the rule that name the command fit the first words?
unfoldable pub match_identity : List Text → List Text → Bool
match_identity [] args = true
match_identity (token ∷ tokens) [] = false
match_identity (token ∷ tokens) (arg ∷ args) =
    let later = match_identity tokens args in if match_token token arg then later else false

abbrev pub is_none {ℓ} : {A : Type ℓ} → List A → Bool
is_none [] = true
is_none (x ∷ xs) = false

-- `MatchCommand` once the words that name the command fit.
unfoldable pub match_rest : List Group → ℕ → List Text → Bool
match_rest groups named args =
    if is_none groups
    then length args == named
    else if contains_star_group groups && is_none (non_star_groups groups)
    then true
    else if not (contains_star_group groups) && not (command_identity_end args == named)
    then false
    else match_parameter_groups (non_star_groups groups) (drop named args) true

unfoldable pub match_words : List Text → List Text → Bool
match_words [] args = length args == 0
match_words (token ∷ tokens) args =
    let rule = token ∷ tokens in
    let named = command_identity_end rule in
    if match_identity (take named rule) args
    then match_rest (split_parameter_groups (drop named rule) true) named args
    else false

unfoldable pub match_command : Text → List Text → Bool
match_command rule args = match_words (fields rule) (strip_leading_global_flags args)
