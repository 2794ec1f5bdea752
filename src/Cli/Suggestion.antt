-- ===== src/Cli/Suggestion.antt =====
-- cli/suggestion.go, and the suggestions for commands (cli/command.go) and flags
-- (cli/flag_set.go). The edit distance, a copied library, is a parameter.
pub mod Closest
pub mod Prefix
pub mod Order
use aliyun_cli.Base.{
  ℕ, zero, suc, Text, is_empty, has_prefix, to_lower, trim_space, Bool, true, false, ◌&&◌, ◌||◌,
  ◌==◌, ltb, leb, List, [], ◌∷◌, ◌++◌, length, take, if◌then◌else◌, ℤ, pos, negsuc,
}
use aliyun_cli.Cli.Flag.{FlagRef, get_formations}
use aliyun_cli.Cli.FlagSet.{Flags, deref, FlagSet, Index}
use aliyun_cli.Cli.Tree.{Command, info, sub_commands, command_names, get_suggest_distance}

pub record Suggester : Type 0 where
  pub suggest_for : Text
  pub distance : ℕ
  pub results : List Text

-- `NewSuggester`
abbrev pub new_suggester : Text → ℕ → Suggester
new_suggester v distance = record { suggest_for = v; distance = distance; results = [] }

-- What `Apply` and `UnifyApply` do with a candidate `s` at the distance `d`.
unfoldable pub offer : ℕ → Text → Suggester → Suggester
offer d s a =
    if leb d a.distance
    then if ltb d a.distance
      then record { suggest_for = a.suggest_for; distance = d; results = s ∷ [] }
      else record {
        suggest_for = a.suggest_for;
        distance = a.distance;
        results = a.results ++ (s ∷ []);
      }
    else a

abbrev pub is_alphanumeric : ℕ → Bool
is_alphanumeric c =
    (leb b'a' c && leb c b'z') || (leb b'A' c && leb c b'Z') || (leb b'0' c && leb c b'9')

unfoldable pub strip_non_alphanumeric : Text → Text
strip_non_alphanumeric [] = []
strip_non_alphanumeric (c ∷ s) =
    let rest = strip_non_alphanumeric s in if is_alphanumeric c then c ∷ rest else rest

-- The form in which names are compared.
unfoldable pub cleaned : Text → Text
cleaned s = to_lower (strip_non_alphanumeric s)

module _ (distance : Text → Text → ℕ) where
  -- `Apply`
  unfoldable pub apply : Suggester → Text → Suggester
  apply a s = offer (distance a.suggest_for s) s a

  -- `UnifyApply`
  unfoldable pub unify_apply : Suggester → Text → Suggester
  unify_apply a s = offer (distance (cleaned a.suggest_for) (cleaned s)) s a

  unfoldable pub apply_each : List Text → Suggester → Suggester
  apply_each [] a = a
  apply_each (s ∷ ss) a = apply_each ss (apply a s)

  unfoldable pub unify_each : List Text → Suggester → Suggester
  unify_each [] a = a
  unify_each (s ∷ ss) a = unify_each ss (unify_apply a s)

  -- `GetSuggestions` of a command
  unfoldable pub command_suggestions : Command → Text → List Text
  command_suggestions c s =
      (apply_each (command_names (sub_commands c))
        (new_suggester s (get_suggest_distance (info c)))).results

-- `a <= b` of two strings
unfoldable pub text_leb : Text → Text → Bool
text_leb [] b = true
text_leb (x ∷ a) [] = false
text_leb (x ∷ a) (y ∷ b) = if x == y then text_leb a b else ltb x y

unfoldable pub insert : Text → List Text → List Text
insert s [] = s ∷ []
insert s (t ∷ ts) = let rest = insert s ts in if text_leb s t then s ∷ t ∷ ts else t ∷ rest

-- `sort.Strings`
unfoldable pub sort : List Text → List Text
sort [] = []
sort (s ∷ ss) = insert s (sort ss)

-- The keys of a map, in the order of its entries; Go ranges over them in an order of its own.
unfoldable pub index_keys : Index → List Text
index_keys [] = []
index_keys ((k, r) ∷ m) = k ∷ index_keys m

module _ (distance : Text → Text → ℕ) where
  -- `GetSuggestions` of a flag set, for the order in which its map is ranged over
  unfoldable pub flag_suggestions : List Text → Text → ℕ → List Text
  flag_suggestions keys name d = sort (unify_each distance keys (new_suggester name d)).results

-- `AvailableFlagNames`
unfoldable pub shown_formations : Flags → List FlagRef → List Text
shown_formations h [] = []
shown_formations h (r ∷ rs) =
    let rest = shown_formations h rs in
    if (deref h r).hidden then rest else get_formations (deref h r) ++ rest

unfoldable pub available_flag_names : Flags → FlagSet → List Text
available_flag_names h fs = sort (shown_formations h fs.flags)

-- `PrefixSuggestions`
abbrev pub default_suggest_limit : ℕ
default_suggest_limit = 5

unfoldable pub limit_or_default : ℤ → ℕ
limit_or_default (negsuc n) = default_suggest_limit
limit_or_default (pos n) = elim n [ zero ↦ default_suggest_limit | suc m ↦ suc m ]

unfoldable pub prefix_matches : Text → List Text → List Text
prefix_matches needle [] = []
prefix_matches needle (s ∷ ss) =
    let rest = prefix_matches needle ss in
    let candidate = trim_space s in
    if is_empty candidate
    then rest
    else if has_prefix (cleaned candidate) needle
    then candidate ∷ rest
    else rest

unfoldable pub prefix_suggestions : Text → List Text → ℤ → List Text × ℕ
prefix_suggestions input candidates limit =
    let most = limit_or_default limit in
    let needle = cleaned input in
    let matches = prefix_matches needle candidates in
    if ltb (length needle) 2
    then ([], 0)
    else if length matches == 0
    then ([], 0)
    else if ltb most (length matches)
    then (take most matches, length matches)
    else (matches, length matches)
