-- ===== src/Tests/Suggestions.antt =====
-- The suggestions (cli/suggestion.go) with a simple distance: that of the lengths.
use aliyun_cli.Base.{ℕ, ◌+◌, ◌-◌, Text, txt, to_lower, ◌≡◌, refl, List, [], ◌∷◌, length}
use aliyun_cli.Cli.Suggestion.{new_suggester, apply_each, flag_suggestions, cleaned}
use aliyun_cli.Cli.Suggestion.Closest.{at_distance, apply_each_closest}

abbrev lengths : Text → Text → ℕ
lengths a b = (length a - length b) + (length b - length a)

abbrev candidates : List Text
candidates = txt "listing" ∷ txt "lost" ∷ txt "last" ∷ []

closest :
    (apply_each lengths candidates (new_suggester (txt "list") 2)).results
    ≡ txt "lost" ∷ txt "last" ∷ []
unfolding apply_each aliyun_cli.Cli.Suggestion.apply aliyun_cli.Cli.Suggestion.offer
closest = refl

apply_each_closest_example :
    (apply_each lengths candidates (new_suggester (txt "list") 2)).results
    ≡ at_distance (lengths (txt "list")) 0 candidates
apply_each_closest_example = apply_each_closest lengths (txt "list") 2 candidates

sorted :
    flag_suggestions lengths (txt "--b" ∷ txt "--a" ∷ []) (txt "--c") 2 ≡ txt "--a" ∷ txt "--b" ∷ []
unfolding flag_suggestions aliyun_cli.Cli.Suggestion.sort aliyun_cli.Cli.Suggestion.unify_each
    aliyun_cli.Cli.Suggestion.unify_apply aliyun_cli.Cli.Suggestion.offer cleaned to_lower
    aliyun_cli.Cli.Suggestion.strip_non_alphanumeric aliyun_cli.Cli.Suggestion.insert
    aliyun_cli.Cli.Suggestion.text_leb
sorted = refl
