-- ===== src/Mock/Matcher/Search/Refines.antt =====
-- sysconfig/mock/matcher.go: the search finds places for the groups of a rule exactly if there are
-- such places, and leaves the marks as they were where it fails.
use aliyun_cli.Base.{
  ℕ, zero, suc, ◌+◌, ◌≤◌, ◌<◌, Text, Bool, true, false, Bool-cases, ◌≡◌, refl, sym, ap, ◌∙◌, ◌↔◌,
  inl, inr, false≢true, List, [], ◌∷◌, length, get_or, set, get_or-set_ne, if◌then◌else◌, arith,
}
use mathlib.Core.Logic.{∥∥₁_elim}
use mathlib.Core.List.{Perm}
use mathlib.Core.List.Perm
use aliyun_cli.Mock.Matcher.Placement.{Taken, Apart, Placement, all_placed, place, Placement-Perm}
use aliyun_cli.Mock.Matcher.Search.{
  mark_used, rounds, match_parameter_groups_from, min_rule_token_count, unused,
  match_parameter_groups,
}
use aliyun_cli.Mock.Matcher.Search.Marks.{
  Clear, match_parameter_group_at_sound, match_parameter_group_at_complete, length-mark_used,
  get_or-mark_used_outside, get_or-mark_used_inside, inside_or_outside,
}
use aliyun_cli.Mock.Matcher.Search.Restores.{try_starts_cases, match_from-Restores}

-- The marks are on the positions of the stretches that are taken, and on no other.
abbrev Agrees : List Bool → List (ℕ × ℕ) → Type 0
Agrees used spans = (k : ℕ) → k < length used → (get_or used k true ≡ true) ↔ Taken k spans

Agrees-mark_used :
    (used : List Bool) (spans : List (ℕ × ℕ)) (start count : ℕ)
    → start + count ≤ length used
    → Agrees used spans
    → Agrees (mark_used used start count true) ((start, count) ∷ spans)
Agrees-mark_used used spans start count bound agrees k lt =
    let lt' : k < length used = omega (arith, length-mark_used used start count true) in
    elim (inside_or_outside start count k) [
      | inl at ↦ (λ h. inl at, λ t. get_or-mark_used_inside used start count k true bound at.0 at.1)
      | inr away ↦
          let e = get_or-mark_used_outside used start count k true away in
          (
            λ h. inr ((agrees k lt').0 (sym e ∙ h)),
            λ t. elim t [
              | inl at ↦ absurd (elim away [ inl b ↦ omega arith | inr b ↦ omega arith ])
              | inr old ↦ e ∙ (agrees k lt').1 old
            ],
          )
    ]

module _ (used : List Bool) (spans : List (ℕ × ℕ)) (agrees : Agrees used spans) where
  Apart-of_Clear :
      (start count : ℕ)
      → start + count ≤ length used
      → Clear used start count
      → Apart start count spans
  Apart-of_Clear start count bound clear k le lt t =
      false≢true (sym (clear k le lt) ∙ (agrees k (omega arith)).1 t)

  Clear-of_Apart :
      (start count : ℕ)
      → start + count ≤ length used
      → Apart start count spans
      → Clear used start count
  Clear-of_Apart start count bound apart k le lt = elim (Bool-cases (get_or used k true)) [
    | inl marked ↦ absurd (apart k le lt ((agrees k (omega arith)).0 marked))
    | inr clear ↦ clear
  ]

match_from_sound :
    (groups : List (List Text)) (args : List Text) (used : List Bool) (spans : List (ℕ × ℕ))
    → length used ≡ length args
    → Agrees used spans
    → (match_parameter_groups_from groups args true used).0 ≡ true
    → Placement args groups spans
unfolding match_parameter_groups_from
match_from_sound [] args used spans total agrees h = all_placed spans
match_from_sound (tokens ∷ groups) args used spans total agrees h =
    elim (try_starts_cases tokens args (match_parameter_groups_from groups args true) (length args)
      (match_from-Restores groups args) used total (rounds (length tokens) (length args)) 0
      (omega arith)) [
        | inl (_, i, bound, (at, found)) ↦
            let f = match_parameter_group_at_sound tokens args used i at in
            let bound' : i + length tokens ≤ length used = omega arith in
            place i bound f.0 (Apart-of_Clear used spans agrees i (length tokens) bound' f.1) (
              match_from_sound groups args (mark_used used i (length tokens) true)
                ((i, length tokens) ∷ spans) (length-mark_used used i (length tokens) true ∙ total)
                (Agrees-mark_used used spans i (length tokens) bound' agrees) found)
        | inr missed ↦ absurd (false≢true (sym (ap (λ r. r.0) missed.0) ∙ h))
      ]

match_from_complete :
    (groups : List (List Text)) (args : List Text) (used : List Bool) (spans : List (ℕ × ℕ))
    → length used ≡ length args
    → Agrees used spans
    → Placement args groups spans
    → (match_parameter_groups_from groups args true used).0 ≡ true
unfolding match_parameter_groups_from
match_from_complete [] args used spans total agrees p = refl
match_from_complete (tokens ∷ groups) args used spans total agrees
      (place start bound fits apart p) =
    elim (try_starts_cases tokens args (match_parameter_groups_from groups args true) (length args)
      (match_from-Restores groups args) used total (rounds (length tokens) (length args)) 0
      (omega arith)) [
        | inl found ↦ found.0
        | inr missed ↦
            let bound' : start + length tokens ≤ length used = omega arith in
            let clear = Clear-of_Apart used spans agrees start (length tokens) bound' apart in
            absurd (
              missed.1 start (omega arith) (omega arith) (
                match_parameter_group_at_complete tokens args used start fits clear,
                match_from_complete groups args (mark_used used start (length tokens) true)
                    ((start, length tokens) ∷ spans)
                    (length-mark_used used start (length tokens) true ∙ total)
                    (Agrees-mark_used used spans start (length tokens) bound' agrees) p,
              ))
      ]

length-unused : (n : ℕ) → length (unused n) ≡ n
unfolding unused
length-unused zero = refl
length-unused (suc n) = ap suc (length-unused n)

get_or-unused : (n k : ℕ) → k < n → get_or (unused n) k true ≡ false
unfolding unused
get_or-unused zero k h = absurd (omega arith)
get_or-unused (suc n) zero h = refl
get_or-unused (suc n) (suc k) h = get_or-unused n k (omega arith)

Agrees-unused : (n : ℕ) → Agrees (unused n) []
Agrees-unused n k lt =
    (λ h. false≢true (sym (get_or-unused n k (omega (arith, length-unused n))) ∙ h), λ t. absurd t)

-- How many positions carry no mark.
abbrev unmarked_count : List Bool → ℕ
unmarked_count [] = 0
unmarked_count (u ∷ used) = (if u then 0 else 1) + unmarked_count used

unmarked_count-set :
    (used : List Bool) (k : ℕ)
    → get_or used k true ≡ false
    → suc (unmarked_count (set used k true)) ≡ unmarked_count used
unmarked_count-set [] k h = cc
unmarked_count-set (u ∷ used) zero h = ground arith
unmarked_count-set (u ∷ used) (suc k) h = omega (arith, unmarked_count-set used k h)

unmarked_count-mark_used :
    (used : List Bool) (start count : ℕ)
    → Clear used start count
    → count + unmarked_count (mark_used used start count true) ≡ unmarked_count used
unfolding mark_used
unmarked_count-mark_used used start zero clear = omega arith
unmarked_count-mark_used used start (suc count) clear = omega (
  arith,
  unmarked_count-set used start (clear start (omega arith) (omega arith)),
  unmarked_count-mark_used (set used start true) (suc start) count (λ k le lt.
      get_or-set_ne used start k true true (λ e. omega (arith, e))
      ∙ clear k (omega arith) (omega arith)),
)

-- Places that do not overlap need as many positions as they have words.
min_rule_token_count-le :
    (groups : List (List Text)) (args : List Text) (used : List Bool) (spans : List (ℕ × ℕ))
    → length used ≡ length args
    → Agrees used spans
    → Placement args groups spans
    → min_rule_token_count groups ≤ unmarked_count used
unfolding min_rule_token_count
min_rule_token_count-le [] args used spans total agrees p = omega arith
min_rule_token_count-le (tokens ∷ groups) args used spans total agrees
      (place start bound fits apart p) =
    let bound' : start + length tokens ≤ length used = omega arith in
    let clear = Clear-of_Apart used spans agrees start (length tokens) bound' apart in
    omega (
      arith,
      unmarked_count-mark_used used start (length tokens) clear,
      min_rule_token_count-le groups args (mark_used used start (length tokens) true)
          ((start, length tokens) ∷ spans)
          (length-mark_used used start (length tokens) true ∙ total)
          (Agrees-mark_used used spans start (length tokens) bound' agrees) p,
    )

unmarked_count-unused : (n : ℕ) → unmarked_count (unused n) ≡ n
unfolding unused
unmarked_count-unused zero = refl
unmarked_count-unused (suc n) = omega (arith, unmarked_count-unused n)

-- The groups of a rule match the words of a command line, more words being allowed, exactly if each
-- group has a place where its words fit and no two places overlap: the search with its marks, its
-- backtracking and its early test of the number of words finds such places whenever there are any.
pub match_parameter_groups_iff :
    (groups : List (List Text)) (args : List Text)
    → (match_parameter_groups groups args true ≡ true) ↔ Placement args groups []
unfolding match_parameter_groups
match_parameter_groups_iff [] args = (λ h. all_placed [], λ p. refl)
match_parameter_groups_iff (tokens ∷ groups) args =
    let marks = unused (length args) in
    let total = length-unused (length args) in
    let agrees = Agrees-unused (length args) in
    let all = tokens ∷ groups in
    (
      λ h. match_from_sound all args marks [] total agrees (ground arith),
      λ p.
          let few : min_rule_token_count all ≤ length args = omega (
            arith,
            min_rule_token_count-le all args marks [] total agrees p,
            unmarked_count-unused (length args),
          ) in
          let found = match_from_complete all args marks [] total agrees p in ground arith,
    )

-- Where the search for places fails, the marks are what they were before it, so that the next
-- start is tried with the same marks.
pub match_from_restores :
    (groups : List (List Text)) (args : List Text) (used : List Bool)
    → length used ≡ length args
    → (match_parameter_groups_from groups args true used).0 ≡ false
    → match_parameter_groups_from groups args true used ≡ (false, used)
match_from_restores groups args used total h = match_from-Restores groups args used total h

same_of_iff : (a b : Bool) → (a ≡ true → b ≡ true) → (b ≡ true → a ≡ true) → a ≡ b
same_of_iff true b f g = sym (f refl)
same_of_iff false true f g = g refl
same_of_iff false false f g = refl

match_groups_one_way :
    (args : List Text) {groups groups' : List (List Text)}
    → Perm groups groups'
    → match_parameter_groups groups args true ≡ true
    → match_parameter_groups groups' args true ≡ true
match_groups_one_way args {groups} {groups'} q h =
    ∥∥₁_elim (Placement-Perm [] q ((match_parameter_groups_iff groups args).0 h)) (hlevel)
      (match_parameter_groups_iff groups' args).1

-- The order in which a rule lists its groups does not matter.
pub match_parameter_groups_order :
    (args : List Text) {groups groups' : List (List Text)}
    → Perm groups groups'
    → match_parameter_groups groups args true ≡ match_parameter_groups groups' args true
match_parameter_groups_order args q =
    same_of_iff _ _ (match_groups_one_way args q) (match_groups_one_way args (Perm.symm q))
