-- ===== src/Cli/Suggestion/Prefix.antt =====
-- What `PrefixSuggestions` lists and counts.
use aliyun_cli.Base.{
  ℤ, ℕ, zero, suc, min, Text, is_empty, has_prefix, trim_space, true, false, ◌==◌, ltb, Bool-cases,
  ◌≡◌, inl, inr, List, [], ◌∷◌, length, length-take, take, All, arith,
}
use aliyun_cli.Cli.Suggestion.{cleaned, limit_or_default, prefix_matches, prefix_suggestions}

-- A name that begins with the needle, once both are cleaned.
abbrev pub BeginsWith : Text → Text → Type 0
BeginsWith needle s = (has_prefix (cleaned s) needle ≡ true) × (is_empty s ≡ false)

prefix_matches-BeginsWith :
    (needle : Text) (ss : List Text) → All (BeginsWith needle) (prefix_matches needle ss)
unfolding prefix_matches
prefix_matches-BeginsWith needle [] = tt
prefix_matches-BeginsWith needle (s ∷ ss) = elim (Bool-cases (is_empty (trim_space s))) [
  | inl blank ↦ rw blank (prefix_matches-BeginsWith needle ss)
  | inr named ↦ elim (Bool-cases (has_prefix (cleaned (trim_space s)) needle)) [
    | inl begins ↦ rw (named, begins) ((begins, named), prefix_matches-BeginsWith needle ss)
    | inr other ↦ rw (named, other) (prefix_matches-BeginsWith needle ss)
  ]
]

All-take : (P : Text → Type 0) (n : ℕ) (ss : List Text) → All P ss → All P (take n ss)
All-take P zero ss h = tt
All-take P (suc n) [] h = tt
All-take P (suc n) (s ∷ ss) h = (h.0, All-take P n ss h.1)

-- `PrefixSuggestions` lists as many names as it counts, but no more than the limit, which is 5
-- where the given one is not positive; every listed name begins with the input once letters and
-- digits are all that is left of both, in lower case.
pub prefix_suggestions_listed :
    (input : Text) (candidates : List Text) (limit : ℤ)
    → let (listed, total) = prefix_suggestions input candidates limit in
      (length listed ≡ min (limit_or_default limit) total) × All (BeginsWith (cleaned input)) listed
unfolding prefix_suggestions
prefix_suggestions_listed input candidates limit =
    let most = limit_or_default limit in
    let needle = cleaned input in
    let matches = prefix_matches needle candidates in
    let begin = prefix_matches-BeginsWith needle candidates in
    elim (Bool-cases (ltb (length needle) 2)) [
      | inl short ↦ rw short (omega arith, tt)
      | inr long ↦ elim (Bool-cases (length matches == 0)) [
        | inl nothing ↦ rw (long, nothing) (omega arith, tt)
        | inr some_matches ↦ elim (Bool-cases (ltb most (length matches))) [
          | inl many ↦
              rw (long, some_matches, many)
                (length-take most matches, All-take _ most matches begin)
          | inr few ↦ rw (long, some_matches, few) (ground arith, begin)
        ]
      ]
    ]
