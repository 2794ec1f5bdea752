-- ===== src/Mock/Matcher/Search/Restores.antt =====
-- sysconfig/mock/matcher.go: a search that fails leaves the marks as they were.
use aliyun_cli.Base.{
  ℕ, zero, suc, ◌+◌, ◌-◌, ◌≤◌, ◌<◌, Text, Bool, true, false, ◌==◌, ==_iff, Bool-cases, ◌≡◌, refl,
  subst, ◌∙◌, ◌⊎◌, inl, inr, List, [], ◌∷◌, length, arith,
}
use aliyun_cli.Mock.Matcher.Search.{
  match_parameter_group_at, mark_used, or_next, try_start, try_starts, rounds,
  match_parameter_groups_from,
}
use aliyun_cli.Mock.Matcher.Search.Marks.{
  match_parameter_group_at_sound, length-mark_used, mark_used_back,
}

-- A search that leaves marks of a length as they were where it fails.
abbrev Restores : ℕ → (List Bool → Bool × List Bool) → Type 0
Restores n below =
    (used : List Bool) → length used ≡ n → (below used).0 ≡ false → below used ≡ (false, used)

-- The group fits at a start, and the search below succeeds.
abbrev Hit : List Text → List Text → (List Bool → Bool × List Bool) → List Bool → ℕ → Type 0
Hit tokens args below used start =
    (match_parameter_group_at tokens args used start ≡ true)
    × ((below (mark_used used start (length tokens) true)).0 ≡ true)

or_next_found :
    (r : Bool × List Bool) (k : List Bool → Bool × List Bool) → r.0 ≡ true → (or_next r k).0 ≡ true
or_next_found (true, used) k h = refl
or_next_found (false, used) k h = cc

module _ (tokens args : List Text) (below : List Bool → Bool × List Bool) (n : ℕ)
    (restores : Restores n below) (used : List Bool) (total : length used ≡ n) where
  try_start_cases :
      (start : ℕ)
      → start + length tokens ≤ n
      → (((try_start tokens args below start used).0 ≡ true) × Hit tokens args below used start)
        ⊎ ((try_start tokens args below start used ≡ (false, used))
            × ¬ Hit tokens args below used start)
  unfolding try_start
  try_start_cases start bound =
      elim (Bool-cases (match_parameter_group_at tokens args used start)) [
        | inr off ↦ inr (rw off, λ h. cc)
        | inl fits ↦
            let marked = mark_used used start (length tokens) true in
            elim (Bool-cases (below marked).0) [
              | inl found ↦ inl (ground arith, (fits, found))
              | inr missed ↦
                  let r =
                    restores marked (length-mark_used used start (length tokens) true ∙ total)
                      missed in
                  let c = (match_parameter_group_at_sound tokens args used start fits).1 in
                  inr (
                    rw (fits, r, mark_used_back used start (length tokens) (omega arith) c),
                    λ h. cc,
                  )
            ]
      ]

  pub try_starts_cases :
      (rest start : ℕ)
      → rest ≤ suc n - (start + length tokens)
      → (((try_starts tokens args below rest start used).0 ≡ true)
          × (i : ℕ) × (i + length tokens ≤ n)
          × Hit tokens args below used i)
        ⊎ ((try_starts tokens args below rest start used ≡ (false, used))
            × ((i : ℕ) → start ≤ i → i < rest + start → ¬ Hit tokens args below used i))
  unfolding try_starts
  try_starts_cases zero start bound = inr (refl, λ i le lt. absurd (omega arith))
  try_starts_cases (suc rest) start bound = elim (try_start_cases start (omega arith)) [
    | inl found ↦ inl (or_next_found _ _ found.0, start, omega arith, found.1)
    | inr missed ↦ elim (try_starts_cases rest (suc start) (omega arith)) [
      | inl later ↦ inl (rw missed.0 later.0, later.1, later.2, later.3)
      | inr never ↦ inr (
        rw missed.0 never.0,
        λ i le lt h. elim (Bool-cases (i == start)) [
          | inl same ↦
              let e : i ≡ start = (==_iff i start).0 same in
              missed.1 (subst (Hit tokens args below used) e h)
          | inr other ↦ never.1 i (ground arith) (omega arith) h
        ],
      )
    ]
  ]

pub match_from-Restores :
    (groups : List (List Text)) (args : List Text)
    → Restores (length args) (match_parameter_groups_from groups args true)
unfolding match_parameter_groups_from
match_from-Restores [] args used total h = cc
match_from-Restores (tokens ∷ groups) args used total h =
    elim (try_starts_cases tokens args (match_parameter_groups_from groups args true) (length args)
      (match_from-Restores groups args) used total (rounds (length tokens) (length args)) 0
      (omega arith)) [ inl found ↦ cc (found.0) | inr missed ↦ missed.0 ]
