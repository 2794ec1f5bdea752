-- ===== src/Mock/Matcher/Placement.antt =====
-- sysconfig/mock/matcher.go: what it means that the groups of a rule occur in a command line, with no
-- search and no marks.
use aliyun_cli.Base.{ℕ, ◌+◌, ◌≤◌, ◌<◌, Text, subst, ◌⊎◌, inl, inr, List, [], ◌∷◌, length}
use mathlib.Core.Logic.{∥∥₁_elim}
use mathlib.Core.List.{Perm, Permᴰ}
use aliyun_cli.Mock.Matcher.Search.Marks.{Fits}

-- The stretches of a command line that are taken, each with its start and its length.
abbrev pub Taken : ℕ → List (ℕ × ℕ) → Type 0
Taken k [] = ⊥
Taken k ((start, count) ∷ spans) = ((start ≤ k) × (k < start + count)) ⊎ Taken k spans

-- A stretch shares no position with those taken.
abbrev pub Apart : ℕ → ℕ → List (ℕ × ℕ) → Type 0
Apart start count spans = (k : ℕ) → start ≤ k → k < start + count → ¬ Taken k spans

-- Each group has a place in the command line, where its words fit, and no two places overlap.
pub data Placement (args : List Text) : List (List Text) → List (ℕ × ℕ) → Type 0 where
  all_placed : (spans : List (ℕ × ℕ)) → Placement args [] spans
  place :
      {tokens : List Text} {groups : List (List Text)} {spans : List (ℕ × ℕ)} (start : ℕ)
      → start + length tokens ≤ length args
      → Fits tokens args start
      → Apart start (length tokens) spans
      → Placement args groups ((start, length tokens) ∷ spans)
      → Placement args (tokens ∷ groups) spans

-- Fewer stretches taken leave more room.
Placement-weaken :
    {args : List Text} {groups : List (List Text)} {spans spans' : List (ℕ × ℕ)}
    → ((k : ℕ) → Taken k spans' → Taken k spans)
    → Placement args groups spans
    → Placement args groups spans'
Placement-weaken {spans' = spans'} sub (all_placed spans) = all_placed spans'
Placement-weaken sub (place {tokens} start bound fits apart p) =
    place start bound fits (λ k le lt t. apart k le lt (sub k t))
      (Placement-weaken (λ k t. elim t [ inl here ↦ inl here | inr there ↦ inr (sub k there) ]) p)

Placement-swap :
    {args a b : List Text} {groups : List (List Text)} {spans : List (ℕ × ℕ)}
    → Placement args (a ∷ b ∷ groups) spans
    → Placement args (b ∷ a ∷ groups) spans
Placement-swap (place i bound_i fits_i apart_i (place j bound_j fits_j apart_j p)) =
    place j bound_j fits_j (λ k le lt t. apart_j k le lt (inr t))
      (place i bound_i fits_i
        (λ k le lt t. elim t [
          | inl here ↦ apart_j k here.0 here.1 (inl (le, lt))
          | inr there ↦ apart_i k le lt there
        ])
        (Placement-weaken
          (λ k t. elim t [
            | inl first ↦ inr (inl first)
            | inr rest ↦ elim rest [ inl second ↦ inl second | inr old ↦ inr (inr old) ]
          ])
          p))

-- The order of the groups does not matter.
Placement-Permᴰ :
    {args : List Text} {groups groups' : List (List Text)} (spans : List (ℕ × ℕ))
    → Permᴰ groups groups'
    → Placement args groups spans
    → Placement args groups' spans
Placement-Permᴰ spans Permᴰ.nil p = p
Placement-Permᴰ {args = args} spans (Permᴰ.cons {l₂ = l} e q)
      (place {tokens} start bound fits apart p) =
    subst (λ t. Placement args (t ∷ l) spans) e
      (place start bound fits apart (Placement-Permᴰ ((start, length tokens) ∷ spans) q p))
Placement-Permᴰ {args = args} spans (Permᴰ.swap {b = b} {b' = b'} {l = l} e f) p =
    subst (λ t. Placement args (t ∷ b' ∷ l) spans) f
      (subst (λ t. Placement args (b ∷ t ∷ l) spans) e (Placement-swap p))
Placement-Permᴰ spans (Permᴰ.trans q r) p = Placement-Permᴰ spans r (Placement-Permᴰ spans q p)

pub Placement-Perm :
    {args : List Text} {groups groups' : List (List Text)} (spans : List (ℕ × ℕ))
    → Perm groups groups'
    → Placement args groups spans
    → ∥ Placement args groups' spans ∥₁
Placement-Perm spans q p = ∥∥₁_elim q (hlevel) (λ d. ∣ Placement-Permᴰ spans d p ∣₁)
