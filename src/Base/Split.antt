-- ===== src/Base/Split.antt =====
-- `split` and `cut` undo `join` and concatenation where the separator does not occur.
use Prim.Native.Nat.{ℕ}
use mathlib.Core.Path.{◌≡◌, refl, ap, ◌∙◌}
use mathlib.Core.Logic.{inl, inr}
use mathlib.Core.Bool.{true, false}
use mathlib.Core.List.{List, [], ◌∷◌, ◌++◌}
use native.Mathlib.Omega.{arith}
use aliyun_cli.Base.Tests.{◌==◌, Bool-cases}
use aliyun_cli.Base.Lists.{All}
use aliyun_cli.Base.Strings.{Text, split_at, cut, split, join}

-- The code point does not occur.
abbrev pub IsFree : ℕ → Text → Type 0
IsFree sep s = All (λ c. (c == sep) ≡ false) s

pub cut-append : (sep : ℕ) (a b : Text) → IsFree sep a → cut sep (a ++ (sep ∷ b)) ≡ (a, b, true)
unfolding cut split_at
cut-append sep [] b h = ground arith
cut-append sep (c ∷ a) b h = rw (h.0, cut-append sep a b h.1)

pub split-cons :
    (sep : ℕ) (s : Text) → (part : Text) × (parts : List Text) × (split sep s ≡ part ∷ parts)
unfolding split
split-cons sep [] = ([], [], refl)
split-cons sep (c ∷ s) = elim (Bool-cases (c == sep)) [
  | inl e ↦ let (part, parts, h) = split-cons sep s in ([], part ∷ parts, rw (h, e))
  | inr e ↦ let (part, parts, h) = split-cons sep s in (c ∷ part, parts, rw (h, e))
]

pub split-IsFree : (sep : ℕ) (a : Text) → IsFree sep a → split sep a ≡ a ∷ []
unfolding split
split-IsFree sep [] h = refl
split-IsFree sep (c ∷ a) h = rw (split-IsFree sep a h.1, h.0)

pub split-append :
    (sep : ℕ) (a b : Text) → IsFree sep a → split sep (a ++ (sep ∷ b)) ≡ a ∷ split sep b
unfolding split
split-append sep [] b h =
    let (part, parts, e) = split-cons sep b in
    let same : (sep == sep) ≡ true = ground arith in rw (e, same)
split-append sep (c ∷ a) b h = rw (split-append sep a b h.1, h.0)

pub split-join :
    (sep : ℕ) (part : Text) (parts : List Text)
    → All (IsFree sep) (part ∷ parts)
    → split sep (join (sep ∷ []) (part ∷ parts)) ≡ part ∷ parts
unfolding join
split-join sep part [] h = split-IsFree sep part h.0
split-join sep part (next ∷ parts) h =
    split-append sep part (join (sep ∷ []) (next ∷ parts)) h.0
    ∙ ap (λ t. part ∷ t) (split-join sep next parts h.1)

pub cut-IsFree : (sep : ℕ) (a : Text) → IsFree sep a → cut sep a ≡ (a, [], false)
unfolding cut split_at
cut-IsFree sep [] h = refl
cut-IsFree sep (c ∷ a) h = rw (h.0, cut-IsFree sep a h.1)
