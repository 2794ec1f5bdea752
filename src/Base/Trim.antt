-- ===== src/Base/Trim.antt =====
-- `trim_space` and the other functions on texts that the program applies more than once.
use Prim.Native.Nat.{ℕ, suc, ◌≤◌}
use mathlib.Core.Path.{◌≡◌, refl, sym, ap, ◌∙◌}
use mathlib.Core.Logic.{◌≢◌, inl, inr}
use mathlib.Core.Bool.{true, false, ◌&&◌}
use mathlib.Core.List.{[], ◌∷◌, ◌++◌}
use native.Mathlib.Omega.{arith}
use aliyun_cli.Base.Tests.{Bool-cases}
use aliyun_cli.Base.Lists.{length}
use aliyun_cli.Base.Strings.{
  Text, is_empty, is_space, trim_left, trim_right, trim_space, lower_char, to_lower,
}

is_empty-nil : (s : Text) → is_empty s ≡ true → s ≡ []
is_empty-nil [] h = refl
is_empty-nil (c ∷ s) h = cc

pub trim_left_idem : (s : Text) → trim_left (trim_left s) ≡ trim_left s
unfolding trim_left
trim_left_idem [] = refl
trim_left_idem (c ∷ s) = elim (Bool-cases (is_space c)) [
  | inl space ↦ rw space (trim_left_idem s)
  | inr visible ↦ rw (visible, visible)
]

trim_right_idem : (s : Text) → trim_right (trim_right s) ≡ trim_right s
unfolding trim_right
trim_right_idem [] = refl
trim_right_idem (c ∷ s) = elim (Bool-cases (is_space c && is_empty (trim_right s))) [
  | inl blank ↦ rw blank
  | inr kept ↦ rw (kept, trim_right_idem s, kept)
]

trim_right-tail : (c : ℕ) (s : Text) → trim_right (c ∷ s) ≡ c ∷ s → trim_right s ≡ s
unfolding trim_right
trim_right-tail c s h = elim (Bool-cases (is_space c && is_empty (trim_right s))) [
  | inl blank ↦ ground arith
  | inr kept ↦ ground arith
]

-- Trimming the front keeps the end trimmed.
trim_right-trim_left : (s : Text) → trim_right s ≡ s → trim_right (trim_left s) ≡ trim_left s
unfolding trim_left
trim_right-trim_left [] h = h
trim_right-trim_left (c ∷ s) h = elim (Bool-cases (is_space c)) [
  | inl space ↦ rw space (trim_right-trim_left s (trim_right-tail c s h))
  | inr visible ↦ rw visible h
]

pub trim_space_idem : (s : Text) → trim_space (trim_space s) ≡ trim_space s
unfolding trim_space
trim_space_idem s =
    rw (trim_right-trim_left (trim_right s) (trim_right_idem s)) (trim_left_idem (trim_right s))

pub lower_char_idem : (c : ℕ) → lower_char (lower_char c) ≡ lower_char c
lower_char_idem c = ground arith

pub to_lower_idem : (s : Text) → to_lower (to_lower s) ≡ to_lower s
unfolding to_lower
to_lower_idem [] = refl
to_lower_idem (c ∷ s) = rw (lower_char_idem c, to_lower_idem s)

length-trim_left : (s : Text) → length (trim_left s) ≤ length s
unfolding trim_left
length-trim_left [] = omega arith
length-trim_left (c ∷ s) = ground (arith, length-trim_left s)

shrinks : (c : ℕ) (a : Text) → is_space c ≡ true → trim_left (c ∷ a) ≢ c ∷ a
unfolding trim_left
shrinks c a space e =
    let step : trim_left (c ∷ a) ≡ trim_left a = rw space in
    let longer : length (trim_left a) ≡ suc (length a) = ap length (sym step ∙ e) in
    omega (arith, length-trim_left a, longer)

pub is_empty-append : (a b : Text) → is_empty b ≡ false → is_empty (a ++ b) ≡ false
is_empty-append [] b h = h
is_empty-append (c ∷ a) b h = refl

-- What is put behind a trimmed text keeps the front trimmed, and what is put before one the end.
pub trim_left-append :
    (a b : Text) → is_empty a ≡ false → trim_left a ≡ a → trim_left (a ++ b) ≡ a ++ b
unfolding trim_left
trim_left-append [] b h e = cc
trim_left-append (c ∷ a) b h e = elim (Bool-cases (is_space c)) [
  | inl space ↦ absurd (shrinks c a space e)
  | inr visible ↦ rw visible
]

pub trim_right-append :
    (a b : Text) → is_empty b ≡ false → trim_right b ≡ b → trim_right (a ++ b) ≡ a ++ b
unfolding trim_right
trim_right-append [] b h e = e
trim_right-append (c ∷ a) b h e =
    rw (trim_right-append a b h e, is_empty-append a b h) (ground arith)
