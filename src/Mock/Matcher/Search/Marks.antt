-- ===== src/Mock/Matcher/Search/Marks.antt =====
-- sysconfig/mock/matcher.go: what the marks of the search say, position by position, and that taking
-- back the marks of a place leaves the marks as they were before.
use aliyun_cli.Base.{
  ℕ, zero, suc, ◌+◌, ◌≤◌, ◌<◌, Text, Bool, true, false, ◌==◌, ==_iff, ltb, Bool-cases, ◌≡◌, refl,
  sym, ◌∙◌, ◌⊎◌, inl, inr, List, [], ◌∷◌, length, get_or, set, length-set, get_or-set_self,
  get_or-set_ne, arith,
}
use aliyun_cli.Mock.Matcher.{match_token}
use aliyun_cli.Mock.Matcher.Search.{match_parameter_group_at, mark_used}

-- The words fit those of the command line from a position on.
abbrev pub Fits : List Text → List Text → ℕ → Type 0
Fits [] arg_tokens start = Unit
Fits (token ∷ tokens) arg_tokens start =
    (match_token token (get_or arg_tokens start []) ≡ true) × Fits tokens arg_tokens (suc start)

-- No position of a stretch is marked.
abbrev pub Clear : List Bool → ℕ → ℕ → Type 0
Clear used start count = (k : ℕ) → start ≤ k → k < start + count → get_or used k true ≡ false

Clear-suc :
    (used : List Bool) (start n : ℕ)
    → get_or used start true ≡ false
    → Clear used (suc start) n
    → Clear used start (suc n)
Clear-suc used start n here later k le lt = elim (Bool-cases (k == start)) [
  | inl same ↦ let e : k ≡ start = (==_iff k start).0 same in rw e here
  | inr other ↦ later k (ground arith) (omega arith)
]

pub match_parameter_group_at_sound :
    (tokens arg_tokens : List Text) (used : List Bool) (start : ℕ)
    → match_parameter_group_at tokens arg_tokens used start ≡ true
    → Fits tokens arg_tokens start × Clear used start (length tokens)
unfolding match_parameter_group_at
match_parameter_group_at_sound [] arg_tokens used start h = (tt, λ k le lt. absurd (omega arith))
match_parameter_group_at_sound (token ∷ tokens) arg_tokens used start h =
    let q : (get_or used start true ≡ false)
        × (match_token token (get_or arg_tokens start []) ≡ true)
        × (match_parameter_group_at tokens arg_tokens used (suc start) ≡ true) =
      ground arith in
    let ih = match_parameter_group_at_sound tokens arg_tokens used (suc start) q.2 in
    ((q.1, ih.0), Clear-suc used start (length tokens) q.0 ih.1)

pub match_parameter_group_at_complete :
    (tokens arg_tokens : List Text) (used : List Bool) (start : ℕ)
    → Fits tokens arg_tokens start
    → Clear used start (length tokens)
    → match_parameter_group_at tokens arg_tokens used start ≡ true
unfolding match_parameter_group_at
match_parameter_group_at_complete [] arg_tokens used start f c = refl
match_parameter_group_at_complete (token ∷ tokens) arg_tokens used start f c =
    rw (c start (omega arith) (omega arith), f.0)
      (match_parameter_group_at_complete tokens arg_tokens used (suc start) f.1
        (λ k le lt. c k (omega arith) (omega arith)))

pub length-mark_used :
    (used : List Bool) (start n : ℕ) (v : Bool) → length (mark_used used start n v) ≡ length used
unfolding mark_used
length-mark_used used start zero v = refl
length-mark_used used start (suc n) v =
    length-mark_used (set used start v) (suc start) n v ∙ length-set used start v

pub get_or-mark_used_outside :
    (used : List Bool) (start n k : ℕ) (v : Bool)
    → (k < start) ⊎ (start + n ≤ k)
    → get_or (mark_used used start n v) k true ≡ get_or used k true
unfolding mark_used
get_or-mark_used_outside used start zero k v h = refl
get_or-mark_used_outside used start (suc n) k v h =
    get_or-mark_used_outside (set used start v) (suc start) n k v (ground arith)
    ∙ get_or-set_ne used start k v true (λ e. ground arith)

pub get_or-mark_used_inside :
    (used : List Bool) (start n k : ℕ) (v : Bool)
    → start + n ≤ length used
    → start ≤ k
    → k < start + n
    → get_or (mark_used used start n v) k true ≡ v
unfolding mark_used
get_or-mark_used_inside used start zero k v h le lt = absurd (omega arith)
get_or-mark_used_inside used start (suc n) k v h le lt = elim (Bool-cases (k == start)) [
  | inl same ↦
      let e : k ≡ start = (==_iff k start).0 same in
      rw e (
        get_or-mark_used_outside (set used start v) (suc start) n start v (inl (omega arith))
        ∙ get_or-set_self used start v true (omega arith))
  | inr other ↦
      get_or-mark_used_inside (set used start v) (suc start) n k v
        (omega (arith, length-set used start v)) (ground arith) (omega arith)
]

-- Marks are the same if they agree at every position.
marks_ext :
    (us vs : List Bool)
    → length us ≡ length vs
    → ((k : ℕ) → k < length us → get_or us k true ≡ get_or vs k true)
    → us ≡ vs
marks_ext [] [] e h = refl
marks_ext [] (v ∷ vs) e h = absurd (omega arith)
marks_ext (u ∷ us) [] e h = absurd (omega arith)
marks_ext (u ∷ us) (v ∷ vs) e h =
    rw (h 0 (omega arith), marks_ext us vs (omega arith) (λ k lt. h (suc k) (omega arith)))

-- The stretch that a place marks can be told from what lies outside.
pub inside_or_outside :
    (start n k : ℕ) → ((start ≤ k) × (k < start + n)) ⊎ ((k < start) ⊎ (start + n ≤ k))
inside_or_outside start n k = elim (Bool-cases (ltb k start)) [
  | inl before ↦ inr (inl (ground arith))
  | inr from_start ↦ elim (Bool-cases (ltb k (start + n))) [
    | inl in_it ↦ inl (ground arith)
    | inr behind ↦ inr (inr (ground arith))
  ]
]

pub mark_used_back :
    (used : List Bool) (start n : ℕ)
    → start + n ≤ length used
    → Clear used start n
    → mark_used (mark_used used start n true) start n false ≡ used
mark_used_back used start n h c =
    let marked = mark_used used start n true in
    let l = length-mark_used used start n true in
    marks_ext (mark_used marked start n false) used (length-mark_used marked start n false ∙ l)
      (λ k lt. elim (inside_or_outside start n k) [
        | inl at ↦
            get_or-mark_used_inside marked start n k false (omega (arith, l)) at.0 at.1
            ∙ sym (c k at.0 at.1)
        | inr away ↦
            get_or-mark_used_outside marked start n k false away
            ∙ get_or-mark_used_outside used start n k true away
      ])
