-- ===== src/Runtime/Constraints/Scalars.antt =====
-- aliyun-openapi-runtime/runtime/constraints.go: the checks of one value find no violation exactly if it
-- meets the constraints of its parameter.
use aliyun_cli.Base.{
  ℕ, ◌≤◌, Text, text_eq, text_eq_iff, text_eq_refl, is_empty, Bool, true, false, not, ◌&&◌,
  Bool-cases, ◌≡◌, refl, sym, ap, subst, ◌∙◌, ◌↔◌, ◌⊎◌, inl, inr, false≢true, Option, none, some,
  List, [], ◌∷◌, length, if◌then◌else◌, arith,
}
use aliyun_cli.Runtime.{
  Value, Scalar, string, integer, long, float_type, boolean_type, any, other, Info, scalar,
}
use aliyun_cli.Runtime.Constraints.{
  Library, Context, Violation, Verdict, or_later, constraint_actual, constraint_rat, is_listed,
  check_enum, check_minimum, check_maximum, check_bounds, parse_uint, check_min_length,
  check_max_length, check_pattern, check_string, check_scalar, minimum_constraint,
  maximum_constraint, pattern_constraint,
}
use aliyun_cli.Runtime.Constraints.Places.{
  Listed, listed_here, listed_later, InBounds, FitsText, FitsScalar,
}

some_or {ℓ} : {A : Type ℓ} → A → Option A → A
some_or a none = a
some_or a (some b) = b

some-inj {ℓ} : {A : Type ℓ} {a b : A} → some a ≡ some b → a ≡ b
unfolding some_or
some-inj {a = a} e = ap (some_or a) e

not-false : {b : Bool} → not b ≡ false → b ≡ true
not-false {b = true} h = refl
not-false {b = false} h = sym h

pub or_later-none : (a b : Verdict) → (or_later a b ≡ none) ↔ ((a ≡ none) × (b ≡ none))
or_later-none none b = (λ h. (refl, h), λ h. h.1)
or_later-none (some v) b = (λ h. cc, λ h. cc)

is_listed_sound : (s : Text) (allowed : List Text) → is_listed s allowed ≡ true → Listed s allowed
unfolding is_listed
is_listed_sound s [] h = cc
is_listed_sound s (t ∷ allowed) h = elim (Bool-cases (text_eq s t)) [
  | inl same ↦
      subst (λ u. Listed s (u ∷ allowed)) ((text_eq_iff s t).0 same) (listed_here s allowed)
  | inr other_ ↦ listed_later s t allowed (is_listed_sound s allowed (ground arith))
]

is_listed_complete :
    {s : Text} {allowed : List Text} → Listed s allowed → is_listed s allowed ≡ true
unfolding is_listed
is_listed_complete (listed_here s allowed) = rw (text_eq_refl s) refl
is_listed_complete (listed_later s t allowed l) = ground (arith, is_listed_complete l)

pub check_enum_iff :
    (c : Context) (enum : List Text) (actual : Text)
    → (check_enum c enum actual ≡ none) ↔ ((enum ≡ []) ⊎ Listed actual enum)
check_enum_iff c [] actual = (λ h. inl refl, λ h. refl)
check_enum_iff c (t ∷ allowed) actual = elim (Bool-cases (is_listed actual (t ∷ allowed))) [
  | inl good ↦ (λ h. inr (is_listed_sound actual (t ∷ allowed) good), λ h. rw good refl)
  | inr bad ↦ (
    λ h. absurd (ground arith),
    λ h. elim h [
      | inl e ↦ absurd (let q : t ∷ allowed ≡ [] = e in cc)
      | inr l ↦ absurd (false≢true (sym bad ∙ is_listed_complete l))
    ],
  )
]

-- A test that complains only where three conditions hold.
gate_iff :
    (a b d : Bool) (v : Violation)
    → ((if not a && b && d then some v else none) ≡ none) ↔ (a ≡ false → b ≡ true → d ≡ false)
gate_iff true b d v = (λ h e. cc, λ h. refl)
gate_iff false false d v = (λ h e f. cc, λ h. refl)
gate_iff false true false v = (λ h e f. refl, λ h. refl)
gate_iff false true true v = (λ h. cc, λ h. absurd (false≢true (sym (h refl refl))))

check_bounds_iff :
    (lib : Library) (c : Context) (info : Info) (actual : Text) (o : Option Text)
    → (check_bounds lib c info actual o ≡ none) ↔ ((x : Text) → o ≡ some x → InBounds lib info x)
unfolding check_minimum check_maximum
check_bounds_iff lib c info actual none = (λ h x e. cc, λ h. refl)
check_bounds_iff lib c info actual (some x) =
    let low =
      gate_iff (is_empty info.minimum) (lib.is_rational info.minimum) (lib.less x info.minimum)
        (record { context = c; constraint = minimum_constraint; actual = actual }) in
    let high =
      gate_iff (is_empty info.maximum) (lib.is_rational info.maximum) (lib.less info.maximum x)
        (record { context = c; constraint = maximum_constraint; actual = actual }) in
    (
      λ h y e.
          let parts = (or_later-none _ _).0 h in
          subst (InBounds lib info) (some-inj e) (low.0 parts.0, high.0 parts.1),
      λ h. (or_later-none _ _).1 (low.1 (h x refl).0, high.1 (h x refl).1),
    )

min_length_iff :
    (c : Context) (o : Option ℕ) (s : Text)
    → (check_min_length c o s ≡ none) ↔ ((n : ℕ) → o ≡ some n → n ≤ length s)
min_length_iff c none s = (λ h n e. cc, λ h. refl)
min_length_iff c (some k) s =
    (λ h n e. let same : k ≡ n = some-inj e in ground arith, λ h. let le = h k refl in ground arith)

max_length_iff :
    (c : Context) (o : Option ℕ) (s : Text)
    → (check_max_length c o s ≡ none) ↔ ((n : ℕ) → o ≡ some n → length s ≤ n)
max_length_iff c none s = (λ h n e. cc, λ h. refl)
max_length_iff c (some k) s =
    (λ h n e. let same : k ≡ n = some-inj e in ground arith, λ h. let le = h k refl in ground arith)

check_string_iff :
    (lib : Library) (c : Context) (info : Info) (s : Text)
    → (check_string lib c info s ≡ none) ↔ FitsText lib info s
unfolding check_pattern
check_string_iff lib c info s =
    let low = min_length_iff c (parse_uint info.min_length) s in
    let high = max_length_iff c (parse_uint info.max_length) s in
    let gate =
      gate_iff (is_empty info.pattern) (lib.compiles info.pattern)
        (not (lib.matches info.pattern s))
        (record { context = c; constraint = pattern_constraint; actual = s }) in
    (
      λ h.
          let p = (or_later-none _ _).0 h in
          let q = (or_later-none _ _).0 p.1 in
          (low.0 p.0, high.0 q.0, λ e f. not-false (gate.0 q.1 e f)),
      λ h.
          (or_later-none _ _).1
            (low.1 h.0, (or_later-none _ _).1 (high.1 h.1, gate.1 (λ e f. rw (h.2 e f) refl))),
    )

pub check_scalar_iff :
    (lib : Library) (c : Context) (info : Info) (t : Scalar) (v : Value)
    → (check_scalar lib c info t v ≡ none) ↔ FitsScalar lib info (scalar t) v
check_scalar_iff lib c info integer v =
    check_bounds_iff lib c info (constraint_actual lib v) (constraint_rat lib v)
check_scalar_iff lib c info long v =
    check_bounds_iff lib c info (constraint_actual lib v) (constraint_rat lib v)
check_scalar_iff lib c info float_type v =
    check_bounds_iff lib c info (constraint_actual lib v) (constraint_rat lib v)
check_scalar_iff lib c info string v = check_string_iff lib c info (constraint_actual lib v)
check_scalar_iff lib c info boolean_type v = (λ h. tt, λ h. refl)
check_scalar_iff lib c info any v = (λ h. tt, λ h. refl)
check_scalar_iff lib c info other v = (λ h. tt, λ h. refl)
