-- ===== src/Cli/Suggestion/Closest.antt =====
-- A suggester keeps the candidates at the smallest distance.
use aliyun_cli.Base.{
  ℕ, ◌≤◌, ◌<◌, min, Text, true, false, ◌==◌, Bool-cases, ◌≡◌, refl, sym, ap, subst, ◌∙◌, ◌⊎◌, inl,
  inr, List, [], ◌∷◌, ◌++◌, append-nil, append_assoc, if◌then◌else◌, arith,
}
use aliyun_cli.Cli.Suggestion.{
  Suggester, new_suggester, offer, cleaned, apply, unify_apply, apply_each, unify_each,
}

-- The smallest of a bound and the distances of the candidates.
abbrev pub smallest : (Text → ℕ) → ℕ → List Text → ℕ
smallest d bound [] = bound
smallest d bound (s ∷ ss) = smallest d (min (d s) bound) ss

-- The candidates at the distance `n`, in their order.
abbrev pub at_distance : (Text → ℕ) → ℕ → List Text → List Text
at_distance d n [] = []
at_distance d n (s ∷ ss) = if d s == n then s ∷ at_distance d n ss else at_distance d n ss

abbrev pub offer_each : (Text → ℕ) → List Text → Suggester → Suggester
offer_each d [] a = a
offer_each d (s ∷ ss) a = offer_each d ss (offer (d s) s a)

smallest-le : (d : Text → ℕ) (bound : ℕ) (ss : List Text) → smallest d bound ss ≤ bound
smallest-le d bound [] = omega arith
smallest-le d bound (s ∷ ss) = omega (arith, smallest-le d (min (d s) bound) ss)

-- What is kept of `found` once the smallest distance has gone from `n` to `m`.
abbrev pub kept : ℕ → ℕ → List Text → List Text
kept m n found = if m == n then found else []

offer-closer :
    (n : ℕ) (s : Text) (a : Suggester)
    → n < a.distance
    → offer n s a ≡ record { suggest_for = a.suggest_for; distance = n; results = s ∷ [] }
unfolding offer
offer-closer n s a h = ground arith

offer-same :
    (n : ℕ) (s : Text) (a : Suggester)
    → n ≡ a.distance
    → offer n s a ≡ record {
      suggest_for = a.suggest_for;
      distance = a.distance;
      results = a.results ++ (s ∷ []);
    }
unfolding offer
offer-same n s a h = ground arith

offer-farther : (n : ℕ) (s : Text) (a : Suggester) → a.distance < n → offer n s a ≡ a
unfolding offer
offer-farther n s a h = ground arith

-- How the first candidate counts in the end.
closer_counts :
    (m n k : ℕ) (s : Text) (found rest : List Text)
    → m ≤ n
    → n < k
    → kept m n (s ∷ []) ++ rest ≡ kept m k found ++ (if n == m then s ∷ rest else rest)
closer_counts m n k s found rest h l = elim (Bool-cases (m == n)) [
  | inl e ↦
      let e1 : (n == m) ≡ true = ground arith in
      let e2 : (m == k) ≡ false = ground arith in rw (e, e1, e2)
  | inr e ↦
      let e1 : (n == m) ≡ false = ground arith in
      let e2 : (m == k) ≡ false = ground arith in rw (e, e1, e2)
]

same_counts :
    (m n : ℕ) (s : Text) (found rest : List Text)
    → kept m n (found ++ (s ∷ [])) ++ rest ≡ kept m n found ++ (if n == m then s ∷ rest else rest)
same_counts m n s found rest = elim (Bool-cases (m == n)) [
  | inl e ↦ let e1 : (n == m) ≡ true = ground arith in rw (e, e1) (append_assoc found (s ∷ []) rest)
  | inr e ↦ let e1 : (n == m) ≡ false = ground arith in rw (e, e1)
]

farther_counts :
    (m n k : ℕ) (s : Text) (found rest : List Text)
    → m ≤ k
    → k < n
    → kept m k found ++ rest ≡ kept m k found ++ (if n == m then s ∷ rest else rest)
farther_counts m n k s found rest h l = let e1 : (n == m) ≡ false = ground arith in rw e1

order-cases : (m n : ℕ) → (m < n) ⊎ (m ≡ n) ⊎ (n < m)
order-cases m n = omega arith

abbrev Found : (Text → ℕ) → List Text → Suggester → Suggester → Type 0
Found d ss a b =
    (b.distance ≡ smallest d a.distance ss)
    × (b.results
        ≡ kept (smallest d a.distance ss) a.distance a.results
          ++ at_distance d (smallest d a.distance ss) ss)

-- `Found` of a list that begins with `s`, with the bound `k` and the suggester `b` that `s` leaves.
abbrev FoundAfter : (Text → ℕ) → Text → List Text → Suggester → ℕ → Suggester → Type 0
FoundAfter d s ss a k b =
    ((offer_each d ss b).distance ≡ smallest d k ss)
    × ((offer_each d ss b).results
        ≡ kept (smallest d k ss) a.distance a.results
          ++ (if d s == smallest d k ss
              then s ∷ at_distance d (smallest d k ss) ss
              else at_distance d (smallest d k ss) ss))

extend :
    (d : Text → ℕ) (s : Text) (ss : List Text) (a b : Suggester) (k : ℕ)
    → min (d s) a.distance ≡ k
    → offer (d s) s a ≡ b
    → FoundAfter d s ss a k b
    → Found d (s ∷ ss) a (offer_each d (s ∷ ss) a)
extend d s ss a b k low step found =
    subst (λ n. FoundAfter d s ss a n (offer (d s) s a)) (sym low)
      (subst (FoundAfter d s ss a k) (sym step) found)

offered : (d : Text → ℕ) (ss : List Text) (a : Suggester) → Found d ss a (offer_each d ss a)
offered d [] a =
    let same : (a.distance == a.distance) ≡ true = ground arith in
    (refl, rw same (sym (append-nil a.results)))
offered d (s ∷ ss) a = elim (order-cases (d s) a.distance) [
  | inl closer ↦
      let b : Suggester = record {
        suggest_for = a.suggest_for;
        distance = d s;
        results = s ∷ [];
      } in
      let ih = offered d ss b in
      extend d s ss a b (d s) (omega arith) (offer-closer (d s) s a closer) (
        ih.0,
        ih.1
            ∙ closer_counts (smallest d (d s) ss) (d s) a.distance s a.results _
                (smallest-le d (d s) ss) closer,
      )
  | inr (inl same) ↦
      let b : Suggester = record {
        suggest_for = a.suggest_for;
        distance = a.distance;
        results = a.results ++ (s ∷ []);
      } in
      let ih = offered d ss b in
      extend d s ss a b a.distance (omega arith) (offer-same (d s) s a same)
        (ih.0, ih.1 ∙ rw same (same_counts (smallest d a.distance ss) a.distance s a.results _))
  | inr (inr farther) ↦
      let ih = offered d ss a in
      extend d s ss a a a.distance (omega arith) (offer-farther (d s) s a farther) (
        ih.0,
        ih.1
            ∙ farther_counts (smallest d a.distance ss) (d s) a.distance s a.results _
                (smallest-le d a.distance ss) farther,
      )
]

offer-suggest_for : (n : ℕ) (s : Text) (a : Suggester) → (offer n s a).suggest_for ≡ a.suggest_for
unfolding offer
offer-suggest_for n s a = ground arith

kept-nil : (m n : ℕ) → kept m n [] ≡ []
kept-nil m n = ground arith

module _ (distance : Text → Text → ℕ) where
  apply_each-offer_each :
      (ss : List Text) (a : Suggester)
      → apply_each distance ss a ≡ offer_each (distance a.suggest_for) ss a
  unfolding apply_each apply
  apply_each-offer_each [] a = refl
  apply_each-offer_each (s ∷ ss) a =
      let b = offer (distance a.suggest_for s) s a in
      apply_each-offer_each ss b
      ∙ ap (λ v. offer_each (distance v) ss b) (offer-suggest_for (distance a.suggest_for s) s a)

  abbrev pub cleaned_distance : Text → Text → ℕ
  cleaned_distance v s = distance (cleaned v) (cleaned s)

  unify_each-offer_each :
      (ss : List Text) (a : Suggester)
      → unify_each distance ss a ≡ offer_each (cleaned_distance a.suggest_for) ss a
  unfolding unify_each unify_apply
  unify_each-offer_each [] a = refl
  unify_each-offer_each (s ∷ ss) a =
      let b = offer (cleaned_distance a.suggest_for s) s a in
      unify_each-offer_each ss b
      ∙ ap (λ v. offer_each (cleaned_distance v) ss b)
          (offer-suggest_for (cleaned_distance a.suggest_for s) s a)

  -- A suggester that starts at the bound `k` and is given the candidates one by one ends with just
  -- those, in their order and with their repetitions, whose distance is the smallest one that
  -- occurs, if that is at most `k`; no candidate farther off than `k` is ever kept.
  pub apply_each_closest :
      (v : Text) (k : ℕ) (ss : List Text)
      → (apply_each distance ss (new_suggester v k)).results
        ≡ at_distance (distance v) (smallest (distance v) k ss) ss
  apply_each_closest v k ss =
      ap (λ a. a.results) (apply_each-offer_each ss (new_suggester v k))
      ∙ (offered (distance v) ss (new_suggester v k)).1
      ∙ ap (λ t. t ++ at_distance (distance v) (smallest (distance v) k ss) ss)
          (kept-nil (smallest (distance v) k ss) k)

  pub unify_each_closest :
      (v : Text) (k : ℕ) (ss : List Text)
      → (unify_each distance ss (new_suggester v k)).results
        ≡ at_distance (cleaned_distance v) (smallest (cleaned_distance v) k ss) ss
  unify_each_closest v k ss =
      ap (λ a. a.results) (unify_each-offer_each ss (new_suggester v k))
      ∙ (offered (cleaned_distance v) ss (new_suggester v k)).1
      ∙ ap (λ t. t ++ at_distance (cleaned_distance v) (smallest (cleaned_distance v) k ss) ss)
          (kept-nil (smallest (cleaned_distance v) k ss) k)
