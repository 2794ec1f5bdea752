-- ===== src/Cli/Suggestion/Order.antt =====
-- Go ranges over a map in an order of its own: since the suggestions for a flag are sorted, that
-- order does not show.
use mathlib.Core.List.{Perm, Permᴰ}
use mathlib.Core.Logic.{∥∥₁_elim}
use aliyun_cli.Base.{
  ℕ, min, Text, true, false, ◌==◌, Bool-cases, ◌≡◌, refl, sym, ap, ◌∙◌, ◌⊎◌, inl, inr, List, [],
  ◌∷◌, if◌then◌else◌, arith,
}
use aliyun_cli.Cli.Suggestion.{text_leb, insert, sort, flag_suggestions}
use aliyun_cli.Cli.Suggestion.Closest.{smallest, at_distance, cleaned_distance, unify_each_closest}

text_leb_total : (a b : Text) → text_leb a b ≡ false → text_leb b a ≡ true
unfolding text_leb
text_leb_total [] b h = cc
text_leb_total (x ∷ a) [] h = refl
text_leb_total (x ∷ a) (y ∷ b) h = ground (arith, text_leb_total a b)

text_leb_antisymm : (a b : Text) → text_leb a b ≡ true → text_leb b a ≡ true → a ≡ b
unfolding text_leb
text_leb_antisymm [] [] h k = refl
text_leb_antisymm [] (y ∷ b) h k = cc
text_leb_antisymm (x ∷ a) [] h k = cc
text_leb_antisymm (x ∷ a) (y ∷ b) h k = ground (arith, text_leb_antisymm a b)

text_leb_trans : (a b c : Text) → text_leb a b ≡ true → text_leb b c ≡ true → text_leb a c ≡ true
unfolding text_leb
text_leb_trans [] b c h k = refl
text_leb_trans (x ∷ a) [] c h k = cc
text_leb_trans (x ∷ a) (y ∷ b) [] h k = cc
text_leb_trans (x ∷ a) (y ∷ b) (z ∷ c) h k = ground (arith, text_leb_trans a b c)

insert_before : (x t : Text) (ts : List Text) → text_leb x t ≡ true → insert x (t ∷ ts) ≡ x ∷ t ∷ ts
unfolding insert
insert_before x t ts h = rw h

insert_behind :
    (x t : Text) (ts : List Text) → text_leb x t ≡ false → insert x (t ∷ ts) ≡ t ∷ insert x ts
unfolding insert
insert_behind x t ts h = rw h

-- The larger of two texts goes behind the smaller one.
insert_larger :
    (x y : Text) (l : List Text) → text_leb x y ≡ true → insert y (x ∷ l) ≡ x ∷ insert y l ⊎ (x ≡ y)
insert_larger x y l h = elim (Bool-cases (text_leb y x)) [
  | inl k ↦ inr (text_leb_antisymm x y h k)
  | inr k ↦ inl (insert_behind y x l k)
]

-- What is left where the larger one cannot go behind the smaller one at once.
by_order :
    (x y : Text) (l : List Text)
    → text_leb x y ≡ true
    → insert x (insert y l) ≡ x ∷ insert y l
    → insert x l ≡ x ∷ l
    → insert x (insert y l) ≡ insert y (insert x l)
by_order x y l h e f = elim (insert_larger x y l h) [
  | inl behind ↦ e ∙ sym (ap (insert y) f ∙ behind)
  | inr same ↦ ap (λ t. insert t (insert y l)) same ∙ ap (λ t. insert y (insert t l)) (sym same)
]

insert-nil : (x : Text) → insert x [] ≡ x ∷ []
unfolding insert
insert-nil x = refl

insert_one : (x y : Text) → text_leb x y ≡ true → insert x (insert y []) ≡ x ∷ insert y []
unfolding insert
insert_one x y h = insert_before x y [] h

insert_comm_le :
    (x y : Text) (l : List Text)
    → text_leb x y ≡ true
    → insert x (insert y l) ≡ insert y (insert x l)
insert_comm_le x y [] h = by_order x y [] h (insert_one x y h) (insert-nil x)
insert_comm_le x y (t ∷ l) h = elim (Bool-cases (text_leb y t)) [
  | inl before ↦
      let f = insert_before x t l (text_leb_trans x y t h before) in
      let e = insert_before y t l before in
      by_order x y (t ∷ l) h
        (ap (insert x) e ∙ insert_before x y (t ∷ l) h ∙ ap (λ r. x ∷ r) (sym e)) f
  | inr behind ↦ elim (Bool-cases (text_leb x t)) [
    | inl before ↦
        let e = insert_behind y t l behind in
        by_order x y (t ∷ l) h
          (ap (insert x) e ∙ insert_before x t (insert y l) before ∙ ap (λ r. x ∷ r) (sym e))
          (insert_before x t l before)
    | inr behind_x ↦
        ap (insert x) (insert_behind y t l behind)
        ∙ insert_behind x t (insert y l) behind_x
        ∙ ap (λ r. t ∷ r) (insert_comm_le x y l h)
        ∙ sym (insert_behind y t (insert x l) behind)
        ∙ sym (ap (insert y) (insert_behind x t l behind_x))
  ]
]

insert_comm : (x y : Text) (l : List Text) → insert x (insert y l) ≡ insert y (insert x l)
insert_comm x y l = elim (Bool-cases (text_leb x y)) [
  | inl h ↦ insert_comm_le x y l h
  | inr h ↦ sym (insert_comm_le y x l (text_leb_total x y h))
]

texts_set : IsSet (List Text)
texts_set = hlevel

module _ (d : Text → ℕ) where
  smallest-perm :
      {l m : List Text} → Permᴰ l m → (bound : ℕ) → smallest d bound l ≡ smallest d bound m
  smallest-perm Permᴰ.nil bound = refl
  smallest-perm (Permᴰ.cons {a = a} {l₂ = m} e p) bound =
      smallest-perm p (min (d a) bound) ∙ ap (λ t. smallest d (min (d t) bound) m) e
  smallest-perm (Permᴰ.swap {a = a} {b = b} {a' = a1} {l = l} e f) bound =
      let c : min (d b) (min (d a) bound) ≡ min (d a) (min (d b) bound) = omega arith in
      ap (λ n. smallest d n l) c
      ∙ ap (λ t. smallest d (min (d a) (min (d t) bound)) l) f
      ∙ ap (λ t. smallest d (min (d t) (min (d a1) bound)) l) e
  smallest-perm (Permᴰ.trans p q) bound = smallest-perm p bound ∙ smallest-perm q bound

  abbrev pick : ℕ → Text → List Text → List Text
  pick n s l = if d s == n then s ∷ l else l

  sort-pick :
      (n : ℕ) (s : Text) (l m : List Text) → sort l ≡ sort m → sort (pick n s l) ≡ sort (pick n s m)
  unfolding sort
  sort-pick n s l m e = elim (Bool-cases (d s == n)) [
    | inl taken ↦ rw taken (ap (insert s) e)
    | inr left ↦ rw left e
  ]

  sort-pick_comm :
      (n : ℕ) (s t : Text) (l : List Text)
      → sort (pick n s (pick n t l)) ≡ sort (pick n t (pick n s l))
  unfolding sort
  sort-pick_comm n s t l = elim (Bool-cases (d s == n)) [
    | inl s_taken ↦ elim (Bool-cases (d t == n)) [
      | inl t_taken ↦ rw (s_taken, t_taken) (insert_comm s t (sort l))
      | inr t_left ↦ rw (s_taken, t_left)
    ]
    | inr s_left ↦ rw s_left
  ]

  sort-at_distance :
      (n : ℕ) {l m : List Text} → Permᴰ l m → sort (at_distance d n l) ≡ sort (at_distance d n m)
  sort-at_distance n Permᴰ.nil = refl
  sort-at_distance n (Permᴰ.cons {a = a} {l₁ = l} {l₂ = m} e p) =
      sort-pick n a (at_distance d n l) (at_distance d n m) (sort-at_distance n p)
      ∙ ap (λ t. sort (pick n t (at_distance d n m))) e
  sort-at_distance n (Permᴰ.swap {a = a} {b = b} {a' = a1} {l = l} e f) =
      sort-pick_comm n a b (at_distance d n l)
      ∙ ap (λ t. sort (pick n t (pick n a (at_distance d n l)))) f
      ∙ ap (λ t. sort (pick n a1 (pick n t (at_distance d n l)))) e
  sort-at_distance n (Permᴰ.trans p q) = sort-at_distance n p ∙ sort-at_distance n q

-- The suggestions for a flag do not depend on the order in which the map of a flag set yields its
-- keys: for two orders of the same keys they are the same list.
pub flag_suggestions_order :
    (distance : Text → Text → ℕ) (keys others : List Text) (name : Text) (k : ℕ)
    → Perm keys others
    → flag_suggestions distance keys name k ≡ flag_suggestions distance others name k
unfolding flag_suggestions
flag_suggestions_order distance keys others name k p =
    let d = cleaned_distance distance name in
    ∥∥₁_elim p (texts_set _ _) (λ q.
      ap sort (unify_each_closest distance name k keys)
      ∙ ap (λ n. sort (at_distance d n keys)) (smallest-perm d q k)
      ∙ sort-at_distance d (smallest d k others) q
      ∙ sym (ap sort (unify_each_closest distance name k others)))
