-- ===== src/Mock/Matcher/Wildcard.antt =====
-- sysconfig/mock/matcher.go: what a word of a rule with `?` and `*` stands for, and that `match_token`
-- decides it.
use aliyun_cli.Base.{
  ℕ, Text, text_eq, text_eq_iff, text_eq_refl, one_of, Bool, true, false, Bool-cases, ◌≡◌, refl,
  sym, ap, subst, ◌↔◌, ◌⊎◌, inl, inr, [], ◌∷◌, ◌++◌, All, arith, ◌≢◌, ◌==◌,
}
use aliyun_cli.Mock.Matcher.{
  Wild, any_run, word_run, letter, wild_of, in_line, in_word, some_rest, match_wild,
  match_expression, has_wild, match_token,
}

abbrev AllIn : (ℕ → Bool) → Text → Type 0
AllIn allowed t = All (λ c. allowed c ≡ true) t

-- The texts that a letter of the rule stands for: `*` for any text without a line break, `?` for one
-- or more letters none of which is white space, and any other letter for itself.
abbrev pub StandsFor : Wild → Text → Type 0
StandsFor any_run t = AllIn in_line t
StandsFor word_run [] = ⊥
StandsFor word_run (c ∷ t) = AllIn in_word (c ∷ t)
StandsFor (letter a) t = t ≡ a ∷ []

-- What a letter of a rule may stand for: `*` for any text without a line break, `?` for one or more letters
-- none of which is a tab, a line break, a form feed, a carriage return or a space, and any other letter
-- for itself.
pub data Piece : ℕ → Text → Type 0 where
  line_piece : (t : Text) → All (λ c. c ≢ 10) t → Piece b'*' t
  word_piece :
      (d : ℕ) (t : Text)
      → All (λ c. (c ≢ 9) × (c ≢ 10) × (c ≢ 12) × (c ≢ 13) × (c ≢ 32)) (d ∷ t)
      → Piece b'?' (d ∷ t)
  letter_piece : (c : ℕ) → c ≢ b'*' → c ≢ b'?' → Piece c (c ∷ [])

-- The text is a sequence of pieces, one for each letter of the rule.
pub data Expressed : Text → Text → Type 0 where
  nothing_left : Expressed [] []
  piece :
      {c : ℕ} {rule whole : Text} (t s : Text)
      → Piece c t
      → Expressed rule s
      → whole ≡ t ++ s
      → Expressed (c ∷ rule) whole

All-line : (t : Text) → AllIn in_line t → All (λ c. c ≢ 10) t
All-line [] h = tt
All-line (c ∷ t) h = (ground (arith, h.0), All-line t h.1)

line-All : (t : Text) → All (λ c. c ≢ 10) t → AllIn in_line t
line-All [] h = tt
line-All (c ∷ t) h = (ground (arith, h.0), line-All t h.1)

All-word :
    (t : Text) → AllIn in_word t → All (λ c. (c ≢ 9) × (c ≢ 10) × (c ≢ 12) × (c ≢ 13) × (c ≢ 32)) t
All-word [] h = tt
All-word (c ∷ t) h = (
  (
    ground (arith, h.0),
    ground (arith, h.0),
    ground (arith, h.0),
    ground (arith, h.0),
    ground (arith, h.0),
  ),
  All-word t h.1,
)

word-All :
    (t : Text) → All (λ c. (c ≢ 9) × (c ≢ 10) × (c ≢ 12) × (c ≢ 13) × (c ≢ 32)) t → AllIn in_word t
word-All [] h = tt
word-All (c ∷ t) h = (ground (arith, h.0.0, h.0.1, h.0.2, h.0.3, h.0.4), word-All t h.1)

word_run-Piece : (t : Text) → StandsFor word_run t → Piece b'?' t
word_run-Piece [] h = absurd h
word_run-Piece (d ∷ t) h = word_piece d t (All-word (d ∷ t) h)

wild_of-Piece : (c : ℕ) (t : Text) → StandsFor (wild_of c) t → Piece c t
wild_of-Piece c t h = elim (Bool-cases (c == b'*')) [
  | inl star ↦
      let e : c ≡ b'*' = ground arith in
      subst (λ d. Piece d t) (sym e) (line_piece t (All-line t (rw e at h)))
  | inr no_star ↦ elim (Bool-cases (c == b'?')) [
    | inl mark ↦
        let e : c ≡ b'?' = ground arith in
        subst (λ d. Piece d t) (sym e) (word_run-Piece t (rw e at h))
    | inr plain ↦
        let same : t ≡ c ∷ [] = rw (no_star, plain) at h in
        subst (Piece c) (sym same)
          (letter_piece c (λ e. absurd (ground arith)) (λ e. absurd (ground arith)))
  ]
]

stands_of : {c : ℕ} {t : Text} → Piece c t → StandsFor (wild_of c) t
stands_of (line_piece t every) = line-All t every
stands_of (word_piece d t every) = word-All (d ∷ t) every
stands_of (letter_piece c no_star no_mark) =
    let a : (c == b'*') ≡ false = ground (arith, no_star) in
    let b : (c == b'?') ≡ false = ground (arith, no_mark) in rw (a, b) refl

some_rest_sound :
    (allowed : ℕ → Bool) (p : Text → Bool) (s : Text)
    → some_rest allowed p s ≡ true
    → (t : Text) × (rest : Text) × AllIn allowed t × (p rest ≡ true) × (s ≡ t ++ rest)
unfolding some_rest
some_rest_sound allowed p [] h = ([], [], tt, h, refl)
some_rest_sound allowed p (c ∷ s) h = elim (Bool-cases (p (c ∷ s))) [
  | inl here ↦ ([], c ∷ s, tt, here, refl)
  | inr later ↦
      let q : (allowed c ≡ true) × (some_rest allowed p s ≡ true) = ground arith in
      let (t, rest, every, holds, whole) = some_rest_sound allowed p s q.1 in
      (c ∷ t, rest, (q.0, every), holds, ap (λ u. c ∷ u) whole)
]

some_rest-here :
    (allowed : ℕ → Bool) (p : Text → Bool) (s : Text) → p s ≡ true → some_rest allowed p s ≡ true
unfolding some_rest
some_rest-here allowed p [] h = h
some_rest-here allowed p (c ∷ s) h = rw h

some_rest_complete :
    (allowed : ℕ → Bool) (p : Text → Bool) (t rest : Text)
    → AllIn allowed t
    → p rest ≡ true
    → some_rest allowed p (t ++ rest) ≡ true
unfolding some_rest
some_rest_complete allowed p [] rest every h = some_rest-here allowed p rest h
some_rest_complete allowed p (c ∷ t) rest every h =
    ground (arith, some_rest_complete allowed p t rest every.1 h)

match_wild_sound :
    (w : Wild) (p : Text → Bool) (s : Text)
    → match_wild w p s ≡ true
    → (t : Text) × (rest : Text) × StandsFor w t × (p rest ≡ true) × (s ≡ t ++ rest)
match_wild_sound any_run p s h = some_rest_sound in_line p s h
match_wild_sound word_run p [] h = cc
match_wild_sound word_run p (c ∷ s) h =
    let q : (in_word c ≡ true) × (some_rest in_word p s ≡ true) = ground arith in
    let (t, rest, every, holds, whole) = some_rest_sound in_word p s q.1 in
    (c ∷ t, rest, (q.0, every), holds, ap (λ u. c ∷ u) whole)
match_wild_sound (letter a) p [] h = cc
match_wild_sound (letter a) p (c ∷ s) h =
    let q : (a ≡ c) × (p s ≡ true) = ground arith in
    (a ∷ [], s, refl, q.1, ap (λ d. d ∷ s) (sym q.0))

match_wild_complete :
    (w : Wild) (p : Text → Bool) (t rest : Text)
    → StandsFor w t
    → p rest ≡ true
    → match_wild w p (t ++ rest) ≡ true
match_wild_complete any_run p t rest every h = some_rest_complete in_line p t rest every h
match_wild_complete word_run p [] rest every h = absurd every
match_wild_complete word_run p (c ∷ t) rest every h =
    rw (every.0, some_rest_complete in_word p t rest every.1 h)
match_wild_complete (letter a) p t rest every h = rw every (ground arith)

match_expression_sound : (rule s : Text) → match_expression rule s ≡ true → Expressed rule s
unfolding match_expression
match_expression_sound [] [] h = nothing_left
match_expression_sound [] (c ∷ s) h = cc
match_expression_sound (c ∷ rule) s h =
    let (t, rest, stands, holds, whole) =
      match_wild_sound (wild_of c) (match_expression rule) s h in
    piece t rest (wild_of-Piece c t stands) (match_expression_sound rule rest holds) whole

match_expression_complete :
    (rule : Text) {s : Text} → Expressed rule s → match_expression rule s ≡ true
unfolding match_expression
match_expression_complete [] nothing_left = refl
match_expression_complete (c ∷ rule) (piece t rest stands e whole) = rw whole (
    match_wild_complete (wild_of c) (match_expression rule) t rest (stands_of stands)
      (match_expression_complete rule e))

-- A rule without `?` and `*` stands for itself alone.
Expressed-plain : (rule : Text) {s : Text} → has_wild rule ≡ false → Expressed rule s → rule ≡ s
unfolding has_wild one_of
Expressed-plain [] h nothing_left = refl
Expressed-plain (c ∷ rule) h (piece t rest stands e whole) =
    let q : (wild_of c ≡ letter c) × (has_wild rule ≡ false) = ground arith in
    let same : t ≡ c ∷ [] = subst (λ w. StandsFor w t) q.0 (stands_of stands) in
    let ih = Expressed-plain rule q.1 e in rw (whole, same, ih)

-- A word of a rule matches a word of the command line exactly if the two are the same or the second
-- is a sequence of pieces, one for each letter of the rule: for `*` any text without a line break,
-- for `?` one or more letters that are no tab, line break, form feed, carriage return or space, for
-- another letter itself.
pub match_token_iff :
    (rule arg : Text) → (match_token rule arg ≡ true) ↔ ((rule ≡ arg) ⊎ Expressed rule arg)
unfolding match_token
match_token_iff rule arg = (
  λ h. elim (Bool-cases (text_eq rule arg)) [
    | inl same ↦ inl ((text_eq_iff rule arg).0 same)
    | inr other ↦ inr (match_expression_sound rule arg (ground arith))
  ],
  λ h. elim h [
    | inl same ↦ rw same (rw (text_eq_refl arg) refl)
    | inr e ↦ elim (Bool-cases (has_wild rule)) [
      | inl wild ↦ ground (arith, match_expression_complete rule e)
      | inr plain ↦ rw (Expressed-plain rule plain e) (rw (text_eq_refl arg) refl)
    ]
  ],
)
