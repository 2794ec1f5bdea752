-- ===== src/Safety/Policy/Glob.antt =====
-- What it means for a command to match a rule's pattern, and that `match_pattern` decides it.
use aliyun_cli.Base.{
  ℕ, Text, Bool, true, Bool-cases, ◌≡◌, refl, ap, subst, ◌≢◌, ◌↔◌, inl, inr, List, [], ◌∷◌, ◌++◌,
  arith, ◌⊎◌, ◌≤◌, ◌+◌, ◌==◌, All, false, sym, trim_space,
}
use aliyun_cli.Safety.Policy.{
  Item, literal, any_sequence, same_letter, line_break, some_suffix, match_items, items_of,
  match_pattern,
}

-- No line break occurs.
pub data OneLine : Text → Type 0 where
  one_line_nil : OneLine []
  one_line_cons : {c : ℕ} {s : Text} → c ≢ line_break → OneLine s → OneLine (c ∷ s)

-- The text can be cut into a piece for each item: a letter, in either case, for a literal, and any
-- piece of one line for `*`.
pub data Matches : List Item → Text → Type 0 where
  matches_nil : Matches [] []
  matches_literal :
      {a c : ℕ} {items : List Item} {s : Text}
      → same_letter a c ≡ true
      → Matches items s
      → Matches (literal a ∷ items) (c ∷ s)
  matches_any :
      {items : List Item} {piece s : Text}
      → OneLine piece
      → Matches items s
      → Matches (any_sequence ∷ items) (piece ++ s)

-- The cut that `some_suffix` finds.
some_suffix_sound :
    (p : Text → Bool) (s : Text)
    → some_suffix p s ≡ true
    → (piece : Text) × (rest : Text) × OneLine piece × (p rest ≡ true) × (piece ++ rest ≡ s)
unfolding some_suffix
some_suffix_sound p [] h = ([], [], one_line_nil, h, refl)
some_suffix_sound p (c ∷ s) h = elim (Bool-cases (p (c ∷ s))) [
  | inl here ↦ ([], c ∷ s, one_line_nil, here, refl)
  | inr later ↦
      let q : (c ≢ line_break) × (some_suffix p s ≡ true) = ground arith in
      let (piece, rest, line, holds, whole) = some_suffix_sound p s q.1 in
      (c ∷ piece, rest, one_line_cons q.0 line, holds, ap (λ t. c ∷ t) whole)
]

some_suffix-here : (p : Text → Bool) (s : Text) → p s ≡ true → some_suffix p s ≡ true
unfolding some_suffix
some_suffix-here p [] h = h
some_suffix-here p (c ∷ s) h = rw h

some_suffix_complete :
    (p : Text → Bool) (piece rest : Text)
    → OneLine piece
    → p rest ≡ true
    → some_suffix p (piece ++ rest) ≡ true
unfolding some_suffix
some_suffix_complete p [] rest one_line_nil h = some_suffix-here p rest h
some_suffix_complete p (c ∷ piece) rest (one_line_cons ne line) h =
    ground (arith, some_suffix_complete p piece rest line h)

match_items_sound : (items : List Item) (s : Text) → match_items items s ≡ true → Matches items s
unfolding match_items
match_items_sound [] [] h = matches_nil
match_items_sound [] (c ∷ s) h = cc
match_items_sound (any_sequence ∷ items) s h =
    let (piece, rest, line, holds, whole) = some_suffix_sound (match_items items) s h in
    subst (Matches (any_sequence ∷ items)) whole
      (matches_any line (match_items_sound items rest holds))
match_items_sound (literal a ∷ items) [] h = cc
match_items_sound (literal a ∷ items) (c ∷ s) h =
    let q : (same_letter a c ≡ true) × (match_items items s ≡ true) = ground arith in
    matches_literal q.0 (match_items_sound items s q.1)

match_items_complete : {items : List Item} {s : Text} → Matches items s → match_items items s ≡ true
unfolding match_items
match_items_complete matches_nil = refl
match_items_complete (matches_literal same m) = rw (same, match_items_complete m)
match_items_complete (matches_any {items} {piece} {s} line m) =
    some_suffix_complete (match_items items) piece s line (match_items_complete m)

-- The same code point, or the two cases of one letter from `A` to `Z`.
abbrev pub SameLetter : ℕ → ℕ → Type 0
SameLetter a c =
    (a ≡ c) ⊎ ((65 ≤ a) × (a ≤ 90) × (c ≡ a + 32)) ⊎ ((65 ≤ c) × (c ≤ 90) × (a ≡ c + 32))

same_letter_sound : (a c : ℕ) → same_letter a c ≡ true → SameLetter a c
same_letter_sound a c h = ground arith

same_letter_complete : (a c : ℕ) → SameLetter a c → same_letter a c ≡ true
same_letter_complete a c (inl e) = ground arith
same_letter_complete a c (inr (inl u)) = ground (arith, u.0, u.1, u.2)
same_letter_complete a c (inr (inr u)) = ground (arith, u.0, u.1, u.2)

-- How a pattern reads, letter by letter: `*` stands for any piece of one line, also an empty one, and any
-- other letter for itself in either case.
pub data Reads : Text → Text → Type 0 where
  reads_nothing : Reads [] []
  reads_star :
      {pattern : Text} (piece s : Text)
      → All (λ c. c ≢ 10) piece
      → Reads pattern s
      → Reads (b'*' ∷ pattern) (piece ++ s)
  reads_letter :
      {a c : ℕ} {pattern s : Text}
      → a ≢ b'*'
      → SameLetter a c
      → Reads pattern s
      → Reads (a ∷ pattern) (c ∷ s)

OneLine-All : {s : Text} → OneLine s → All (λ c. c ≢ 10) s
OneLine-All one_line_nil = tt
OneLine-All (one_line_cons ne line) = (ne, OneLine-All line)

All-OneLine : (s : Text) → All (λ c. c ≢ 10) s → OneLine s
All-OneLine [] h = one_line_nil
All-OneLine (c ∷ s) h = one_line_cons h.0 (All-OneLine s h.1)

-- The item of a letter.
star_item : (a : ℕ) → (a == b'*') ≡ true → a ≡ b'*'
star_item a h = ground arith

star-Reads :
    (a : ℕ) (pattern s : Text) → a ≡ b'*' → Reads (b'*' ∷ pattern) s → Reads (a ∷ pattern) s
star-Reads a pattern s e r = subst (λ b. Reads (b ∷ pattern) s) (sym e) r

matched_star :
    (pattern : Text) {items : List Item} {s : Text}
    → ((t : Text) → Matches items t → Reads pattern t)
    → Matches (any_sequence ∷ items) s
    → Reads (b'*' ∷ pattern) s
matched_star pattern later (matches_any {piece = piece} {s = s} line m) =
    reads_star piece s (OneLine-All line) (later s m)

matched_letter :
    (a : ℕ) (pattern : Text) {items : List Item} {s : Text}
    → a ≢ b'*'
    → ((t : Text) → Matches items t → Reads pattern t)
    → Matches (literal a ∷ items) s
    → Reads (a ∷ pattern) s
matched_letter a pattern ne later (matches_literal {c = c} {s = s} same m) =
    reads_letter ne (same_letter_sound a c same) (later s m)

Matches-Reads : (pattern : Text) (s : Text) → Matches (items_of pattern) s → Reads pattern s
unfolding items_of
Matches-Reads [] s matches_nil = reads_nothing
Matches-Reads (a ∷ pattern) s m = elim (Bool-cases (a == b'*')) [
  | inl star ↦
      star-Reads a pattern s (star_item a star)
        (matched_star pattern (Matches-Reads pattern) (rw star at m))
  | inr plain ↦
      matched_letter a pattern (λ e. absurd (ground arith)) (Matches-Reads pattern) (rw plain at m)
]

Reads-Matches : {pattern s : Text} → Reads pattern s → Matches (items_of pattern) s
unfolding items_of
Reads-Matches reads_nothing = matches_nil
Reads-Matches (reads_star piece s line r) = matches_any (All-OneLine piece line) (Reads-Matches r)
Reads-Matches (reads_letter {a = a} {c = c} ne same r) =
    let plain : (a == b'*') ≡ false = ground (arith, ne) in
    rw plain (matches_literal (same_letter_complete a c same) (Reads-Matches r))

-- A rule's pattern matches a command exactly if it is not empty and, the space around both left out, the
-- command can be cut into consecutive pieces, one for each letter of the pattern: for `*` any piece
-- without a line break, also an empty one, and for any other letter that letter in either case.
pub match_pattern_iff :
    (pattern cmd : Text)
    → (match_pattern pattern cmd ≡ true)
      ↔ ((pattern ≢ []) × Reads (trim_space pattern) (trim_space cmd))
unfolding match_pattern
match_pattern_iff [] cmd = (λ h. cc, λ h. absurd (h.0 refl))
match_pattern_iff (c ∷ pattern) cmd = (
  λ h. (
    λ e. cc,
    Matches-Reads (trim_space (c ∷ pattern)) (trim_space cmd)
        (match_items_sound (items_of (trim_space (c ∷ pattern))) (trim_space cmd) h),
  ),
  λ h. match_items_complete (Reads-Matches h.1),
)
