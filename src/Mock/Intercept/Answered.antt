-- ===== src/Mock/Intercept/Answered.antt =====
-- sysconfig/mock/interceptor.go: what the answer of a record is, and what one use leaves.
use aliyun_cli.Base.{
  sym, subst, inl, inr, Bool-cases, leb, ◌-◌, ◌≤◌, take, drop, length-take, length-append, false, ℕ,
  zero, suc, Text, true, false, ◌≡◌, refl, ap, none, List, [], ◌∷◌, ◌++◌, length, ℤ, pos, negsuc,
  All, arith,
}
use aliyun_cli.Mock.{Record, resolve_stdout, padding, expand_to, expand_to_size}
use aliyun_cli.Mock.Store.{validate_record, is_negative}
use aliyun_cli.Mock.Store.Valid.{IsValid, IsValid-cons}
use aliyun_cli.Mock.Intercept.{
  used_up, cons_used, pause_of, error_output_of, ErrorOutput, of_record, no_error_output,
  Interception, answer,
}

-- A text is brought to a size: cut off, or filled up with `x`. The size zero stands for none.
pub data Sized : Text → ℤ → Text → Type 0 where
  any_size : (t : Text) → Sized t (pos 0) t
  cut_off : (t rest : Text) (n : ℕ) → length t ≡ suc n → Sized (t ++ rest) (pos (suc n)) t
  filled_up :
      (t fill : Text) (n : ℕ)
      → All (λ c. c ≡ b'x') fill
      → length (t ++ fill) ≡ suc n
      → Sized t (pos (suc n)) (t ++ fill)

-- What is written to standard error is the text, and nothing where it is empty.
pub data Writes : Text → ErrorOutput → Type 0 where
  writes_nothing : Writes [] no_error_output
  writes_text : (c : ℕ) (s : Text) → Writes (c ∷ s) (of_record (c ∷ s))

-- The answer of a record.
pub record Answers (r : Record) (given : Interception) : Type 0 where
  pub is_handled : given.handled ≡ true
  pub exits : given.exit_code ≡ r.exit_code
  pub pauses : given.slept ≡ r.delay_ms
  pub writes_out : Sized r.stdout r.response_body_size given.out
  pub writes_err : Writes r.stderr given.error_out

-- What is left of a record behind one use.
pub data UsedOnce : Record → List Record → Type 0 where
  stays : (r : Record) → r.times ≡ pos 0 → UsedOnce r (r ∷ [])
  last_use : (r : Record) → r.times ≡ pos 1 → UsedOnce r []
  one_less :
      (r : Record) (n : ℕ)
      → r.times ≡ pos (suc (suc n))
      → UsedOnce r (record r { times = pos (suc n) } ∷ [])

padding-x : (n : ℕ) → All (λ c. c ≡ b'x') (padding n)
unfolding padding
padding-x zero = tt
padding-x (suc n) = (refl, padding-x n)

length-padding : (n : ℕ) → length (padding n) ≡ n
unfolding padding
length-padding zero = refl
length-padding (suc n) = ap suc (length-padding n)

take-drop : (n : ℕ) (t : Text) → t ≡ take n t ++ drop n t
take-drop zero t = refl
take-drop (suc n) [] = refl
take-drop (suc n) (c ∷ t) = ap (λ s. c ∷ s) (take-drop n t)

expand_to-Sized : (t : Text) (size : ℤ) → is_negative size ≡ false → Sized t size (expand_to t size)
unfolding expand_to_size
expand_to-Sized t (negsuc n) h = cc
expand_to-Sized t (pos zero) h = any_size t
expand_to-Sized t (pos (suc n)) h = elim (Bool-cases (leb (suc n) (length t))) [
  | inl long ↦
      let most : suc n ≤ length t = ground arith in
      rw long (
        subst (λ s. Sized s (pos (suc n)) (take (suc n) t)) (sym (take-drop (suc n) t))
          (cut_off (take (suc n) t) (drop (suc n) t) n
            (ground (arith, length-take (suc n) t, most))))
  | inr short ↦
      let fill = padding (suc n - length t) in
      let size = length-padding (suc n - length t) in
      rw short (
        filled_up t fill n (padding-x (suc n - length t))
          (ground (arith, length-append t fill, size, short)))
]

valid_numbers :
    (r : Record)
    → validate_record r ≡ none
    → (is_negative r.times ≡ false)
      × (is_negative r.delay_ms ≡ false)
      × (is_negative r.response_body_size ≡ false)
unfolding validate_record
valid_numbers r h = (ground arith, ground arith, ground arith)

pause_of-delay : (i : ℤ) → is_negative i ≡ false → pause_of i ≡ i
pause_of-delay (pos n) h = refl
pause_of-delay (negsuc n) h = cc

error_output_of-Writes : (s : Text) → Writes s (error_output_of s)
error_output_of-Writes [] = writes_nothing
error_output_of-Writes (c ∷ s) = writes_text c s

pub answer-Answers : (r : Record) → validate_record r ≡ none → Answers r (answer r)
unfolding answer resolve_stdout
answer-Answers r valid =
    let fine = valid_numbers r valid in
    record {
      is_handled = refl;
      exits = refl;
      pauses = pause_of-delay r.delay_ms fine.1;
      writes_out = expand_to-Sized r.stdout r.response_body_size fine.2;
      writes_err = error_output_of-Writes r.stderr;
    }

used_at :
    (r : Record) (after : List Record) (t : ℤ)
    → r.times ≡ t
    → is_negative t ≡ false
    → (left : List Record) × UsedOnce r left × (cons_used (used_up r t) after ≡ left ++ after)
used_at r after (negsuc n) e h = cc
used_at r after (pos zero) e h = (r ∷ [], stays r e, refl)
used_at r after (pos (suc zero)) e h = ([], last_use r e, refl)
used_at r after (pos (suc (suc n))) e h =
    (record r { times = pos (suc n) } ∷ [], one_less r n e, refl)

pub used_up-UsedOnce :
    (r : Record) (after : List Record)
    → validate_record r ≡ none
    → (left : List Record) × UsedOnce r left × (cons_used (used_up r r.times) after ≡ left ++ after)
used_up-UsedOnce r after valid = used_at r after r.times refl (valid_numbers r valid).0

pub append-valid_record :
    (before after : List Record) (r : Record)
    → IsValid (before ++ (r ∷ after))
    → validate_record r ≡ none
append-valid_record [] after r h = (IsValid-cons r after h).0
append-valid_record (q ∷ before) after r h =
    append-valid_record before after r (IsValid-cons q (before ++ (r ∷ after)) h).1
