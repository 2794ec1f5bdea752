-- ===== src/Cli/Parser/Plain.antt =====
-- Arguments that are no flags pass through the parser.
use aliyun_cli.Base.{
  ℕ, suc, zero, ◌<◌, ◌≤◌, ◌+◌, Text, is_empty, has_prefix, txt, split_at, one_of, get_or, drop,
  Bool, true, false, ◌≡◌, refl, ap, ◌∙◌, List, [], ◌∷◌, ◌++◌, All, length, ok, arith, none,
  append-nil, append_assoc,
}
use native.Mathlib.Numerals.{add-one}
use aliyun_cli.Cli.Parser.{
  Machine, split_string_with_prefix, parse_command_arg, token_meaning, feed_value, take_token,
  read_token, read_next, read_all, append_arg,
}

-- A text that is not empty and does not begin with a dash.
abbrev pub IsPlain : Text → Type 0
IsPlain s = (is_empty s ≡ false) × (has_prefix s (txt "-") ≡ false)

-- What stands before the first `=` or `:` of a plain text begins with no dash either.
prefix-IsPlain :
    (p : ℕ → Bool) (s : Text)
    → has_prefix s (txt "-") ≡ false
    → has_prefix (split_at p s).0 (txt "-") ≡ false
unfolding split_at has_prefix
prefix-IsPlain p [] h = refl
prefix-IsPlain p (c ∷ s) h = ground arith

pub parse_plain : (s : Text) (m : Machine) → IsPlain s → parse_command_arg s m ≡ (ok (none, s), m)
unfolding parse_command_arg split_string_with_prefix
parse_plain s m plain = rw (prefix-IsPlain (one_of (txt "=:")) s plain.1, parse_command_arg) refl

-- A plain token is an argument if no flag waits for a value.
pub read_token_plain :
    (s : Text) (m : Machine) → IsPlain s → m.parser.current_flag ≡ none → read_token s m ≡ (ok s, m)
unfolding read_token token_meaning feed_value take_token
read_token_plain [] m plain free = cc
read_token_plain (c ∷ s) m plain free = rw (parse_plain (c ∷ s) m plain) (ground arith)

drop_step :
    {A : Type 0} (xs : List A) (i : ℕ) (d : A) {y : A} {ys : List A}
    → drop i xs ≡ y ∷ ys
    → (i < length xs) × (get_or xs i d ≡ y) × (drop (suc i) xs ≡ ys)
drop_step [] zero d e = cc
drop_step [] (suc i) d e = cc
drop_step (x ∷ xs) zero d e = ground arith
drop_step (x ∷ xs) (suc i) d e = let (a, b, c) = drop_step xs i d e in (omega arith, b, c)

drop_end : {A : Type 0} (xs : List A) (i : ℕ) → drop i xs ≡ [] → length xs ≤ i
drop_end [] i e = omega arith
drop_end (x ∷ xs) zero e = cc
drop_end (x ∷ xs) (suc i) e = omega (arith, drop_end xs i e)

-- The parser at another position.
abbrev pub at_position : ℕ → Machine → Machine
at_position i m = record m { parser = record (m.parser) { current = i } }

read_next_end :
    (m : Machine) → length m.parser.args ≤ m.parser.current → read_next m ≡ (ok ([], false), m)
unfolding read_next
read_next_end m h = ground arith

read_next_plain :
    (m : Machine) (s : Text)
    → m.parser.current < length m.parser.args
    → get_or m.parser.args m.parser.current [] ≡ s
    → IsPlain s
    → m.parser.current_flag ≡ none
    → read_next m ≡ (ok (s, true), at_position (m.parser.current + 1) m)
unfolding read_next
read_next_plain m s less at plain free =
    ground (arith, read_token_plain s (at_position (m.parser.current + 1) m) plain free)

append_arg-plain : (r : List Text) (s : Text) → IsPlain s → append_arg r s ≡ r ++ (s ∷ [])
append_arg-plain r [] plain = cc
append_arg-plain r (c ∷ s) plain = refl

-- `ReadAll` gives back arguments that are plain texts as they are, in order, behind those read
-- before; it stops behind the last of them, and no flag object and no context changes. It is
-- assumed that no flag waits for a value, and that the fuel is more than the number of those texts.
pub read_all_plain :
    (rest : List Text) (fuel : ℕ) (r : List Text) (m : Machine)
    → All IsPlain rest
    → m.parser.current_flag ≡ none
    → drop m.parser.current m.parser.args ≡ rest
    → length rest < fuel
    → read_all fuel r m ≡ (ok (r ++ rest), at_position (m.parser.current + length rest) m)
unfolding read_all
read_all_plain rest zero r m plain free e h = elim h [ ]
read_all_plain [] (suc fuel) r m plain free e h =
    rw (read_next_end m (drop_end _ _ e), append-nil r)
      (ap (λ (i : ℕ). (ok r, at_position i m)) (omega arith))
read_all_plain (s ∷ rest) (suc fuel) r m plain free e h =
    let (less, at, next) = drop_step m.parser.args m.parser.current [] e in
    let moved = at_position (m.parser.current + 1) m in
    rw (read_next_plain m s less at plain.0 free, append_arg-plain r s plain.0)
      (read_all_plain rest fuel (r ++ (s ∷ [])) moved plain.1 free (rw add-one next) (omega arith)
        ∙ rw (append_assoc r (s ∷ []) rest)
            (ap (λ (i : ℕ). (ok (r ++ (s ∷ rest)), at_position i m)) (omega arith)))
