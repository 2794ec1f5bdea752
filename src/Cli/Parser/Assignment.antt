-- ===== src/Cli/Parser/Assignment.antt =====
-- `--name=value` and `--name value` for a flag that is declared.
use aliyun_cli.Base.{
  ℕ, suc, zero, ◌<◌, Text, is_empty, has_prefix, txt, split_at, one_of, set, get_or-set_self, Bool,
  true, false, ◌≡◌, refl, sym, ap, ◌∙◌, ◌⊎◌, false≢true, List, [], ◌∷◌, ◌++◌, length, ok, bind_res,
  arith, none, some, length-set, subst,
}
use aliyun_cli.Cli.Error.{Outcome}
use aliyun_cli.Cli.Flag.{
  Flag, FlagRef, assigned_once, assigned_default, empty_flag, set_is_assigned, need_value, assign,
}
use aliyun_cli.Cli.FlagSet.{get}
use aliyun_cli.Cli.Context.{detect_flag}
use aliyun_cli.Cli.Parser.{
  no_origin, long_flag_candidate, Parser, Machine, close_flag, on_flag, flag_of, store,
  split_string_with_prefix, flag_origin, parse_command_arg, token_meaning, feed_to, feed_value,
  validate_previous, await_value, start_flag, take_token, read_token,
}
use aliyun_cli.Cli.Parser.Plain.{IsPlain, parse_plain}

-- A name that can follow `--`: not empty, no dash in front, and neither `=` nor `:` in it.
pub record IsName (name : Text) : Type 0 where
  pub filled : is_empty name ≡ false
  pub no_dash : has_prefix name (txt "-") ≡ false
  pub unsplit : (split_at (one_of (txt "=:")) name).2 ≡ false

split_at-append :
    (p : ℕ → Bool) (xs : Text) (c : ℕ) (ys : Text)
    → (split_at p xs).2 ≡ false
    → p c ≡ true
    → split_at p (xs ++ (c ∷ ys)) ≡ (xs, ys, true)
unfolding split_at
split_at-append p [] c ys h k = rw k
split_at-append p (x ∷ xs) c ys h k = ground (arith, split_at-append p xs c ys)

split_at-all :
    (p : ℕ → Bool) (xs : Text) → (split_at p xs).2 ≡ false → split_at p xs ≡ (xs, [], false)
unfolding split_at
split_at-all p [] h = refl
split_at-all p (x ∷ xs) h = ground (arith, split_at-all p xs)

-- The two spellings of a name with its value.
abbrev pub inline : Text → Text → Text
inline name value = b'-' ∷ b'-' ∷ (name ++ (b'=' ∷ value))

abbrev pub dashed : Text → Text
dashed name = b'-' ∷ b'-' ∷ name

split-inline :
    (name value : Text)
    → IsName name
    → split_string_with_prefix (inline name value) (txt "=:") ≡ (dashed name, value, true)
unfolding split_string_with_prefix split_at one_of
split-inline name value n =
    rw (split_at-append (one_of (txt "=:")) name b'=' value n.unsplit refl) refl

split-dashed :
    (name : Text)
    → IsName name
    → split_string_with_prefix (dashed name) (txt "=:") ≡ (dashed name, [], false)
unfolding split_string_with_prefix split_at one_of
split-dashed name n = rw (split_at-all (one_of (txt "=:")) name n.unsplit) refl

-- The flag in force of this name.
abbrev pub Declares : Machine → Text → FlagRef → Type 0
Declares m name r = get m.session.ctx.flags name ≡ some r

detect_declared :
    (m : Machine) (name : Text) (r : FlagRef)
    → Declares m name r
    → detect_flag name m.session ≡ (ok r, m.session)
unfolding detect_flag
detect_declared m name r d = ground arith

-- What `parseCommandArg` makes of a token whose part before the first `=` or `:` is `--name`.
parse_long :
    (s name value : Text) (b : Bool) (m : Machine) (r : FlagRef)
    → IsName name
    → split_string_with_prefix s (txt "=:") ≡ (dashed name, value, b)
    → Declares m name r
    → parse_command_arg s m ≡ (ok (some r, value), m)
unfolding parse_command_arg has_prefix
parse_long s [] value b m r n e d = absurd (false≢true (sym n.filled))
parse_long s (c ∷ name) value b m r n e d =
    rw (e) (ground (arith, detect_declared m (c ∷ name) r d, n.no_dash))

set_again : (h : List Flag) (r : FlagRef) (f g : Flag) → set (set h r f) r g ≡ set h r g
set_again [] r f g = refl
set_again (x ∷ h) zero f g = refl
set_again (x ∷ h) (suc r) f g = ap (◌∷◌ x) (set_again h r f g)

-- The flag after it was given the value `v`.
abbrev pub given : Flag → Text → Flag
given f v = record f { assigned = true; value = v }

-- A declared flag that was not given yet and takes one value; no flag waits for its value.
pub record IsReady (m : Machine) (name : Text) (r : FlagRef) : Type 0 where
  pub named : IsName name
  pub declared : Declares m name r
  pub allocated : r < length m.session.heap
  pub takes_one :
      ((flag_of m r).assigned_mode ≡ assigned_once)
      ⊎ ((flag_of m r).assigned_mode ≡ assigned_default)
  pub not_given : (flag_of m r).assigned ≡ false
  pub no_value : (flag_of m r).value ≡ []
  pub not_unknown : (flag_of m r).dynamic_unknown ≡ false
  pub no_flag : m.parser.current_flag ≡ none
  pub no_origin_yet : m.parser.current_flag_origin ≡ no_origin

TakesOne : Flag → Type 0
TakesOne f = (f.assigned_mode ≡ assigned_once) ⊎ (f.assigned_mode ≡ assigned_default)

abbrev seen : Flag → Flag
seen f = record f { assigned = true }

assign_one : (f : Flag) (v : Text) → TakesOne f → assign f v ≡ ok (given f v)
unfolding assign TakesOne
assign_one f v one = ground arith

need_value_one : (f : Flag) (v : Text) → TakesOne f → f.value ≡ v → need_value f ≡ ok (is_empty v)
unfolding need_value TakesOne
need_value_one f v one e = ground arith

on_flag_ok :
    (r : FlagRef) (f : Flag → Outcome Flag) (m : Machine) (g : Flag)
    → f (flag_of m r) ≡ ok g
    → on_flag r f m ≡ (ok tt, store r g m)
on_flag_ok r f m g e = rw e

store_again : (r : FlagRef) (f g : Flag) (m : Machine) → store r g (store r f m) ≡ store r g m
store_again r f g m = rw (set_again m.session.heap r f g)

flag_of-store :
    (r : FlagRef) (f : Flag) (m : Machine) → r < length m.session.heap → flag_of (store r f m) r ≡ f
flag_of-store r f m h = get_or-set_self m.session.heap r f empty_flag h

-- The first steps of `readNext` on `--name…`: the flag is marked, and the value is dealt with.
take_long :
    (s value : Text) (m : Machine) (r : FlagRef)
    → (flag_of m r).assigned ≡ false
    → m.parser.current_flag ≡ none
    → take_token s (some r, value) m ≡ start_flag s r value (store r (seen (flag_of m r)) m)
unfolding take_token set_is_assigned validate_previous
take_long s value m r fresh free = ground arith

-- Giving a flag that is marked as seen its value.
assign-seen :
    (m : Machine) (r : FlagRef) (v : Text)
    → r < length m.session.heap
    → TakesOne (flag_of m r)
    → on_flag r (λ f. assign f v) (store r (seen (flag_of m r)) m)
      ≡ (ok tt, store r (given (flag_of m r) v) m)
unfolding TakesOne
assign-seen m r v h one =
    let f = flag_of m r in
    let there = flag_of-store r (seen f) m h in
    on_flag_ok r (λ f. assign f v) (store r (seen f) m) (given f v)
      (ap (λ (g : Flag). assign g v) there ∙ assign_one (seen f) v one)
    ∙ ap (λ (n : Machine). (ok tt, n)) (store_again r (seen f) (given f v) m)

-- `--name=value` gives the flag its value, and changes nothing else.
inline_assigns :
    (m : Machine) (name : Text) (c : ℕ) (v : Text) (r : FlagRef)
    → IsReady m name r
    → read_token (inline name (c ∷ v)) m ≡ (ok [], store r (given (flag_of m r) (c ∷ v)) m)
unfolding read_token token_meaning start_flag TakesOne
inline_assigns m name c v r ready =
    rw
      (
        parse_long _ name (c ∷ v) true m r ready.named (split-inline name (c ∷ v) ready.named)
            ready.declared,
        take_long (inline name (c ∷ v)) (c ∷ v) m r ready.not_given ready.no_flag,
        assign-seen m r (c ∷ v) ready.allocated ready.takes_one,
      )
      refl

-- The parser while the flag waits for its value.
abbrev waiting : FlagRef → Machine → Machine
waiting r m = record m {
  parser = record (m.parser) { current_flag = some r; current_flag_origin = long_flag_candidate };
}

origin_long :
    (name : Text) (f : Flag)
    → IsName name
    → f.dynamic_unknown ≡ false
    → flag_origin (dashed name) f ≡ long_flag_candidate
unfolding flag_origin has_prefix
origin_long [] f n known = absurd (false≢true (sym n.filled))
origin_long (c ∷ name) f n known = ground (arith, split-dashed (c ∷ name) n)

-- `--name` alone: the flag is marked, and waits.
read_dashed :
    (m : Machine) (name : Text) (r : FlagRef)
    → IsReady m name r
    → read_token (dashed name) m ≡ (ok [], waiting r (store r (seen (flag_of m r)) m))
unfolding read_token token_meaning start_flag await_value TakesOne
read_dashed m name r ready =
    let f = flag_of m r in
    rw
      (
        parse_long (dashed name) name [] false m r ready.named (split-dashed name ready.named)
            ready.declared,
        take_long (dashed name) [] m r ready.not_given ready.no_flag,
        flag_of-store r (seen f) m ready.allocated,
        need_value_one (seen f) [] ready.takes_one ready.no_value,
        origin_long name (seen f) ready.named ready.not_unknown,
      )
      refl

closed_parser :
    (p : Parser)
    → p.current_flag ≡ none
    → p.current_flag_origin ≡ no_origin
    → record p { current_flag = none; current_flag_origin = no_origin } ≡ p
closed_parser p free none_yet = ground arith

-- What is left when the waiting flag was given its value.
closed_machine :
    (m : Machine) (r : FlagRef) (f g : Flag)
    → m.parser.current_flag ≡ none
    → m.parser.current_flag_origin ≡ no_origin
    → close_flag (store r g (waiting r (store r f m))) ≡ (ok tt, store r g m)
closed_machine m r f g free none_yet = rw (set_again m.session.heap r f g) (
    ap
      (λ (p : Parser). (
        ok tt,
        record { parser = p; session = record (m.session) { heap = set m.session.heap r g } },
      ))
      (closed_parser m.parser free none_yet))

feed_waiting :
    (m : Machine) (name : Text) (c : ℕ) (v : Text) (r : FlagRef)
    → IsReady m name r
    → feed_to (c ∷ v) r (waiting r (store r (seen (flag_of m r)) m))
      ≡ (ok [], store r (given (flag_of m r) (c ∷ v)) m)
unfolding feed_to TakesOne
feed_waiting m name c v r ready =
    let f = flag_of m r in
    let w = waiting r (store r (seen f) m) in
    let there = flag_of-store r (seen f) m ready.allocated in
    let fits =
      subst (λ (n : ℕ). r < n) (sym (length-set m.session.heap r (seen f))) ready.allocated in
    rw
      (
        on_flag_ok r (λ g. assign g (c ∷ v)) w (given f (c ∷ v))
            (ap (λ (g : Flag). assign g (c ∷ v)) there
              ∙ assign_one (seen f) (c ∷ v) ready.takes_one),
        flag_of-store r (given f (c ∷ v)) w fits,
        need_value_one (given f (c ∷ v)) (c ∷ v) ready.takes_one refl,
      )
      (ap (λ (x : Outcome (Unit {0}) × Machine). (ok [], x.1))
        (closed_machine m r (seen f) (given f (c ∷ v)) ready.no_flag ready.no_origin_yet))

-- The value that follows: the flag takes it, and waits no more.
read_value :
    (m : Machine) (name : Text) (c : ℕ) (v : Text) (r : FlagRef)
    → IsReady m name r
    → IsPlain (c ∷ v)
    → read_token (c ∷ v) (waiting r (store r (seen (flag_of m r)) m))
      ≡ (ok [], store r (given (flag_of m r) (c ∷ v)) m)
unfolding read_token token_meaning take_token feed_value
read_value m name c v r ready plain =
    rw (parse_plain (c ∷ v) (waiting r (store r (seen (flag_of m r)) m)) plain)
      (feed_waiting m name c v r ready)

-- `--name=value` and `--name value` do the same to a declared flag that takes one value, was not
-- given before and holds none, while no flag waits for a value: both give no argument, the flag is assigned and holds the value, and nothing
-- else of the parser, the context and the flags changes. The value is plain: not empty, with no
-- dash in front.
pub spellings_agree :
    (m : Machine) (name value : Text) (r : FlagRef)
    → IsReady m name r
    → IsPlain value
    → let after : Outcome Text × Machine = (ok [], store r (given (flag_of m r) value) m) in
      (read_token (inline name value) m ≡ after)
      × (bind_res (read_token (dashed name) m) (λ _ m'. read_token value m') ≡ after)
spellings_agree m name [] r ready plain = absurd (false≢true (sym plain.0))
spellings_agree m name (c ∷ v) r ready plain = (
  inline_assigns m name c v r ready,
  rw (read_dashed m name r ready) (read_value m name c v r ready plain),
)
