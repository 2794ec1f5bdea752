-- ===== src/Cli/Parser/Step.antt =====
-- One round of `readNext`: it ends, and it leaves the arguments and the position alone.
use aliyun_cli.Base.{
  ◌+◌, leb, Text, txt, drop, get_or, Bool, true, false, ◌≡◌, refl, ◌∙◌, Option, none, some,
  Option-cases, inl, inr, [], ◌∷◌, length, if◌then◌else◌, ok, err, panic, timeout, bind_res,
  IsSettled, arith,
}
use aliyun_cli.Cli.Error.{Outcome}
use aliyun_cli.Cli.Flag.{Flag, FlagRef, need_value, set_is_assigned, assign}
use aliyun_cli.Cli.Flag.Laws.{assign_result, set_is_assigned_result}
use aliyun_cli.Cli.Context.Settled.{detect_flag-IsSettled, detect_flag_by_shorthand-IsSettled}
use aliyun_cli.Cli.Parser.{
  Origin, Machine, M, return, flag_of, on_flag, query, close_flag, open_flag,
  can_consume_dash_leading_value, split_string_with_prefix, parse_command_arg, token_meaning,
  feed_to, feed_value, validate_previous, await_value, start_flag, take_token, read_token, advance,
  read_next,
}

-- From `m` a method ended with `r`, and the arguments and the position are as before.
pub record Runs {A : Type 0} (m : Machine) (r : Outcome A × Machine) : Type 0 where
  pub settled : IsSettled r.0
  pub same_args : r.1.parser.args ≡ m.parser.args
  pub same_current : r.1.parser.current ≡ m.parser.current

module _ {A B : Type 0} where
  bind_res-Runs :
      (m : Machine) (r : Outcome A × Machine) (f : A → Machine → Outcome B × Machine)
      → Runs m r
      → ((a : A) (m' : Machine) → Runs m' (f a m'))
      → Runs m (bind_res r f)
  bind_res-Runs m (ok a, m') f h k =
      let next = k a m' in
      record {
        settled = next.settled;
        same_args = next.same_args ∙ h.same_args;
        same_current = next.same_current ∙ h.same_current;
      }
  bind_res-Runs m (err e, m') f h k = record {
    settled = λ e. cc;
    same_args = h.same_args;
    same_current = h.same_current;
  }
  bind_res-Runs m (panic p, m') f h k = record {
    settled = λ e. cc;
    same_args = h.same_args;
    same_current = h.same_current;
  }
  bind_res-Runs m (timeout, m') f h k = absurd (h.settled refl)

Runs-stay : {A : Type 0} (m : Machine) (r : Outcome A) → IsSettled r → Runs m (r, m)
Runs-stay m r h = record { settled = h; same_args = refl; same_current = refl }

need_value-IsSettled : (f : Flag) → IsSettled (need_value f)
unfolding need_value
need_value-IsSettled f = ground arith

assign-IsSettled : (f : Flag) (v : Text) → IsSettled (assign f v)
assign-IsSettled f v = ground (arith, assign_result f v)

set_is_assigned-IsSettled : (f : Flag) → IsSettled (set_is_assigned f)
set_is_assigned-IsSettled f = ground (arith, set_is_assigned_result f)

query-Runs :
    {A : Type 0} (r : FlagRef) (f : Flag → Outcome A) (m : Machine)
    → IsSettled (f (flag_of m r))
    → Runs m (query r f m)
query-Runs r f m h = Runs-stay m (f (flag_of m r)) h

on_flag-Runs :
    (r : FlagRef) (f : Flag → Outcome Flag) (m : Machine)
    → IsSettled (f (flag_of m r))
    → Runs m (on_flag r f m)
on_flag-Runs r f m h = record {
  settled = ground arith;
  same_args = ground arith;
  same_current = ground arith;
}

can_consume-Runs : (s : Text) (m : Machine) → Runs m (can_consume_dash_leading_value s m)
unfolding can_consume_dash_leading_value
can_consume-Runs s m = elim (Option-cases m.parser.current_flag) [
  | inl e ↦ record { settled = ground arith; same_args = ground arith; same_current = ground arith }
  | inr (r, e) ↦
      let known = need_value-IsSettled (flag_of m r) in
      record { settled = ground arith; same_args = ground arith; same_current = ground arith }
]

parse_command_arg-Runs : (s : Text) (m : Machine) → Runs m (parse_command_arg s m)
unfolding parse_command_arg
parse_command_arg-Runs s m =
    let prefix = (split_string_with_prefix s (txt "=:")).0 in
    let long = detect_flag-IsSettled (drop 2 prefix) m.session in
    let short = detect_flag_by_shorthand-IsSettled (get_or prefix 1 0) m.session in
    record { settled = ground arith; same_args = ground arith; same_current = ground arith }

token_meaning-Runs :
    (s : Text) (m : Machine) (r : Outcome (Option FlagRef × Text) × Machine)
    → Runs m r
    → Runs m (token_meaning s r)
unfolding token_meaning
token_meaning-Runs s m (err e, m') h =
    let consumed = can_consume-Runs s m' in
    record { settled = ground arith; same_args = ground arith; same_current = ground arith }
token_meaning-Runs s m (ok (none, []), m') h =
    let consumed = can_consume-Runs s m' in
    record { settled = ground arith; same_args = ground arith; same_current = ground arith }
token_meaning-Runs s m (ok (none, c ∷ v), m') h = h
token_meaning-Runs s m (ok (some r, v), m') h = h
token_meaning-Runs s m (panic p, m') h = h
token_meaning-Runs s m (timeout, m') h = h

close_flag-Runs : (m : Machine) → Runs m (close_flag m)
close_flag-Runs m = record { settled = ground arith; same_args = refl; same_current = refl }

open_flag-Runs : (r : FlagRef) (o : Origin) (m : Machine) → Runs m (open_flag r o m)
open_flag-Runs r o m = record { settled = ground arith; same_args = refl; same_current = refl }

if-Runs :
    {A : Type 0} (b : Bool) (f g : M A) (m : Machine)
    → Runs m (f m)
    → Runs m (g m)
    → Runs m ((if b then f else g) m)
if-Runs true f g m h k = h
if-Runs false f g m h k = k

Runs-ok : {A : Type 0} (a : A) (m : Machine) → Runs m (ok a, m)
Runs-ok a m = Runs-stay m (ok a) (ground arith)

feed_to-Runs : (value : Text) (r : FlagRef) (m : Machine) → Runs m (feed_to value r m)
unfolding feed_to
feed_to-Runs value r m =
    bind_res-Runs m _ _
      (on_flag-Runs r (λ f. assign f value) m (assign-IsSettled (flag_of m r) value))
      λ _ m1.
        bind_res-Runs m1 _ _ (query-Runs r need_value m1 (need_value-IsSettled (flag_of m1 r)))
          λ needs m2.
            bind_res-Runs m2 _ _
              (if-Runs needs (return tt) close_flag m2 (Runs-ok tt m2) (close_flag-Runs m2))
              λ _ m3. Runs-ok [] m3

feed_value-Runs : (value : Text) (m : Machine) → Runs m (feed_value value m)
unfolding feed_value
feed_value-Runs value m = elim (Option-cases m.parser.current_flag) [
  | inl e ↦ record { settled = ground arith; same_args = ground arith; same_current = ground arith }
  | inr (r, e) ↦
      let fed = feed_to-Runs value r m in
      record { settled = ground arith; same_args = ground arith; same_current = ground arith }
]

validate_previous-Runs : (m : Machine) → Runs m (validate_previous m)
unfolding validate_previous
validate_previous-Runs m = record {
  settled = ground arith;
  same_args = ground arith;
  same_current = ground arith;
}

await_value-Runs : (s : Text) (r : FlagRef) (m : Machine) → Runs m (await_value s r m)
unfolding await_value
await_value-Runs s r m =
    bind_res-Runs m _ _ (query-Runs r need_value m (need_value-IsSettled (flag_of m r)))
      (λ needs m'.
        bind_res-Runs m' _ _
          (if-Runs needs (open_flag r _) (return tt) m' (open_flag-Runs r _ m') (Runs-ok tt m'))
          (λ u m''. Runs-ok [] m''))

start_flag-Runs :
    (s : Text) (r : FlagRef) (value : Text) (m : Machine) → Runs m (start_flag s r value m)
unfolding start_flag
start_flag-Runs s r [] m = await_value-Runs s r m
start_flag-Runs s r (c ∷ v) m =
    bind_res-Runs m _ _
      (on_flag-Runs r (λ f. assign f (c ∷ v)) m (assign-IsSettled (flag_of m r) (c ∷ v)))
      λ _ m'. Runs-ok [] m'

take_token-Runs : (s : Text) (t : Option FlagRef × Text) (m : Machine) → Runs m (take_token s t m)
unfolding take_token
take_token-Runs s (none, value) m = feed_value-Runs value m
take_token-Runs s (some r, value) m =
    bind_res-Runs m _ _ (on_flag-Runs r set_is_assigned m (set_is_assigned-IsSettled (flag_of m r)))
      λ _ m1. bind_res-Runs m1 _ _ (validate_previous-Runs m1) λ _ m2. start_flag-Runs s r value m2

pub read_token-Runs : (s : Text) (m : Machine) → Runs m (read_token s m)
unfolding read_token
read_token-Runs s m =
    bind_res-Runs m _ _ (token_meaning-Runs s m _ (parse_command_arg-Runs s m)) (take_token-Runs s)

-- What one call of `readNext` does to the position: at the end of the arguments nothing happens;
-- before it, whatever the token is and whether or not it is refused, exactly one argument is
-- passed. The arguments stay.
pub read_next_step :
    (m : Machine)
    → let (r, m') = read_next m in
      IsSettled r
      × (m'.parser.args ≡ m.parser.args)
      × (m'.parser.current ≡ (
          if leb (length m.parser.args) m.parser.current
          then m.parser.current
          else m.parser.current + 1))
unfolding read_next
read_next_step m =
    let token = get_or m.parser.args m.parser.current [] in
    let run = read_token-Runs token (advance m) in ground arith
