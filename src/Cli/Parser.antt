-- ===== src/Cli/Parser.antt =====
-- `Parser` of cli/parser.go: tokens of the command line go to flags or become arguments. The
-- interface `flagDetector` is the context, its one implementation.
pub mod Step
pub mod Loops
pub mod Plain
pub mod Assignment
use aliyun_cli.Base.{
  ℕ, suc, zero, Text, txt, has_prefix, one_of, split_at, Bool, true, false, not, ◌&&◌, ◌==◌, Option,
  none, some, List, [], ◌∷◌, ◌++◌, length, get_or, set, drop, leb, ltb, ◌+◌, ◌-◌, if◌then◌else◌, ok,
  err, panic, timeout, bind_res,
}
use aliyun_cli.Cli.Error.{CliError, double_dash, bad_flag_form, Outcome}
use aliyun_cli.Cli.Flag.{Flag, FlagRef, set_is_assigned, need_value, validate, assign}
use aliyun_cli.Cli.FlagSet.{deref}
use aliyun_cli.Cli.Context.{Session, detect_flag, detect_flag_by_shorthand}

-- How the flag that waits for its value was written; `no_origin` is "none".
pub data Origin : Type 0 where
  no_origin dynamic_unknown_flag long_flag_candidate short_flag_candidate : Origin

pub record Parser : Type 0 where
  pub current : ℕ
  pub args : List Text
  pub current_flag : Option FlagRef
  pub current_flag_origin : Origin
  pub allow_unknown : Bool

-- The parser with the state that its detector works on.
pub record Machine : Type 0 where
  pub parser : Parser
  pub session : Session

-- A method that may fail; a change before the failure stays.
abbrev pub M {ℓ} : Type ℓ → Type ℓ
M A = Machine → Outcome A × Machine

infixl 5 ◌>>=◌ ◌>>◌
abbrev pub ◌>>=◌ {ℓ κ} : {A : Type ℓ} {B : Type κ} → M A → (A → M B) → M B
◌>>=◌ m f s = bind_res (m s) f

abbrev pub ◌>>◌ {κ} : {B : Type κ} → M (Unit {0}) → M B → M B
m >> k = m >>= λ _. k

abbrev pub return {ℓ} : {A : Type ℓ} → A → M A
return a m = (ok a, m)

abbrev pub throw {ℓ} : {A : Type ℓ} → CliError → M A
throw e m = (err e, m)

abbrev with_session {ℓ} : {A : Type ℓ} → Parser → Outcome A × Session → Outcome A × Machine
with_session p (r, s) = (r, record { parser = p; session = s })

abbrev pub on_session {ℓ} : {A : Type ℓ} → (Session → Outcome A × Session) → M A
on_session f m = with_session m.parser (f m.session)

abbrev pub flag_of : Machine → FlagRef → Flag
flag_of m r = deref m.session.heap r

abbrev pub store : FlagRef → Flag → Machine → Machine
store r f m = record m { session = record (m.session) { heap = set m.session.heap r f } }

-- A method call on the flag that `r` points to.
abbrev stored : FlagRef → Machine → Outcome Flag → Outcome (Unit {0}) × Machine
stored r m (ok f) = (ok tt, store r f m)
stored r m (err e) = (err e, m)
stored r m (panic p) = (panic p, m)
stored r m timeout = (timeout, m)

abbrev pub on_flag : FlagRef → (Flag → Outcome Flag) → M (Unit {0})
on_flag r f m = stored r m (f (flag_of m r))

abbrev pub query {ℓ} : {A : Type ℓ} → FlagRef → (Flag → Outcome A) → M A
query r f m = (f (flag_of m r), m)

abbrev pub fail_if : Option CliError → M (Unit {0})
fail_if none = return tt
fail_if (some e) = throw e

abbrev pub close_flag : M (Unit {0})
close_flag m = (
  ok tt,
  record m { parser = record (m.parser) { current_flag = none; current_flag_origin = no_origin } },
)

abbrev pub open_flag : FlagRef → Origin → M (Unit {0})
open_flag r o m = (
  ok tt,
  record m { parser = record (m.parser) { current_flag = some r; current_flag_origin = o } },
)

-- `SplitStringWithPrefix`
unfoldable pub split_string_with_prefix : Text → Text → Text × Text × Bool
unfolding one_of split_at
split_string_with_prefix s splitters = split_at (one_of splitters) s

-- `NewParser`
abbrev pub new_parser : List Text → Bool → Parser
new_parser args allow_unknown = record {
  current = 0;
  args = args;
  current_flag = none;
  current_flag_origin = no_origin;
  allow_unknown = allow_unknown;
}

-- `GetRemains`
abbrev pub get_remains : Parser → List Text
get_remains p = drop p.current p.args

-- `isDashLeadingValueCandidate`
unfoldable pub is_dash_leading_value_candidate : Text → Bool
unfolding split_string_with_prefix
is_dash_leading_value_candidate s =
    let (prefix, rest, found) = split_string_with_prefix s (txt "=:") in
    not found
    && has_prefix prefix (txt "-")
    && not (has_prefix prefix (txt "--"))
    && leb 2 (length prefix)

is_long_candidate : Origin → Bool
is_long_candidate long_flag_candidate = true
is_long_candidate _ = false

-- `canConsumeDashLeadingValue`
unfoldable pub can_consume_dash_leading_value : Text → M Bool
unfolding is_long_candidate is_dash_leading_value_candidate
can_consume_dash_leading_value s m = elim (m.parser.current_flag) [
  | none ↦ (ok false, m)
  | some r ↦
      if not (is_long_candidate m.parser.current_flag_origin)
      then (ok false, m)
      else if (flag_of m r).dynamic_unknown
      then (ok false, m)
      else bind_res (need_value (flag_of m r), m)
          (λ needs m'. (ok (needs && is_dash_leading_value_candidate s), m'))
]

-- `flagOrigin`
unfoldable pub flag_origin : Text → Flag → Origin
unfolding split_string_with_prefix
flag_origin s f =
    let (prefix, rest, found) = split_string_with_prefix s (txt "=:") in
    if f.dynamic_unknown
    then dynamic_unknown_flag
    else if has_prefix prefix (txt "--") && ltb 2 (length prefix)
    then long_flag_candidate
    else if has_prefix prefix (txt "-") && length prefix == 2
    then short_flag_candidate
    else no_origin

abbrev found_flag : Text → FlagRef → M (Option FlagRef × Text)
found_flag value r = return (some r, value)

-- `parseCommandArg`: the flag, if the token names one, and the value.
unfoldable pub parse_command_arg : Text → M (Option FlagRef × Text)
unfolding split_string_with_prefix
parse_command_arg s m =
    let (prefix, value, found) = split_string_with_prefix s (txt "=:") in
    if has_prefix prefix (txt "-")
    then (if has_prefix prefix (txt "---")
        then (ok (none, s), m)
        else if has_prefix prefix (txt "--")
        then (if ltb 2 (length prefix)
            then bind_res (on_session (detect_flag (drop 2 prefix)) m) (found_flag value)
            else (err double_dash, m))
        else if length prefix == 2
        then bind_res (on_session (detect_flag_by_shorthand (get_or prefix 1 0)) m)
            (found_flag value)
        else if not m.parser.allow_unknown
        then (err (bad_flag_form prefix), m)
        else (ok (none, value), m))
    else (ok (none, s), m)

-- The part of `readNext` that settles what the token is: a token that looks like a flag may be
-- the value that a flag waits for.
token_meaning :
    Text → Outcome (Option FlagRef × Text) × Machine → Outcome (Option FlagRef × Text) × Machine
token_meaning s (err e, m) =
    bind_res (can_consume_dash_leading_value s m)
      (λ consume m'. if consume then (ok (none, s), m') else (err e, m'))
token_meaning s (ok (none, []), m) =
    bind_res (can_consume_dash_leading_value s m)
      (λ consume m'. (ok (none, if consume then s else []), m'))
token_meaning s (ok r, m) = (ok r, m)
token_meaning s (panic p, m) = (panic p, m)
token_meaning s (timeout, m) = (timeout, m)

-- The waiting flag takes the value, and is closed when it needs no more.
feed_to : Text → FlagRef → M Text
feed_to value r = do
  on_flag r (λ f. assign f value)
  needs ← query r need_value
  if needs then return tt else close_flag
  return []

-- "parse with value": it goes to the flag that waits for one, or is an argument.
feed_value : Text → M Text
feed_value value m = elim (m.parser.current_flag) [
  | none ↦ (ok value, m)
  | some r ↦ feed_to value r m
]

-- "parse with flag": the flag that waited before must be content with what it has.
validate_previous : M (Unit {0})
validate_previous m = elim (m.parser.current_flag) [
  | none ↦ (ok tt, m)
  | some r ↦ bind_res (fail_if (validate (flag_of m r)) m) (λ _. close_flag)
]

-- "--xx yy": the flag waits for its value if it needs one.
await_value : Text → FlagRef → M Text
await_value s r m =
    (do
      needs ← query r need_value
      if needs then open_flag r (flag_origin s (flag_of m r)) else return tt
      return [])
      m

start_flag : Text → FlagRef → Text → M Text
start_flag s r [] = await_value s r
start_flag s r value = do on_flag r (λ f. assign f value); return []

take_token : Text → Option FlagRef × Text → M Text
take_token s (none, value) = feed_value value
take_token s (some r, value) = do on_flag r set_is_assigned; validate_previous; start_flag s r value

-- `readNext` on the next token; the result is the argument, empty if the token went to a flag.
unfoldable pub read_token : Text → M Text
unfolding token_meaning feed_to feed_value validate_previous await_value start_flag take_token
read_token s m = bind_res (token_meaning s (parse_command_arg s m)) (take_token s)

abbrev advance : Machine → Machine
advance m = record m { parser = record (m.parser) { current = m.parser.current + 1 } }

-- `readNext`: the argument, and whether there was a token.
unfoldable pub read_next : M (Text × Bool)
read_next m =
    if leb (length m.parser.args) m.parser.current
    then (ok ([], false), m)
    else bind_res (read_token (get_or m.parser.args m.parser.current []) (advance m))
        (λ arg m'. (ok (arg, true), m'))

-- The tokens that are left.
abbrev pub remaining : Machine → ℕ
remaining m = length m.parser.args - m.parser.current

-- The rest of a round of `ReadNextArg`: empty arguments are passed over.
abbrev next_arg_round : M (Text × Bool) → Text × Bool → M (Text × Bool)
next_arg_round again (arg, false) = return (arg, false)
next_arg_round again ([], true) = again
next_arg_round again (c ∷ cs, true) = return (c ∷ cs, true)

-- `ReadNextArg`, on fuel: `remaining m + 1` rounds are enough.
unfoldable pub read_next_arg : ℕ → M (Text × Bool)
read_next_arg zero m = (timeout, m)
read_next_arg (suc fuel) m = bind_res (read_next m) (next_arg_round (read_next_arg fuel))

abbrev append_arg : List Text → Text → List Text
append_arg r [] = r
append_arg r (c ∷ cs) = r ++ ((c ∷ cs) ∷ [])

-- The rest of a round of `ReadAll`.
abbrev all_round : (List Text → M (List Text)) → List Text → Text × Bool → M (List Text)
all_round again r (arg, false) = return (append_arg r arg)
all_round again r (arg, true) = again (append_arg r arg)

-- `ReadAll`, on fuel, with the arguments read so far: `remaining m + 1` rounds are enough.
unfoldable pub read_all : ℕ → List Text → M (List Text)
read_all zero r m = (timeout, m)
read_all (suc fuel) r m = bind_res (read_next m) (all_round (read_all fuel) r)
