-- ===== src/Openapi/Waiter.antt =====
-- openapi/waiter.go: a call is made again until an expression on its answer has the expected value.
-- The services, the JSON library and the clock are parameters.
pub mod Ends
use aliyun_cli.Base.{
  ℕ, zero, suc, Text, text_eq, ◌&&◌, leb, ltb, Option, none, some, ℤ, pos, negsuc, ◌*◌,
  if◌then◌else◌, Res, ok, err, timeout, and_then,
}
use aliyun_cli.Config.Profile.Overwrite.{atoi}

pub data WaitError : Type 0 where
  timeout_out_of_range interval_out_of_range timeout_no_integer interval_no_integer : WaitError
  call_failed bad_json search_failed not_a_string : WaitError
  -- The limit in seconds and the value seen last.
  timed_out : ℕ → Text → WaitError

-- What `json.Unmarshal` and `jmespath.Search` make of a body.
pub data Found : Type 0 where
  not_json no_match : Found
  string : Text → Found
  other_value : Found

abbrev pub Outcome : Type 0 → Type 0
Outcome A = Res WaitError ⊥ A

-- `evaluateExpr` (openapi/response_utils.go)
unfoldable pub evaluate_expr : Found → Outcome Text
evaluate_expr not_json = err bad_json
evaluate_expr no_match = err search_failed
evaluate_expr (string s) = ok s
evaluate_expr other_value = err not_a_string

-- A number of seconds that must lie between two bounds.
abbrev pub between : ℕ → ℕ → WaitError → WaitError → Option ℤ → Outcome ℕ
between low high no_integer outside none = err no_integer
between low high no_integer outside (some (pos n)) =
    if leb low n && leb n high then ok n else err outside
between low high no_integer outside (some (negsuc n)) = err outside

unfoldable pub timeout_of : Option Text → Outcome ℕ
timeout_of none = ok 180
timeout_of (some s) = between 1 600 timeout_no_integer timeout_out_of_range (atoi s)

unfoldable pub interval_of : Option Text → Outcome ℕ
interval_of none = ok 5
interval_of (some s) = between 2 10 interval_no_integer interval_out_of_range (atoi s)

-- The call in each round: its body and what the expression finds there, or an error.
abbrev pub Service : Type 0
Service = ℕ → Option (Text × Found)

-- `time.Since(begin)` in each round, in nanoseconds.
abbrev pub Clock : Type 0
Clock = ℕ → ℕ

abbrev pub second : ℕ
second = 1000000000

-- The end of a round: the answer is there, the time is up, or another round follows.
abbrev pub compared : ℕ → Text → Text → ℕ → Text → Outcome Text → Outcome Text
compared limit to body elapsed v rest =
    if text_eq v to
    then ok body
    else if ltb (limit * second) elapsed
    then err (timed_out limit v)
    else rest

abbrev pub round_of : ℕ → Text → ℕ → Option (Text × Found) → Outcome Text → Outcome Text
round_of limit to elapsed none rest = err call_failed
round_of limit to elapsed (some (body, found)) rest =
    and_then (evaluate_expr found) λ v. compared limit to body elapsed v rest

-- The loop of `CallWith`, on fuel.
unfoldable pub wait_loop : ℕ → ℕ → Text → Service → Clock → ℕ → Outcome Text
wait_loop zero limit to service elapsed round = timeout
wait_loop (suc fuel) limit to service elapsed round =
    round_of limit to (elapsed round) (service round)
      (wait_loop fuel limit to service elapsed (suc round))

-- `CallWith`. The clock is given the interval that the rounds sleep.
unfoldable pub call_with :
    ℕ → Option Text → Option Text → Text → Service → (ℕ → Clock) → Outcome Text
call_with fuel timeout_text interval_text to service clock =
    and_then (timeout_of timeout_text) λ limit.
      and_then (interval_of interval_text)
        λ interval. wait_loop fuel limit to service (clock interval) 0
