-- ===== src/Openapi/Retry.antt =====
-- openapi/throttling_retry.go: a call is made again while the service throttles it. A request is the
-- part of it that the code changes, its retry headers; what is logged, slept and called is a trace.
pub mod Bounds
use aliyun_cli.Base.{
  ℕ, zero, suc, Text, txt, text_eq, trim_space, to_lower, Bool, true, false, ◌&&◌, leb, ltb, Option,
  none, some, List, [], ◌∷◌, ◌++◌, ℤ, pos, negsuc, if◌then◌else◌, Res, ok, timeout,
}
use aliyun_cli.Config.Profile.Overwrite.{atoi}
use aliyun_cli.Openapi.Throttling.{Config, default_config}

abbrev pub default_max_attempts : ℕ
default_max_attempts = 3

abbrev pub default_max_delay_ms : ℕ
default_max_delay_ms = 60000

-- The headers of a response, in the order in which the loop over the map meets them.
abbrev pub Headers : Type 0
Headers = List (Text × List Text)

-- How a call ends: a response, an error of the service with the headers of its answer, or another
-- error. Each carries a number that tells one from another.
pub data Reply : Type 0 where
  response other_error : ℕ → Reply
  server_error : ℕ → Headers → Reply

pub data Event : Type 0 where
  -- `x-acs-retry-attempts` and `x-acs-retry-delay` are set.
  retry_headers : ℕ → ℕ → Event
  called : Event
  -- The notice of a retry: the delay, the number of the retry, and how many there may be.
  notice : ℕ → ℕ → ℕ → Event
  slept : ℕ → Event
  exhausted : ℕ → Event

abbrev pub is_negative : ℤ → Bool
is_negative (pos n) = false
is_negative (negsuc n) = true

abbrev pub delay_of : Option ℤ → Option ℕ
delay_of (some (pos n)) = some n
delay_of _ = none

abbrev pub first_value : List Text → Option ℕ
first_value [] = none
first_value (v ∷ values) = delay_of (atoi (trim_space v))

abbrev pub is_retry_header : Text × List Text → Bool
is_retry_header (key, []) = false
is_retry_header (key, v ∷ values) = text_eq (to_lower key) (txt "x-acs-retry-after")

-- `retryAfterFromHeaders`
unfoldable pub retry_after_from_headers : Headers → Option ℕ
retry_after_from_headers [] = none
retry_after_from_headers (h ∷ headers) =
    let later = retry_after_from_headers headers in
    if is_retry_header h then first_value h.1 else later

abbrev pub config_or_default : Option Config → Config
config_or_default none = default_config
config_or_default (some c) = c

abbrev pub true_or_unset : Option Bool → Bool
true_or_unset none = true
true_or_unset (some b) = b

abbrev pub positive_else : ℤ → ℕ → ℕ
positive_else (pos zero) def = def
positive_else (pos (suc n)) def = suc n
positive_else (negsuc n) def = def

unfoldable pub retry_enabled : Option Config → Bool
retry_enabled c = true_or_unset (config_or_default c).enabled

unfoldable pub max_attempts_of : Option Config → ℕ
max_attempts_of c = positive_else (config_or_default c).max_attempts default_max_attempts

unfoldable pub max_delay_of : Option Config → ℕ
max_delay_of c = positive_else (config_or_default c).max_delay_ms default_max_delay_ms

abbrev pub capped : ℕ → Option ℕ → Option ℕ
capped limit none = none
capped limit (some delay) = some (if ltb 0 limit && ltb limit delay then limit else delay)

-- `throttlingRetryDelay`: the delay, if the call may be made again.
unfoldable pub retry_delay : Option Config → Reply → Option ℕ
retry_delay c (response n) = none
retry_delay c (other_error n) = none
retry_delay c (server_error n headers) =
    if retry_enabled c then capped (max_delay_of c) (retry_after_from_headers headers) else none

abbrev pub is_response : Reply → Bool
is_response (response n) = true
is_response _ = false

-- What is written ahead of a call that is a retry.
abbrev pub headers_of : ℕ → ℕ → List Event
headers_of zero delay = []
headers_of (suc n) delay = retry_headers (suc n) delay ∷ []

abbrev pub exhausted_of : Option ℕ → Bool → ℕ → List Event
exhausted_of (some delay) true max = exhausted max ∷ []
exhausted_of _ retried max = []

-- How a round ends: with the call's reply, or by a delay and another round.
pub data Next : Type 0 where
  stop : List Event → Next
  again : ℕ → Next

abbrev pub may_retry : Bool → Option ℕ → ℕ → ℕ → Next
may_retry retried none attempt max = stop []
may_retry retried (some delay) attempt max =
    if leb max attempt then stop (exhausted_of (some delay) retried max) else again delay

unfoldable pub next_of : Option Config → Bool → ℕ → Reply → Next
next_of c retried attempt reply =
    if is_response reply
    then stop []
    else may_retry retried (retry_delay c reply) attempt (max_attempts_of c)

abbrev pub Traced : Type 0
Traced = Res ⊥ ⊥ Reply × List Event

abbrev pub before : List Event → Traced → Traced
before events (r, trace) = (r, events ++ trace)

abbrev pub follow : Next → Reply → (ℕ → Traced) → Traced
follow (stop events) reply k = (ok reply, events)
follow (again delay) reply k = k delay

-- The loop of `callWithThrottlingRetry`, on fuel: `reply` gives what each call ends with.
unfoldable pub retry_loop : ℕ → Option Config → (ℕ → Reply) → Bool → ℕ → ℕ → Traced
retry_loop zero c reply retried attempt delay = (timeout, [])
retry_loop (suc fuel) c reply retried attempt delay =
    before (headers_of attempt delay ++ (called ∷ [])) (
      follow (next_of c retried attempt (reply attempt)) (reply attempt) λ d.
        before (notice d (suc attempt) (max_attempts_of c) ∷ slept d ∷ [])
          (retry_loop fuel c reply true (suc attempt) d))

-- One more round than there may be retries.
unfoldable pub call_with_throttling_retry : Option Config → (ℕ → Reply) → Traced
call_with_throttling_retry c reply = retry_loop (suc (max_attempts_of c)) c reply false 0 0
