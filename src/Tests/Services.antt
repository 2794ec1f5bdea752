-- ===== src/Tests/Services.antt =====
-- Calls that are repeated (openapi/throttling_retry.go, openapi/waiter.go) at concrete services.
use aliyun_cli.Base.{
  ℕ, zero, suc, ◌+◌, ◌≤◌, ◌<◌, txt, text_eq, trim_space, to_lower, true, is_some, ◌≡◌, refl, ◌≢◌,
  Option, none, some, [], ◌∷◌, pos, negsuc, ◌*◌, ok, err, timeout, arith,
}
use aliyun_cli.Openapi.Throttling.{Config, config_of, parsed, load_effective}
use aliyun_cli.Openapi.Retry.{
  Reply, response, server_error, called, notice, slept, retry_headers, exhausted,
  call_with_throttling_retry, max_attempts_of, max_delay_of, retry_after_from_headers,
}
use aliyun_cli.Openapi.Retry.Bounds.{
  throttled, calls_of, sleep_of, call_with_throttling_retry_ends, throttled_call_is_answered,
}
use aliyun_cli.Openapi.Waiter.{
  string, timed_out, timeout_out_of_range, Service, Clock, second, wait_loop, call_with,
}
use aliyun_cli.Openapi.Waiter.Ends.{Sleeps, call_with-IsSettled, wait_loop_iff}

abbrev busy : Reply
busy = server_error 503 ((txt "X-Acs-Retry-After", txt " 900 " ∷ []) ∷ [])

abbrev two_retries : Option Config
two_retries = some (config_of none (pos 2) (pos 500))

-- Throttled once, then answered.
abbrev busy_once : ℕ → Reply
busy_once zero = busy
busy_once (suc n) = response n

abbrev busy_always : ℕ → Reply
busy_always n = busy

environment_wins :
    load_effective (parsed (config_of none (pos 9) (negsuc 4))) (record {
      env_enabled = some (txt "maybe");
      env_max_attempts = some (txt " 2 ");
      env_max_delay_ms = some (txt "0");
    })
    ≡ some (config_of none (pos 2) (pos 0))
unfolding load_effective aliyun_cli.Openapi.Throttling.load_config
    aliyun_cli.Openapi.Throttling.merge_from_env aliyun_cli.Openapi.Throttling.parse_bool
    aliyun_cli.Config.Profile.Overwrite.atoi text_eq trim_space
    aliyun_cli.Config.Profile.Overwrite.digits
environment_wins = refl

answered_behind_a_retry :
    call_with_throttling_retry two_retries busy_once
    ≡ (ok (response 0), called ∷ notice 500 1 2 ∷ slept 500 ∷ retry_headers 1 500 ∷ called ∷ [])
unfolding call_with_throttling_retry aliyun_cli.Openapi.Retry.retry_loop
    aliyun_cli.Openapi.Retry.next_of aliyun_cli.Openapi.Retry.retry_delay
    aliyun_cli.Openapi.Retry.retry_enabled retry_after_from_headers text_eq to_lower
    aliyun_cli.Config.Profile.Overwrite.atoi trim_space aliyun_cli.Config.Profile.Overwrite.digits
    max_attempts_of max_delay_of
answered_behind_a_retry = refl

given_up : call_with_throttling_retry two_retries busy_always ≡ (
  ok busy,
  called
      ∷ notice 500 1 2
      ∷ slept 500
      ∷ retry_headers 1 500
      ∷ called
      ∷ notice 500 2 2
      ∷ slept 500
      ∷ retry_headers 2 500
      ∷ called
      ∷ exhausted 2
      ∷ [],
)
unfolding call_with_throttling_retry aliyun_cli.Openapi.Retry.retry_loop
    aliyun_cli.Openapi.Retry.next_of aliyun_cli.Openapi.Retry.retry_delay
    aliyun_cli.Openapi.Retry.retry_enabled retry_after_from_headers text_eq to_lower
    aliyun_cli.Config.Profile.Overwrite.atoi trim_space aliyun_cli.Config.Profile.Overwrite.digits
    max_attempts_of max_delay_of
given_up = refl

call_with_throttling_retry_ends_example :
    let run = call_with_throttling_retry two_retries busy_always in
    let k = throttled (max_attempts_of two_retries) two_retries busy_always 0 in
    (run.0 ≡ ok (busy_always k))
    × (calls_of run.1 ≡ suc k)
    × (sleep_of run.1 ≤ k * max_delay_of two_retries)
call_with_throttling_retry_ends_example = call_with_throttling_retry_ends two_retries busy_always

first_is_busy :
    (i : ℕ)
    → i < 1
    → is_some (aliyun_cli.Openapi.Retry.retry_delay two_retries (busy_once i)) ≡ true
unfolding aliyun_cli.Openapi.Retry.retry_delay aliyun_cli.Openapi.Retry.retry_enabled
    retry_after_from_headers text_eq to_lower aliyun_cli.Config.Profile.Overwrite.atoi trim_space
    aliyun_cli.Config.Profile.Overwrite.digits
first_is_busy zero lt = refl
first_is_busy (suc i) lt = absurd (omega arith)

throttled_call_is_answered_example :
    (call_with_throttling_retry two_retries busy_once).0 ≡ ok (response 0)
unfolding max_attempts_of
throttled_call_is_answered_example =
    throttled_call_is_answered two_retries busy_once 1 0 (omega arith) first_is_busy refl

-- An instance that runs from the third answer on.
abbrev starting : Service
starting zero = some (txt "{1}", string (txt "Pending"))
starting (suc zero) = some (txt "{2}", string (txt "Pending"))
starting (suc (suc n)) = some (txt "{3}", string (txt "Running"))

abbrev stuck : Service
stuck n = some (txt "{}", string (txt "Pending"))

abbrev steady : ℕ → Clock
steady interval zero = 0
steady interval (suc n) = interval * second + steady interval n

steady-Sleeps : (interval : ℕ) → Sleeps interval (steady interval)
steady-Sleeps interval i = omega arith

waits_for_running : call_with 302 none none (txt "Running") starting steady ≡ ok (txt "{3}")
unfolding call_with aliyun_cli.Openapi.Waiter.timeout_of aliyun_cli.Openapi.Waiter.interval_of
    wait_loop aliyun_cli.Openapi.Waiter.evaluate_expr text_eq
waits_for_running = refl

time_is_up :
    call_with 302 (some (txt "3")) (some (txt "2")) (txt "Running") stuck steady
    ≡ err (timed_out 3 (txt "Pending"))
unfolding call_with aliyun_cli.Openapi.Waiter.timeout_of aliyun_cli.Config.Profile.Overwrite.atoi
    aliyun_cli.Config.Profile.Overwrite.digits aliyun_cli.Openapi.Waiter.interval_of wait_loop
    aliyun_cli.Openapi.Waiter.evaluate_expr text_eq
time_is_up = refl

timeout_too_long :
    call_with 302 (some (txt "601")) none (txt "Running") starting steady ≡ err timeout_out_of_range
unfolding call_with aliyun_cli.Openapi.Waiter.timeout_of aliyun_cli.Config.Profile.Overwrite.atoi
    aliyun_cli.Config.Profile.Overwrite.digits
timeout_too_long = refl

call_with-IsSettled_example : call_with 302 none none (txt "Running") stuck steady ≢ timeout
call_with-IsSettled_example =
    call_with-IsSettled none none (txt "Running") stuck steady steady-Sleeps

wait_loop_iff_example :
    (k : ℕ) × (k < 5)
    × (starting k ≡ some (txt "{3}", string (txt "Running")))
    × ((i : ℕ)
        → i < k
        → aliyun_cli.Openapi.Waiter.Ends.Pending 180 (txt "Running") starting (steady 5) i)
unfolding wait_loop aliyun_cli.Openapi.Waiter.evaluate_expr text_eq
wait_loop_iff_example = (wait_loop_iff 180 (txt "Running") starting (steady 5) 5 (txt "{3}")).0 refl
