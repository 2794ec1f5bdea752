-- ===== src/Openapi/Retry/Bounds.antt =====
-- openapi/throttling_retry.go: which reply the loop returns, how many calls it makes and how long it
-- sleeps.
use aliyun_cli.Base.{
  ℕ, zero, suc, ◌+◌, ◌≤◌, ◌<◌, Bool, true, false, leb, Bool-cases, Option-cases, is_some, ◌≡◌, refl,
  sym, ap, subst, ◌∙◌, inl, inr, Option, none, some, List, [], ◌∷◌, ◌++◌, ℤ, pos, negsuc, ◌*◌,
  if◌then◌else◌, ok, arith,
}
use aliyun_cli.Openapi.Throttling.{Config}
use aliyun_cli.Openapi.Retry.{
  Reply, response, other_error, server_error, Event, retry_headers, called, notice, slept,
  exhausted, max_attempts_of, max_delay_of, retry_after_from_headers, capped, retry_delay,
  is_response, headers_of, exhausted_of, stop, again, next_of, Traced, retry_loop,
  call_with_throttling_retry, positive_else, default_max_delay_ms,
}

-- How many of the calls from one on, at most a number, are throttled one after the other.
abbrev pub throttled : ℕ → Option Config → (ℕ → Reply) → ℕ → ℕ
throttled zero c reply attempt = 0
throttled (suc n) c reply attempt =
    if is_some (retry_delay c (reply attempt)) then suc (throttled n c reply (suc attempt)) else 0

-- The calls in a trace.
abbrev pub calls_of : List Event → ℕ
calls_of [] = 0
calls_of (called ∷ trace) = suc (calls_of trace)
calls_of (retry_headers n d ∷ trace) = calls_of trace
calls_of (notice d n m ∷ trace) = calls_of trace
calls_of (slept d ∷ trace) = calls_of trace
calls_of (exhausted n ∷ trace) = calls_of trace

-- The milliseconds that a trace sleeps.
abbrev pub sleep_of : List Event → ℕ
sleep_of [] = 0
sleep_of (called ∷ trace) = sleep_of trace
sleep_of (retry_headers n d ∷ trace) = sleep_of trace
sleep_of (notice d n m ∷ trace) = sleep_of trace
sleep_of (slept d ∷ trace) = d + sleep_of trace
sleep_of (exhausted n ∷ trace) = sleep_of trace

next_of-stop :
    (c : Option Config) (retried : Bool) (attempt : ℕ) (reply : Reply)
    → retry_delay c reply ≡ none
    → next_of c retried attempt reply ≡ stop []
unfolding next_of
next_of-stop c retried attempt reply h = elim (Bool-cases (is_response reply)) [
  | inl fine ↦ rw fine refl
  | inr bad ↦ rw (bad, h) refl
]

not_response :
    (c : Option Config) (reply : Reply) (d : ℕ)
    → retry_delay c reply ≡ some d
    → is_response reply ≡ false
unfolding retry_delay
not_response c (response n) d h = cc
not_response c (other_error n) d h = refl
not_response c (server_error n hs) d h = refl

next_of-again :
    (c : Option Config) (retried : Bool) (attempt d : ℕ) (reply : Reply)
    → retry_delay c reply ≡ some d
    → attempt < max_attempts_of c
    → next_of c retried attempt reply ≡ again d
unfolding next_of
next_of-again c retried attempt d reply h lt =
    let more : leb (max_attempts_of c) attempt ≡ false = ground arith in
    rw (not_response c reply d h, h, more) refl

next_of-last :
    (c : Option Config) (retried : Bool) (attempt d : ℕ) (reply : Reply)
    → retry_delay c reply ≡ some d
    → max_attempts_of c ≤ attempt
    → next_of c retried attempt reply ≡ stop (exhausted_of (some d) retried (max_attempts_of c))
unfolding next_of
next_of-last c retried attempt d reply h le =
    let full : leb (max_attempts_of c) attempt ≡ true = ground arith in
    rw (not_response c reply d h, h, full) refl

-- A delay is at most the limit, which is not zero.
capped-le : (limit : ℕ) (o : Option ℕ) (d : ℕ) → 0 < limit → capped limit o ≡ some d → d ≤ limit
capped-le limit none d h e = cc
capped-le limit (some n) d h e = ground arith

positive_else_pos : (i : ℤ) (def : ℕ) → 0 < def → 0 < positive_else i def
positive_else_pos (pos zero) def h = h
positive_else_pos (pos (suc n)) def h = omega arith
positive_else_pos (negsuc n) def h = h

pub retry_delay-le :
    (c : Option Config) (reply : Reply) (d : ℕ) → retry_delay c reply ≡ some d → d ≤ max_delay_of c
unfolding retry_delay max_delay_of
retry_delay-le c (response n) d h = cc
retry_delay-le c (other_error n) d h = cc
retry_delay-le c (server_error n hs) d h =
    capped-le (max_delay_of c) (retry_after_from_headers hs) d
      (positive_else_pos _ default_max_delay_ms (omega arith)) (ground arith)

calls_of-append : (xs ys : List Event) → calls_of (xs ++ ys) ≡ calls_of xs + calls_of ys
calls_of-append [] ys = omega arith
calls_of-append (called ∷ xs) ys = omega (arith, calls_of-append xs ys)
calls_of-append (retry_headers n d ∷ xs) ys = calls_of-append xs ys
calls_of-append (notice d n m ∷ xs) ys = calls_of-append xs ys
calls_of-append (slept d ∷ xs) ys = calls_of-append xs ys
calls_of-append (exhausted n ∷ xs) ys = calls_of-append xs ys

sleep_of-append : (xs ys : List Event) → sleep_of (xs ++ ys) ≡ sleep_of xs + sleep_of ys
sleep_of-append [] ys = omega arith
sleep_of-append (called ∷ xs) ys = sleep_of-append xs ys
sleep_of-append (retry_headers n d ∷ xs) ys = sleep_of-append xs ys
sleep_of-append (notice d n m ∷ xs) ys = sleep_of-append xs ys
sleep_of-append (slept d ∷ xs) ys = omega (arith, sleep_of-append xs ys)
sleep_of-append (exhausted n ∷ xs) ys = sleep_of-append xs ys

-- What is written ahead of a call, and the call.
abbrev opening : ℕ → ℕ → List Event
opening attempt delay = headers_of attempt delay ++ (called ∷ [])

opening_counts :
    (attempt delay : ℕ)
    → (calls_of (opening attempt delay) ≡ 1) × (sleep_of (opening attempt delay) ≡ 0)
opening_counts zero delay = (refl, refl)
opening_counts (suc n) delay = (refl, refl)

exhausted_counts :
    (d max : ℕ) (retried : Bool)
    → (calls_of (exhausted_of (some d) retried max) ≡ 0)
      × (sleep_of (exhausted_of (some d) retried max) ≡ 0)
exhausted_counts d max true = (refl, refl)
exhausted_counts d max false = (refl, refl)

-- A run returns a reply, makes a number of calls and sleeps at most so long.
abbrev Ends : Traced → Reply → ℕ → ℕ → Type 0
Ends run reply calls sleep =
    (run.0 ≡ ok reply) × (calls_of run.1 ≡ calls) × (sleep_of run.1 ≤ sleep)

module _ (c : Option Config) (reply : ℕ → Reply) where
  Ends-stop :
      (fuel attempt delay : ℕ) (retried : Bool) (events : List Event)
      → next_of c retried attempt (reply attempt) ≡ stop events
      → calls_of events ≡ 0
      → sleep_of events ≡ 0
      → Ends (retry_loop (suc fuel) c reply retried attempt delay) (reply attempt) 1 0
  unfolding retry_loop
  Ends-stop fuel attempt delay retried events e no_call no_sleep =
      let o = opening_counts attempt delay in
      rw e (
        refl,
        omega (arith, calls_of-append (opening attempt delay) events, o.0),
        omega (arith, sleep_of-append (opening attempt delay) events, o.1),
      )

  Ends-again :
      (fuel attempt delay d : ℕ) (retried : Bool) (r : Reply) (calls sleep : ℕ)
      → next_of c retried attempt (reply attempt) ≡ again d
      → Ends (retry_loop fuel c reply true (suc attempt) d) r calls sleep
      → Ends (retry_loop (suc fuel) c reply retried attempt delay) r (suc calls) (d + sleep)
  unfolding retry_loop
  Ends-again fuel attempt delay d retried r calls sleep e h =
      let o = opening_counts attempt delay in
      let rest = (retry_loop fuel c reply true (suc attempt) d).1 in
      let told = notice d (suc attempt) (max_attempts_of c) ∷ slept d ∷ rest in
      rw e (
        h.0,
        omega (arith, calls_of-append (opening attempt delay) told, o.0, h.1),
        omega (arith, sleep_of-append (opening attempt delay) told, o.1, h.2),
      )

  Ends-weaken :
      (run : Traced) (r : Reply) (calls sleep sleep' : ℕ)
      → sleep ≤ sleep'
      → Ends run r calls sleep
      → Ends run r calls sleep'
  Ends-weaken run r calls sleep sleep' le h = (h.0, h.1, omega (arith, h.2))

  retry_loop-Ends :
      (n attempt delay : ℕ) (retried : Bool)
      → attempt + n ≡ max_attempts_of c
      → Ends
          (retry_loop (suc n) c reply retried attempt delay)
          (reply (attempt + throttled n c reply attempt))
          (suc (throttled n c reply attempt))
          (throttled n c reply attempt * max_delay_of c)
  retry_loop-Ends zero attempt delay retried e =
      let same : attempt + 0 ≡ attempt = omega arith in
      rw same (elim (Option-cases (retry_delay c (reply attempt))) [
        | inl none_ ↦
            Ends-weaken (retry_loop 1 c reply retried attempt delay) (reply attempt) 1 0 _
              (omega arith)
              (Ends-stop 0 attempt delay retried []
                (next_of-stop c retried attempt (reply attempt) none_) refl refl)
        | inr (d, some_) ↦
            let x = exhausted_counts d (max_attempts_of c) retried in
            Ends-weaken (retry_loop 1 c reply retried attempt delay) (reply attempt) 1 0 _
              (omega arith)
              (Ends-stop 0 attempt delay retried _
                (next_of-last c retried attempt d (reply attempt) some_ (omega arith)) x.0 x.1)
      ])
  retry_loop-Ends (suc n) attempt delay retried e =
      elim (Option-cases (retry_delay c (reply attempt))) [
        | inl none_ ↦
            let same : attempt + 0 ≡ attempt = omega arith in
            rw (none_, same)
              (Ends-weaken (retry_loop (suc (suc n)) c reply retried attempt delay) (reply attempt)
                1 0 _ (omega arith)
                (Ends-stop (suc n) attempt delay retried []
                  (next_of-stop c retried attempt (reply attempt) none_) refl refl))
        | inr (d, some_) ↦
            let k = throttled n c reply (suc attempt) in
            let shift : attempt + suc k ≡ suc attempt + k = omega arith in
            let le = retry_delay-le c (reply attempt) d some_ in
            rw (some_, shift)
              (Ends-weaken (retry_loop (suc (suc n)) c reply retried attempt delay)
                (reply (suc attempt + k)) (suc (suc k)) (d + k * max_delay_of c) _ (grind arith)
                (Ends-again (suc n) attempt delay d retried (reply (suc attempt + k)) (suc k)
                  (k * max_delay_of c)
                  (next_of-again c retried attempt d (reply attempt) some_ (omega arith))
                  (retry_loop-Ends n (suc attempt) d true (omega arith))))
      ]

-- The retries of a throttled call come to an end, and which reply is returned is fixed: it is the
-- first that is not throttled, or the last that may be asked for if all are throttled. One call is
-- made for that reply and one for each throttled reply ahead of it, and the sleep is at most the
-- largest delay for each of those.
pub call_with_throttling_retry_ends :
    (c : Option Config) (reply : ℕ → Reply)
    → let run = call_with_throttling_retry c reply in
      let k = throttled (max_attempts_of c) c reply 0 in
      (run.0 ≡ ok (reply k)) × (calls_of run.1 ≡ suc k) × (sleep_of run.1 ≤ k * max_delay_of c)
unfolding call_with_throttling_retry
call_with_throttling_retry_ends c reply =
    let k = throttled (max_attempts_of c) c reply 0 in
    let same : 0 + k ≡ k = omega arith in
    subst (λ i. Ends (call_with_throttling_retry c reply) (reply i) (suc k) (k * max_delay_of c))
      same (retry_loop-Ends c reply (max_attempts_of c) 0 0 false (omega arith))

throttled-exact :
    (c : Option Config) (reply : ℕ → Reply) (n k attempt : ℕ)
    → k ≤ n
    → ((i : ℕ) → attempt ≤ i → i < attempt + k → is_some (retry_delay c (reply i)) ≡ true)
    → is_some (retry_delay c (reply (attempt + k))) ≡ false
    → throttled n c reply attempt ≡ k
throttled-exact c reply zero k attempt le more last = omega arith
throttled-exact c reply (suc n) zero attempt le more last =
    let same : attempt + 0 ≡ attempt = omega arith in
    let stops : is_some (retry_delay c (reply attempt)) ≡ false =
      subst (λ i. is_some (retry_delay c (reply i)) ≡ false) same last in
    rw stops refl
throttled-exact c reply (suc n) (suc k) attempt le more last =
    let shift : attempt + suc k ≡ suc attempt + k = omega arith in
    let ih =
      throttled-exact c reply n k (suc attempt) (omega arith)
        (λ i low high. more i (omega arith) (omega arith))
        (subst (λ i. is_some (retry_delay c (reply i)) ≡ false) shift last) in
    rw (more attempt (omega arith) (omega arith)) (ap suc ih)

-- When the service throttles the first calls and then answers one, no later than the last retry that
-- is allowed, that answer is returned.
pub throttled_call_is_answered :
    (c : Option Config) (reply : ℕ → Reply) (k answer : ℕ)
    → k ≤ max_attempts_of c
    → ((i : ℕ) → i < k → is_some (retry_delay c (reply i)) ≡ true)
    → reply k ≡ response answer
    → (call_with_throttling_retry c reply).0 ≡ ok (response answer)
unfolding retry_delay
throttled_call_is_answered c reply k answer le more answered =
    let same : 0 + k ≡ k = omega arith in
    let done : retry_delay c (reply (0 + k)) ≡ none =
      subst (λ r. retry_delay c r ≡ none) (sym (ap reply same ∙ answered)) refl in
    let count =
      throttled-exact c reply (max_attempts_of c) k 0 le (λ i low high. more i (omega arith))
        (ap is_some done) in
    (call_with_throttling_retry_ends c reply).0 ∙ ap (λ i. ok (reply i)) count ∙ ap ok answered
