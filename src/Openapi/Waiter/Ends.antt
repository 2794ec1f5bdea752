-- ===== src/Openapi/Waiter/Ends.antt =====
-- openapi/waiter.go: the waiting ends, and only with what was waited for or an error.
use aliyun_cli.Base.{
  ℕ, zero, suc, ◌+◌, ◌-◌, ◌≤◌, ◌<◌, Text, text_eq, text_eq_iff, text_eq_refl, true, false, ◌==◌,
  ==_iff, ltb, Bool-cases, ◌≡◌, refl, sym, ap, subst, ◌∙◌, ◌↔◌, ◌⊎◌, inl, inr, Option, none, some,
  ℤ, pos, negsuc, IsSettled, ◌*◌, ok, err, panic, timeout, arith,
}
use aliyun_cli.Config.Profile.Overwrite.{atoi}
use aliyun_cli.Openapi.Waiter.{
  WaitError, timeout_out_of_range, timeout_no_integer, interval_out_of_range, interval_no_integer,
  Found, not_json, no_match, string, other_value, Outcome, evaluate_expr, between, timeout_of,
  interval_of, Service, Clock, second, compared, round_of, wait_loop, call_with,
}

-- Each round sleeps for the interval at least, in seconds.
abbrev pub Sleeps : ℕ → Clock → Type 0
Sleeps interval elapsed = (i : ℕ) → elapsed i + interval * second ≤ elapsed (suc i)

between-ok :
    (low high : ℕ) (e f : WaitError) (i : Option ℤ) (n : ℕ)
    → between low high e f i ≡ ok n
    → (low ≤ n) × (n ≤ high)
between-ok low high e f none n h = cc
between-ok low high e f (some (negsuc k)) n h = cc
between-ok low high e f (some (pos k)) n h = ground arith

between-IsSettled :
    (low high : ℕ) (e f : WaitError) (i : Option ℤ) → IsSettled (between low high e f i)
between-IsSettled low high e f none = λ h. cc
between-IsSettled low high e f (some (negsuc k)) = λ h. cc
between-IsSettled low high e f (some (pos k)) = λ h. ground arith

timeout_of-IsSettled : (s : Option Text) → IsSettled (timeout_of s)
unfolding timeout_of
timeout_of-IsSettled none = λ h. cc
timeout_of-IsSettled (some s) = between-IsSettled 1 600 _ _ (atoi s)

interval_of-IsSettled : (s : Option Text) → IsSettled (interval_of s)
unfolding interval_of
interval_of-IsSettled none = λ h. cc
interval_of-IsSettled (some s) = between-IsSettled 2 10 _ _ (atoi s)

pub timeout_of-le : (s : Option Text) (n : ℕ) → timeout_of s ≡ ok n → n ≤ 600
unfolding timeout_of
timeout_of-le none n h = ground arith
timeout_of-le (some s) n h =
    (between-ok 1 600 timeout_no_integer timeout_out_of_range (atoi s) n h).1

pub le-interval_of : (s : Option Text) (n : ℕ) → interval_of s ≡ ok n → 2 ≤ n
unfolding interval_of
le-interval_of none n h = ground arith
le-interval_of (some s) n h =
    (between-ok 2 10 interval_no_integer interval_out_of_range (atoi s) n h).0

elapsed-le :
    (elapsed : Clock) (interval k : ℕ)
    → Sleeps interval elapsed
    → 2 ≤ interval
    → k * 2000000000 ≤ elapsed k
elapsed-le elapsed interval zero sleeps two = omega arith
elapsed-le elapsed interval (suc k) sleeps two =
    omega (arith, elapsed-le elapsed interval k sleeps two, sleeps k)

-- A round that is not the last one has time left.
round_goes_on :
    (limit : ℕ) (to : Text) (elapsed : ℕ) (call : Option (Text × Found))
    → (limit * second < elapsed)
    → (rest : Outcome Text) → IsSettled (round_of limit to elapsed call rest)
unfolding evaluate_expr
round_goes_on limit to elapsed none late rest = λ e. cc
round_goes_on limit to elapsed (some (body, not_json)) late rest = λ e. cc
round_goes_on limit to elapsed (some (body, no_match)) late rest = λ e. cc
round_goes_on limit to elapsed (some (body, other_value)) late rest = λ e. cc
round_goes_on limit to elapsed (some (body, string s)) late rest =
    let over : ltb (limit * second) elapsed ≡ true = ground arith in λ e. ground arith

round_of-IsSettled :
    (limit : ℕ) (to : Text) (elapsed : ℕ) (call : Option (Text × Found)) (rest : Outcome Text)
    → IsSettled rest
    → IsSettled (round_of limit to elapsed call rest)
unfolding evaluate_expr
round_of-IsSettled limit to elapsed none rest h = λ e. cc
round_of-IsSettled limit to elapsed (some (body, not_json)) rest h = λ e. cc
round_of-IsSettled limit to elapsed (some (body, no_match)) rest h = λ e. cc
round_of-IsSettled limit to elapsed (some (body, other_value)) rest h = λ e. cc
round_of-IsSettled limit to elapsed (some (body, string s)) rest h = λ e. ground (arith, h)

compared-ok :
    (limit : ℕ) (to b : Text) (elapsed : ℕ) (v : Text) (rest : Outcome Text) (body : Text)
    → compared limit to b elapsed v rest ≡ ok body
    → ((text_eq v to ≡ true) × (b ≡ body))
      ⊎ ((text_eq v to ≡ false) × (elapsed ≤ limit * second) × (rest ≡ ok body))
compared-ok limit to b elapsed v rest body h = elim (Bool-cases (text_eq v to)) [
  | inl same ↦ inl (same, ground arith)
  | inr other ↦ inr (other, ground arith, ground arith)
]

outcome_cases :
    {A : Type 0} (o : Outcome A)
    → IsSettled o
    → ((a : A) × (o ≡ ok a)) ⊎ ((e : WaitError) × (o ≡ err e))
outcome_cases (ok a) s = inl (a, refl)
outcome_cases (err e) s = inr (e, refl)
outcome_cases (panic p) s = absurd p
outcome_cases timeout s = absurd (s refl)

module _ (limit : ℕ) (to : Text) (service : Service) (elapsed : Clock) where
  wait_loop-IsSettled :
      (interval n round : ℕ)
      → Sleeps interval elapsed
      → 2 ≤ interval
      → limit ≤ 600
      → round + n ≡ 301
      → IsSettled (wait_loop (suc n) limit to service elapsed round)
  unfolding wait_loop
  wait_loop-IsSettled interval zero round sleeps two short e =
      let last : round ≡ 301 = omega arith in
      let late : limit * second < elapsed round =
        subst (λ i. limit * second < elapsed i) (sym last)
          (omega (arith, elapsed-le elapsed interval 301 sleeps two)) in
      round_goes_on limit to (elapsed round) (service round) late _
  wait_loop-IsSettled interval (suc n) round sleeps two short e =
      round_of-IsSettled limit to (elapsed round) (service round) _
        (wait_loop-IsSettled interval n (suc round) sleeps two short (omega arith))

  -- A round that is followed by another: its value is a text, but not the expected one, and the time
  -- is not up.
  abbrev pub Pending : ℕ → Type 0
  Pending i =
      (body : Text) × (v : Text) × (service i ≡ some (body, string v))
      × (text_eq v to ≡ false)
      × (elapsed i ≤ limit * second)

  round_of-ok :
      (round : ℕ) (call : Option (Text × Found)) (rest : Outcome Text) (body : Text)
      → service round ≡ call
      → round_of limit to (elapsed round) call rest ≡ ok body
      → (service round ≡ some (body, string to)) ⊎ (Pending round × (rest ≡ ok body))
  unfolding evaluate_expr
  round_of-ok round none rest body called h = cc
  round_of-ok round (some (b, not_json)) rest body called h = cc
  round_of-ok round (some (b, no_match)) rest body called h = cc
  round_of-ok round (some (b, other_value)) rest body called h = cc
  round_of-ok round (some (b, string v)) rest body called h =
      elim (compared-ok limit to b (elapsed round) v rest body h) [
        | inl same ↦ inl (
            called
            ∙ ap some (
                ap (λ (d : Text). (d, string v)) same.1
                ∙ ap (λ t. (body, string t)) ((text_eq_iff v to).0 same.0)))
        | inr other ↦ inr ((b, v, called, other.0, other.1), other.2)
      ]

  wait_loop_sound :
      (fuel round : ℕ) (body : Text)
      → wait_loop fuel limit to service elapsed round ≡ ok body
      → (k : ℕ) × (service k ≡ some (body, string to))
        × (round ≤ k)
        × (k < round + fuel)
        × ((i : ℕ) → round ≤ i → i < k → Pending i)
  unfolding wait_loop
  wait_loop_sound zero round body h = cc
  wait_loop_sound (suc fuel) round body h = elim (round_of-ok round (service round) _ body refl h) [
    | inl here ↦ (round, here, omega arith, omega arith, λ i low high. absurd (omega arith))
    | inr (pending, rest) ↦
        let (k, answered, le, lt, earlier) = wait_loop_sound fuel (suc round) body rest in
        (
          k,
          answered,
          omega arith,
          omega arith,
          λ i low high. elim (Bool-cases (i == round)) [
            | inl same ↦ subst Pending (sym ((==_iff i round).0 same)) pending
            | inr other ↦ earlier i (ground arith) high
          ],
        )
  ]

  wait_loop-Pending :
      (fuel round : ℕ)
      → Pending round
      → wait_loop (suc fuel) limit to service elapsed round
        ≡ wait_loop fuel limit to service elapsed (suc round)
  unfolding wait_loop evaluate_expr
  wait_loop-Pending fuel round (body, v, called, other, early) =
      let more : ltb (limit * second) (elapsed round) ≡ false = ground arith in
      rw (called, other, more) refl

  wait_loop_complete :
      (n fuel round : ℕ) (body : Text)
      → service (round + n) ≡ some (body, string to)
      → ((i : ℕ) → round ≤ i → i < round + n → Pending i)
      → wait_loop (suc (n + fuel)) limit to service elapsed round ≡ ok body
  unfolding wait_loop evaluate_expr
  wait_loop_complete zero fuel round body answered earlier =
      let here : service round ≡ some (body, string to) =
        subst (λ k. service k ≡ some (body, string to)) (omega arith) answered in
      rw (here, text_eq_refl to) refl
  wait_loop_complete (suc n) fuel round body answered earlier =
      let shift : suc n + fuel ≡ suc (n + fuel) = omega arith in
      rw shift (
        wait_loop-Pending (suc (n + fuel)) round (earlier round (omega arith) (omega arith))
        ∙ wait_loop_complete n fuel (suc round) body
            (subst (λ k. service k ≡ some (body, string to)) (omega arith) answered)
            (λ i low high. earlier i (omega arith) (omega arith)))

-- With 302 rounds the waiting always ends, whatever the service answers, when the clock advances by
-- the interval at least in each round: with an answer, with an error of the call or of its options, or
-- because the time is up.
pub call_with-IsSettled :
    (timeout_text interval_text : Option Text) (to : Text) (service : Service) (clock : ℕ → Clock)
    → ((interval : ℕ) → Sleeps interval (clock interval))
    → IsSettled (call_with 302 timeout_text interval_text to service clock)
unfolding call_with
call_with-IsSettled timeout_text interval_text to service clock sleeps =
    elim (outcome_cases (timeout_of timeout_text) (timeout_of-IsSettled timeout_text)) [
      | inr (e, bad) ↦ rw bad (λ h. cc)
      | inl (limit, good) ↦
          elim (outcome_cases (interval_of interval_text) (interval_of-IsSettled interval_text)) [
            | inr (e, bad) ↦ rw (good, bad) (λ h. cc)
            | inl (interval, fine) ↦
                rw (good, fine)
                  (wait_loop-IsSettled limit to service (clock interval) interval 301 0
                    (sleeps interval) (le-interval_of interval_text interval fine)
                    (timeout_of-le timeout_text limit good) refl)
          ]
    ]

-- The waiting returns a body only if a call gave that body and the expression has the expected value in
-- it, while in all the calls before it had another value and the time was not up; and it does
-- return that body, given a round for each call.
pub wait_loop_iff :
    (limit : ℕ) (to : Text) (service : Service) (elapsed : Clock) (fuel : ℕ) (body : Text)
    → (wait_loop fuel limit to service elapsed 0 ≡ ok body) ↔ (
        (k : ℕ) × (k < fuel)
        × (service k ≡ some (body, string to))
        × ((i : ℕ) → i < k → Pending limit to service elapsed i))
wait_loop_iff limit to service elapsed fuel body = (
  λ h.
      let (k, answered, low, lt, earlier) =
        wait_loop_sound limit to service elapsed fuel 0 body h in
      (k, omega arith, answered, λ i high. earlier i (omega arith) high),
  λ q.
      let (k, lt, answered, earlier) = q in
      let enough : suc (k + (fuel - suc k)) ≡ fuel = omega arith in
      let same : k ≡ 0 + k = omega arith in
      subst (λ f. wait_loop f limit to service elapsed 0 ≡ ok body) enough
        (wait_loop_complete limit to service elapsed k (fuel - suc k) 0 body
          (subst (λ i. service i ≡ some (body, string to)) same answered)
          (λ i low high. earlier i (omega arith))),
)
