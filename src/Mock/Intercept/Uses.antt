-- ===== src/Mock/Intercept/Uses.antt =====
-- sysconfig/mock/interceptor.go: the record that is found, and what is left of it behind a use.
use aliyun_cli.Base.{
  false, ℕ, zero, suc, Text, true, false, ◌≡◌, refl, ap, none, some, List, [], ◌∷◌, ◌++◌, length, ℤ,
  pos, negsuc, All, arith,
}
use aliyun_cli.Mock.{Record}
use aliyun_cli.Mock.Matcher.Search.{match_command}
use aliyun_cli.Mock.Store.{validate_record}
use aliyun_cli.Mock.Store.Valid.{IsValid, IsValid-cons, cons-IsValid}
use aliyun_cli.Mock.Intercept.{find_match, later_index, used_up, cons_used, consume, record_at}

-- No record fits the command line.
abbrev pub NoneFits : List Text → List Record → Type 0
NoneFits args records = All (λ q. match_command q.cmd args ≡ false) records

-- The same value a number of times.
abbrev pub repeated {ℓ} : {A : Type ℓ} → ℕ → A → List A
repeated zero a = []
repeated (suc n) a = a ∷ repeated n a

pub find_match-append :
    (before after : List Record) (r : Record) (args : List Text)
    → NoneFits args before
    → match_command r.cmd args ≡ true
    → find_match (before ++ (r ∷ after)) args ≡ some (length before)
unfolding find_match
find_match-append [] after r args miss hit = rw hit refl
find_match-append (q ∷ before) after r args miss hit =
    rw miss.0 (ap later_index (find_match-append before after r args miss.1 hit))

pub record_at-append :
    (before after : List Record) (r : Record)
    → record_at (before ++ (r ∷ after)) (length before) ≡ some r
unfolding record_at
record_at-append [] after r = refl
record_at-append (q ∷ before) after r = record_at-append before after r

pub consume-append :
    (before after : List Record) (r : Record)
    → consume (before ++ (r ∷ after)) (length before)
      ≡ before ++ cons_used (used_up r r.times) after
unfolding consume
consume-append [] after r = refl
consume-append (q ∷ before) after r = ap (λ l. q ∷ l) (consume-append before after r)

validate_times :
    (r : Record) (n : ℕ)
    → validate_record r ≡ none
    → validate_record (record r { times = pos n }) ≡ none
unfolding validate_record
validate_times r n h = ground arith

used_up-IsValid :
    (r : Record) (t : ℤ) (after : List Record)
    → validate_record r ≡ none
    → IsValid after
    → IsValid (cons_used (used_up r t) after)
used_up-IsValid r (pos zero) after h k = cons-IsValid r after h k
used_up-IsValid r (pos (suc zero)) after h k = k
used_up-IsValid r (pos (suc (suc n))) after h k =
    cons-IsValid (record r { times = pos (suc n) }) after (validate_times r (suc n) h) k
used_up-IsValid r (negsuc n) after h k = k

pub used-IsValid :
    (before after : List Record) (r : Record)
    → IsValid (before ++ (r ∷ after))
    → IsValid (before ++ cons_used (used_up r r.times) after)
used-IsValid [] after r h =
    let q = IsValid-cons r after h in used_up-IsValid r r.times after q.0 q.1
used-IsValid (q ∷ before) after r h =
    let p = IsValid-cons q (before ++ (r ∷ after)) h in
    cons-IsValid q (before ++ cons_used (used_up r r.times) after) p.0
      (used-IsValid before after r p.1)
