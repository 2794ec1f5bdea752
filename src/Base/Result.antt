-- ===== src/Base/Result.antt =====
-- Outcomes of Go functions, and programs that change a state and may stop with an error. As in
-- Go, what was changed before an error stays changed.
use mathlib.Core.Path.{◌≡◌, refl, ap}
use mathlib.Core.Logic.{◌≢◌}

-- `E` is the type of the errors that are returned, `P` that of the panics. `timeout` is no
-- outcome of the program: it says that the fuel of a loop ran out.
pub data Res {ℓ} (E P : Type 0) (A : Type ℓ) : Type ℓ where
  ok : A → Res E P A
  err : E → Res E P A
  panic : P → Res E P A
  timeout : Res E P A

abbrev pub bind_res {ℓ κ} :
    {E P S : Type 0} {A : Type ℓ} {B : Type κ}
    → Res E P A × S
    → (A → S → Res E P B × S)
    → Res E P B × S
bind_res (ok a, s) f = f a s
bind_res (err e, s) f = (err e, s)
bind_res (panic p, s) f = (panic p, s)
bind_res (timeout, s) f = (timeout, s)

-- A call whose failure is passed on at once.
abbrev pub and_then {ℓ κ} :
    {E P : Type 0} {A : Type ℓ} {B : Type κ} → Res E P A → (A → Res E P B) → Res E P B
and_then (ok a) f = f a
and_then (err e) f = err e
and_then (panic p) f = panic p
and_then timeout f = timeout

pub and_then-eq-ok {ℓ κ} :
    {E P : Type 0} {A : Type ℓ} {B : Type κ} (r : Res E P A) (f : A → Res E P B) {b : B}
    → and_then r f ≡ ok b
    → (a : A) × (r ≡ ok a) × (f a ≡ ok b)
and_then-eq-ok (ok a) f e = (a, refl, e)
and_then-eq-ok (err x) f e = cc
and_then-eq-ok (panic x) f e = cc
and_then-eq-ok timeout f e = cc

pub bind_res-eq-ok {ℓ κ} :
    {E P S : Type 0} {A : Type ℓ} {B : Type κ} (m : Res E P A × S) (f : A → S → Res E P B × S)
    {b : B} {t : S}
    → bind_res m f ≡ (ok b, t)
    → (a : A) × (s : S) × (m ≡ (ok a, s)) × (f a s ≡ (ok b, t))
bind_res-eq-ok (ok a, s) f e = (a, s, refl, e)
bind_res-eq-ok (err x, s) f e = cc
bind_res-eq-ok (panic x, s) f e = cc
bind_res-eq-ok (timeout, s) f e = cc

-- The fuel sufficed.
abbrev pub IsSettled {ℓ} : {E P : Type 0} {A : Type ℓ} → Res E P A → Type ℓ
IsSettled r = r ≢ timeout

pub and_then-IsSettled {ℓ κ} :
    {E P : Type 0} {A : Type ℓ} {B : Type κ} (r : Res E P A) (f : A → Res E P B)
    → IsSettled r
    → ((a : A) → IsSettled (f a))
    → IsSettled (and_then r f)
and_then-IsSettled (ok a) f h k = k a
and_then-IsSettled (err e) f h k = λ e. cc
and_then-IsSettled (panic p) f h k = λ e. cc
and_then-IsSettled timeout f h k = absurd (h refl)

pub ok-IsSettled {ℓ} : {E P : Type 0} {A : Type ℓ} (a : A) → IsSettled {E = E} {P = P} (ok a)
ok-IsSettled a e = cc

value_or {ℓ} : {E P : Type 0} {A : Type ℓ} → A → Res E P A → A
value_or d (ok a) = a
value_or d (err e) = d
value_or d (panic p) = d
value_or d timeout = d

pub ok-inj {ℓ} : {E P : Type 0} {A : Type ℓ} {a b : A} → ◌≡◌ {A = Res E P A} (ok a) (ok b) → a ≡ b
unfolding value_or
ok-inj {a = a} h = ap (value_or a) h
