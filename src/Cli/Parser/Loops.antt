-- ===== src/Cli/Parser/Loops.antt =====
-- `ReadNextArg` and `ReadAll` end, and how far they read.
use aliyun_cli.Base.{
  ℕ, suc, zero, ◌<◌, ◌≤◌, ◌+◌, leb, Text, is_empty, Bool, true, false, ◌≡◌, refl, sym, ap, ◌∙◌, ◌⊎◌,
  inl, inr, Bool-cases, List, [], ◌∷◌, length, ok, err, panic, timeout, bind_res, IsSettled, arith,
}
use aliyun_cli.Cli.Error.{CliError, Panic, Outcome}
use aliyun_cli.Cli.Parser.{
  Machine, M, read_next, remaining, read_next_arg, read_all, append_arg, advance, next_arg_round,
  all_round,
}
use aliyun_cli.Cli.Parser.Step.{Runs, read_token-Runs}

-- The result of one `readNext`, as the loops use it.
data Next (m : Machine) : Outcome (Text × Bool) × Machine → Type 0 where
  at_end : length m.parser.args ≤ m.parser.current → Next m (ok ([], false), m)
  read :
      (arg : Text) (m' : Machine)
      → suc (remaining m') ≡ remaining m
      → m'.parser.args ≡ m.parser.args
      → m'.parser.current ≡ m.parser.current + 1
      → Next m (ok (arg, true), m')
  failed : (e : CliError) (m' : Machine) → Next m (err e, m')
  panicked : (p : Panic) (m' : Machine) → Next m (panic p, m')

token-Next :
    (m : Machine) (x : Outcome Text × Machine)
    → leb (length m.parser.args) m.parser.current ≡ false
    → Runs (advance m) x
    → Next m (bind_res x (λ arg m'. (ok (arg, true), m')))
token-Next m (ok arg, m') more run =
    read arg m' (ground (arith, ap (length {0}) run.same_args, run.same_current)) run.same_args
      run.same_current
token-Next m (err e, m') more run = failed e m'
token-Next m (panic p, m') more run = panicked p m'
token-Next m (timeout, m') more run = absurd (run.settled refl)

read_next-Next : (m : Machine) → Next m (read_next m)
unfolding read_next
read_next-Next m = elim (Bool-cases (leb (length m.parser.args) m.parser.current)) [
  | inl done ↦ rw done (at_end (ground arith))
  | inr more ↦ rw more (token-Next m _ more (read_token-Runs _ (advance m)))
]

all_round-IsSettled :
    (again : List Text → M (List Text)) (r : List Text) (m : Machine)
    (x : Outcome (Text × Bool) × Machine)
    → Next m x
    → ((r' : List Text) (m' : Machine)
        → suc (remaining m') ≡ remaining m
        → IsSettled (again r' m').0)
    → IsSettled (bind_res x (all_round again r)).0
all_round-IsSettled again r m _ (at_end h) k = ground arith
all_round-IsSettled again r m _ (read arg m' less _ _) k = k (append_arg r arg) m' less
all_round-IsSettled again r m _ (failed e m') k = ground arith
all_round-IsSettled again r m _ (panicked p m') k = ground arith

-- `ReadAll` ends: with more fuel than there are tokens left it never runs out.
pub read_all-IsSettled :
    (fuel : ℕ) (r : List Text) (m : Machine) → remaining m < fuel → IsSettled (read_all fuel r m).0
unfolding read_all
read_all-IsSettled zero r m h = elim h [ ]
read_all-IsSettled (suc fuel) r m h =
    all_round-IsSettled (read_all fuel) r m _ (read_next-Next m)
      (λ r' m' less. read_all-IsSettled fuel r' m' (omega arith))

all_round_end :
    (again : List Text → M (List Text)) (r : List Text) (m : Machine)
    (x : Outcome (Text × Bool) × Machine) {rs : List Text} {m' : Machine}
    → Next m x
    → ((r' : List Text) (m1 : Machine)
        → again r' m1 ≡ (ok rs, m')
        → length m'.parser.args ≤ m'.parser.current)
    → bind_res x (all_round again r) ≡ (ok rs, m')
    → length m'.parser.args ≤ m'.parser.current
all_round_end again r m _ (at_end h) k e = ground arith
all_round_end again r m _ (read arg m1 less _ _) k e = k (append_arg r arg) m1 e
all_round_end again r m _ (failed e' m1) k e = cc
all_round_end again r m _ (panicked p m1) k e = cc

-- A `ReadAll` that succeeds has read every argument.
pub read_all_end :
    (fuel : ℕ) (r : List Text) (m : Machine) {rs : List Text} {m' : Machine}
    → read_all fuel r m ≡ (ok rs, m')
    → length m'.parser.args ≤ m'.parser.current
unfolding read_all
read_all_end zero r m e = cc
read_all_end (suc fuel) r m e =
    all_round_end (read_all fuel) r m _ (read_next-Next m) (λ r' m1. read_all_end fuel r' m1) e

next_round-IsSettled :
    (again : M (Text × Bool)) (m : Machine) (x : Outcome (Text × Bool) × Machine)
    → Next m x
    → ((m' : Machine) → suc (remaining m') ≡ remaining m → IsSettled (again m').0)
    → IsSettled (bind_res x (next_arg_round again)).0
next_round-IsSettled again m _ (at_end h) k = ground arith
next_round-IsSettled again m _ (read [] m' less _ _) k = k m' less
next_round-IsSettled again m _ (read (c ∷ cs) m' less _ _) k = ground arith
next_round-IsSettled again m _ (failed e m') k = ground arith
next_round-IsSettled again m _ (panicked p m') k = ground arith

-- `ReadNextArg` ends: with more fuel than there are tokens left it never runs out.
pub read_next_arg-IsSettled :
    (fuel : ℕ) (m : Machine) → remaining m < fuel → IsSettled (read_next_arg fuel m).0
unfolding read_next_arg
read_next_arg-IsSettled zero m h = elim h [ ]
read_next_arg-IsSettled (suc fuel) m h =
    next_round-IsSettled (read_next_arg fuel) m _ (read_next-Next m)
      (λ m' less. read_next_arg-IsSettled fuel m' (omega arith))

-- How a successful `ReadNextArg` moves on: the arguments stay, and an argument that is not empty
-- left fewer tokens to read.
pub record MovesOn (m : Machine) (arg : Text) (m' : Machine) : Type 0 where
  pub keeps_args : m'.parser.args ≡ m.parser.args
  pub not_before : m.parser.current ≤ m'.parser.current
  pub behind : (is_empty arg ≡ true) ⊎ (remaining m' < remaining m)

same_machine :
    {A : Type 0} {r t : Outcome A} {m m' : Machine}
    → ◌≡◌ {A = Outcome A × Machine} (r, m) (t, m')
    → m ≡ m'
same_machine e = ap (λ (x : Outcome _ × Machine). x.1) e

next_round-MovesOn :
    (again : M (Text × Bool)) (m : Machine) (x : Outcome (Text × Bool) × Machine) {arg : Text}
    {b : Bool} {m' : Machine}
    → Next m x
    → ((m1 : Machine) → again m1 ≡ (ok (arg, b), m') → MovesOn m1 arg m')
    → bind_res x (next_arg_round again) ≡ (ok (arg, b), m')
    → MovesOn m arg m'
next_round-MovesOn again m _ (at_end h) k e = record {
  keeps_args = ground arith;
  not_before = ground arith;
  behind = inl (ground arith);
}
next_round-MovesOn again m _ (read [] m1 less same on) k e =
    let later = k m1 e in
    record {
      keeps_args = later.keeps_args ∙ same;
      not_before = omega arith;
      behind = inr (omega (arith, ap (length {0}) later.keeps_args));
    }
next_round-MovesOn again m _ (read (c ∷ cs) m1 less same on) k e =
    let stop = same_machine e in
    record {
      keeps_args = ap (λ (n : Machine). n.parser.args) (sym stop) ∙ same;
      not_before = omega (arith, ap (λ (n : Machine). n.parser.current) stop);
      behind = inr (omega (arith, ap remaining stop));
    }
next_round-MovesOn again m _ (failed x m1) k e = record {
  keeps_args = cc;
  not_before = cc;
  behind = cc;
}
next_round-MovesOn again m _ (panicked p m1) k e = record {
  keeps_args = cc;
  not_before = cc;
  behind = cc;
}

pub read_next_arg-MovesOn :
    (fuel : ℕ) (m : Machine) {arg : Text} {b : Bool} {m' : Machine}
    → read_next_arg fuel m ≡ (ok (arg, b), m')
    → MovesOn m arg m'
unfolding read_next_arg
read_next_arg-MovesOn zero m e = record { keeps_args = cc; not_before = cc; behind = cc }
read_next_arg-MovesOn (suc fuel) m e =
    next_round-MovesOn (read_next_arg fuel) m _ (read_next-Next m)
      (λ m1. read_next_arg-MovesOn fuel m1) e
