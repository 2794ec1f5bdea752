-- ===== src/Cli/Command/Termination.antt =====
-- `executeInner` ends, since each round that goes on has read a token.
use aliyun_cli.Base.{
  ℕ, suc, zero, ◌<◌, Text, text_eq, is_empty, Bool, false, ◌≡◌, refl, ap, ◌⊎◌, inl, inr, Bool-cases,
  List, [], ◌∷◌, length, length-drop, ok, err, panic, timeout, bind_res, IsSettled, arith,
  Option-cases,
}
use aliyun_cli.Cli.Error.{Outcome}
use aliyun_cli.Cli.Tree.{Command}
use aliyun_cli.Cli.Context.{Session, check_flags}
use aliyun_cli.Cli.Context.Settled.{enter_command-IsSettled}
use aliyun_cli.Cli.Parser.{Machine, get_remains, remaining, read_all}
use aliyun_cli.Cli.Parser.Loops.{
  MovesOn, read_next_arg-MovesOn, read_next_arg-IsSettled, read_all-IsSettled,
}
use aliyun_cli.Cli.Command.{
  finish, help_assigned, check_and_finish, name_failure, remain_args, execute_raw, Route, ask_help,
  enter, invalid, stay, route, entered, raw_command, Executor, follow_route, inner_round,
  start_machine, execute_inner,
}

finish-IsSettled : (c : Command) (args : List Text) (s : Session) → IsSettled (finish c args s)
unfolding finish
finish-IsSettled c args s = ground arith

help_assigned-IsSettled : (s : Session) → IsSettled (help_assigned s)
unfolding help_assigned
help_assigned-IsSettled s = ground arith

execute_raw-IsSettled :
    (c : Command) (args : List Text) (s : Session) → IsSettled (execute_raw c args s)
unfolding execute_raw
execute_raw-IsSettled c args s = ground arith

bind_res-IsSettled :
    {A B S : Type 0} (r : Outcome A × S) (f : A → S → Outcome B × S)
    → IsSettled r.0
    → ((a : A) (s : S) → IsSettled (f a s).0)
    → IsSettled (bind_res r f).0
bind_res-IsSettled (ok a, s) f h k = k a s
bind_res-IsSettled (err e, s) f h k = ground arith
bind_res-IsSettled (panic p, s) f h k = ground arith
bind_res-IsSettled (timeout, s) f h k = absurd (h refl)

check_and_finish-IsSettled :
    (c : Command) (next : Text) (remain : List Text) (s : Session)
    → IsSettled (check_and_finish c next remain s).0
unfolding check_and_finish
check_and_finish-IsSettled c next remain s = elim (Option-cases (check_flags s)) [
  | inl fine ↦
      rw (fine, check_and_finish)
        (bind_res-IsSettled (help_assigned s, s) _ (help_assigned-IsSettled s)
          (λ assigned s1. finish-IsSettled c _ _))
  | inr (e, bad) ↦ ground arith
]

name_failure-IsSettled :
    (r : Outcome (List Text) × Machine) → IsSettled r.0 → IsSettled (name_failure r).0
name_failure-IsSettled (ok r, m) h = ground arith
name_failure-IsSettled (err e, m) h = ground arith
name_failure-IsSettled (panic p, m) h = ground arith
name_failure-IsSettled (timeout, m) h = absurd (h refl)

remain_args-IsSettled :
    (c : Command) (args : List Text) (m : Machine) → IsSettled (remain_args c args m).0
unfolding remain_args
remain_args-IsSettled c args m =
    let read : IsSettled (name_failure (read_all (suc (remaining m)) [] m)).0 =
      name_failure-IsSettled _ (read_all-IsSettled (suc (remaining m)) [] m (omega arith)) in
    ground arith

-- A route that goes on was asked for by an argument.
route_goes_on :
    (c : Command) (next : Text)
    → (route c next ≡ stay) ⊎ ((route c next ≡ invalid) ⊎ (is_empty next ≡ false))
unfolding route text_eq
route_goes_on c [] = inl (ground arith)
route_goes_on c (d ∷ ds) = inr (inr refl)

entered-IsSettled : (s : Session) (r : Outcome Session) → IsSettled r → IsSettled (entered s r).0
entered-IsSettled s (ok s') h = ground arith
entered-IsSettled s (err e) h = ground arith
entered-IsSettled s (panic p) h = ground arith
entered-IsSettled s timeout h = absurd (h refl)

-- Of the rounds that `execute_inner` may start, each has fewer arguments to read.
follow_route-IsSettled :
    (again : Executor) (c : Command) (args : List Text) (next : Text) (m : Machine) (way : Route)
    → (way ≡ stay)
      ⊎ ((way ≡ invalid)
          ⊎ ((c' : Command) (s' : Session) → IsSettled (again c' (get_remains m.parser) s').0))
    → IsSettled (follow_route again c args next m way).0
follow_route-IsSettled again c args next m ask_help (inl e) = cc
follow_route-IsSettled again c args next m ask_help (inr (inl e)) = cc
follow_route-IsSettled again c args next m ask_help (inr (inr k)) = k c _
follow_route-IsSettled again c args next m (enter sub) (inl e) = cc
follow_route-IsSettled again c args next m (enter sub) (inr (inl e)) = cc
follow_route-IsSettled again c args next m (enter sub) (inr (inr k)) =
    bind_res-IsSettled _ _ (entered-IsSettled m.session _ (enter_command-IsSettled sub m.session))
      (λ _ s'. k sub s')
follow_route-IsSettled again c args next m invalid h = ground arith
follow_route-IsSettled again c args next m stay h =
    bind_res-IsSettled _ _ (remain_args-IsSettled c args m)
      (λ remain s'. check_and_finish-IsSettled c next remain s')

fewer_args :
    (c : Command) (args : List Text) (s : Session) (next : Text) (m : Machine)
    → MovesOn (start_machine c args s) next m
    → is_empty next ≡ false
    → length (get_remains m.parser) < length args
fewer_args c args s next m moves e = elim moves.behind [
  | inl none_read ↦ cc
  | inr less ↦
      omega (arith, length-drop m.parser.current m.parser.args, ap (length {0}) moves.keeps_args)
]

inner_round-IsSettled :
    (again : Executor) (c : Command) (args : List Text) (s : Session)
    (x : Outcome (Text × Bool) × Machine)
    → IsSettled x.0
    → ((next : Text) (b : Bool) (m : Machine)
        → x ≡ (ok (next, b), m)
        → MovesOn (start_machine c args s) next m)
    → ((c' : Command) (rest : List Text) (s' : Session)
        → length rest < length args
        → IsSettled (again c' rest s').0)
    → IsSettled (inner_round again c args x).0
inner_round-IsSettled again c args s (ok (next, b), m) h moved k =
    let moves = moved next b m refl in
    follow_route-IsSettled again c args next m (route c next) (elim (route_goes_on c next) [
      | inl e ↦ inl e
      | inr (inl e) ↦ inr (inl e)
      | inr (inr e) ↦ inr (inr (λ c' s'. k c' _ s' (fewer_args c args s next m moves e)))
    ])
inner_round-IsSettled again c args s (err e, m) h moved k = ground arith
inner_round-IsSettled again c args s (panic p, m) h moved k = ground arith
inner_round-IsSettled again c args s (timeout, m) h moved k = absurd (h refl)

-- `executeInner` ends, whatever the command tree and the state: with more fuel than there are
-- arguments it never runs out.
pub execute_inner-IsSettled :
    (fuel : ℕ) (c : Command) (args : List Text) (s : Session)
    → length args < fuel
    → IsSettled (execute_inner fuel c args s).0
unfolding execute_inner
execute_inner-IsSettled zero c args s h = elim h [ ]
execute_inner-IsSettled (suc fuel) c args s h = elim (Bool-cases (raw_command c s)) [
  | inl raw ↦ rw (raw, execute_inner) (execute_raw-IsSettled c args s)
  | inr parsed ↦
      rw (parsed, execute_inner)
        (inner_round-IsSettled (execute_inner fuel) c args s _
          (read_next_arg-IsSettled (suc (length args)) (start_machine c args s) (omega arith))
          (λ next b m e. read_next_arg-MovesOn (suc (length args)) (start_machine c args s) e)
          (λ c' rest s' less. execute_inner-IsSettled fuel c' rest s' (omega arith)))
]
