-- ===== src/Cli/Command/RawArgs.antt =====
-- `rawArgsRequestHelp`: help counts only where a flag could stand.
use aliyun_cli.Base.{
  ℕ, ◌==◌, ◌≢◌, has_prefix, drop, length, some, none, split_at, IsFree, cut-IsFree, arith, Option,
  Text, txt, text_eq, cut, Bool, true, false, not, ◌&&◌, ◌||◌, Bool-cases, ◌≡◌, refl, sym, ap,
  subst, ◌∙◌, ◌↔◌, ◌⊎◌, inl, inr, false≢true, List, [], ◌∷◌,
}
use aliyun_cli.Cli.Flag.{FlagRef, rune_text, assigned_none, AssignedMode, is_none}
use aliyun_cli.Cli.FlagSet.{Flags, FlagSet, deref, index_get}
use aliyun_cli.Cli.Context.{Session}
use aliyun_cli.Cli.Command.{raw_flag, takes_value, raw_args_loop, raw_args_request_help}

-- The token is the spelling of a known flag: `--` and its name or alias, or `-` and one letter.
pub data Spells : FlagSet → Text → FlagRef → Type 0 where
  by_name :
      {fs : FlagSet} {r : FlagRef} (name : Text)
      → index_get fs.index (45 ∷ 45 ∷ name) ≡ some r
      → Spells fs (45 ∷ 45 ∷ name) r
  by_letter :
      {fs : FlagSet} {r : FlagRef} (c : ℕ)
      → c ≢ 45
      → index_get fs.index (45 ∷ rune_text c) ≡ some r
      → Spells fs (45 ∷ c ∷ []) r

-- The next token is the value of this one: the token has no `=`, and spells a known flag that is not one
-- of those that take no value.
abbrev pub TakesNext : Flags → FlagSet → Text → Type 0
TakesNext h fs token =
    IsFree b'=' token
    × (r : FlagRef) × Spells fs token r
    × ((deref h r).assigned_mode ≢ assigned_none)

abbrev pub is_end : Text → Bool
is_end token = text_eq token (txt "--")

abbrev pub is_help : Text → Bool
is_help token = text_eq token (txt "--help") || text_eq token (txt "-h")

-- The test of the loop for this.
abbrev has_value_next : Flags → FlagSet → Text → Bool
has_value_next h fs token =
    let (key, value, inline) = cut b'=' token in takes_value h (raw_flag fs key) && not inline

key_of_long : (key : Text) → has_prefix key (txt "--") ≡ true → key ≡ 45 ∷ 45 ∷ drop 2 key
unfolding has_prefix
key_of_long [] h = cc
key_of_long (a ∷ []) h = ground arith
key_of_long (a ∷ b ∷ key) h =
    let q : (a ≡ 45) × (b ≡ 45) = ground arith in
    ap (λ x. x ∷ b ∷ key) q.0 ∙ ap (λ y. 45 ∷ y ∷ key) q.1

raw_flag-Spells :
    (fs : FlagSet) (key : Text) (r : FlagRef) → raw_flag fs key ≡ some r → Spells fs key r
unfolding raw_flag has_prefix
raw_flag-Spells fs [] r h = cc
raw_flag-Spells fs (a ∷ []) r h = ground arith
raw_flag-Spells fs (a ∷ b ∷ []) r h = elim (Bool-cases (has_prefix (a ∷ b ∷ []) (txt "--"))) [
  | inl long ↦
      let q : (a ≡ 45) × (b ≡ 45) = ground arith in
      subst (λ x. Spells fs (x ∷ b ∷ []) r) (sym q.0)
        (subst (λ y. Spells fs (45 ∷ y ∷ []) r) (sym q.1) (by_name [] (rw long at h)))
  | inr short ↦ elim (Bool-cases (a == 45)) [
    | inl dash ↦
        let e : a ≡ 45 = ground arith in
        let ne : b ≢ 45 = λ f. absurd (ground arith) in
        subst (λ x. Spells fs (x ∷ b ∷ []) r) (sym e) (by_letter b ne (rw (short, dash) at h))
    | inr other ↦ absurd (let q : none ≡ some r = rw (short, other) at h in cc)
  ]
]
raw_flag-Spells fs (a ∷ b ∷ d ∷ key) r h =
    elim (Bool-cases (has_prefix (a ∷ b ∷ d ∷ key) (txt "--"))) [
      | inl long ↦
          let q : (a ≡ 45) × (b ≡ 45) = ground arith in
          subst (λ x. Spells fs (x ∷ b ∷ d ∷ key) r) (sym q.0)
            (subst (λ y. Spells fs (45 ∷ y ∷ d ∷ key) r) (sym q.1)
              (by_name (d ∷ key) (rw long at h)))
      | inr short ↦
          let longer : (length (a ∷ b ∷ d ∷ key) == 2) ≡ false = ground arith in
          absurd (let q : none ≡ some r = rw (short, longer) at h in cc)
    ]

Spells-raw_flag :
    {fs : FlagSet} {key : Text} {r : FlagRef} → Spells fs key r → raw_flag fs key ≡ some r
unfolding raw_flag has_prefix
Spells-raw_flag (by_name name e) = e
Spells-raw_flag (by_letter c ne e) =
    let other : (c == 45) ≡ false = ground (arith, ne) in rw other e

-- What `strings.Cut` finds no separator in.
cut_nothing : (sep : ℕ) (s : Text) → (cut sep s).2 ≡ false → IsFree sep s × ((cut sep s).0 ≡ s)
unfolding cut split_at
cut_nothing sep [] h = (tt, refl)
cut_nothing sep (c ∷ s) h = elim (Bool-cases (c == sep)) [
  | inl here ↦ absurd (let q : true ≡ false = rw here at h in cc)
  | inr later ↦
      let ih = cut_nothing sep s (rw later at h) in ((later, ih.0), rw later (ap (λ t. c ∷ t) ih.1))
]

not_none : (m : AssignedMode) → is_none m ≡ false → m ≢ assigned_none
not_none m h e = absurd (false≢true (sym h ∙ ap is_none e))

none_not : (m : AssignedMode) → m ≢ assigned_none → is_none m ≡ false
none_not assigned_none h = absurd (h refl)
none_not m h = refl

takes_value-some :
    (h : Flags) (o : Option FlagRef)
    → takes_value h o ≡ true
    → (r : FlagRef) × (o ≡ some r) × ((deref h r).assigned_mode ≢ assigned_none)
unfolding takes_value
takes_value-some h none e = cc
takes_value-some h (some r) e = (r, refl, not_none (deref h r).assigned_mode (ground arith))

value_next_sound :
    (h : Flags) (fs : FlagSet) (token : Text)
    → has_value_next h fs token ≡ true
    → TakesNext h fs token
value_next_sound h fs token e =
    let q : (takes_value h (raw_flag fs (cut b'=' token).0) ≡ true) × ((cut b'=' token).2 ≡ false) =
      ground arith in
    let (free, same) = cut_nothing b'=' token q.1 in
    let (r, found, mode) = takes_value-some h (raw_flag fs token) (rw same at q.0) in
    (free, r, raw_flag-Spells fs token r found, mode)

value_next_complete :
    (h : Flags) (fs : FlagSet) (token : Text)
    → TakesNext h fs token
    → has_value_next h fs token ≡ true
unfolding takes_value
value_next_complete h fs token (free, r, spells, mode) =
    rw (cut-IsFree b'=' token free, Spells-raw_flag spells, none_not (deref h r).assigned_mode mode)
      refl

no_value_next :
    (h : Flags) (fs : FlagSet) (token : Text)
    → has_value_next h fs token ≡ false
    → ¬ TakesNext h fs token
no_value_next h fs token e t = false≢true (sym e ∙ value_next_complete h fs token t)

value_next_none :
    (h : Flags) (fs : FlagSet) (token : Text)
    → ¬ TakesNext h fs token
    → has_value_next h fs token ≡ false
value_next_none h fs token no_ = elim (Bool-cases (has_value_next h fs token)) [
  | inl value ↦ absurd (no_ (value_next_sound h fs token value))
  | inr plain ↦ plain
]

-- A help flag stands where a flag could stand: it is no value of the flag before it, and no `--`
-- stands before it in such a place.
pub data AsksHelp : Flags → FlagSet → List Text → Type 0 where
  at_help :
      {h : Flags} {fs : FlagSet} {token : Text} {args : List Text}
      → is_end token ≡ false
      → is_help token ≡ true
      → AsksHelp h fs (token ∷ args)
  past_token :
      {h : Flags} {fs : FlagSet} {token : Text} {args : List Text}
      → is_end token ≡ false
      → ¬ TakesNext h fs token
      → AsksHelp h fs args
      → AsksHelp h fs (token ∷ args)
  past_value :
      {h : Flags} {fs : FlagSet} {token value : Text} {args : List Text}
      → is_end token ≡ false
      → TakesNext h fs token
      → AsksHelp h fs args
      → AsksHelp h fs (token ∷ value ∷ args)

module _ (h : Flags) (fs : FlagSet) where
  after_token :
      (token : Text) (args : List Text)
      → is_end token ≡ false
      → is_help token ≡ false
      → raw_args_loop h fs false (token ∷ args)
        ≡ raw_args_loop h fs (has_value_next h fs token) args
  unfolding raw_args_loop
  after_token token args go no_help = rw (go, no_help)

  skipped-nil : raw_args_loop h fs true [] ≡ false
  unfolding raw_args_loop
  skipped-nil = refl

  skipped-cons :
      (value : Text) (args : List Text)
      → raw_args_loop h fs true (value ∷ args) ≡ raw_args_loop h fs false args
  unfolding raw_args_loop
  skipped-cons value args = refl

  loop-help :
      (token : Text) (args : List Text)
      → is_end token ≡ false
      → is_help token ≡ true
      → raw_args_loop h fs false (token ∷ args) ≡ true
  unfolding raw_args_loop
  loop-help token args go help = rw (go, help)

  loop-end :
      (token : Text) (args : List Text)
      → is_end token ≡ true
      → raw_args_loop h fs false (token ∷ args) ≡ false
  unfolding raw_args_loop
  loop-end token args end = rw end

  loop-nil : raw_args_loop h fs false [] ≡ false
  unfolding raw_args_loop
  loop-nil = refl

  -- A help flag is at the front, or the loop goes on behind the token or behind its value.
  loop-cases :
      (token : Text) (args : List Text)
      → raw_args_loop h fs false (token ∷ args) ≡ true
      → (is_end token ≡ false)
        × ((is_help token ≡ true)
            ⊎ ((has_value_next h fs token ≡ true) × (raw_args_loop h fs true args ≡ true))
            ⊎ ((has_value_next h fs token ≡ false) × (raw_args_loop h fs false args ≡ true)))
  loop-cases token args e = elim (Bool-cases (is_end token)) [
    | inl end ↦ absurd (false≢true (sym (loop-end token args end) ∙ e))
    | inr go ↦ elim (Bool-cases (is_help token)) [
      | inl help ↦ (go, inl help)
      | inr no_help ↦
          let rest = sym (after_token token args go no_help) ∙ e in
          elim (Bool-cases (has_value_next h fs token)) [
            | inl value ↦
                (go, inr (inl (value, subst (λ b. raw_args_loop h fs b args ≡ true) value rest)))
            | inr plain ↦
                (go, inr (inr (plain, subst (λ b. raw_args_loop h fs b args ≡ true) plain rest)))
          ]
    ]
  ]

  loop_sound : (args : List Text) → raw_args_loop h fs false args ≡ true → AsksHelp h fs args
  loop_sound [] e = absurd (false≢true (sym loop-nil ∙ e))
  loop_sound (token ∷ []) e =
      let (go, found) = loop-cases token [] e in
      elim found [
        | inl help ↦ at_help go help
        | inr (inl (value, rest)) ↦ absurd (false≢true (sym skipped-nil ∙ rest))
        | inr (inr (plain, rest)) ↦
            past_token go (no_value_next h fs token plain) (loop_sound [] rest)
      ]
  loop_sound (token ∷ v ∷ args) e =
      let (go, found) = loop-cases token (v ∷ args) e in
      elim found [
        | inl help ↦ at_help go help
        | inr (inl (value, rest)) ↦
            past_value go (value_next_sound h fs token value)
              (loop_sound args (sym (skipped-cons v args) ∙ rest))
        | inr (inr (plain, rest)) ↦
            past_token go (no_value_next h fs token plain) (loop_sound (v ∷ args) rest)
      ]

  loop_complete : {args : List Text} → AsksHelp h fs args → raw_args_loop h fs false args ≡ true
  loop_complete (at_help go help) = loop-help _ _ go help
  loop_complete (past_token {token = token} {args = args} go plain a) =
      elim (Bool-cases (is_help token)) [
        | inl help ↦ loop-help token args go help
        | inr no_help ↦
            after_token token args go no_help
            ∙ ap (λ b. raw_args_loop h fs b args) (value_next_none h fs token plain)
            ∙ loop_complete a
      ]
  loop_complete (past_value {token = token} {value = v} {args = args} go value a) =
      elim (Bool-cases (is_help token)) [
        | inl help ↦ loop-help token (v ∷ args) go help
        | inr no_help ↦
            after_token token (v ∷ args) go no_help
            ∙ ap (λ b. raw_args_loop h fs b (v ∷ args)) (value_next_complete h fs token value)
            ∙ skipped-cons v args
            ∙ loop_complete a
      ]

-- `rawArgsRequestHelp` says that help is asked for exactly if `--help` or `-h` stands where a flag
-- could stand: not behind a `--` that stands so itself, and not as the value of a known flag, one
-- whose mode is not that of the flags without a value, that is spelled `--` with a name or an alias
-- or `-` with a letter and is written without `=`.
pub raw_args_request_help_iff :
    (s : Session) (args : List Text)
    → (raw_args_request_help s args ≡ true) ↔ AsksHelp s.heap s.ctx.flags args
unfolding raw_args_request_help
raw_args_request_help_iff s args =
    (loop_sound s.heap s.ctx.flags args, loop_complete s.heap s.ctx.flags)
