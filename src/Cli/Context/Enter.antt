-- ===== src/Cli/Context/Enter.antt =====
-- What a command finds after `EnterCommand`.
use aliyun_cli.Base.{
  List, ◌==◌, false, subst, Text, text_eq, txt, true, ◌≡◌, ◌⊎◌, inl, inr, none, some, Bool-cases,
  [], ◌∷◌, ◌++◌, length, arith, ok, and_then-eq-ok, sym, ◌∙◌, ap, get_or-append_last,
}
use aliyun_cli.Cli.Error.{Outcome}
use aliyun_cli.Cli.Flag.{Flag, FlagRef, empty_flag, get_formations}
use aliyun_cli.Cli.FlagSet.{Flags, deref, FlagSet, index_get, add, contains_ref}
use aliyun_cli.Cli.FlagSet.Laws.{mem_text, index_get-add}
use aliyun_cli.Cli.FlagSet.Visible.{IsSound, OwnOrPersistent, merge_with_visible}
use aliyun_cli.Cli.Tree.{CommandInfo, Command, info}
use aliyun_cli.Cli.Context.{
  Session, help_flag, find_help, merged_flags, add_help, enter_command, entered_context,
}

-- The steps of a successful `EnterCommand`.
record Entered (c : Command) (s s' : Session) : Type 0 where
  merged : FlagSet
  helped : FlagSet
  merges : merged_flags s.heap (info c) s.ctx.flags ≡ ok merged
  helps : add (s.heap ++ (help_flag ∷ [])) merged (length s.heap) ≡ ok helped
  result : s' ≡ record s { heap = s.heap ++ (help_flag ∷ []); ctx = entered_context c helped s.ctx }

entered_eq :
    (c : Command) (s : Session) (g : FlagSet) {s' : Session} (made : FlagSet × Flags)
    → ◌≡◌ {A = Outcome (FlagSet × Flags)} (ok (g, s.heap ++ (help_flag ∷ []))) (ok made)
    → ◌≡◌ {A = Outcome Session}
        (ok (record s { heap = made.1; ctx = entered_context c made.0 s.ctx }))
        (ok s')
    → s' ≡ record s { heap = s.heap ++ (help_flag ∷ []); ctx = entered_context c g s.ctx }
entered_eq c s g {s'} made pair final = cc

enter_command-Entered :
    (c : Command) (s : Session) {s' : Session} → enter_command c s ≡ ok s' → Entered c s s'
unfolding enter_command add_help
enter_command-Entered c s e =
    let (fs, merges, rest) = and_then-eq-ok (merged_flags s.heap (info c) s.ctx.flags) _ e in
    let (made, helps, final) = and_then-eq-ok (add_help s.heap fs) _ rest in
    let (fs', added, pair) =
      and_then-eq-ok (add (s.heap ++ (help_flag ∷ [])) fs (length s.heap)) _ helps in
    record {
      merged = fs;
      helped = fs';
      merges = merges;
      helps = added;
      result = entered_eq c s fs' made pair final;
    }

-- The flag is one of the list.
pub data OneOf : FlagRef → List FlagRef → Type 0 where
  first_of : (r : FlagRef) (rs : List FlagRef) → OneOf r (r ∷ rs)
  later_of : (r q : FlagRef) (rs : List FlagRef) → OneOf r rs → OneOf r (q ∷ rs)

contains_ref-OneOf : (rs : List FlagRef) (q : FlagRef) → contains_ref rs q ≡ true → OneOf q rs
unfolding contains_ref
contains_ref-OneOf [] q h = cc
contains_ref-OneOf (r ∷ rs) q h = elim (Bool-cases (r == q)) [
  | inl same ↦ let e : r ≡ q = ground arith in subst (λ x. OneOf q (x ∷ rs)) (sym e) (first_of q rs)
  | inr other ↦ later_of q r rs (contains_ref-OneOf rs q (ground arith))
]

-- A flag that a command sees: the command's own, or, unless the command switches this off, a persistent one
-- of the flags that are in force above it.
abbrev pub Seen : Flags → CommandInfo → FlagSet → FlagRef → Type 0
Seen h c above q =
    OneOf q c.flags.flags
    ⊎ ((c.disable_persistent_flags ≡ false) × OneOf q above.flags × ((deref h q).persistent ≡ true))

own_alone :
    (h : Flags) (c : CommandInfo) (above : FlagSet) (q : FlagRef)
    → OwnOrPersistent h c.flags.flags [] q
    → Seen h c above q
unfolding contains_ref
own_alone h c above q (inl own) = inl (contains_ref-OneOf c.flags.flags q own)
own_alone h c above q (inr v) = absurd (let no_flag = v.0 in cc)

own_or_above :
    (h : Flags) (c : CommandInfo) (above : FlagSet) (q : FlagRef)
    → c.disable_persistent_flags ≡ false
    → OwnOrPersistent h c.flags.flags above.flags q
    → Seen h c above q
own_or_above h c above q on (inl own) = inl (contains_ref-OneOf c.flags.flags q own)
own_or_above h c above q on (inr v) = inr (on, contains_ref-OneOf above.flags q v.0, v.1)

merged_flags_visible :
    (h : Flags) (c : CommandInfo) (flags : FlagSet) (t : Text) {fs : FlagSet} {r : FlagRef}
    → IsSound h c.flags
    → merged_flags h c flags ≡ ok fs
    → index_get fs.index t ≡ some r
    → Seen h c flags r × (mem_text (get_formations (deref h r)) t ≡ true)
unfolding merged_flags
merged_flags_visible h c flags t {r = r} sound e found =
    elim (Bool-cases c.disable_persistent_flags) [
      | inl alone ↦
          let v = merge_with_visible h c.flags none t sound (rw alone at e) found in
          (own_alone h c flags r v.0, v.1)
      | inr merged ↦
          let v = merge_with_visible h c.flags (some flags) t sound (rw merged at e) found in
          (own_or_above h c flags r merged v.0, v.1)
    ]

helped_visible :
    {P : Type 0} (h : Flags) (merged helped : FlagSet) (t : Text) (r : FlagRef)
    → add (h ++ (help_flag ∷ [])) merged (length h) ≡ ok helped
    → index_get helped.index t ≡ some r
    → (index_get merged.index t ≡ some r → P)
    → (r ≡ length h) ⊎ P
helped_visible h merged helped t r added found below =
    let (same, free) = index_get-add (h ++ (help_flag ∷ [])) merged (length h) t added in
    elim (Bool-cases (mem_text (get_formations (deref (h ++ (help_flag ∷ [])) (length h))) t)) [
      | inl own ↦ inl (ground arith)
      | inr other ↦ inr (below (ground arith))
    ]

-- After `EnterCommand` the name `help` leads to a new help flag, which is not assigned.
pub enter_command_help :
    (c : Command) (s : Session) {s' : Session}
    → enter_command c s ≡ ok s'
    → (find_help s'.ctx.flags ≡ some (length s.heap)) × (deref s'.heap (length s.heap) ≡ help_flag)
unfolding mem_text get_formations text_eq
enter_command_help c s e =
    let en = enter_command-Entered c s e in
    (
      ap (λ (t : Session). find_help t.ctx.flags) en.result
          ∙ (index_get-add (s.heap ++ (help_flag ∷ [])) en.merged (length s.heap) (txt "--help")
              en.helps).0
          ∙ rw (get_or-append_last s.heap help_flag empty_flag),
      ap (λ (t : Session). deref t.heap (length s.heap)) en.result
          ∙ get_or-append_last s.heap help_flag empty_flag,
    )

-- After `EnterCommand` a flag that is found by some spelling is the new flag `help`, a flag of the
-- command, or, unless the command disables persistent flags, a persistent one of the flags that were
-- in force before: no other flag of the commands above is seen. The
-- flags that the command declares are assumed to be found only under their own spellings.
pub enter_command_visible :
    (c : Command) (s : Session) (t : Text) {s' : Session} {r : FlagRef}
    → IsSound s.heap (info c).flags
    → enter_command c s ≡ ok s'
    → index_get s'.ctx.flags.index t ≡ some r
    → ((r ≡ length s.heap) × ((deref s'.heap r).name ≡ txt "help"))
      ⊎ Seen s.heap (info c) s.ctx.flags r
enter_command_visible c s t {s'} {r} sound e found =
    let en = enter_command-Entered c s e in
    let same = ap (λ (u : Session). index_get u.ctx.flags.index t) en.result in
    let new = ap (λ (f : Flag). f.name) (enter_command_help c s e).1 in
    elim (helped_visible s.heap en.merged en.helped t r en.helps (sym same ∙ found)
      (λ below. (merged_flags_visible s.heap (info c) s.ctx.flags t sound en.merges below).0)) [
        | inl last ↦ inl (last, ap (λ q. (deref s'.heap q).name) last ∙ new)
        | inr seen ↦ inr seen
      ]
