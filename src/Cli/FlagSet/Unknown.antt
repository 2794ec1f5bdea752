-- ===== src/Cli/FlagSet/Unknown.antt =====
-- `AddByName`, by which the flags that no command declares are taken up.
use aliyun_cli.Base.{
  ℕ, ◌-◌, Text, text_eq_refl, txt, true, false, ◌≡◌, refl, ◌∙◌, sym, ap, inl, inr, none, some,
  Option-cases, [], ◌∷◌, ◌++◌, length, arith, ok, err, panic, take, length-append, and_then-eq-ok,
  get_or-append_last, is_empty, Res,
}
use aliyun_cli.Cli.Error.{Outcome, formation_duplicated, name_duplicated}
use aliyun_cli.Cli.Flag.{empty_flag, FlagRef, get_formations, check_valid}
use aliyun_cli.Cli.FlagSet.{
  Flags, deref, index_get, FlagSet, add, add_formations, add_by_name, flag_by_name, has_suffix, get,
}
use aliyun_cli.Cli.FlagSet.Laws.{index_get-index_put}

has_suffix-append : (s t : Text) → has_suffix (s ++ t) t ≡ true
unfolding has_suffix
has_suffix-append [] [] = text_eq_refl []
has_suffix-append [] (c ∷ t) = rw (text_eq_refl (c ∷ t))
has_suffix-append (c ∷ s) t = rw (has_suffix-append s t) (ground arith)

take-append : (s t : Text) → take (length s) (s ++ t) ≡ s
take-append [] t = refl
take-append (c ∷ s) t = ap (◌∷◌ c) (take-append s t)

-- A name that ends in "-FILE" brings the name without it as an alias.
file_stem : (base : Text) → take (length (base ++ txt "-FILE") - 5) (base ++ txt "-FILE") ≡ base
file_stem base =
    ap (λ (n : ℕ). take n (base ++ txt "-FILE"))
      (omega (arith, length-append {0} base (txt "-FILE")))
    ∙ take-append base (txt "-FILE")

not_empty : (base : Text) → is_empty (base ++ txt "-FILE") ≡ false
not_empty [] = refl
not_empty (c ∷ base) = refl

formations_file :
    (base : Text)
    → get_formations (flag_by_name (base ++ txt "-FILE"))
      ≡ (b'-' ∷ b'-' ∷ (base ++ txt "-FILE")) ∷ (b'-' ∷ b'-' ∷ base) ∷ []
unfolding get_formations flag_by_name
formations_file base =
    rw (has_suffix-append base (txt "-FILE"), file_stem base) (rw (not_empty base))

-- An unknown flag of a name that is taken is refused.
pub add_by_name_taken :
    (h : Flags) (fs : FlagSet) (name : Text) {r : FlagRef}
    → get fs name ≡ some r
    → add_by_name h fs name ≡ err (name_duplicated name)
unfolding add_by_name
add_by_name_taken h fs name e = rw e

err-ne-ok : {A B C : Type 0} {a : A} {b : C} → ◌≡◌ {A = Res A B C} (err a) (ok b) → ⊥
err-ne-ok e = cc

fresh_parts :
    (h : Flags) (fs : FlagSet) (name : Text) (g : FlagSet) {r : FlagRef} {fs' : FlagSet}
    {h' : Flags}
    → get fs name ≡ none
    → add (h ++ (flag_by_name name ∷ [])) fs (length h) ≡ ok g
    → ◌≡◌ {A = Outcome (FlagRef × FlagSet × Flags)}
        (ok (length h, g, h ++ (flag_by_name name ∷ [])))
        (ok (r, fs', h'))
    → (get fs name ≡ none)
      × (r ≡ length h)
      × (h' ≡ h ++ (flag_by_name name ∷ []))
      × (add h' fs r ≡ ok fs')
fresh_parts h fs name g {r} {fs'} {h'} free added rest = (free, cc, cc, cc)

-- What a successful `AddByName` tells: the name was free; the flag is a new object, made for the
-- name and put behind all others; and the set is the one that `Add` makes with it.
pub add_by_name_fresh :
    (h : Flags) (fs : FlagSet) (name : Text) {r : FlagRef} {fs' : FlagSet} {h' : Flags}
    → add_by_name h fs name ≡ ok (r, fs', h')
    → (get fs name ≡ none)
      × (r ≡ length h)
      × (h' ≡ h ++ (flag_by_name name ∷ []))
      × (add h' fs r ≡ ok fs')
unfolding add_by_name
add_by_name_fresh h fs name {r} {fs'} {h'} e = elim (Option-cases (get fs name)) [
  | inl free ↦
      let made = rw free at e in
      let (g, added, rest) =
        and_then-eq-ok (add (h ++ (flag_by_name name ∷ [])) fs (length h)) _ made in
      fresh_parts h fs name g free added rest
  | inr (q, taken) ↦ absurd (err-ne-ok (sym (add_by_name_taken h fs name taken) ∙ e))
]

-- `Add` of a flag with two formations, the second of which is taken.
add_second_taken :
    (h : Flags) (fs : FlagSet) (r : FlagRef) (s t : Text) {q : FlagRef}
    → check_valid (deref h r) ≡ none
    → get_formations (deref h r) ≡ s ∷ t ∷ []
    → index_get fs.index s ≡ none
    → index_get fs.index t ≡ some q
    → add h fs r ≡ panic (formation_duplicated t)
unfolding add add_formations
add_second_taken h fs r s t {q} valid forms free taken =
    ground (arith, index_get-index_put s t r fs.index)

-- An unknown flag `--x-FILE` that comes after a flag `--x` of the same set ends the program: the
-- alias that the name brings is taken, and `Add` panics.
pub add_by_name_file_panics :
    (h : Flags) (fs : FlagSet) (base : Text) {r : FlagRef}
    → get fs base ≡ some r
    → get fs (base ++ txt "-FILE") ≡ none
    → add_by_name h fs (base ++ txt "-FILE") ≡ panic (formation_duplicated (b'-' ∷ b'-' ∷ base))
unfolding add_by_name check_valid flag_by_name
add_by_name_file_panics h fs base {r} taken free =
    let last = get_or-append_last h (flag_by_name (base ++ txt "-FILE")) empty_flag in
    rw (
      free,
      add_second_taken (h ++ (flag_by_name (base ++ txt "-FILE") ∷ [])) fs (length h) _ _ (rw last)
          (rw last (formations_file base)) free taken,
    )
