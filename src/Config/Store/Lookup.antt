-- ===== src/Config/Store/Lookup.antt =====
-- `PutProfile` and `GetProfile`.
use aliyun_cli.Base.{
  Text, text_eq, text_eq_iff, text_eq_refl, true, false, Bool-cases, ◌≡◌, sym, ap, ◌∙◌, ◌≢◌, ◌⊎◌,
  inl, inr, false≢true, some, List, [], ◌∷◌,
}
use aliyun_cli.Config.Profile.{Profile}
use aliyun_cli.Config.Store.{
  Configuration, found_or_bare, find_profile, get_profile, put_among, put_profile,
}

pub text_eq-ne : (a b : Text) → a ≢ b → text_eq a b ≡ false
text_eq-ne a b h = elim (Bool-cases (text_eq a b)) [
  | inl e ↦ absurd (h ((text_eq_iff a b).0 e))
  | inr e ↦ e
]

find_profile-put_self :
    (ps : List Profile) (p : Profile) → find_profile (put_among ps p) p.name ≡ some p
unfolding find_profile put_among
find_profile-put_self [] p = rw (text_eq_refl p.name)
find_profile-put_self (q ∷ ps) p = elim (Bool-cases (text_eq q.name p.name)) [
  | inl same ↦ rw (same, text_eq_refl p.name)
  | inr other ↦ rw (other, other) (find_profile-put_self ps p)
]

find_profile-put_ne :
    (ps : List Profile) (p : Profile) (name : Text)
    → p.name ≢ name
    → find_profile (put_among ps p) name ≡ find_profile ps name
unfolding find_profile put_among
find_profile-put_ne [] p name h = rw (text_eq-ne p.name name h)
find_profile-put_ne (q ∷ ps) p name h = elim (Bool-cases (text_eq q.name p.name)) [
  | inl same ↦
      let e : q.name ≡ p.name = (text_eq_iff q.name p.name).0 same in
      let hq : q.name ≢ name = λ x. h (sym e ∙ x) in
      rw (same, text_eq-ne p.name name h, text_eq-ne q.name name hq)
  | inr other ↦ rw (other, find_profile-put_ne ps p name h)
]

-- After `PutProfile`, `GetProfile` finds the profile under its name, and under every other name
-- what it found before.
pub get_profile-put_profile :
    (c : Configuration) (p : Profile) (name : Text)
    → (get_profile (put_profile c p) p.name ≡ (p, true))
      × ((p.name ≡ name) ⊎ (get_profile (put_profile c p) name ≡ get_profile c name))
unfolding get_profile put_profile
get_profile-put_profile c p name = (
  ap (found_or_bare p.name) (find_profile-put_self c.profiles p),
  elim (Bool-cases (text_eq p.name name)) [
    | inl same ↦ inl ((text_eq_iff p.name name).0 same)
    | inr other ↦
        let ne : p.name ≢ name = λ e. false≢true (sym other ∙ (text_eq_iff p.name name).1 e) in
        inr (ap (found_or_bare name) (find_profile-put_ne c.profiles p name ne))
  ],
)
