-- ===== src/Config/Store/Current.antt =====
-- The current profile stays one of the configuration's.
use aliyun_cli.Base.{
  Text, txt, ◌≢◌, text_eq, text_eq_iff, text_eq_refl, true, false, Bool-cases, Option-cases,
  is_some, ◌≡◌, refl, sym, ap, ◌∙◌, ◌⊎◌, inl, inr, false≢true, none, some, List, [], ◌∷◌, arith,
}
use aliyun_cli.Config.Profile.{Profile}
use aliyun_cli.Config.Store.{
  Configuration, find_profile, get_profile, without, first_name, profile_not_found, delete_profile,
  switch_profile,
}

-- There is a profile of this name.
abbrev pub Has : List Profile → Text → Type 0
Has ps name = is_some (find_profile ps name) ≡ true

abbrev pub HasCurrent : Configuration → Type 0
HasCurrent c = Has c.profiles c.current_profile

find_profile-without_self :
    (ps : List Profile) (name : Text) → find_profile (without ps name).0 name ≡ none
unfolding find_profile without
find_profile-without_self [] name = refl
find_profile-without_self (p ∷ ps) name = elim (Bool-cases (text_eq p.name name)) [
  | inl same ↦ rw (same, find_profile-without_self ps name)
  | inr other ↦ rw (other, other) (find_profile-without_self ps name)
]

find_profile-without_ne :
    (ps : List Profile) (name other : Text)
    → text_eq name other ≡ false
    → find_profile (without ps name).0 other ≡ find_profile ps other
unfolding find_profile without
find_profile-without_ne [] name other h = refl
find_profile-without_ne (p ∷ ps) name other h = elim (Bool-cases (text_eq p.name name)) [
  | inl same ↦
      let e : text_eq p.name other ≡ false =
        ap (λ t. text_eq t other) ((text_eq_iff p.name name).0 same) ∙ h in
      rw (same, e) (find_profile-without_ne ps name other h)
  | inr kept ↦ rw (kept, find_profile-without_ne ps name other h)
]

first_name-Has : (p : Profile) (ps : List Profile) → Has (p ∷ ps) (first_name (p ∷ ps))
unfolding find_profile
first_name-Has p ps = rw (text_eq_refl p.name)

-- What `delete_profile` leaves where it finds the name.
delete-cases :
    (c : Configuration) (name : Text)
    → (delete_profile c name).0 ≡ none
    → ((delete_profile c name).1.profiles ≡ (without c.profiles name).0)
      × (((text_eq c.current_profile name ≡ true)
            × ((delete_profile c name).1.current_profile ≡ first_name (without c.profiles name).0))
          ⊎ ((text_eq c.current_profile name ≡ false)
              × ((delete_profile c name).1.current_profile ≡ c.current_profile)))
unfolding delete_profile
delete-cases c name h = elim (Bool-cases (without c.profiles name).1) [
  | inl deleted ↦ elim (Bool-cases (text_eq c.current_profile name)) [
    | inl current ↦ rw (deleted, current) (refl, inl (refl, refl))
    | inr other ↦ rw (deleted, other) (refl, inr (refl, refl))
  ]
  | inr missing ↦ ground (arith, h)
]

-- Where `configure delete` succeeds, no profile of the deleted name is left and every other name
-- still finds its profile.
pub delete_profile_finds :
    (c : Configuration) (name other : Text)
    → (delete_profile c name).0 ≡ none
    → (find_profile (delete_profile c name).1.profiles name ≡ none)
      × ((text_eq name other ≡ true)
          ⊎ (find_profile (delete_profile c name).1.profiles other ≡ find_profile c.profiles other))
delete_profile_finds c name other h =
    let (rest, _) = delete-cases c name h in
    (
      ap (λ ps. find_profile ps name) rest ∙ find_profile-without_self c.profiles name,
      elim (Bool-cases (text_eq name other)) [
        | inl same ↦ inl same
        | inr ne ↦ inr (
            ap (λ ps. find_profile ps other) rest
            ∙ find_profile-without_ne c.profiles name other ne)
      ],
    )

first_name-cases : (ps : List Profile) → (ps ≡ []) ⊎ Has ps (first_name ps)
first_name-cases [] = inl refl
first_name-cases (p ∷ ps) = inr (first_name-Has p ps)

text_eq_comm : (a b : Text) → text_eq a b ≡ false → text_eq b a ≡ false
text_eq_comm a b h = elim (Bool-cases (text_eq b a)) [
  | inl e ↦ absurd (false≢true (sym h ∙ (text_eq_iff a b).1 (sym ((text_eq_iff b a).0 e))))
  | inr e ↦ e
]

still_current :
    (c : Configuration) (name : Text)
    → (delete_profile c name).0 ≡ none
    → HasCurrent c
    → ((delete_profile c name).1.profiles ≡ []) ⊎ HasCurrent (delete_profile c name).1
still_current c name h has =
    let (rest, now) = delete-cases c name h in
    elim now [
      | inl (deleted, first) ↦ elim (first_name-cases (without c.profiles name).0) [
        | inl nothing ↦ inl (rest ∙ nothing)
        | inr found ↦ inr (
            ap (λ ps. is_some (find_profile ps (delete_profile c name).1.current_profile)) rest
            ∙ ap (λ n. is_some (find_profile (without c.profiles name).0 n)) first
            ∙ found)
      ]
      | inr (other, same) ↦ inr (
          ap (λ ps. is_some (find_profile ps (delete_profile c name).1.current_profile)) rest
          ∙ ap (λ n. is_some (find_profile (without c.profiles name).0 n)) same
          ∙ ap is_some (
              find_profile-without_ne c.profiles name c.current_profile
                (text_eq_comm c.current_profile name other))
          ∙ has)
    ]

-- What is the current profile once the one of a name is deleted: the one that it was, or, where that was
-- deleted, the first that is left, and `default` where none is.
abbrev pub NextCurrent : Configuration → Text → Configuration → Type 0
NextCurrent before name after =
    ((before.current_profile ≢ name) × (after.current_profile ≡ before.current_profile))
    ⊎ ((before.current_profile ≡ name)
        × (((after.profiles ≡ []) × (after.current_profile ≡ txt "default"))
            ⊎ ((p : Profile) × (ps : List Profile) × (after.profiles ≡ p ∷ ps)
                × (after.current_profile ≡ p.name))))

first_left :
    (after : Configuration) (ps : List Profile)
    → after.profiles ≡ ps
    → after.current_profile ≡ first_name ps
    → ((after.profiles ≡ []) × (after.current_profile ≡ txt "default"))
      ⊎ ((p : Profile) × (ps : List Profile) × (after.profiles ≡ p ∷ ps)
          × (after.current_profile ≡ p.name))
first_left after [] e h = inl (e, h)
first_left after (p ∷ ps) e h = inr (p, ps, e, h)

delete_profile-NextCurrent :
    (c : Configuration) (name : Text)
    → (delete_profile c name).0 ≡ none
    → NextCurrent c name (delete_profile c name).1
delete_profile-NextCurrent c name h =
    let (rest, now) = delete-cases c name h in
    elim now [
      | inl (deleted, first) ↦ inr (
        (text_eq_iff c.current_profile name).0 deleted,
        first_left (delete_profile c name).1 (without c.profiles name).0 rest first,
      )
      | inr (other, same) ↦
          inl (λ e. false≢true (sym other ∙ (text_eq_iff c.current_profile name).1 e), same)
    ]

-- Where `configure delete` succeeds on a configuration whose current profile exists, the current
-- profile stays the current one if it is not the deleted one; if it is, the first profile that is
-- left takes its place, or the name `default` where none is left. So the current profile exists
-- afterwards too, unless no profile is left at all.
pub delete_profile_current :
    (c : Configuration) (name : Text)
    → (delete_profile c name).0 ≡ none
    → HasCurrent c
    → NextCurrent c name (delete_profile c name).1
      × (((delete_profile c name).1.profiles ≡ []) ⊎ HasCurrent (delete_profile c name).1)
delete_profile_current c name h has =
    (delete_profile-NextCurrent c name h, still_current c name h has)

-- `configure switch` changes only the current profile: it succeeds exactly if the profile exists,
-- and then makes it the current one; otherwise the configuration is left as it was.
pub switch_profile_current :
    (c : Configuration) (name : Text)
    → ((switch_profile c (some name) ≡ (none, record c { current_profile = name }))
        × HasCurrent (switch_profile c (some name)).1)
      ⊎ ((switch_profile c (some name) ≡ (some (profile_not_found name), c))
          × (find_profile c.profiles name ≡ none))
unfolding switch_profile get_profile
switch_profile_current c name = elim (Option-cases (find_profile c.profiles name)) [
  | inl missing ↦ inr (rw missing refl, missing)
  | inr (p, found) ↦ inl (rw found refl, rw (found, found))
]
