-- ===== src/Config/Profile/Overwrite/Precedence.antt =====
-- Which of the flag, the profile and the environment a field is taken from.
use aliyun_cli.Base.{
  ℕ, Text, txt, text_eq, is_empty, true, false, ◌&&◌, Bool-cases, ◌≡◌, refl, sym, ap, subst, ◌∙◌,
  ◌⊎◌, inl, inr, Option, none, some, List, [], ◌∷◌, arith,
}
use aliyun_cli.Config.Profile.{
  AuthenticateMode, mode_anonymous, Profile, normalize_mode, filled, recognized_mode,
  auto_mode_recognition,
}
use aliyun_cli.Config.Profile.Overwrite.{
  FlagValues, Getenv, get_from_env, flag_or, mode_or, with_flags, or_env, with_env, with_env_mode,
  overwrite_with_flags,
}

-- The first of the variables that is not empty, and the empty text where all are.
pub data FirstFilled : Getenv → List Text → Text → Type 0 where
  all_empty : {getenv : Getenv} → FirstFilled getenv [] []
  filled_here :
      {getenv : Getenv} (key : Text) (keys : List Text) (c : ℕ) (v : Text)
      → getenv key ≡ c ∷ v
      → FirstFilled getenv (key ∷ keys) (c ∷ v)
  empty_here :
      {getenv : Getenv} (key : Text) (keys : List Text) (v : Text)
      → getenv key ≡ []
      → FirstFilled getenv keys v
      → FirstFilled getenv (key ∷ keys) v

text_cases : (s : Text) → (s ≡ []) ⊎ ((c : ℕ) × (v : Text) × (s ≡ c ∷ v))
text_cases [] = inl refl
text_cases (c ∷ v) = inr (c, v, refl)

get_from_env-FirstFilled :
    (getenv : Getenv) (keys : List Text) → FirstFilled getenv keys (get_from_env getenv keys)
unfolding get_from_env
get_from_env-FirstFilled getenv [] = all_empty
get_from_env-FirstFilled getenv (key ∷ keys) = elim (text_cases (getenv key)) [
  | inl empty ↦ rw empty (empty_here key keys _ empty (get_from_env-FirstFilled getenv keys))
  | inr (c, v, e) ↦ rw e (filled_here key keys c v e)
]

-- The value of a field, from its flag, the profile and its variables in the environment.
pub data TakenFrom : Option Text → Text → Text → Text → Type 0 where
  from_flag : {c : ℕ} {v stored env : Text} → TakenFrom (some (c ∷ v)) stored env (c ∷ v)
  from_profile : {c : ℕ} {v env : Text} → TakenFrom none (c ∷ v) env (c ∷ v)
  from_env : {env : Text} → TakenFrom none [] env env
  from_env_behind_flag : {stored env : Text} → TakenFrom (some []) stored env env

resolved :
    (flag : Option Text) (stored : Text) (getenv : Getenv) (keys : List Text)
    → TakenFrom flag stored (get_from_env getenv keys) (or_env getenv keys (flag_or flag stored))
unfolding or_env
resolved none [] getenv keys = from_env
resolved none (c ∷ v) getenv keys = from_profile
resolved (some []) stored getenv keys = from_env_behind_flag
resolved (some (c ∷ v)) stored getenv keys = from_flag

-- The value of a field, where its variables in the environment are the ones of these names.
abbrev pub Precedes : Option Text → Text → Getenv → List Text → Text → Type 0
Precedes flag stored getenv keys v =
    (env : Text) × FirstFilled getenv keys env × TakenFrom flag stored env v

-- What comes last changes the mode only.
module _ {A : Type 0} (field : Profile → A)
    (keeps : (p : Profile) (m : AuthenticateMode) → field (record p { mode = m }) ≡ field p) where
  same_recognized : (p : Profile) → field (auto_mode_recognition p) ≡ field p
  unfolding auto_mode_recognition
  same_recognized p = elim (Bool-cases (filled p.mode)) [
    | inl kept ↦ rw kept
    | inr none_yet ↦ rw none_yet (keeps p (recognized_mode p))
  ]

  same_env_mode : (getenv : Getenv) (p : Profile) → field (with_env_mode getenv p) ≡ field p
  unfolding with_env_mode
  same_env_mode getenv p =
      elim (Bool-cases (
        is_empty p.mode
        && text_eq (normalize_mode (get_from_env getenv (txt "ALIBABA_CLOUD_PROFILE_MODE" ∷ [])))
            mode_anonymous)) [ inl set ↦ rw set (keeps p mode_anonymous) | inr unset ↦ rw unset ]

  same_field :
      (flags : FlagValues) (getenv : Getenv) (p : Profile)
      → field (overwrite_with_flags flags getenv p) ≡ field (with_env getenv (with_flags flags p))
  unfolding overwrite_with_flags
  same_field flags getenv p =
      same_recognized (with_env_mode getenv (with_env getenv (with_flags flags p)))
      ∙ same_env_mode getenv (with_env getenv (with_flags flags p))

-- The variables that `OverwriteWithFlags` reads for the four fields, in their order.
abbrev pub id_keys : List Text
id_keys =
    txt "ALIBABA_CLOUD_ACCESS_KEY_ID"
    ∷ txt "ALIBABACLOUD_ACCESS_KEY_ID"
    ∷ txt "ALICLOUD_ACCESS_KEY_ID"
    ∷ txt "ACCESS_KEY_ID"
    ∷ []

abbrev pub secret_keys : List Text
secret_keys =
    txt "ALIBABA_CLOUD_ACCESS_KEY_SECRET"
    ∷ txt "ALIBABACLOUD_ACCESS_KEY_SECRET"
    ∷ txt "ALICLOUD_ACCESS_KEY_SECRET"
    ∷ txt "ACCESS_KEY_SECRET"
    ∷ []

abbrev pub token_keys : List Text
token_keys =
    txt "ALIBABA_CLOUD_SECURITY_TOKEN"
    ∷ txt "ALIBABACLOUD_SECURITY_TOKEN"
    ∷ txt "ALICLOUD_SECURITY_TOKEN"
    ∷ txt "SECURITY_TOKEN"
    ∷ []

abbrev pub region_keys : List Text
region_keys =
    txt "ALIBABA_CLOUD_REGION_ID"
    ∷ txt "ALIBABACLOUD_REGION_ID"
    ∷ txt "ALICLOUD_REGION_ID"
    ∷ txt "REGION_ID"
    ∷ txt "REGION"
    ∷ []

-- A text field that the flags and then the environment fill.
precedes :
    (flags : FlagValues) (getenv : Getenv) (p : Profile) (field : Profile → Text)
    → ((p : Profile) (m : AuthenticateMode) → field (record p { mode = m }) ≡ field p)
    → (flag : Text) (keys : List Text)
    → field (with_env getenv (with_flags flags p))
      ≡ or_env getenv keys (flag_or (flags flag) (field p))
    → Precedes (flags flag) (field p) getenv keys (field (overwrite_with_flags flags getenv p))
precedes flags getenv p field keeps flag keys e = (
  get_from_env getenv keys,
  get_from_env-FirstFilled getenv keys,
  subst (TakenFrom (flags flag) (field p) (get_from_env getenv keys))
      (sym (same_field field keeps flags getenv p ∙ e))
      (resolved (flags flag) (field p) getenv keys),
)

-- `OverwriteWithFlags` takes the access key, its secret, the security token and the region each
-- from its flag, if that has a value that is not empty; else, if the flag is not assigned, from
-- the profile, if the field is not empty there; and else from the first of its variables in the
-- environment that is not empty.
pub overwrite-TakenFrom :
    (flags : FlagValues) (getenv : Getenv) (p : Profile)
    → let q = overwrite_with_flags flags getenv p in
      Precedes (flags (txt "access-key-id")) p.access_key_id getenv id_keys q.access_key_id
      × Precedes
          (flags (txt "access-key-secret"))
          p.access_key_secret
          getenv
          secret_keys
          q.access_key_secret
      × Precedes (flags (txt "sts-token")) p.sts_token getenv token_keys q.sts_token
      × Precedes (flags (txt "region")) p.region_id getenv region_keys q.region_id
unfolding with_flags with_env
overwrite-TakenFrom flags getenv p = (
  precedes flags getenv p (λ q. q.access_key_id) (λ _ _. refl) (txt "access-key-id") id_keys refl,
  precedes flags getenv p (λ q. q.access_key_secret) (λ _ _. refl) (txt "access-key-secret")
      secret_keys refl,
  precedes flags getenv p (λ q. q.sts_token) (λ _ _. refl) (txt "sts-token") token_keys refl,
  precedes flags getenv p (λ q. q.region_id) (λ _ _. refl) (txt "region") region_keys refl,
)

mode_recognized : (p : Profile) → filled p.mode ≡ true → (auto_mode_recognition p).mode ≡ p.mode
unfolding auto_mode_recognition
mode_recognized p h = rw h

mode_env : (getenv : Getenv) (p : Profile) → filled p.mode ≡ true → with_env_mode getenv p ≡ p
unfolding with_env_mode
mode_env getenv p h = let e : is_empty p.mode ≡ false = ground arith in rw e

-- A mode that `--mode` gives or that the profile has is final: neither the environment nor the
-- credentials that are there change it.
pub overwrite_mode :
    (flags : FlagValues) (getenv : Getenv) (p : Profile)
    → filled (mode_or (flags (txt "mode")) p.mode) ≡ true
    → (overwrite_with_flags flags getenv p).mode ≡ mode_or (flags (txt "mode")) p.mode
unfolding overwrite_with_flags with_env with_flags
overwrite_mode flags getenv p h =
    ap (λ q. (auto_mode_recognition q).mode)
      (mode_env getenv (with_env getenv (with_flags flags p)) h)
    ∙ mode_recognized (with_env getenv (with_flags flags p)) h
