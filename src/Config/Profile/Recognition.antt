-- ===== src/Config/Profile/Recognition.antt =====
-- The mode that `AutoModeRecognition` sets is one for which the profile is complete.
use aliyun_cli.Base.{
  Text, text_eq, is_empty, Bool, true, false, ◌&&◌, Bool-cases, ◌≡◌, refl, sym, ap, subst, ◌∙◌, ◌⊎◌,
  inl, inr, none, [], arith,
}
use aliyun_cli.Config.Profile.{
  AuthenticateMode, mode_ak, mode_sts_token, mode_ram_role_arn, mode_ecs_ram_role,
  mode_rsa_key_pair, mode_external, mode_oidc, mode_cloud_sso, mode_bearer_token, Profile,
  is_region, validate_ak, validate_mode, validate, filled, recognized_mode, auto_mode_recognition,
}

abbrev pub with_mode : Profile → AuthenticateMode → Profile
with_mode p m = record p { mode = m }

module _ (p : Profile) (region : is_empty p.region_id ≡ false)
    (good : is_region p.region_id ≡ true) where
  validate-mode :
      (m : AuthenticateMode)
      → is_empty m ≡ false
      → text_eq m mode_bearer_token ≡ false
      → (validate (with_mode p m)).0 ≡ validate_mode (with_mode p m)
  unfolding validate
  validate-mode m h k = rw (region, good, h, k)

filled-empty : (s : Text) → filled s ≡ true → is_empty s ≡ false
filled-empty s h = ground arith

and-true : (a b : Bool) → a && b ≡ true → (a ≡ true) × (b ≡ true)
and-true a b h = ground arith

-- What `Validate` asks of the credentials in each mode that can be recognised.
mode-ak :
    (p : Profile)
    → filled p.access_key_id && filled p.access_key_secret ≡ true
    → validate_mode (with_mode p mode_ak) ≡ none
unfolding validate_mode validate_ak text_eq
mode-ak p h =
    let (a, b) = and-true (filled p.access_key_id) (filled p.access_key_secret) h in
    rw (filled-empty p.access_key_id a, filled-empty p.access_key_secret b)

mode-sts_token :
    (p : Profile)
    → filled p.access_key_id && filled p.access_key_secret ≡ true
    → filled p.sts_token ≡ true
    → validate_mode (with_mode p mode_sts_token) ≡ none
unfolding validate_mode validate_ak text_eq
mode-sts_token p h c =
    let (a, b) = and-true (filled p.access_key_id) (filled p.access_key_secret) h in
    rw (
      filled-empty p.access_key_id a,
      filled-empty p.access_key_secret b,
      filled-empty p.sts_token c,
    )

mode-ram_role_arn :
    (p : Profile)
    → filled p.access_key_id && filled p.access_key_secret ≡ true
    → filled p.ram_role_arn ≡ true
    → is_empty p.role_session_name ≡ false
    → validate_mode (with_mode p mode_ram_role_arn) ≡ none
unfolding validate_mode validate_ak text_eq
mode-ram_role_arn p h c s =
    let (a, b) = and-true (filled p.access_key_id) (filled p.access_key_secret) h in
    rw (
      filled-empty p.access_key_id a,
      filled-empty p.access_key_secret b,
      filled-empty p.ram_role_arn c,
      s,
    )

mode-rsa_key_pair :
    (p : Profile)
    → filled p.private_key && filled p.key_pair_name ≡ true
    → validate_mode (with_mode p mode_rsa_key_pair) ≡ none
unfolding validate_mode text_eq
mode-rsa_key_pair p h =
    let (a, b) = and-true (filled p.private_key) (filled p.key_pair_name) h in
    rw (filled-empty p.private_key a, filled-empty p.key_pair_name b)

mode-ecs_ram_role : (p : Profile) → validate_mode (with_mode p mode_ecs_ram_role) ≡ none
unfolding validate_mode text_eq
mode-ecs_ram_role p = refl

mode-external :
    (p : Profile)
    → filled p.process_command ≡ true
    → validate_mode (with_mode p mode_external) ≡ none
unfolding validate_mode text_eq
mode-external p h = rw (filled-empty p.process_command h)

mode-oidc :
    (p : Profile)
    → filled p.oidc_provider_arn && filled p.oidc_token_file && filled p.ram_role_arn ≡ true
    → is_empty p.role_session_name ≡ false
    → validate_mode (with_mode p mode_oidc) ≡ none
unfolding validate_mode text_eq
mode-oidc p h s =
    let (ab, c) =
      and-true (filled p.oidc_provider_arn && filled p.oidc_token_file) (filled p.ram_role_arn) h in
    let (a, b) = and-true (filled p.oidc_provider_arn) (filled p.oidc_token_file) ab in
    rw (
      filled-empty p.oidc_provider_arn a,
      filled-empty p.oidc_token_file b,
      filled-empty p.ram_role_arn c,
      s,
    )

mode-cloud_sso :
    (p : Profile)
    → filled p.cloud_sso_sign_in_url ≡ true
    → validate_mode (with_mode p mode_cloud_sso) ≡ none
unfolding validate_mode text_eq
mode-cloud_sso p h = rw (filled-empty p.cloud_sso_sign_in_url h)

-- The mode is none, `BearerToken`, or one for which the credentials are complete.
abbrev Fits : Profile → AuthenticateMode → Type 0
Fits p m =
    (m ≡ [])
    ⊎ (m ≡ mode_bearer_token)
    ⊎ ((validate_mode (with_mode p m) ≡ none)
        × (is_empty m ≡ false)
        × (text_eq m mode_bearer_token ≡ false))

fits :
    (p : Profile) (m : AuthenticateMode)
    → recognized_mode p ≡ m
    → validate_mode (with_mode p m) ≡ none
    → is_empty m ≡ false
    → text_eq m mode_bearer_token ≡ false
    → Fits p (recognized_mode p)
fits p m e h k l = subst (Fits p) (sym e) (inr (inr (h, k, l)))

recognized_mode-Fits :
    (p : Profile) → is_empty p.role_session_name ≡ false → Fits p (recognized_mode p)
unfolding recognized_mode text_eq
recognized_mode-Fits p s =
    elim (Bool-cases (filled p.access_key_id && filled p.access_key_secret)) [
      | inl ak ↦ elim (Bool-cases (filled p.sts_token)) [
        | inl t ↦ fits p mode_sts_token (rw (ak, t)) (mode-sts_token p ak t) refl refl
        | inr e1 ↦ elim (Bool-cases (filled p.ram_role_arn)) [
          | inl t ↦ fits p mode_ram_role_arn (rw (ak, e1, t)) (mode-ram_role_arn p ak t s) refl refl
          | inr e2 ↦ fits p mode_ak (rw (ak, e1, e2)) (mode-ak p ak) refl refl
        ]
      ]
      | inr e1 ↦ elim (Bool-cases (filled p.private_key && filled p.key_pair_name)) [
        | inl t ↦ fits p mode_rsa_key_pair (rw (e1, t)) (mode-rsa_key_pair p t) refl refl
        | inr e2 ↦ elim (Bool-cases (filled p.ram_role_name)) [
          | inl t ↦ fits p mode_ecs_ram_role (rw (e1, e2, t)) (mode-ecs_ram_role p) refl refl
          | inr e3 ↦ elim (Bool-cases (filled p.process_command)) [
            | inl t ↦ fits p mode_external (rw (e1, e2, e3, t)) (mode-external p t) refl refl
            | inr e4 ↦
                elim (Bool-cases (
                  filled p.oidc_provider_arn
                  && filled p.oidc_token_file
                  && filled p.ram_role_arn)) [
                    | inl t ↦ fits p mode_oidc (rw (e1, e2, e3, e4, t)) (mode-oidc p t s) refl refl
                    | inr e5 ↦ elim (Bool-cases (filled p.cloud_sso_sign_in_url)) [
                      | inl t ↦
                          fits p mode_cloud_sso (rw (e1, e2, e3, e4, e5, t)) (mode-cloud_sso p t)
                            refl refl
                      | inr e6 ↦ elim (Bool-cases (filled p.bearer_token_value)) [
                        | inl t ↦ inr (inl (rw (e1, e2, e3, e4, e5, e6, t)))
                        | inr e7 ↦ inl (rw (e1, e2, e3, e4, e5, e6, e7))
                      ]
                    ]
                  ]
          ]
        ]
      ]
    ]

recognizes : (p : Profile) → p.mode ≡ [] → auto_mode_recognition p ≡ with_mode p (recognized_mode p)
unfolding auto_mode_recognition
recognizes p h = let e : filled p.mode ≡ false = ap filled h in rw e

-- A profile without a mode, with a valid region and a role session name: `AutoModeRecognition`
-- leaves it without a mode, gives it the mode `BearerToken`, or gives it a mode in which
-- `Validate` accepts it.
pub auto_mode_recognition_validates :
    (p : Profile)
    → p.mode ≡ []
    → is_empty p.region_id ≡ false
    → is_region p.region_id ≡ true
    → is_empty p.role_session_name ≡ false
    → ((auto_mode_recognition p).mode ≡ [])
      ⊎ ((auto_mode_recognition p).mode ≡ mode_bearer_token)
      ⊎ ((validate (auto_mode_recognition p)).0 ≡ none)
auto_mode_recognition_validates p no_mode region good session =
    let e : auto_mode_recognition p ≡ with_mode p (recognized_mode p) = recognizes p no_mode in
    elim (recognized_mode-Fits p session) [
      | inl nothing ↦ inl (ap (λ q. q.mode) e ∙ nothing)
      | inr (inl bearer) ↦ inr (inl (ap (λ q. q.mode) e ∙ bearer))
      | inr (inr (fine, given, other)) ↦ inr (
          inr (
            ap (λ q. (validate q).0) e
            ∙ validate-mode p region good (recognized_mode p) given other
            ∙ fine))
    ]
