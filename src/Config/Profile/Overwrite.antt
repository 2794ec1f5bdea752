-- ===== src/Config/Profile/Overwrite.antt =====
-- `OverwriteWithFlags` of config/profile.go: flags go before the profile, the profile before the
-- environment.
pub mod Precedence
use aliyun_cli.Base.{
  ℤ, pos, negsuc, ◌*◌, ℕ, zero, suc, ◌+◌, ◌-◌, Text, txt, text_eq, is_empty, trim_space, Bool, true,
  false, ◌&&◌, ◌==◌, leb, Option, none, some, List, [], ◌∷◌, if◌then◌else◌,
}
use aliyun_cli.Config.Profile.{
  AuthenticateMode, mode_anonymous, Profile, normalize_mode, filled, auto_mode_recognition,
}

-- The value of an assigned flag by its name.
abbrev pub FlagValues : Type 0
FlagValues = Text → Option Text

-- `os.Getenv`: a variable that is not set reads as empty.
abbrev pub Getenv : Type 0
Getenv = Text → Text

-- `util.GetFromEnv`: the first of the variables that is not empty.
unfoldable pub get_from_env : Getenv → List Text → Text
get_from_env getenv [] = []
get_from_env getenv (key ∷ keys) =
    let rest = get_from_env getenv keys in if filled (getenv key) then getenv key else rest

-- `GetStringOrDefault`
abbrev pub flag_or : Option Text → Text → Text
flag_or none def = def
flag_or (some v) def = v

-- The decimal digits of a number behind those read so far.
unfoldable pub digits : ℕ → Text → Option ℕ
digits n [] = some n
digits n (c ∷ s) =
    let rest = digits (n * 10 + (c - b'0')) s in if leb b'0' c && leb c b'9' then rest else none

-- `-n`
abbrev pub negative : ℕ → ℤ
negative zero = pos zero
negative (suc n) = negsuc n

abbrev pub within : ℕ → (ℕ → ℤ) → Option ℕ → Option ℤ
within bound sign none = none
within bound sign (some n) = if leb n bound then some (sign n) else none

-- `strconv.Atoi`, with the bounds of 64 bits
unfoldable pub atoi : Text → Option ℤ
atoi [] = none
atoi (c ∷ s) =
    if c == b'-'
    then (if is_empty s then none else within 9223372036854775808 negative (digits 0 s))
    else if c == b'+'
    then (if is_empty s then none else within 9223372036854775807 pos (digits 0 s))
    else within 9223372036854775807 pos (digits 0 (c ∷ s))

abbrev pub parsed_or : Option ℤ → ℤ → ℤ
parsed_or none def = def
parsed_or (some i) def = i

-- `GetIntegerOrDefault`: what does not parse is passed over.
unfoldable pub integer_or : Option Text → ℤ → ℤ
integer_or none def = def
integer_or (some v) def = parsed_or (atoi v) def

-- The mode that a flag `--mode` sets; an empty one is ignored.
unfoldable pub mode_or : Option Text → AuthenticateMode → AuthenticateMode
mode_or none mode = mode
mode_or (some v) mode =
    let given = trim_space v in if filled given then normalize_mode given else mode

unfoldable pub with_flags : FlagValues → Profile → Profile
with_flags flags p = record p {
  mode = mode_or (flags (txt "mode")) p.mode;
  access_key_id = flag_or (flags (txt "access-key-id")) p.access_key_id;
  access_key_secret = flag_or (flags (txt "access-key-secret")) p.access_key_secret;
  sts_token = flag_or (flags (txt "sts-token")) p.sts_token;
  sts_region = flag_or (flags (txt "sts-region")) p.sts_region;
  sts_endpoint = flag_or (flags (txt "sts-endpoint")) p.sts_endpoint;
  ram_role_name = flag_or (flags (txt "ram-role-name")) p.ram_role_name;
  ram_role_arn = flag_or (flags (txt "ram-role-arn")) p.ram_role_arn;
  external_id = flag_or (flags (txt "external-id")) p.external_id;
  role_session_name = flag_or (flags (txt "role-session-name")) p.role_session_name;
  key_pair_name = flag_or (flags (txt "key-pair-name")) p.key_pair_name;
  private_key = flag_or (flags (txt "private-key")) p.private_key;
  region_id = flag_or (flags (txt "region")) p.region_id;
  process_command = flag_or (flags (txt "process-command")) p.process_command;
  oidc_provider_arn = flag_or (flags (txt "oidc-provider-arn")) p.oidc_provider_arn;
  oidc_token_file = flag_or (flags (txt "oidc-token-file")) p.oidc_token_file;
  cloud_sso_sign_in_url = flag_or (flags (txt "cloud-sso-sign-in-url")) p.cloud_sso_sign_in_url;
  cloud_sso_access_config =
      flag_or (flags (txt "cloud-sso-access-config")) p.cloud_sso_access_config;
  cloud_sso_account_id = flag_or (flags (txt "cloud-sso-account-id")) p.cloud_sso_account_id;
  endpoint_type = flag_or (flags (txt "endpoint-type")) p.endpoint_type;
  endpoint = flag_or (flags (txt "endpoint")) p.endpoint;
  external_account_type = flag_or (flags (txt "external-account-type")) p.external_account_type;
  bearer_token_value = flag_or (flags (txt "bearer-token")) p.bearer_token_value;
  bearer_token_header_key =
      flag_or (flags (txt "bearer-token-header-key")) p.bearer_token_header_key;
  read_timeout = integer_or (flags (txt "read-timeout")) p.read_timeout;
  connect_timeout = integer_or (flags (txt "connect-timeout")) p.connect_timeout;
  retry_count = integer_or (flags (txt "retry-count")) p.retry_count;
  expired_seconds = integer_or (flags (txt "expired-seconds")) p.expired_seconds;
}

-- A field that is empty is taken from the environment.
unfoldable pub or_env : Getenv → List Text → Text → Text
or_env getenv keys s = if is_empty s then get_from_env getenv keys else s

-- A switch that is off is turned on by `true`.
abbrev pub switched : Getenv → Text → Bool → Bool
switched getenv key true = true
switched getenv key false = text_eq (getenv key) (txt "true")

unfoldable pub with_env : Getenv → Profile → Profile
with_env getenv p = record p {
  access_key_id =
      or_env getenv
        (txt "ALIBABA_CLOUD_ACCESS_KEY_ID"
          ∷ txt "ALIBABACLOUD_ACCESS_KEY_ID"
          ∷ txt "ALICLOUD_ACCESS_KEY_ID"
          ∷ txt "ACCESS_KEY_ID"
          ∷ [])
        p.access_key_id;
  access_key_secret =
      or_env getenv
        (txt "ALIBABA_CLOUD_ACCESS_KEY_SECRET"
          ∷ txt "ALIBABACLOUD_ACCESS_KEY_SECRET"
          ∷ txt "ALICLOUD_ACCESS_KEY_SECRET"
          ∷ txt "ACCESS_KEY_SECRET"
          ∷ [])
        p.access_key_secret;
  sts_token =
      or_env getenv
        (txt "ALIBABA_CLOUD_SECURITY_TOKEN"
          ∷ txt "ALIBABACLOUD_SECURITY_TOKEN"
          ∷ txt "ALICLOUD_SECURITY_TOKEN"
          ∷ txt "SECURITY_TOKEN"
          ∷ [])
        p.sts_token;
  sts_endpoint = or_env getenv (txt "ALIBABA_CLOUD_STS_ENDPOINT" ∷ []) p.sts_endpoint;
  ram_role_arn =
      or_env getenv (txt "ALIBABACLOUD_ROLE_ARN" ∷ txt "ALIBABA_CLOUD_ROLE_ARN" ∷ [])
        p.ram_role_arn;
  external_id =
      or_env getenv (txt "ALIBABACLOUD_EXTERNAL_ID" ∷ txt "ALIBABA_CLOUD_EXTERNAL_ID" ∷ [])
        p.external_id;
  region_id =
      or_env getenv
        (txt "ALIBABA_CLOUD_REGION_ID"
          ∷ txt "ALIBABACLOUD_REGION_ID"
          ∷ txt "ALICLOUD_REGION_ID"
          ∷ txt "REGION_ID"
          ∷ txt "REGION"
          ∷ [])
        p.region_id;
  oidc_provider_arn =
      or_env getenv
        (txt "ALIBABACLOUD_OIDC_PROVIDER_ARN" ∷ txt "ALIBABA_CLOUD_OIDC_PROVIDER_ARN" ∷ [])
        p.oidc_provider_arn;
  oidc_token_file =
      or_env getenv (txt "ALIBABACLOUD_OIDC_TOKEN_FILE" ∷ txt "ALIBABA_CLOUD_OIDC_TOKEN_FILE" ∷ [])
        p.oidc_token_file;
  endpoint_type =
      or_env getenv
        (txt "ALIBABA_CLOUD_ENDPOINT_TYPE"
          ∷ txt "ALIBABACLOUD_ENDPOINT_TYPE"
          ∷ txt "ALICLOUD_ENDPOINT_TYPE"
          ∷ txt "ENDPOINT_TYPE"
          ∷ [])
        p.endpoint_type;
  endpoint = or_env getenv (txt "ALIBABA_CLOUD_ENDPOINT" ∷ []) p.endpoint;
  external_account_type =
      or_env getenv (txt "ALIBABA_CLOUD_EXTERNAL_ACCOUNT_TYPE" ∷ []) p.external_account_type;
  bearer_token_value = or_env getenv (txt "ALIBABA_CLOUD_BEARER_TOKEN" ∷ []) p.bearer_token_value;
  bearer_token_header_key =
      or_env getenv (txt "ALIBABA_CLOUD_BEARER_TOKEN_HEADER_KEY" ∷ []) p.bearer_token_header_key;
  credentials_uri = or_env getenv (txt "ALIBABA_CLOUD_CREDENTIALS_URI" ∷ []) p.credentials_uri;
  auto_plugin_install =
      switched getenv (txt "ALIBABA_CLOUD_CLI_PLUGIN_AUTO_INSTALL") p.auto_plugin_install;
  auto_plugin_install_enable_pre =
      switched getenv (txt "ALIBABA_CLOUD_CLI_PLUGIN_AUTO_INSTALL_ENABLE_PRE")
        p.auto_plugin_install_enable_pre;
}

-- Of the modes, only `Anonymous` can come from the environment.
unfoldable pub with_env_mode : Getenv → Profile → Profile
with_env_mode getenv p =
    let env_mode = get_from_env getenv (txt "ALIBABA_CLOUD_PROFILE_MODE" ∷ []) in
    if is_empty p.mode && text_eq (normalize_mode env_mode) mode_anonymous
    then record p { mode = mode_anonymous }
    else p

-- `OverwriteWithFlags`
unfoldable pub overwrite_with_flags : FlagValues → Getenv → Profile → Profile
overwrite_with_flags flags getenv p =
    auto_mode_recognition (with_env_mode getenv (with_env getenv (with_flags flags p)))
