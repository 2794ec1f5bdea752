-- ===== src/Config/Profile/Data.antt =====
-- The data of config/profile.go: the modes of authentication and the record of a profile.
use aliyun_cli.Base.{
  ℤ, pos, ℕ, Text, txt, text_eq, to_lower, Bool, false, List, [], ◌∷◌, if◌then◌else◌,
}

-- A Go string type
abbrev pub AuthenticateMode : Type 0
AuthenticateMode = Text

abbrev pub mode_ak : AuthenticateMode
mode_ak = txt "AK"

abbrev pub mode_sts_token : AuthenticateMode
mode_sts_token = txt "StsToken"

abbrev pub mode_ram_role_arn : AuthenticateMode
mode_ram_role_arn = txt "RamRoleArn"

abbrev pub mode_ecs_ram_role : AuthenticateMode
mode_ecs_ram_role = txt "EcsRamRole"

abbrev pub mode_rsa_key_pair : AuthenticateMode
mode_rsa_key_pair = txt "RsaKeyPair"

abbrev pub mode_ram_role_arn_with_ecs : AuthenticateMode
mode_ram_role_arn_with_ecs = txt "RamRoleArnWithRoleName"

abbrev pub mode_chainable_ram_role_arn : AuthenticateMode
mode_chainable_ram_role_arn = txt "ChainableRamRoleArn"

abbrev pub mode_external : AuthenticateMode
mode_external = txt "External"

abbrev pub mode_credentials_uri : AuthenticateMode
mode_credentials_uri = txt "CredentialsURI"

abbrev pub mode_oidc : AuthenticateMode
mode_oidc = txt "OIDC"

abbrev pub mode_cloud_sso : AuthenticateMode
mode_cloud_sso = txt "CloudSSO"

abbrev pub mode_oauth : AuthenticateMode
mode_oauth = txt "OAuth"

abbrev pub mode_bearer_token : AuthenticateMode
mode_bearer_token = txt "BearerToken"

abbrev pub mode_anonymous : AuthenticateMode
mode_anonymous = txt "Anonymous"

abbrev pub known_modes : List AuthenticateMode
known_modes =
    mode_ak ∷ mode_sts_token ∷ mode_ram_role_arn ∷ mode_ecs_ram_role ∷ mode_rsa_key_pair
    ∷ mode_ram_role_arn_with_ecs ∷ mode_chainable_ram_role_arn ∷ mode_external
    ∷ mode_credentials_uri ∷ mode_oidc ∷ mode_cloud_sso ∷ mode_oauth ∷ mode_bearer_token
    ∷ mode_anonymous ∷ []

-- The first of `modes` that is `mode` up to case (`strings.EqualFold`), else `mode` itself.
unfoldable pub mode_among : List AuthenticateMode → Text → AuthenticateMode
mode_among [] mode = mode
mode_among (m ∷ ms) mode =
    let rest = mode_among ms mode in if text_eq (to_lower mode) (to_lower m) then m else rest

unfoldable pub normalize_mode : Text → AuthenticateMode
normalize_mode = mode_among known_modes

pub record Profile : Type 0 where
  pub name : Text
  pub mode : AuthenticateMode
  pub access_key_id : Text
  pub access_key_secret : Text
  pub sts_token : Text
  pub sts_expiration : ℕ
  pub ram_role_name : Text
  pub ram_role_arn : Text
  pub role_session_name : Text
  pub source_profile : Text
  pub private_key : Text
  pub key_pair_name : Text
  pub region_id : Text
  pub process_command : Text
  pub credentials_uri : Text
  pub oidc_provider_arn : Text
  pub oidc_token_file : Text
  pub cloud_sso_sign_in_url : Text
  pub oauth_access_token : Text
  pub oauth_refresh_token : Text
  pub oauth_access_token_expire : ℕ
  pub oauth_site_type : Text
  pub endpoint : Text
  pub bearer_token_value : Text
  pub bearer_token_header_key : Text
  pub sts_region : Text
  pub sts_endpoint : Text
  pub external_id : Text
  pub read_timeout : ℤ
  pub connect_timeout : ℤ
  pub retry_count : ℤ
  pub expired_seconds : ℤ
  pub cloud_sso_access_config : Text
  pub cloud_sso_account_id : Text
  pub endpoint_type : Text
  pub external_account_type : Text
  pub auto_plugin_install : Bool
  pub auto_plugin_install_enable_pre : Bool

-- `NewProfile`: of the fields of the record, only the name is set.
abbrev pub new_profile : Text → Profile
new_profile name = record {
  name = name;
  mode = [];
  access_key_id = [];
  access_key_secret = [];
  sts_token = [];
  sts_expiration = 0;
  ram_role_name = [];
  ram_role_arn = [];
  role_session_name = [];
  source_profile = [];
  private_key = [];
  key_pair_name = [];
  region_id = [];
  process_command = [];
  credentials_uri = [];
  oidc_provider_arn = [];
  oidc_token_file = [];
  cloud_sso_sign_in_url = [];
  oauth_access_token = [];
  oauth_refresh_token = [];
  oauth_access_token_expire = 0;
  oauth_site_type = [];
  endpoint = [];
  bearer_token_value = [];
  bearer_token_header_key = [];
  sts_region = [];
  sts_endpoint = [];
  external_id = [];
  read_timeout = pos 0;
  connect_timeout = pos 0;
  retry_count = pos 0;
  expired_seconds = pos 0;
  cloud_sso_access_config = [];
  cloud_sso_account_id = [];
  endpoint_type = [];
  external_account_type = [];
  auto_plugin_install = false;
  auto_plugin_install_enable_pre = false;
}
