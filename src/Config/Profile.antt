-- ===== src/Config/Profile.antt =====
-- config/profile.go: what a profile needs for its mode, how a mode is recognised, and the fields
-- of a bearer token. Of the record, the fields that are read or written here and in Overwrite; the
-- language and the output format, which are only handed on, are left out.
mod Data
pub mod Bearer
pub mod Overwrite
pub mod Recognition
unfoldable pub use Data.*
use aliyun_cli.Base.{
  ℕ, Text, text_eq, txt, is_empty, one_of, trim_space, Bool, true, false, not, ◌&&◌, ◌||◌, ◌==◌,
  leb, Option, none, some, [], ◌∷◌, if◌then◌else◌, ◌⊎◌, inl, inr,
}

-- The errors of `Validate`; `not_configured` tells the field.
pub data ProfileError : Type 0 where
  region_is_empty : ProfileError
  invalid_region : Text → ProfileError
  no_mode : ProfileError
  not_configured : Text → ProfileError
  invalid_site_type : Text → ProfileError
  invalid_mode : Text → ProfileError
  control_characters : ProfileError
  space_or_colon : ProfileError
  not_printable : ProfileError

-- `IsRegion`: letters, digits and `-` only
abbrev pub is_region_char : ℕ → Bool
is_region_char c =
    (leb b'a' c && leb c b'z')
    || (leb b'A' c && leb c b'Z')
    || (leb b'0' c && leb c b'9')
    || c == b'-'

unfoldable pub is_region : Text → Bool
is_region [] = true
is_region (c ∷ s) = is_region_char c && is_region s

-- `none` where `s` is filled.
abbrev pub require : Text → Text → Option ProfileError
require s field = if is_empty s then some (not_configured field) else none

-- The first of two checks that fails.
abbrev pub first_of : Option ProfileError → Option ProfileError → Option ProfileError
first_of none q = q
first_of (some e) q = some e

-- `ValidateAK`
unfoldable pub validate_ak : Profile → Option ProfileError
validate_ak p =
    first_of (require p.access_key_id (txt "access_key_id"))
      (require p.access_key_secret (txt "access_key_secret"))

-- `strings.ContainsAny`
unfoldable pub contains_any : Text → Text → Bool
contains_any chars [] = false
contains_any chars (c ∷ s) = one_of chars c || contains_any chars s

-- `r <= unicode.MaxASCII && unicode.IsPrint(r)`
abbrev pub is_printable : ℕ → Bool
is_printable c = leb 32 c && leb c 126

unfoldable pub all_printable : Text → Bool
all_printable [] = true
all_printable (c ∷ s) = is_printable c && all_printable s

-- `NormalizeBearerTokenHeaderKey`
unfoldable pub normalize_header_key : Text → ProfileError ⊎ Text
normalize_header_key key0 =
    let key = trim_space key0 in
    if is_empty key
    then inr []
    else if contains_any (13 ∷ 10 ∷ 0 ∷ []) key
    then inl control_characters
    else if contains_any (32 ∷ 9 ∷ b':' ∷ []) key
    then inl space_or_colon
    else if all_printable key
    then inr key
    else inl not_printable

-- `SanitizeBearerTokenValue`
unfoldable pub sanitize_value : Text → Text
sanitize_value [] = []
sanitize_value (c ∷ s) =
    let rest = sanitize_value s in
    if not (c == 13) && not (c == 10) && not (c == 0) then c ∷ rest else rest

abbrev pub sanitized : Profile → Text → Profile
sanitized p key = record p {
  bearer_token_header_key = key;
  bearer_token_value = sanitize_value p.bearer_token_value;
}

abbrev pub with_key : Profile → ProfileError ⊎ Text → Option ProfileError × Profile
with_key p (inl e) = (some e, p)
with_key p (inr key) = (none, sanitized p key)

-- `normalizeBearerTokenFields`: the error, and the profile as it is left.
unfoldable pub normalize_bearer_token_fields : Profile → Option ProfileError × Profile
normalize_bearer_token_fields p =
    if is_empty p.bearer_token_header_key
    then (none, sanitized p p.bearer_token_header_key)
    else with_key p (normalize_header_key p.bearer_token_header_key)

-- The case `BearerToken` of `Validate`
unfoldable pub validate_bearer : Profile → Option ProfileError × Profile
validate_bearer p =
    let (e, q) = normalize_bearer_token_fields p in
    (first_of e (require q.bearer_token_value (txt "bearer_token")), q)

-- The `switch` of `Validate` but for `BearerToken`
unfoldable pub validate_mode : Profile → Option ProfileError
validate_mode p =
    let m = p.mode in
    if text_eq m mode_ak
    then validate_ak p
    else if text_eq m mode_sts_token
    then first_of (validate_ak p) (require p.sts_token (txt "sts_token"))
    else if text_eq m mode_ram_role_arn
    then first_of (validate_ak p) (
        first_of (require p.ram_role_arn (txt "ram_role_arn"))
          (require p.role_session_name (txt "role_session_name")))
    else if text_eq m mode_ecs_ram_role || text_eq m mode_ram_role_arn_with_ecs
    then none
    else if text_eq m mode_rsa_key_pair
    then first_of (require p.private_key (txt "private_key"))
        (require p.key_pair_name (txt "key_pair_name"))
    else if text_eq m mode_external
    then require p.process_command (txt "process_command")
    else if text_eq m mode_credentials_uri
    then require p.credentials_uri (txt "credentials_uri")
    else if text_eq m mode_oidc
    then first_of (require p.oidc_provider_arn (txt "oidc_provider_arn")) (
        first_of (require p.oidc_token_file (txt "oidc_token_file")) (
          first_of (require p.ram_role_arn (txt "ram_role_arn"))
            (require p.role_session_name (txt "role_session_name"))))
    else if text_eq m mode_chainable_ram_role_arn
    then first_of (require p.source_profile (txt "source_profile")) (
        first_of (require p.ram_role_arn (txt "ram_role_arn"))
          (require p.role_session_name (txt "role_session_name")))
    else if text_eq m mode_cloud_sso
    then require p.cloud_sso_sign_in_url (txt "cloud_sso_sign_in_url")
    else if text_eq m mode_oauth
    then if text_eq p.oauth_site_type (txt "CN") || text_eq p.oauth_site_type (txt "INTL")
      then none
      else some (invalid_site_type p.oauth_site_type)
    else if text_eq m mode_anonymous
    then none
    else some (invalid_mode m)

-- `Validate`: the error, and the profile as it is left.
unfoldable pub validate : Profile → Option ProfileError × Profile
validate p =
    if is_empty p.region_id
    then (some region_is_empty, p)
    else if not (is_region p.region_id)
    then (some (invalid_region p.region_id), p)
    else if is_empty p.mode
    then (some no_mode, p)
    else if text_eq p.mode mode_bearer_token
    then validate_bearer p
    else (validate_mode p, p)

abbrev pub filled : Text → Bool
filled s = not (is_empty s)

-- The mode that `AutoModeRecognition` sets where there is none.
unfoldable pub recognized_mode : Profile → AuthenticateMode
recognized_mode p =
    if filled p.access_key_id && filled p.access_key_secret
    then if filled p.sts_token
      then mode_sts_token
      else if filled p.ram_role_arn
      then mode_ram_role_arn
      else mode_ak
    else if filled p.private_key && filled p.key_pair_name
    then mode_rsa_key_pair
    else if filled p.ram_role_name
    then mode_ecs_ram_role
    else if filled p.process_command
    then mode_external
    else if filled p.oidc_provider_arn && filled p.oidc_token_file && filled p.ram_role_arn
    then mode_oidc
    else if filled p.cloud_sso_sign_in_url
    then mode_cloud_sso
    else if filled p.bearer_token_value
    then mode_bearer_token
    else []

-- `AutoModeRecognition`
unfoldable pub auto_mode_recognition : Profile → Profile
auto_mode_recognition p = if filled p.mode then p else record p { mode = recognized_mode p }

-- `mergeProfileAfterCredentialRefresh`
unfoldable pub merge_after_refresh : Profile → Profile → Profile
merge_after_refresh disk p = record disk {
  access_key_id = p.access_key_id;
  access_key_secret = p.access_key_secret;
  sts_token = p.sts_token;
  sts_expiration = p.sts_expiration;
  oauth_access_token = p.oauth_access_token;
  oauth_refresh_token = p.oauth_refresh_token;
  oauth_access_token_expire = p.oauth_access_token_expire;
}

-- `OpenAPIAuthType`
unfoldable pub open_api_auth_type : Profile → Text
open_api_auth_type p =
    if text_eq p.mode mode_anonymous
    then txt "Anonymous"
    else if text_eq p.mode mode_bearer_token && filled p.bearer_token_header_key
    then txt "Anonymous"
    else if text_eq p.mode mode_bearer_token
    then txt "bearer"
    else txt "AK"
