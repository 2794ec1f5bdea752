-- ===== src/Tests/Profiles.antt =====
-- The profiles and the configuration file (config) at concrete data.
use aliyun_cli.Base.{
  pos, negsuc, Text, txt, text_eq, one_of, trim_space, to_lower, Bool, true, false, ◌≡◌, refl, sym,
  ap, ◌⊎◌, Option, none, some, [], ◌∷◌, if◌then◌else◌,
}
use aliyun_cli.Config.Profile.{
  mode_bearer_token, mode_ak, Profile, new_profile, normalize_mode, is_region,
  auto_mode_recognition, validate,
}
use aliyun_cli.Config.Profile.Bearer.{IsHeaderKey, IsHeaderValue, validate_header}
use aliyun_cli.Config.Profile.Recognition.{auto_mode_recognition_validates}
use aliyun_cli.Config.Profile.Overwrite.{
  FlagValues, Getenv, get_from_env, mode_or, integer_or, overwrite_with_flags,
}
use aliyun_cli.Config.Profile.Overwrite.Precedence.{Precedes, region_keys, overwrite-TakenFrom}
use aliyun_cli.Config.Profile.{filled}
use aliyun_cli.Config.Store.{Configuration, find_profile, delete_profile}
use aliyun_cli.Config.Store.Current.{NextCurrent, HasCurrent, delete_profile_current}
use aliyun_cli.Config.AtomicWrite.{Disk, read, is_file, Calls, target, atomic_write, short_write}
use aliyun_cli.Config.AtomicWrite.Outcomes.{Whole, atomic_write-Whole}

abbrev bearer : Profile
bearer = record (new_profile (txt "b")) {
  mode = mode_bearer_token;
  region_id = txt "cn-hangzhou";
  bearer_token_value = txt "tok\n";
  bearer_token_header_key = txt " x-token ";
}

abbrev bearer_left : Profile
bearer_left = record bearer {
  bearer_token_value = txt "tok";
  bearer_token_header_key = txt "x-token";
}

bearer_validated : validate bearer ≡ (none, bearer_left)
unfolding validate is_region text_eq aliyun_cli.Config.Profile.validate_bearer
    aliyun_cli.Config.Profile.normalize_bearer_token_fields
    aliyun_cli.Config.Profile.normalize_header_key trim_space aliyun_cli.Config.Profile.contains_any
    one_of aliyun_cli.Config.Profile.all_printable aliyun_cli.Config.Profile.sanitize_value
bearer_validated = refl

validate_header_example :
    ((◌≡◌ {A = Text} (txt "x-token") []) ⊎ IsHeaderKey (txt "x-token"))
    × IsHeaderValue (txt "tok")
    × (false ≡ false)
validate_header_example = validate_header bearer bearer_left refl bearer_validated

normalized : normalize_mode (txt "bearertoken") ≡ mode_bearer_token
unfolding normalize_mode aliyun_cli.Config.Profile.mode_among text_eq to_lower
normalized = refl

abbrev keys : Profile
keys = record (new_profile (txt "k")) {
  region_id = txt "cn-hangzhou";
  role_session_name = txt "s";
  access_key_id = txt "id";
  access_key_secret = txt "secret";
}

recognized : (auto_mode_recognition keys).mode ≡ mode_ak
unfolding auto_mode_recognition aliyun_cli.Config.Profile.recognized_mode
recognized = refl

auto_mode_recognition_validates_example :
    ((auto_mode_recognition keys).mode ≡ [])
    ⊎ ((auto_mode_recognition keys).mode ≡ mode_bearer_token)
    ⊎ ((validate (auto_mode_recognition keys)).0 ≡ none)
unfolding is_region
auto_mode_recognition_validates_example = auto_mode_recognition_validates keys refl refl refl refl

abbrev conf : Configuration
conf = record { current_profile = txt "k"; profiles = keys ∷ bearer ∷ []; meta_path = [] }

k_deleted : (delete_profile conf (txt "k")).0 ≡ none
unfolding delete_profile aliyun_cli.Config.Store.without text_eq
k_deleted = refl

conf_current : HasCurrent conf
unfolding find_profile text_eq
conf_current = refl

delete_profile_current_example :
    NextCurrent conf (txt "k") (delete_profile conf (txt "k")).1
    × (((delete_profile conf (txt "k")).1.profiles ≡ [])
        ⊎ HasCurrent (delete_profile conf (txt "k")).1)
delete_profile_current_example = delete_profile_current conf (txt "k") k_deleted conf_current

abbrev short : Calls
short = record {
  lstat = is_file;
  resolved = none;
  temp = some (txt ".c.tmp");
  chmod = true;
  written = 1;
  write_ok = true;
  sync = true;
  close = true;
  renamed = true;
  removed = true;
}

abbrev disk : Disk
disk = (txt "c", some (txt "old")) ∷ (txt "d", some (txt "other")) ∷ []

-- A short write leaves the old file.
kept :
    ((atomic_write short (txt "c") (txt "new") disk).0 ≡ some short_write)
    × (read (atomic_write short (txt "c") (txt "new") disk).1 (txt "c") ≡ some (txt "old"))
unfolding atomic_write target aliyun_cli.Config.AtomicWrite.write_temp read
    aliyun_cli.Config.AtomicWrite.clean_up text_eq
kept = (refl, refl)

written_whole :
    read (atomic_write (record short { written = 3 }) (txt "c") (txt "new") disk).1 (txt "c")
    ≡ some (txt "new")
unfolding read atomic_write target aliyun_cli.Config.AtomicWrite.clean_up text_eq
    aliyun_cli.Config.AtomicWrite.write_temp aliyun_cli.Config.AtomicWrite.rename
written_whole = refl

temp_differs :
    (temp : Text) → short.temp ≡ some temp → text_eq temp (target short (txt "c")).1 ≡ false
unfolding text_eq target
temp_differs temp e = ap differs (sym e)
  where
    differs : Option Text → Bool
    differs none = false
    differs (some t) = text_eq t (target short (txt "c")).1

atomic_write-Whole_example :
    Whole
      (target short (txt "c")).1
      (txt "new")
      disk
      (atomic_write short (txt "c") (txt "new") disk)
atomic_write-Whole_example = atomic_write-Whole short (txt "c") (txt "new") disk temp_differs

abbrev given_flags : FlagValues
given_flags name =
    if text_eq name (txt "mode")
    then some (txt "ak")
    else if text_eq name (txt "region")
    then some (txt "eu-central-1")
    else none

abbrev variables : Getenv
variables key = if text_eq key (txt "ACCESS_KEY_ID") then txt "from-env" else []

-- The region is the flag's, the key that is missing the environment's, and the mode is final.
overwritten :
    let q = overwrite_with_flags given_flags variables bearer in
    (q.region_id ≡ txt "eu-central-1") × (q.access_key_id ≡ txt "from-env") × (q.mode ≡ mode_ak)
unfolding overwrite_with_flags auto_mode_recognition
    aliyun_cli.Config.Profile.Overwrite.with_env_mode aliyun_cli.Config.Profile.Overwrite.with_env
    aliyun_cli.Config.Profile.Overwrite.with_flags mode_or text_eq trim_space normalize_mode
    aliyun_cli.Config.Profile.mode_among to_lower aliyun_cli.Config.Profile.Overwrite.or_env
    get_from_env
overwritten = (refl, refl, refl)

timeout_read : integer_or (some (txt "-15")) (pos 3) ≡ negsuc 14
unfolding integer_or aliyun_cli.Config.Profile.Overwrite.atoi
    aliyun_cli.Config.Profile.Overwrite.digits
timeout_read = refl

overwrite-TakenFrom_example :
    Precedes
      (some (txt "eu-central-1"))
      (txt "cn-hangzhou")
      variables
      region_keys
      (overwrite_with_flags given_flags variables bearer).region_id
unfolding text_eq
overwrite-TakenFrom_example = (overwrite-TakenFrom given_flags variables bearer).3

mode_given : filled (mode_or (given_flags (txt "mode")) mode_bearer_token) ≡ true
unfolding mode_or text_eq trim_space normalize_mode aliyun_cli.Config.Profile.mode_among to_lower
mode_given = refl
