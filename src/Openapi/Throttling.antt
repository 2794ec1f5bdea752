-- ===== src/Openapi/Throttling.antt =====
-- sysconfig/throttlingretry/config.go: how throttled calls are retried, from the configuration file and
-- the environment.
use aliyun_cli.Base.{
  suc, Text, txt, text_eq, trim_space, Bool, true, false, ◌||◌, Option, none, some, ℤ, pos, negsuc,
  if◌then◌else◌,
}
use aliyun_cli.Config.Profile.Overwrite.{atoi}

pub record Config : Type 0 where
  pub enabled : Option Bool
  pub max_attempts : ℤ
  pub max_delay_ms : ℤ

-- `Default`
abbrev pub default_config : Config
default_config = record { enabled = none; max_attempts = pos 0; max_delay_ms = pos 0 }

abbrev pub config_of : Option Bool → ℤ → ℤ → Config
config_of enabled attempts delay = record {
  enabled = enabled;
  max_attempts = attempts;
  max_delay_ms = delay;
}

-- The file as `os.ReadFile` and `json.Unmarshal` give it.
pub data ConfigFile : Type 0 where
  absent unreadable not_json : ConfigFile
  parsed : Config → ConfigFile

abbrev pub at_least_zero : ℤ → ℤ
at_least_zero (pos n) = pos n
at_least_zero (negsuc n) = pos 0

-- `Load`; `none` where the file cannot be read.
unfoldable pub load_config : ConfigFile → Option Config
load_config absent = some default_config
load_config unreadable = none
load_config not_json = some default_config
load_config (parsed c) =
    some (config_of c.enabled (at_least_zero c.max_attempts) (at_least_zero c.max_delay_ms))

-- `strconv.ParseBool`
unfoldable pub parse_bool : Text → Option Bool
parse_bool s =
    if text_eq s (txt "1")
      || text_eq s (txt "t")
      || text_eq s (txt "T")
      || text_eq s (txt "TRUE")
      || text_eq s (txt "true")
      || text_eq s (txt "True")
    then some true
    else if text_eq s (txt "0")
        || text_eq s (txt "f")
        || text_eq s (txt "F")
        || text_eq s (txt "FALSE")
        || text_eq s (txt "false")
        || text_eq s (txt "False")
    then some false
    else none

-- The variables of the environment, where they are set.
pub record Variables : Type 0 where
  pub env_enabled : Option Text
  pub env_max_attempts : Option Text
  pub env_max_delay_ms : Option Text

abbrev pub some_or : Option Bool → Option Bool → Option Bool
some_or none old = old
some_or (some b) old = some b

abbrev pub enabled_or : Option Text → Option Bool → Option Bool
enabled_or none old = old
enabled_or (some raw) old = some_or (parse_bool (trim_space raw)) old

-- A number that is larger than zero replaces the old one.
abbrev pub positive_or : Option ℤ → ℤ → ℤ
positive_or (some (pos (suc n))) old = pos (suc n)
positive_or _ old = old

abbrev pub number_or : Option Text → ℤ → ℤ
number_or none old = old
number_or (some raw) old = positive_or (atoi (trim_space raw)) old

-- `MergeFromEnv`
unfoldable pub merge_from_env : Variables → Config → Config
merge_from_env v base =
    config_of (enabled_or v.env_enabled base.enabled)
      (number_or v.env_max_attempts base.max_attempts)
      (number_or v.env_max_delay_ms base.max_delay_ms)

abbrev pub merged_with : Variables → Option Config → Option Config
merged_with v none = none
merged_with v (some c) = some (merge_from_env v c)

-- `LoadEffective`
unfoldable pub load_effective : ConfigFile → Variables → Option Config
load_effective file v = merged_with v (load_config file)
