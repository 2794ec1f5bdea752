-- ===== src/Config/Store.antt =====
-- The profiles of a configuration: config/configuration.go, and what `configure delete` and
-- `configure switch` do to it once it is loaded (config/configure_delete.go,
-- config/configure_switch.go).
pub mod Lookup
pub mod Current
use aliyun_cli.Base.{
  Text, text_eq, txt, is_empty, Bool, true, false, not, ◌&&◌, ◌||◌, Option, none, some, List, [],
  ◌∷◌, if◌then◌else◌,
}
use aliyun_cli.Config.Profile.{Profile, new_profile}

pub record Configuration : Type 0 where
  pub current_profile : Text
  pub profiles : List Profile
  pub meta_path : Text

abbrev pub default_profile_name : Text
default_profile_name = txt "default"

-- `NewConfiguration`
unfoldable pub new_configuration : Configuration
new_configuration = record {
  current_profile = default_profile_name;
  profiles = new_profile default_profile_name ∷ [];
  meta_path = [];
}

unfoldable pub find_profile : List Profile → Text → Option Profile
find_profile [] name = none
find_profile (p ∷ ps) name = if text_eq p.name name then some p else find_profile ps name

-- A profile with a name and nothing else, as `Profile{Name: pn}`
abbrev pub bare_profile : Text → Profile
bare_profile = new_profile

abbrev pub found_or_bare : Text → Option Profile → Profile × Bool
found_or_bare name none = (bare_profile name, false)
found_or_bare name (some p) = (p, true)

-- `GetProfile`: the profile, or one with this name, and whether it was found.
unfoldable pub get_profile : Configuration → Text → Profile × Bool
get_profile c name = found_or_bare name (find_profile c.profiles name)

unfoldable pub put_among : List Profile → Profile → List Profile
put_among [] profile = profile ∷ []
put_among (p ∷ ps) profile =
    let rest = put_among ps profile in
    if text_eq p.name profile.name then profile ∷ ps else p ∷ rest

-- `PutProfile`
unfoldable pub put_profile : Configuration → Profile → Configuration
put_profile c profile = record c { profiles = put_among c.profiles profile }

-- `NewProfile` of a configuration
unfoldable pub ensure_profile : Configuration → Text → Profile × Configuration
ensure_profile c name =
    let (p, found) = get_profile c name in
    if found then (p, c) else (new_profile name, put_profile c (new_profile name))

-- `GetStringOrDefault` of a flag that has this value, if any.
abbrev pub value_or : Text → Option Text → Text
value_or def none = def
value_or def (some v) = v

-- The name that `GetCurrentProfile` looks up: the flag's, the configuration's or the environment's.
unfoldable pub current_name : Option Text → Text → Configuration → Text
current_name flag env c =
    let name = value_or c.current_profile flag in
    if (is_empty name || text_eq name default_profile_name) && not (is_empty env) then env else name

pub data StoreError : Type 0 where
  profile_not_found : Text → StoreError
  profile_is_required : StoreError

-- The loop of `doConfigureDelete`: the other profiles, and whether one was dropped.
unfoldable pub without : List Profile → Text → List Profile × Bool
without [] name = ([], false)
without (p ∷ ps) name =
    let (rest, deleted) = without ps name in
    if text_eq p.name name then (rest, true) else (p ∷ rest, deleted)

abbrev pub first_name : List Profile → Text
first_name [] = default_profile_name
first_name (p ∷ ps) = p.name

-- `doConfigureDelete` between loading and saving
unfoldable pub delete_profile : Configuration → Text → Option StoreError × Configuration
delete_profile c name =
    let (rest, deleted) = without c.profiles name in
    if not deleted
    then (some (profile_not_found name), c)
    else if text_eq c.current_profile name
    then (none, record c { profiles = rest; current_profile = first_name rest })
    else (none, record c { profiles = rest })

-- `doConfigureSwitch` between loading and saving; the name is the value of `--profile`, if any.
unfoldable pub switch_profile : Configuration → Option Text → Option StoreError × Configuration
switch_profile c none = (some profile_is_required, c)
switch_profile c (some name) =
    let (p, found) = get_profile c name in
    if found
    then (none, record c { current_profile = name })
    else (some (profile_not_found name), c)
