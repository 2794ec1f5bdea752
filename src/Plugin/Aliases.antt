-- ===== src/Plugin/Aliases.antt =====
-- cli/plugin/install_validation.go and cli/plugin/reserved.go: the command and the aliases of a plugin must
-- not collide with those of the program and of other plugins. A map is an association list, in the
-- order in which the code meets its keys.
pub mod Apart
pub mod Routes
use aliyun_cli.Base.{
  Text, txt, text_eq, is_empty, has_prefix, trim_space, to_lower, Bool, false, not, ◌&&◌, ◌||◌,
  Option, none, some, List, [], ◌∷◌, ◌++◌, drop, if◌then◌else◌, Res, ok, err, and_then,
}

-- `normalizeCommandName`
unfoldable pub normalize_command_name : Text → Text
normalize_command_name s = to_lower (trim_space s)

unfoldable pub is_among : Text → List Text → Bool
is_among key [] = false
is_among key (k ∷ keys) = text_eq key k || is_among key keys

-- `reservedTopLevelCommands`
abbrev pub built_in_commands : List Text
built_in_commands =
    txt "aliyun"
    ∷ txt "configure"
    ∷ txt "version"
    ∷ txt "auto-completion"
    ∷ txt "help"
    ∷ txt "plugin"
    ∷ txt "upgrade"
    ∷ txt "oss"
    ∷ txt "ossutil"
    ∷ txt "mcp"
    ∷ txt "mock"
    ∷ []

-- `RegisterReservedTopLevelCommands`
unfoldable pub register_reserved : List Text → List Text → List Text
register_reserved [] reserved = reserved
register_reserved (n ∷ names) reserved =
    let key = normalize_command_name n in
    register_reserved names
      (if is_empty key || is_among key reserved then reserved else key ∷ reserved)

-- `IsReservedTopLevelCommand`
unfoldable pub is_reserved : List Text → Text → Bool
is_reserved reserved name =
    not (is_empty (normalize_command_name name)) && is_among (normalize_command_name name) reserved

-- The loop of `sanitizeCommandAliases`
unfoldable pub sanitize_from : Text → List Text → List Text → List Text
sanitize_from cmd_key seen [] = []
sanitize_from cmd_key seen (a ∷ raw) =
    let key = normalize_command_name a in
    let dropped = is_empty key || text_eq key cmd_key || is_among key seen in
    let rest = sanitize_from cmd_key (if dropped then seen else key ∷ seen) raw in
    if dropped then rest else key ∷ rest

unfoldable pub sanitize_command_aliases : Text → List Text → List Text
sanitize_command_aliases command raw = sanitize_from (normalize_command_name command) [] raw

pub data ManifestError : Type 0 where
  command_is_empty alias_is_empty : ManifestError
  command_is_built_in alias_is_command alias_is_duplicated alias_is_built_in : Text → ManifestError
  conflict : Text → Text → ManifestError

pub record LocalPlugin : Type 0 where
  pub command : Text
  pub command_aliases : List Text

abbrev pub Outcome : Type 0 → Type 0
Outcome A = Res ManifestError ⊥ A

-- The aliases one by one; `seen` has the command and the aliases ahead.
unfoldable pub check_aliases : List Text → Text → List Text → List Text → Outcome (List Text)
check_aliases reserved cmd_key seen [] = ok seen
check_aliases reserved cmd_key seen (a ∷ aliases) =
    let key = normalize_command_name a in
    let rest = check_aliases reserved cmd_key (key ∷ seen) aliases in
    if is_empty key
    then err alias_is_empty
    else if text_eq key cmd_key
    then err (alias_is_command key)
    else if is_among key seen
    then err (alias_is_duplicated key)
    else if is_reserved reserved key
    then err (alias_is_built_in key)
    else rest

-- `strings.TrimPrefix(s, "aliyun-cli-")`
abbrev pub short_name : Text → Text
short_name s = if has_prefix s (txt "aliyun-cli-") then drop 11 s else s

abbrev pub key_if_named : Text → List Text
key_if_named [] = []
key_if_named (c ∷ s) = (c ∷ s) ∷ []

unfoldable pub alias_keys : List Text → List Text
alias_keys [] = []
alias_keys (a ∷ aliases) = key_if_named (normalize_command_name a) ++ alias_keys aliases

-- `collectPluginRoutingKeys`, without what each key is for
unfoldable pub collect_routing_keys : Text → LocalPlugin → List Text
collect_routing_keys name lp =
    key_if_named (normalize_command_name lp.command)
    ++ (alias_keys lp.command_aliases
        ++ (key_if_named (normalize_command_name name)
            ++ key_if_named (normalize_command_name (short_name (to_lower (trim_space name))))))

unfoldable pub first_common : List Text → List Text → Option Text
first_common [] others = none
first_common (k ∷ keys) others =
    let later = first_common keys others in if is_among k others then some k else later

abbrev pub conflict_or : Option Text → Text → Outcome (Unit {0}) → Outcome (Unit {0})
conflict_or none name rest = rest
conflict_or (some key) name rest = err (conflict key name)

-- The installed plugins one by one; the plugin itself is passed over.
unfoldable pub check_others : Text → List Text → List (Text × LocalPlugin) → Outcome (Unit {0})
check_others own seen [] = ok tt
check_others own seen ((name, lp) ∷ plugins) =
    let rest = check_others own seen plugins in
    if text_eq (to_lower (trim_space name)) own
    then rest
    else conflict_or (first_common seen (collect_routing_keys name lp)) name rest

-- `validatePluginCommandAndAliases`
unfoldable pub validate_command_and_aliases :
    List Text → List (Text × LocalPlugin) → Text → Text → List Text → Outcome (Unit {0})
validate_command_and_aliases reserved plugins actual_name command aliases =
    let cmd_key = normalize_command_name command in
    if is_empty cmd_key
    then err command_is_empty
    else if is_reserved reserved cmd_key
    then err (command_is_built_in cmd_key)
    else and_then (check_aliases reserved cmd_key (cmd_key ∷ []) aliases)
        λ seen. check_others (to_lower (trim_space actual_name)) seen plugins
