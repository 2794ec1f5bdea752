-- ===== src/Tests/Plugins.antt =====
-- Plugins (cli/plugin) at concrete archives and names.
use aliyun_cli.Plugin.Archive.Files.{has_parent, IsLexical}
use aliyun_cli.Plugin.Aliases.Apart.{Among, among_first, among_later, InstalledElse}
use aliyun_cli.Base.{
  split, Bool-cases, inl, inr, false, if◌then◌else◌, ℕ, Text, txt, text_eq, has_prefix, trim_space,
  to_lower, Bool, true, false, ◌≡◌, refl, List, [], ◌∷◌, ◌++◌, pos, ok, err,
}
use aliyun_cli.Plugin.Archive.{
  Limits, Paths, dots_in_path, over_limit, regular, Entry, ArchiveFile, untar_with_limits,
  safe_archive_target,
}
use aliyun_cli.Plugin.Archive.Bounds.{IsSafe, untar_with_limits-IsSafe}
use aliyun_cli.Plugin.Aliases.{
  LocalPlugin, conflict, built_in_commands, validate_command_and_aliases, sanitize_command_aliases,
  is_reserved, collect_routing_keys, register_reserved,
}
use aliyun_cli.Plugin.Aliases.Routes.{key_of, LeadsTo, validate_command_and_aliases_apart}

abbrev starts_with_slash : Text → Bool
starts_with_slash s = has_prefix s (txt "/")

-- A path that leads up is taken to be the root.
abbrev clean_path : Text → Text
clean_path s = if has_parent (split b'/' s) then txt "/" else s

abbrev plain_paths : Paths
plain_paths = record {
  is_abs = starts_with_slash;
  clean = clean_path;
  join_path = λ dir name. dir ++ (b'/' ∷ name);
  separator = txt "/";
}

abbrev small_limits : Limits
small_limits = record { archive_bytes = 100; file_bytes = 8; extracted_bytes = 10; entries = 3 }

abbrev file_entry : Text → ℕ → ℕ → Entry
file_entry name size available = record {
  name = name;
  kind = regular;
  size = pos size;
  available = available;
  unreadable = false;
  mkdir_fails = false;
  create_fails = false;
  copy_fails = false;
  remove_fails = false;
  close_fails = false;
}

abbrev small_archive : ArchiveFile
small_archive = record { missing = false; is_dir = false; bytes = 40; unopened = false }

unpacks_two :
    untar_with_limits plain_paths
      (txt "/p")
      small_limits
      small_archive
      (file_entry (txt "a") 4 4 ∷ file_entry (txt "b") 6 6 ∷ [])
    ≡ (
      ok (record { extracted = 10; written = (txt "/p/a", 4) ∷ (txt "/p/b", 6) ∷ [] }),
      record { extracted = 10; written = (txt "/p/a", 4) ∷ (txt "/p/b", 6) ∷ [] },
    )
unfolding untar_with_limits aliyun_cli.Plugin.Archive.validate_archive_size
    aliyun_cli.Plugin.Archive.untar_entries aliyun_cli.Plugin.Archive.untar_entry
    safe_archive_target has_prefix aliyun_cli.Plugin.Archive.has_dots
    aliyun_cli.Plugin.Archive.validate_extracted_file_size
    aliyun_cli.Plugin.Archive.write_extracted_file aliyun_cli.Plugin.Archive.put_file text_eq
    has_parent split
unpacks_two = refl

-- The header says four bytes and the reader goes on: the file is removed.
longer_than_said :
    untar_with_limits plain_paths
      (txt "/p")
      small_limits
      small_archive
      (file_entry (txt "a") 4 4 ∷ file_entry (txt "b") 4 9 ∷ [])
    ≡ (err over_limit, record { extracted = 4; written = (txt "/p/a", 4) ∷ [] })
unfolding untar_with_limits aliyun_cli.Plugin.Archive.validate_archive_size
    aliyun_cli.Plugin.Archive.untar_entries aliyun_cli.Plugin.Archive.untar_entry
    safe_archive_target has_prefix aliyun_cli.Plugin.Archive.has_dots
    aliyun_cli.Plugin.Archive.validate_extracted_file_size
    aliyun_cli.Plugin.Archive.write_extracted_file aliyun_cli.Plugin.Archive.remove_file
    aliyun_cli.Plugin.Archive.put_file text_eq has_parent split
longer_than_said = refl

climbs_out : safe_archive_target plain_paths (txt "/p") (txt "a/../../b") ≡ err dots_in_path
unfolding safe_archive_target has_prefix aliyun_cli.Plugin.Archive.has_dots
climbs_out = refl

-- Where the file that is too long cannot be removed either, it stays, with one byte too many.
cannot_be_removed :
    untar_with_limits plain_paths
      (txt "/p")
      small_limits
      small_archive
      (file_entry (txt "a") 4 4 ∷ record (file_entry (txt "b") 4 9) { remove_fails = true } ∷ [])
    ≡ (err over_limit, record { extracted = 4; written = (txt "/p/a", 4) ∷ (txt "/p/b", 5) ∷ [] })
unfolding untar_with_limits aliyun_cli.Plugin.Archive.validate_archive_size
    aliyun_cli.Plugin.Archive.untar_entries aliyun_cli.Plugin.Archive.untar_entry
    safe_archive_target has_prefix aliyun_cli.Plugin.Archive.has_dots has_parent split text_eq
    aliyun_cli.Plugin.Archive.validate_extracted_file_size
    aliyun_cli.Plugin.Archive.write_extracted_file aliyun_cli.Plugin.Archive.put_file
cannot_be_removed = refl

joined_is_abs :
    (dir name : Text)
    → starts_with_slash dir ≡ true
    → starts_with_slash (dir ++ (b'/' ∷ name)) ≡ true
unfolding has_prefix
joined_is_abs [] name h = cc
joined_is_abs (c ∷ dir) name h = h

cleaned_has_no_parent : (s : Text) → has_parent (split b'/' (clean_path s)) ≡ false
unfolding has_parent split text_eq
cleaned_has_no_parent s = elim (Bool-cases (has_parent (split b'/' s))) [
  | inl up ↦ rw up refl
  | inr down ↦ rw down down
]

starts_there : starts_with_slash (txt "/p") ≡ true
unfolding has_prefix
starts_there = refl

plain_paths-IsLexical : IsLexical plain_paths
plain_paths-IsLexical = record {
  joins_absolute = joined_is_abs;
  cleans_parents = λ s h. cleaned_has_no_parent s;
}

untar_with_limits-IsSafe_example :
    IsSafe plain_paths
      (txt "/p")
      small_limits
      0
      (untar_with_limits plain_paths
        (txt "/p")
        small_limits
        small_archive
        (file_entry (txt "a") 4 4 ∷ file_entry (txt "b") 4 9 ∷ [])).1.written
untar_with_limits-IsSafe_example =
    untar_with_limits-IsSafe plain_paths (txt "/p") small_limits small_archive
      (file_entry (txt "a") 4 4 ∷ file_entry (txt "b") 4 9 ∷ []) plain_paths-IsLexical starts_there

abbrev fc_plugin : LocalPlugin
fc_plugin = record { command = txt "fc"; command_aliases = txt "Functions" ∷ [] }

abbrev installed : List (Text × LocalPlugin)
installed = (txt "aliyun-cli-fc", fc_plugin) ∷ []

routing_keys :
    collect_routing_keys (txt "aliyun-cli-fc") fc_plugin
    ≡ txt "fc" ∷ txt "functions" ∷ txt "aliyun-cli-fc" ∷ txt "fc" ∷ []
unfolding collect_routing_keys aliyun_cli.Plugin.Aliases.normalize_command_name to_lower trim_space
    aliyun_cli.Plugin.Aliases.alias_keys has_prefix
routing_keys = refl

aliases_sanitized :
    sanitize_command_aliases (txt "Fc") (txt " fc" ∷ txt "F" ∷ [] ∷ txt "f" ∷ []) ≡ txt "f" ∷ []
unfolding sanitize_command_aliases aliyun_cli.Plugin.Aliases.sanitize_from
    aliyun_cli.Plugin.Aliases.normalize_command_name to_lower trim_space text_eq
    aliyun_cli.Plugin.Aliases.is_among
aliases_sanitized = refl

alias_conflicts :
    validate_command_and_aliases built_in_commands installed
      (txt "aliyun-cli-x")
      (txt "x")
      (txt "FUNCTIONS" ∷ [])
    ≡ err (conflict (txt "functions") (txt "aliyun-cli-fc"))
unfolding validate_command_and_aliases aliyun_cli.Plugin.Aliases.normalize_command_name to_lower
    trim_space is_reserved aliyun_cli.Plugin.Aliases.is_among text_eq
    aliyun_cli.Plugin.Aliases.check_aliases aliyun_cli.Plugin.Aliases.check_others
    aliyun_cli.Plugin.Aliases.first_common collect_routing_keys aliyun_cli.Plugin.Aliases.alias_keys
alias_conflicts = refl

extra_reserved :
    is_reserved (register_reserved (txt " Ecs " ∷ []) built_in_commands) (txt "ecs") ≡ true
unfolding is_reserved aliyun_cli.Plugin.Aliases.normalize_command_name to_lower trim_space
    aliyun_cli.Plugin.Aliases.is_among register_reserved text_eq
extra_reserved = refl

fresh_passes :
    validate_command_and_aliases built_in_commands installed
      (txt "aliyun-cli-x")
      (txt "x")
      (txt "Y" ∷ [])
    ≡ ok tt
unfolding validate_command_and_aliases aliyun_cli.Plugin.Aliases.normalize_command_name to_lower
    trim_space is_reserved aliyun_cli.Plugin.Aliases.is_among text_eq
    aliyun_cli.Plugin.Aliases.check_aliases aliyun_cli.Plugin.Aliases.check_others
    aliyun_cli.Plugin.Aliases.first_common collect_routing_keys aliyun_cli.Plugin.Aliases.alias_keys
    has_prefix
fresh_passes = refl

validate_command_and_aliases_apart_example :
    (¬ Among (key_of (txt "Y")) built_in_commands)
    × ((name : Text) (lp : LocalPlugin)
        → InstalledElse (key_of (txt "aliyun-cli-x")) name lp installed
        → ¬ LeadsTo name lp (key_of (txt "Y")))
validate_command_and_aliases_apart_example =
    validate_command_and_aliases_apart built_in_commands installed (txt "aliyun-cli-x") (txt "x")
      (txt "Y" ∷ []) fresh_passes (txt "Y")
      (among_later (txt "Y") (txt "x") (txt "Y" ∷ []) (among_first (txt "Y") []))
