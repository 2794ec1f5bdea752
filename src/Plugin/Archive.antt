-- ===== src/Plugin/Archive.antt =====
-- cli/plugin/archive.go: the archive of a plugin is unpacked within limits. The archive is the list of its
-- entries; how the calls of the operating system end for an entry is part of it, and the functions
-- on paths are parameters. What has been written stays when an error stops the unpacking.
pub mod Files
pub mod Bounds
use aliyun_cli.Base.{
  ℕ, suc, ◌+◌, ◌-◌, min, Text, txt, text_eq, has_prefix, Bool, false, not, ◌||◌, ◌==◌, ltb, List,
  [], ◌∷◌, ◌++◌, ℤ, pos, negsuc, if◌then◌else◌, Res, ok, err, panic, timeout,
}

pub record Limits : Type 0 where
  pub archive_bytes : ℕ
  pub file_bytes : ℕ
  pub extracted_bytes : ℕ
  pub entries : ℕ

-- `defaultPluginArchiveLimits`
abbrev pub default_limits : Limits
default_limits = record {
  archive_bytes = 67108864;
  file_bytes = 134217728;
  extracted_bytes = 268435456;
  entries = 10000;
}

-- `filepath` and the separator of the system
pub record Paths : Type 0 where
  pub is_abs : Text → Bool
  pub clean : Text → Text
  pub join_path : Text → Text → Text
  pub separator : Text

pub data ArchiveError : Type 0 where
  stat_failed is_directory archive_too_large open_failed : ArchiveError
  read_failed too_many_entries absolute_path dots_in_path leading_separator outside : ArchiveError
  mkdir_failed create_failed copy_failed size_changed close_failed : ArchiveError
  invalid_size unsupported_size file_too_large total_too_large over_limit : ArchiveError

pub data Kind : Type 0 where
  directory regular special : Kind

-- An entry: its header, how many bytes its reader gives before it ends or fails, and which calls fail.
pub record Entry : Type 0 where
  pub name : Text
  pub kind : Kind
  pub size : ℤ
  pub available : ℕ
  pub unreadable : Bool
  pub mkdir_fails : Bool
  pub create_fails : Bool
  pub copy_fails : Bool
  pub remove_fails : Bool
  pub close_fails : Bool

-- A file that was written: its path and its size.
abbrev pub Written : Type 0
Written = List (Text × ℕ)

abbrev pub Outcome : Type 0 → Type 0
Outcome A = Res ArchiveError ⊥ A

-- `strings.Contains(s, "..")`
unfoldable pub has_dots : Text → Bool
has_dots [] = false
has_dots (c ∷ s) = has_prefix (c ∷ s) (txt "..") || has_dots s

-- `safeArchiveTarget`
unfoldable pub safe_archive_target : Paths → Text → Text → Outcome Text
safe_archive_target paths dest name =
    if paths.is_abs name
    then err absolute_path
    else if has_dots name
    then err dots_in_path
    else if has_prefix name (txt "/") || has_prefix name (92 ∷ [])
    then err leading_separator
    else if not
        (has_prefix (paths.clean (paths.join_path dest name)) (paths.clean dest ++ paths.separator))
    then err outside
    else ok (paths.clean (paths.join_path dest name))

-- `validateExtractedFileSize`; the size where it is valid.
unfoldable pub validate_extracted_file_size : ℤ → ℕ → Limits → Outcome ℕ
validate_extracted_file_size (negsuc n) extracted limits = err invalid_size
validate_extracted_file_size (pos size) extracted limits =
    if ltb limits.file_bytes size
    then err file_too_large
    else if ltb (limits.extracted_bytes - extracted) size
    then err total_too_large
    else ok size

-- `writeExtractedFile`: at most one byte more than the limit is copied. What the deferred removal does
-- is `dropped`.
unfoldable pub write_extracted_file : Entry → ℕ → Outcome ℕ
write_extracted_file e limit =
    if e.create_fails
    then err create_failed
    else if e.copy_fails
    then err copy_failed
    else if ltb limit (min e.available (limit + 1))
    then err over_limit
    else if e.close_fails
    then err close_failed
    else ok (min e.available (limit + 1))

-- What the loop keeps: how much was extracted, and the files that are there.
pub record Progress : Type 0 where
  pub extracted : ℕ
  pub written : Written

abbrev pub nothing_yet : Progress
nothing_yet = record { extracted = 0; written = [] }

-- A file that is written over takes the place of the old one.
unfoldable pub put_file : Written → Text → ℕ → Written
put_file [] target size = (target, size) ∷ []
put_file ((t, n) ∷ files) target size =
    let later = put_file files target size in
    if text_eq t target then (target, size) ∷ files else (t, n) ∷ later

abbrev pub kept : Progress → Text → ℕ → Progress
kept p target size = record {
  extracted = p.extracted + size;
  written = put_file p.written target size;
}

unfoldable pub remove_file : Written → Text → Written
remove_file [] target = []
remove_file ((t, n) ∷ files) target =
    let later = remove_file files target in if text_eq t target then later else (t, n) ∷ later

-- Behind a failed write the target is gone, unless `os.Remove` fails, whose error is ignored: then what was
-- copied stays. Where the target could not be opened the old file stays.
abbrev pub dropped : Entry → Progress → Text → ℕ → Progress
dropped e p target limit =
    if e.create_fails
    then p
    else if e.remove_fails
    then record p { written = put_file p.written target (min e.available (limit + 1)) }
    else record p { written = remove_file p.written target }

-- The file of a regular entry of a tar archive: a file whose size is not that of the header stays, and
-- is an error.
abbrev pub checked_size : Progress → Text → ℕ → ℕ → Outcome Progress × Progress
checked_size p target size n =
    if n == size
    then (ok (kept p target n), kept p target n)
    else (err size_changed, record p { written = put_file p.written target n })

abbrev pub after_write : Entry → Progress → Text → ℕ → Outcome ℕ → Outcome Progress × Progress
after_write e p target size (ok n) = checked_size p target size n
after_write e p target size (err x) = (err x, dropped e p target size)
after_write e p target size (panic x) = (panic x, p)
after_write e p target size timeout = (timeout, p)

abbrev pub write_regular : Entry → Progress → Text → Outcome ℕ → Outcome Progress × Progress
write_regular e p target (ok size) =
    if e.mkdir_fails
    then (err mkdir_failed, p)
    else after_write e p target size (write_extracted_file e size)
write_regular e p target (err x) = (err x, p)
write_regular e p target (panic x) = (panic x, p)
write_regular e p target timeout = (timeout, p)

abbrev pub untar_kind : Kind → Entry → Progress → Text → Limits → Outcome Progress × Progress
untar_kind directory e p target limits = if e.mkdir_fails then (err mkdir_failed, p) else (ok p, p)
untar_kind regular e p target limits =
    write_regular e p target (validate_extracted_file_size e.size p.extracted limits)
untar_kind special e p target limits = (ok p, p)

abbrev pub at_target : Entry → Progress → Limits → Outcome Text → Outcome Progress × Progress
at_target e p limits (ok target) = untar_kind e.kind e p target limits
at_target e p limits (err x) = (err x, p)
at_target e p limits (panic x) = (panic x, p)
at_target e p limits timeout = (timeout, p)

-- One round of the loop of `untarWithLimits`: the number of the entry is given.
unfoldable pub untar_entry :
    Paths → Text → Limits → ℕ → Entry → Progress → Outcome Progress × Progress
untar_entry paths dest limits number e p =
    if e.unreadable
    then (err read_failed, p)
    else if ltb limits.entries number
    then (err too_many_entries, p)
    else at_target e p limits (safe_archive_target paths dest e.name)

abbrev pub next_entry :
    Outcome Progress × Progress
    → (Progress → Outcome Progress × Progress)
    → Outcome Progress × Progress
next_entry (ok q, p) k = k q
next_entry (err x, p) k = (err x, p)
next_entry (panic x, p) k = (panic x, p)
next_entry (timeout, p) k = (timeout, p)

unfoldable pub untar_entries :
    Paths → Text → Limits → ℕ → List Entry → Progress → Outcome Progress × Progress
untar_entries paths dest limits number [] p = (ok p, p)
untar_entries paths dest limits number (e ∷ entries) p =
    next_entry (untar_entry paths dest limits number e p)
      (untar_entries paths dest limits (suc number) entries)

-- The file of the archive as `os.Stat` and the opening of it see it.
pub record ArchiveFile : Type 0 where
  pub missing : Bool
  pub is_dir : Bool
  pub bytes : ℕ
  pub unopened : Bool

-- `validatePluginArchiveSize`
unfoldable pub validate_archive_size : ArchiveFile → ℕ → Outcome (Unit {0})
validate_archive_size f limit =
    if f.missing
    then err stat_failed
    else if f.is_dir
    then err is_directory
    else if ltb limit f.bytes
    then err archive_too_large
    else ok tt

abbrev pub opened_archive :
    ArchiveFile → Outcome (Unit {0}) → Outcome Progress × Progress → Outcome Progress × Progress
opened_archive f (ok u) rest = if f.unopened then (err open_failed, nothing_yet) else rest
opened_archive f (err x) rest = (err x, nothing_yet)
opened_archive f (panic x) rest = (panic x, nothing_yet)
opened_archive f timeout rest = (timeout, nothing_yet)

-- `untarWithLimits`, into an empty directory
unfoldable pub untar_with_limits :
    Paths → Text → Limits → ArchiveFile → List Entry → Outcome Progress × Progress
untar_with_limits paths dest limits f entries =
    opened_archive f (validate_archive_size f limits.archive_bytes)
      (untar_entries paths dest limits 1 entries nothing_yet)
