-- ===== src/Config/AtomicWrite.antt =====
-- `atomicWriteFileWithRename` of config/configuration.go on a disk, for every way in which the
-- calls of the operating system can end.
pub mod Outcomes
use aliyun_cli.Base.{
  ℕ, Text, text_eq, Bool, not, ◌==◌, Option, none, some, List, [], ◌∷◌, length, take, if◌then◌else◌,
}

-- The files by their paths; a later entry for a path is hidden by an earlier one.
abbrev pub Disk : Type 0
Disk = List (Text × Option Text)

unfoldable pub read : Disk → Text → Option Text
read [] path = none
read ((p, content) ∷ d) path = if text_eq p path then content else read d path

abbrev pub write : Disk → Text → Text → Disk
write d path content = (path, some content) ∷ d

abbrev pub remove : Disk → Text → Disk
remove d path = (path, none) ∷ d

-- `os.Rename`: the file at the first path replaces the one at the second.
unfoldable pub rename : Disk → Text → Text → Disk
rename d from to = (from, none) ∷ (to, read d from) ∷ d

-- What `os.Lstat` says of the path.
pub data Lstat : Type 0 where
  is_file : Lstat
  is_symlink : Lstat
  does_not_exist : Lstat
  lstat_fails : Lstat

-- How each call ends: the path that `EvalSymlinks` resolves, if it does; the name of the new file,
-- if `CreateTemp` makes one; the number of bytes that `Write` writes, and whether it reports an
-- error; and for the other calls whether they succeed.
pub record Calls : Type 0 where
  pub lstat : Lstat
  pub resolved : Option Text
  pub temp : Option Text
  pub chmod : Bool
  pub written : ℕ
  pub write_ok : Bool
  pub sync : Bool
  pub close : Bool
  pub renamed : Bool
  pub removed : Bool

pub data WriteError : Type 0 where
  symlink_not_resolved : WriteError
  path_not_inspected : WriteError
  temp_not_created : WriteError
  chmod_failed : WriteError
  write_failed : WriteError
  short_write : WriteError
  sync_failed : WriteError
  close_failed : WriteError
  rename_failed : WriteError

-- The path to write: a symbolic link is followed.
unfoldable pub target : Calls → Text → Option WriteError × Text
target calls path = elim calls.lstat [
  | is_symlink ↦ elim calls.resolved [
    | none ↦ (some symlink_not_resolved, path)
    | some p ↦ (none, p)
  ]
  | lstat_fails ↦ (some path_not_inspected, path)
  | is_file ↦ (none, path)
  | does_not_exist ↦ (none, path)
]

-- The deferred `os.Remove`, whose error is dropped.
unfoldable pub clean_up : Calls → Text → Disk → Disk
clean_up calls temp d = if calls.removed then remove d temp else d

-- From `temp.Chmod` to `rename`: the error, and the disk before the deferred calls.
unfoldable pub write_temp : Calls → Text → Text → Text → Disk → Option WriteError × Disk
write_temp calls temp path content d =
    let partial = write d temp (take calls.written content) in
    if not calls.chmod
    then (some chmod_failed, d)
    else if not calls.write_ok
    then (some write_failed, partial)
    else if not (calls.written == length content)
    then (some short_write, partial)
    else if not calls.sync
    then (some sync_failed, partial)
    else if not calls.close
    then (some close_failed, partial)
    else if not calls.renamed
    then (some rename_failed, partial)
    else (none, rename partial temp path)

-- From `createAtomicTempFile` on, with the name of the file that it makes, if any.
abbrev pub with_temp : Calls → Text → Text → Disk → Option Text → Option WriteError × Disk
with_temp calls path content d none = (some temp_not_created, d)
with_temp calls path content d (some temp) =
    let (e, d1) = write_temp calls temp path content (write d temp []) in
    (e, clean_up calls temp d1)

abbrev pub on_target : Calls → Text → Disk → Option WriteError × Text → Option WriteError × Disk
on_target calls content d (some e, path) = (some e, d)
on_target calls content d (none, path) = with_temp calls path content d calls.temp

-- `atomicWriteFileWithRename`
unfoldable pub atomic_write : Calls → Text → Text → Disk → Option WriteError × Disk
atomic_write calls path content d = on_target calls content d (target calls path)
