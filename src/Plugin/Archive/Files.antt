-- ===== src/Plugin/Archive/Files.antt =====
-- cli/plugin/archive.go: the files that are written and the paths that are let through.
use aliyun_cli.Base.{
  split, ℕ, ◌+◌, ◌-◌, ◌≤◌, Text, txt, text_eq, has_prefix, Bool, true, false, ◌||◌, Bool-cases, ◌≡◌,
  refl, sym, subst, ◌∙◌, inl, inr, List, [], ◌∷◌, ◌++◌, ℤ, pos, negsuc, ok-inj, All, if◌then◌else◌,
  ok, arith,
}
use aliyun_cli.Plugin.Archive.{
  Limits, Paths, Entry, Written, has_dots, safe_archive_target, validate_extracted_file_size,
  write_extracted_file, put_file, remove_file,
}

abbrev pub total_size : Written → ℕ
total_size [] = 0
total_size ((t, n) ∷ files) = n + total_size files

-- One of the elements of a path is `..`.
unfoldable pub has_parent : List Text → Bool
has_parent [] = false
has_parent (part ∷ parts) = text_eq part (txt "..") || has_parent parts

-- What `filepath` documents: a joined path is absolute if its first part is, and the clean form of an
-- absolute path has no element `..`.
pub record IsLexical (paths : Paths) : Type 0 where
  pub joins_absolute :
      (dir name : Text) → paths.is_abs dir ≡ true → paths.is_abs (paths.join_path dir name) ≡ true
  pub cleans_parents :
      (s : Text) → paths.is_abs s ≡ true → has_parent (split b'/' (paths.clean s)) ≡ false

-- A path lies below a directory: it starts with the directory and a separator, and no element of it leads
-- up again.
abbrev pub IsBelow : Paths → Text → Text → Type 0
IsBelow paths dest target =
    (has_prefix target (paths.clean dest ++ paths.separator) ≡ true)
    × (has_parent (split b'/' target) ≡ false)

-- A file lies below the directory and is not larger than one file may be, and a number of bytes.
abbrev pub IsAllowed : Paths → Text → Limits → ℕ → Text × ℕ → Type 0
IsAllowed paths dest limits slack (target, n) =
    IsBelow paths dest target × (n ≤ limits.file_bytes + slack)

-- One byte where the removal of a file may fail.
abbrev pub slack_of : List Entry → ℕ
slack_of [] = 0
slack_of (e ∷ entries) = if e.remove_fails then 1 else slack_of entries

pub put_file-All :
    (P : Text × ℕ → Type 0) (files : Written) (target : Text) (n : ℕ)
    → All P files
    → P (target, n)
    → All P (put_file files target n)
unfolding put_file
put_file-All P [] target n h k = (k, tt)
put_file-All P ((t, m) ∷ files) target n h k = elim (Bool-cases (text_eq t target)) [
  | inl same ↦ rw same (k, h.1)
  | inr other ↦ rw other (h.0, put_file-All P files target n h.1 k)
]

pub remove_file-All :
    (P : Text × ℕ → Type 0) (files : Written) (target : Text)
    → All P files
    → All P (remove_file files target)
unfolding remove_file
remove_file-All P [] target h = tt
remove_file-All P ((t, m) ∷ files) target h = elim (Bool-cases (text_eq t target)) [
  | inl same ↦ rw same (remove_file-All P files target h.1)
  | inr other ↦ rw other (h.0, remove_file-All P files target h.1)
]

pub total_size-put_file :
    (files : Written) (target : Text) (n : ℕ)
    → total_size (put_file files target n) ≤ total_size files + n
unfolding put_file
total_size-put_file [] target n = omega arith
total_size-put_file ((t, m) ∷ files) target n = elim (Bool-cases (text_eq t target)) [
  | inl same ↦ rw same (omega arith)
  | inr other ↦ rw other (omega (arith, total_size-put_file files target n))
]

pub total_size-remove_file :
    (files : Written) (target : Text) → total_size (remove_file files target) ≤ total_size files
unfolding remove_file
total_size-remove_file [] target = omega arith
total_size-remove_file ((t, m) ∷ files) target = elim (Bool-cases (text_eq t target)) [
  | inl same ↦ rw same (omega (arith, total_size-remove_file files target))
  | inr other ↦ rw other (omega (arith, total_size-remove_file files target))
]

safe_archive_target-clean :
    (paths : Paths) (dest name target : Text)
    → safe_archive_target paths dest name ≡ ok target
    → (has_prefix target (paths.clean dest ++ paths.separator) ≡ true)
      × (paths.clean (paths.join_path dest name) ≡ target)
unfolding safe_archive_target
safe_archive_target-clean paths dest name target h =
    let full = paths.clean (paths.join_path dest name) in
    elim (Bool-cases (paths.is_abs name)) [
      | inl bad ↦ absurd (ground arith)
      | inr a ↦ elim (Bool-cases (has_dots name)) [
        | inl bad ↦ absurd (ground arith)
        | inr b ↦ elim (Bool-cases (has_prefix name (txt "/") || has_prefix name (92 ∷ []))) [
          | inl bad ↦ absurd (ground arith)
          | inr d ↦ elim (Bool-cases (has_prefix full (paths.clean dest ++ paths.separator))) [
            | inr bad ↦ absurd (ground arith)
            | inl inside ↦
                let same : full ≡ target = ok-inj (sym (rw (a, b, d, inside) refl) ∙ h) in
                (
                  subst (λ t. has_prefix t (paths.clean dest ++ paths.separator) ≡ true) same
                      inside,
                  same,
                )
          ]
        ]
      ]
    ]

pub safe_archive_target-IsBelow :
    (paths : Paths) (dest name target : Text)
    → IsLexical paths
    → paths.is_abs dest ≡ true
    → safe_archive_target paths dest name ≡ ok target
    → IsBelow paths dest target
safe_archive_target-IsBelow paths dest name target lexical rooted h =
    let (inside, same) = safe_archive_target-clean paths dest name target h in
    (
      inside,
      subst (λ t. has_parent (split b'/' t) ≡ false) same
          (lexical.cleans_parents (paths.join_path dest name)
            (lexical.joins_absolute dest name rooted)),
    )

pub validate_size-ok :
    (i : ℤ) (extracted : ℕ) (limits : Limits) (n : ℕ)
    → validate_extracted_file_size i extracted limits ≡ ok n
    → (n ≤ limits.file_bytes) × (n ≤ limits.extracted_bytes - extracted)
unfolding validate_extracted_file_size
validate_size-ok (negsuc k) extracted limits n h = cc
validate_size-ok (pos k) extracted limits n h = (ground arith, ground arith)

pub write_file-ok : (e : Entry) (limit n : ℕ) → write_extracted_file e limit ≡ ok n → n ≤ limit
unfolding write_extracted_file
write_file-ok e limit n h = ground arith
