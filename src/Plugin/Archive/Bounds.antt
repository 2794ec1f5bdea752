-- ===== src/Plugin/Archive/Bounds.antt =====
-- cli/plugin/archive.go: what is on the disk stays within the limits and within the directory, also where
-- the unpacking stops with an error.
use aliyun_cli.Base.{
  min, false≢true, ℕ, suc, ◌+◌, ◌-◌, ◌≤◌, Text, Bool, true, false, ◌==◌, ltb, Bool-cases, ◌≡◌, refl,
  sym, subst, ◌∙◌, inl, inr, List, [], ◌∷◌, ok-inj, All, if◌then◌else◌, ok, err, panic, timeout,
  arith,
}
use aliyun_cli.Plugin.Archive.{
  Limits, Paths, ArchiveError, read_failed, too_many_entries, mkdir_failed, Kind, directory,
  regular, special, Entry, Written, Outcome, safe_archive_target, validate_extracted_file_size,
  write_extracted_file, Progress, nothing_yet, put_file, kept, remove_file, dropped, checked_size,
  after_write, write_regular, untar_kind, at_target, untar_entry, next_entry, untar_entries,
  ArchiveFile, validate_archive_size, opened_archive, untar_with_limits,
}
use aliyun_cli.Plugin.Archive.Files.{
  IsLexical, total_size, IsBelow, IsAllowed, slack_of, put_file-All, remove_file-All,
  total_size-put_file, total_size-remove_file, safe_archive_target-IsBelow, validate_size-ok,
  write_file-ok,
}

module _ (paths : Paths) (dest : Text) (limits : Limits) where
  -- The files are allowed, and as large in all as was counted, which is within the limit.
  abbrev IsWithin : Progress → Type 0
  IsWithin p =
      All (IsAllowed paths dest limits 0) p.written
      × (total_size p.written ≤ p.extracted)
      × (p.extracted ≤ limits.extracted_bytes)

  -- The files are allowed and within the limit, up to a number of bytes.
  abbrev pub IsSafe : ℕ → Written → Type 0
  IsSafe slack files =
      All (IsAllowed paths dest limits slack) files
      × (total_size files ≤ limits.extracted_bytes + slack)

  -- What a round leaves is safe, and what it goes on with keeps the count.
  abbrev Fine : ℕ → Outcome Progress × Progress → Type 0
  Fine slack r = IsSafe slack r.1.written × ((q : Progress) → r.0 ≡ ok q → IsWithin q)

  IsAllowed-weaken :
      (a b : ℕ) (files : Written)
      → a ≤ b
      → All (IsAllowed paths dest limits a) files
      → All (IsAllowed paths dest limits b) files
  IsAllowed-weaken a b [] le h = tt
  IsAllowed-weaken a b ((t, n) ∷ files) le h =
      ((h.0.0, omega (arith, h.0.1, le)), IsAllowed-weaken a b files le h.1)

  IsSafe-of_within : (slack : ℕ) (p : Progress) → IsWithin p → IsSafe slack p.written
  IsSafe-of_within slack p h =
      (IsAllowed-weaken 0 slack p.written (omega arith) h.0, omega (arith, h.1, h.2))

  Fine-error : (slack : ℕ) (p : Progress) (x : ArchiveError) → IsWithin p → Fine slack (err x, p)
  Fine-error slack p x h = (IsSafe-of_within slack p h, λ q e. cc)

  Fine-ok : (slack : ℕ) (p : Progress) → IsWithin p → Fine slack (ok p, p)
  Fine-ok slack p h = (IsSafe-of_within slack p h, λ q e. subst IsWithin (ok-inj e) h)

  if-Fine :
      (slack : ℕ) (b : Bool) (x y : Outcome Progress × Progress)
      → Fine slack x
      → Fine slack y
      → Fine slack (if b then x else y)
  if-Fine slack true x y h k = h
  if-Fine slack false x y h k = k

  put-IsSafe :
      (slack : ℕ) (p : Progress) (target : Text) (n : ℕ)
      → IsWithin p
      → IsAllowed paths dest limits slack (target, n)
      → n ≤ limits.extracted_bytes - p.extracted + slack
      → IsSafe slack (put_file p.written target n)
  put-IsSafe slack p target n h allowed room = (
    put_file-All (IsAllowed paths dest limits slack) p.written target n
        (IsAllowed-weaken 0 slack p.written (omega arith) h.0) allowed,
    omega (arith, total_size-put_file p.written target n, h.1, h.2, room),
  )

  kept-IsWithin :
      (p : Progress) (target : Text) (n : ℕ)
      → IsWithin p
      → IsAllowed paths dest limits 0 (target, n)
      → n ≤ limits.extracted_bytes - p.extracted
      → IsWithin (kept p target n)
  kept-IsWithin p target n h allowed room = (
    put_file-All (IsAllowed paths dest limits 0) p.written target n h.0 allowed,
    omega (arith, total_size-put_file p.written target n, h.1),
    omega (arith, h.2, room),
  )

  -- Behind a failed write: one byte too many can be left, and only where the removal fails.
  dropped-IsSafe :
      (slack : ℕ) (e : Entry) (p : Progress) (target : Text) (size : ℕ)
      → (e.remove_fails ≡ true → slack ≡ 1)
      → IsWithin p
      → IsBelow paths dest target
      → size ≤ limits.file_bytes
      → size ≤ limits.extracted_bytes - p.extracted
      → IsSafe slack (dropped e p target size).written
  dropped-IsSafe slack e p target size more h below small room = elim (Bool-cases e.create_fails) [
    | inl unopened ↦ rw unopened (IsSafe-of_within slack p h)
    | inr opened ↦ elim (Bool-cases e.remove_fails) [
      | inl stays ↦
          let one = more stays in
          rw (opened, stays)
            (put-IsSafe slack p target (min e.available (size + 1)) h
              (below, omega (arith, one, small)) (omega (arith, one, room)))
      | inr gone ↦
          rw (opened, gone)
            (
              IsAllowed-weaken 0 slack (remove_file p.written target) (omega arith)
                  (remove_file-All (IsAllowed paths dest limits 0) p.written target h.0),
              omega (arith, total_size-remove_file p.written target, h.1, h.2),
            )
    ]
  ]

  checked_size-Fine :
      (slack : ℕ) (p : Progress) (target : Text) (size n : ℕ)
      → IsWithin p
      → IsAllowed paths dest limits 0 (target, n)
      → n ≤ limits.extracted_bytes - p.extracted
      → Fine slack (checked_size p target size n)
  checked_size-Fine slack p target size n h allowed room = elim (Bool-cases (n == size)) [
    | inl same ↦ rw same (Fine-ok slack (kept p target n) (kept-IsWithin p target n h allowed room))
    | inr other ↦ rw other (
      put-IsSafe slack p target n h (allowed.0, omega (arith, allowed.1)) (omega (arith, room)),
      λ r e. cc,
    )
  ]

  after_write-Fine :
      (slack : ℕ) (e : Entry) (p : Progress) (target : Text) (size : ℕ) (r : Outcome ℕ)
      → (e.remove_fails ≡ true → slack ≡ 1)
      → IsWithin p
      → IsBelow paths dest target
      → size ≤ limits.file_bytes
      → size ≤ limits.extracted_bytes - p.extracted
      → ((n : ℕ) → r ≡ ok n → n ≤ size)
      → Fine slack (after_write e p target size r)
  after_write-Fine slack e p target size (ok n) more h below small room most =
      let le = most n refl in
      checked_size-Fine slack p target size n h (below, omega (arith, le, small))
        (omega (arith, le, room))
  after_write-Fine slack e p target size (err x) more h below small room most =
      (dropped-IsSafe slack e p target size more h below small room, λ q w. cc)
  after_write-Fine slack e p target size (panic x) more h below small room most = absurd x
  after_write-Fine slack e p target size timeout more h below small room most =
      (IsSafe-of_within slack p h, λ q w. cc)

  write_regular-Fine :
      (slack : ℕ) (e : Entry) (p : Progress) (target : Text) (r : Outcome ℕ)
      → (e.remove_fails ≡ true → slack ≡ 1)
      → IsWithin p
      → IsBelow paths dest target
      → ((n : ℕ) → r ≡ ok n → (n ≤ limits.file_bytes) × (n ≤ limits.extracted_bytes - p.extracted))
      → Fine slack (write_regular e p target r)
  write_regular-Fine slack e p target (ok size) more h below valid =
      let v = valid size refl in
      if-Fine slack e.mkdir_fails (err mkdir_failed, p) _ (Fine-error slack p mkdir_failed h)
        (after_write-Fine slack e p target size (write_extracted_file e size) more h below v.0 v.1
          (λ n w. write_file-ok e size n w))
  write_regular-Fine slack e p target (err x) more h below valid = Fine-error slack p x h
  write_regular-Fine slack e p target (panic x) more h below valid = absurd x
  write_regular-Fine slack e p target timeout more h below valid =
      (IsSafe-of_within slack p h, λ q w. cc)

  untar_kind-Fine :
      (slack : ℕ) (k : Kind) (e : Entry) (p : Progress) (target : Text)
      → (e.remove_fails ≡ true → slack ≡ 1)
      → IsWithin p
      → IsBelow paths dest target
      → Fine slack (untar_kind k e p target limits)
  untar_kind-Fine slack directory e p target more h below =
      if-Fine slack e.mkdir_fails (err mkdir_failed, p) (ok p, p)
        (Fine-error slack p mkdir_failed h) (Fine-ok slack p h)
  untar_kind-Fine slack regular e p target more h below =
      write_regular-Fine slack e p target (validate_extracted_file_size e.size p.extracted limits)
        more h below (λ n v. validate_size-ok e.size p.extracted limits n v)
  untar_kind-Fine slack special e p target more h below = Fine-ok slack p h

  at_target-Fine :
      (slack : ℕ) (e : Entry) (p : Progress) (r : Outcome Text)
      → (e.remove_fails ≡ true → slack ≡ 1)
      → IsWithin p
      → ((target : Text) → r ≡ ok target → IsBelow paths dest target)
      → Fine slack (at_target e p limits r)
  at_target-Fine slack e p (ok target) more h inside =
      untar_kind-Fine slack e.kind e p target more h (inside target refl)
  at_target-Fine slack e p (err x) more h inside = Fine-error slack p x h
  at_target-Fine slack e p (panic x) more h inside = absurd x
  at_target-Fine slack e p timeout more h inside = (IsSafe-of_within slack p h, λ q w. cc)

module _ (paths : Paths) (dest : Text) (limits : Limits) (lexical : IsLexical paths)
    (rooted : paths.is_abs dest ≡ true) where
  untar_entry-Fine :
      (slack number : ℕ) (e : Entry) (p : Progress)
      → (e.remove_fails ≡ true → slack ≡ 1)
      → IsWithin paths dest limits p
      → Fine paths dest limits slack (untar_entry paths dest limits number e p)
  unfolding untar_entry
  untar_entry-Fine slack number e p more h =
      if-Fine paths dest limits slack e.unreadable (err read_failed, p) _
        (Fine-error paths dest limits slack p read_failed h)
        (if-Fine paths dest limits slack (ltb limits.entries number) (err too_many_entries, p) _
          (Fine-error paths dest limits slack p too_many_entries h)
          (at_target-Fine paths dest limits slack e p (safe_archive_target paths dest e.name) more h
            (λ target s. safe_archive_target-IsBelow paths dest e.name target lexical rooted s)))

  next_entry-IsSafe :
      (slack : ℕ) (r : Outcome Progress × Progress) (k : Progress → Outcome Progress × Progress)
      → Fine paths dest limits slack r
      → ((q : Progress)
          → IsWithin paths dest limits q
          → IsSafe paths dest limits slack (k q).1.written)
      → IsSafe paths dest limits slack (next_entry r k).1.written
  next_entry-IsSafe slack (ok q, p) k f rest = rest q (f.1 q refl)
  next_entry-IsSafe slack (err x, p) k f rest = f.0
  next_entry-IsSafe slack (panic x, p) k f rest = f.0
  next_entry-IsSafe slack (timeout, p) k f rest = f.0

  -- Every entry whose removal fails is counted.
  abbrev Counted : ℕ → List Entry → Type 0
  Counted slack entries = All (λ e. e.remove_fails ≡ true → slack ≡ 1) entries

  untar_entries-IsSafe :
      (slack number : ℕ) (entries : List Entry) (p : Progress)
      → Counted slack entries
      → IsWithin paths dest limits p
      → IsSafe paths dest limits slack (untar_entries paths dest limits number entries p).1.written
  unfolding untar_entries
  untar_entries-IsSafe slack number [] p counted h = IsSafe-of_within paths dest limits slack p h
  untar_entries-IsSafe slack number (e ∷ entries) p counted h =
      next_entry-IsSafe slack (untar_entry paths dest limits number e p) _
        (untar_entry-Fine slack number e p counted.0 h)
        (λ q w. untar_entries-IsSafe slack (suc number) entries q counted.1 w)

  opened-IsSafe :
      (slack : ℕ) (f : ArchiveFile) (r : Outcome (Unit {0})) (rest : Outcome Progress × Progress)
      → IsSafe paths dest limits slack rest.1.written
      → IsSafe paths dest limits slack (opened_archive f r rest).1.written
  opened-IsSafe slack f (ok u) rest h = elim (Bool-cases f.unopened) [
    | inl bad ↦ rw bad (tt, omega arith)
    | inr opened ↦ rw opened h
  ]
  opened-IsSafe slack f (err x) rest h = (tt, omega arith)
  opened-IsSafe slack f (panic x) rest h = (tt, omega arith)
  opened-IsSafe slack f timeout rest h = (tt, omega arith)

every_one :
    (slack : ℕ) (entries : List Entry)
    → slack ≡ 1
    → All (λ e. e.remove_fails ≡ true → slack ≡ 1) entries
every_one slack [] h = tt
every_one slack (e ∷ entries) h = (λ stays. h, every_one slack entries h)

slack_of-counts :
    (slack : ℕ) (entries : List Entry)
    → slack_of entries ≡ slack
    → All (λ e. e.remove_fails ≡ true → slack ≡ 1) entries
slack_of-counts slack [] h = tt
slack_of-counts slack (e ∷ entries) h = elim (Bool-cases e.remove_fails) [
  | inl stays ↦ every_one slack (e ∷ entries) (sym (rw stays at h))
  | inr gone ↦ (
    λ stays. absurd (false≢true (sym gone ∙ stays)),
    slack_of-counts slack entries (rw gone at h),
  )
]

-- Whatever an archive holds and whichever call fails, each file that is on the disk behind the unpacking
-- lies below the directory, which is an absolute path, and is no larger than one file may be, and
-- all of them together are no larger than the limit for the extracted bytes; where the removal of a
-- file that was too large may fail, each of the two bounds is one byte more. The functions on paths
-- are assumed to do what their documentation says of absolute paths and of `..`.
pub untar_with_limits-IsSafe :
    (paths : Paths) (dest : Text) (limits : Limits) (f : ArchiveFile) (entries : List Entry)
    → IsLexical paths
    → paths.is_abs dest ≡ true
    → IsSafe paths dest limits
        (slack_of entries)
        (untar_with_limits paths dest limits f entries).1.written
unfolding untar_with_limits
untar_with_limits-IsSafe paths dest limits f entries lexical rooted =
    opened-IsSafe paths dest limits lexical rooted (slack_of entries) f
      (validate_archive_size f limits.archive_bytes) _
      (untar_entries-IsSafe paths dest limits lexical rooted (slack_of entries) 1 entries
        nothing_yet (slack_of-counts (slack_of entries) entries refl)
        (tt, omega arith, omega arith))
