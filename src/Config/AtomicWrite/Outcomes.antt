-- ===== src/Config/AtomicWrite/Outcomes.antt =====
-- The file is replaced as a whole or not at all, and no temporary file stays.
use aliyun_cli.Base.{
  Text, text_eq, text_eq_refl, true, false, ◌==◌, ==_iff, Bool-cases, is_some, ◌≡◌, refl, sym, ap,
  subst, ◌∙◌, ◌⊎◌, inl, inr, Option, none, some, [], ◌∷◌, length, take, arith,
}
use aliyun_cli.Config.AtomicWrite.{
  Disk, read, write, rename, Calls, WriteError, target, clean_up, write_temp, with_temp, on_target,
  atomic_write,
}

take-length : (s : Text) → take (length s) s ≡ s
take-length [] = refl
take-length (c ∷ s) = ap (λ t. c ∷ t) (take-length s)

read-write_other :
    (d : Disk) (path other content : Text)
    → text_eq path other ≡ false
    → read (write d path content) other ≡ read d other
unfolding read
read-write_other d path other content h = rw h

read-clean_up_other :
    (calls : Calls) (temp other : Text) (d : Disk)
    → text_eq temp other ≡ false
    → read (clean_up calls temp d) other ≡ read d other
unfolding read clean_up
read-clean_up_other calls temp other d h = elim (Bool-cases calls.removed) [
  | inl gone ↦ rw (gone, h)
  | inr stays ↦ rw stays
]

read-rename :
    (d : Disk) (temp path content : Text)
    → text_eq temp path ≡ false
    → read (rename (write d temp content) temp path) path ≡ some content
unfolding read rename
read-rename d temp path content h = rw (h, text_eq_refl path, text_eq_refl temp)

-- The file at `path` has the new content and there is no error, or it is what it was on `d`.
abbrev pub Whole : Text → Text → Disk → Option WriteError × Disk → Type 0
Whole path content d r =
    ((r.0 ≡ none) × (read r.1 path ≡ some content))
    ⊎ ((is_some r.0 ≡ true) × (read r.1 path ≡ read d path))

write_temp-Whole :
    (calls : Calls) (temp path content : Text) (d : Disk)
    → text_eq temp path ≡ false
    → Whole path content d (write_temp calls temp path content d)
unfolding write_temp
write_temp-Whole calls temp path content d h =
    let partial = write d temp (take calls.written content) in
    let same = read-write_other d temp path (take calls.written content) h in
    elim (Bool-cases calls.chmod) [
      | inr e ↦ rw e (inr (refl, refl))
      | inl e0 ↦ elim (Bool-cases calls.write_ok) [
        | inr e ↦ rw (e0, e) (inr (refl, same))
        | inl e1 ↦ elim (Bool-cases (calls.written == length content)) [
          | inr e ↦ rw (e0, e1, e) (inr (refl, same))
          | inl e2 ↦ elim (Bool-cases calls.sync) [
            | inr e ↦ rw (e0, e1, e2, e) (inr (refl, same))
            | inl e3 ↦ elim (Bool-cases calls.close) [
              | inr e ↦ rw (e0, e1, e2, e3, e) (inr (refl, same))
              | inl e4 ↦ elim (Bool-cases calls.renamed) [
                | inr e ↦ rw (e0, e1, e2, e3, e4, e) (inr (refl, same))
                | inl e5 ↦
                    let all : take calls.written content ≡ content =
                      ap (λ n. take n content) ((==_iff calls.written (length content)).0 e2)
                      ∙ take-length content in
                    rw (e0, e1, e2, e3, e4, e5)
                      (inl (
                        refl,
                        read-rename d temp path (take calls.written content) h ∙ ap some all,
                      ))
              ]
            ]
          ]
        ]
      ]
    ]

-- `Whole` from the disk with the temporary file made, and back once it is removed.
around :
    (calls : Calls) (temp path content : Text) (d : Disk) (r : Option WriteError × Disk)
    → text_eq temp path ≡ false
    → Whole path content (write d temp []) r
    → Whole path content d (r.0, clean_up calls temp r.1)
around calls temp path content d r h (inl (fine, new)) =
    inl (fine, read-clean_up_other calls temp path r.1 h ∙ new)
around calls temp path content d r h (inr (bad, old)) =
    inr (bad, read-clean_up_other calls temp path r.1 h ∙ old ∙ read-write_other d temp path [] h)

with_temp-Whole :
    (calls : Calls) (path content : Text) (d : Disk) (t : Option Text)
    → ((temp : Text) → t ≡ some temp → text_eq temp path ≡ false)
    → Whole path content d (with_temp calls path content d t)
with_temp-Whole calls path content d none fresh = inr (refl, refl)
with_temp-Whole calls path content d (some temp) fresh =
    let h = fresh temp refl in
    around calls temp path content d _ h
      (write_temp-Whole calls temp path content (write d temp []) h)

on_target-Whole :
    (calls : Calls) (content : Text) (d : Disk) (t : Option WriteError × Text)
    → ((temp : Text) → calls.temp ≡ some temp → text_eq temp t.1 ≡ false)
    → Whole t.1 content d (on_target calls content d t)
on_target-Whole calls content d (some e, path) fresh = inr (refl, refl)
on_target-Whole calls content d (none, path) fresh =
    with_temp-Whole calls path content d calls.temp fresh

-- Whatever calls of the operating system fail, and however many bytes a failing write has written,
-- `atomicWriteFile` either reports success and the file at the resolved path has exactly the new
-- content, or it reports an error and that file is what it was, if the temporary file's name is
-- not the resolved path.
pub atomic_write-Whole :
    (calls : Calls) (path content : Text) (d : Disk)
    → ((temp : Text) → calls.temp ≡ some temp → text_eq temp (target calls path).1 ≡ false)
    → Whole (target calls path).1 content d (atomic_write calls path content d)
unfolding atomic_write
atomic_write-Whole calls path content d fresh =
    on_target-Whole calls content d (target calls path) fresh

read-remove :
    (calls : Calls) (temp : Text) (d : Disk)
    → calls.removed ≡ true
    → read (clean_up calls temp d) temp ≡ none
unfolding read clean_up
read-remove calls temp d h = rw (h, text_eq_refl temp)

write_temp_other :
    (calls : Calls) (temp path content other : Text) (d : Disk)
    → text_eq temp other ≡ false
    → text_eq path other ≡ false
    → read (write_temp calls temp path content d).1 other ≡ read d other
unfolding write_temp read rename
write_temp_other calls temp path content other d h k = ground (arith, h, k)

-- On `r`, the temporary file is gone and the file at `other` is what it was on `d`.
abbrev pub Clean : Text → Text → Disk → Option WriteError × Disk → Type 0
Clean temp other d r = (read r.1 temp ≡ none) × (read r.1 other ≡ read d other)

on_target-Clean :
    (calls : Calls) (content temp other : Text) (d : Disk) (t : Option WriteError × Text)
    → calls.temp ≡ some temp
    → calls.removed ≡ true
    → read d temp ≡ none
    → text_eq temp other ≡ false
    → text_eq t.1 other ≡ false
    → Clean temp other d (on_target calls content d t)
on_target-Clean calls content temp other d (some e, path) made removed new h k = (new, refl)
on_target-Clean calls content temp other d (none, path) made removed new h k =
    subst (λ o. Clean temp other d (with_temp calls path content d o)) (sym made)
      (
        read-remove calls temp _ removed,
        read-clean_up_other calls temp other _ h
            ∙ write_temp_other calls temp path content other (write d temp []) h k
            ∙ read-write_other d temp other [] h,
      )

-- Every file but the one at the resolved path and the temporary one keeps its content, and where
-- the deferred removal works no file of the temporary name is left, on success and on failure
-- alike, if there was none before.
pub atomic_write-Clean :
    (calls : Calls) (path content temp other : Text) (d : Disk)
    → calls.temp ≡ some temp
    → calls.removed ≡ true
    → read d temp ≡ none
    → text_eq temp other ≡ false
    → text_eq (target calls path).1 other ≡ false
    → Clean temp other d (atomic_write calls path content d)
unfolding atomic_write
atomic_write-Clean calls path content temp other d made removed new h k =
    on_target-Clean calls content temp other d (target calls path) made removed new h k
