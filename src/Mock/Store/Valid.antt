-- ===== src/Mock/Store/Valid.antt =====
-- sysconfig/mock/store.go: what is saved can be loaded again, and stays a list of valid records.
use aliyun_cli.Base.{
  Text, text_eq, text_eq_refl, is_empty, trim_space, true, false, Bool-cases, Option-cases, ◌≡◌,
  refl, sym, ap, subst, ◌∙◌, inl, inr, Option, none, some, List, [], ◌∷◌, ◌++◌, ok-inj, All,
  if◌then◌else◌, ok,
}
use aliyun_cli.Mock.{Record}
use aliyun_cli.Mock.Store.{
  Codec, File, content, saved, validate_record, validate_records, checked, decoded, load, save,
  append, append_to, cons_some, without_name, remove_by_name, load_lenient, ok_or_empty,
}

-- The JSON library reads back the records that it has written, and writes no blank text.
pub record IsLawful (codec : Codec) : Type 0 where
  pub decodes :
      (records : List Record)
      → codec.decode (codec.encode records ++ (10 ∷ [])) ≡ some (some records)
  pub is_visible :
      (records : List Record) → is_empty (trim_space (codec.encode records ++ (10 ∷ []))) ≡ false

abbrev pub IsValid : List Record → Type 0
IsValid records = validate_records records ≡ none

pub IsValid-cons :
    (r : Record) (records : List Record)
    → IsValid (r ∷ records)
    → (validate_record r ≡ none) × IsValid records
unfolding validate_records
IsValid-cons r records h = elim (Option-cases (validate_record r)) [
  | inl fine ↦ (fine, sym (rw fine refl) ∙ h)
  | inr (e, bad) ↦ absurd (let q : some e ≡ none = sym (rw bad refl) ∙ h in cc)
]

pub cons-IsValid :
    (r : Record) (records : List Record)
    → validate_record r ≡ none
    → IsValid records
    → IsValid (r ∷ records)
unfolding validate_records
cons-IsValid r records h k = rw h k

pub append-IsValid : (xs ys : List Record) → IsValid xs → IsValid ys → IsValid (xs ++ ys)
append-IsValid [] ys h k = k
append-IsValid (x ∷ xs) ys h k =
    let q = IsValid-cons x xs h in cons-IsValid x (xs ++ ys) q.0 (append-IsValid xs ys q.1 k)

pub load_of_saved :
    (codec : Codec)
    → IsLawful codec
    → (records : List Record) → IsValid records
    → load codec (content (codec.encode records ++ (10 ∷ []))) true ≡ ok records
unfolding load decoded
load_of_saved codec lawful records valid =
    rw (lawful.is_visible records, lawful.decodes records, valid) refl

-- What the strict `load` accepts is a list of valid records.
checked-IsValid :
    (given records : List Record)
    → checked true given (validate_records given) ≡ ok records
    → IsValid records
checked-IsValid given records h = elim (Option-cases (validate_records given)) [
  | inl fine ↦
      subst (λ l. IsValid l) (ok-inj (subst (λ o. checked true given o ≡ ok records) fine h)) fine
  | inr (e, bad) ↦ absurd (let q = subst (λ o. checked true given o ≡ ok records) bad h in cc)
]

decoded-IsValid :
    (text : Option (Option (List Record))) (records : List Record)
    → decoded true text ≡ ok records
    → IsValid records
unfolding decoded
decoded-IsValid none records h = cc
decoded-IsValid (some none) records h = cc
decoded-IsValid (some (some given)) records h = checked-IsValid given records h

pub load-IsValid :
    (codec : Codec) (file : File) (records : List Record)
    → load codec file true ≡ ok records
    → IsValid records
unfolding load validate_records
load-IsValid codec File.absent records h = subst (λ l. IsValid l) (ok-inj h) refl
load-IsValid codec File.unreadable records h = cc
load-IsValid codec (content text) records h = elim (Bool-cases (is_empty (trim_space text))) [
  | inl blank ↦
      subst (λ l. IsValid l)
        (ok-inj (
          subst (λ b. (if b then ok [] else decoded true (codec.decode text)) ≡ ok records) blank
            h))
        refl
  | inr visible ↦
      decoded-IsValid (codec.decode text) records (
        subst (λ b. (if b then ok [] else decoded true (codec.decode text)) ≡ ok records) visible h)
]

-- Where the strict `load` accepts the file, the lenient one reads the same.
checked_lenient :
    (records l : List Record) (o : Option _)
    → checked true records o ≡ ok l
    → checked false records o ≡ ok l
checked_lenient records l none h = h
checked_lenient records l (some e) h = cc

decoded_lenient :
    (text : Option (Option (List Record))) (l : List Record)
    → decoded true text ≡ ok l
    → decoded false text ≡ ok l
unfolding decoded
decoded_lenient none l h = cc
decoded_lenient (some none) l h = cc
decoded_lenient (some (some records)) l h = checked_lenient records l (validate_records records) h

pub load_lenient_of_strict :
    (codec : Codec) (file : File) (l : List Record)
    → load codec file true ≡ ok l
    → load_lenient codec file ≡ l
unfolding load_lenient load
load_lenient_of_strict codec File.absent l h = ok-inj h
load_lenient_of_strict codec File.unreadable l h = cc
load_lenient_of_strict codec (content text) l h = elim (Bool-cases (is_empty (trim_space text))) [
  | inl blank ↦
      rw blank (
        ok-inj
          (subst (λ b. (if b then ok [] else decoded true (codec.decode text)) ≡ ok l) blank h))
  | inr visible ↦ rw visible (
      ap ok_or_empty (
        decoded_lenient (codec.decode text) l
          (subst (λ b. (if b then ok [] else decoded true (codec.decode text)) ≡ ok l) visible h)))
]

module _ (codec : Codec) (lawful : IsLawful codec) (file : File) (current : List Record)
    (loads : load codec file true ≡ ok current) where
  -- Appending valid records to a file that can be loaded succeeds when the file can be written, and
  -- behind it exactly the old records and then the new ones are loaded.
  pub load-append :
      (records : List Record)
      → IsValid records
      → ((append codec saved records file).0 ≡ ok tt)
        × (load codec (append codec saved records file).1 true ≡ ok (current ++ records))
  unfolding append save
  load-append records valid = (
    rw loads refl,
    subst (λ o. load codec (append_to codec saved records file o).1 true ≡ ok (current ++ records))
        (sym loads)
        (load_of_saved codec lawful (current ++ records)
          (append-IsValid current records (load-IsValid codec file current loads) valid)),
  )

without_name_last :
    (name : Text) (records : List Record) (r : Record)
    → r.name ≡ name
    → All (λ q. text_eq q.name name ≡ false) records
    → without_name name (records ++ (r ∷ [])) ≡ some records
unfolding without_name
without_name_last name [] r e new = rw e (rw (text_eq_refl name) refl)
without_name_last name (q ∷ records) r e new =
    rw new.0 (ap (cons_some q) (without_name_last name records r e new.1))

-- A record that is appended to a file, under a name that no record of the file has, is taken out again
-- by that name, and the records are loaded as they were.
pub remove_by_name-append :
    (codec : Codec)
    → IsLawful codec
    → (file : File) (current : List Record) (r : Record) → load codec file true ≡ ok current
    → validate_record r ≡ none
    → All (λ q. text_eq q.name r.name ≡ false) current
    → let removed = remove_by_name codec saved r.name (append codec saved (r ∷ []) file).1 in
      (removed.0 ≡ ok tt) × (load codec removed.1 true ≡ ok current)
unfolding remove_by_name save validate_records
remove_by_name-append codec lawful file current r loads valid new =
    let q = load-append codec lawful file current loads (r ∷ []) (cons-IsValid r [] valid refl) in
    let found =
      load_lenient_of_strict codec (append codec saved (r ∷ []) file).1 (current ++ (r ∷ [])) q.1 in
    let gone = without_name_last r.name current r refl new in
    (
      rw (found, gone) refl,
      rw (found, gone) (load_of_saved codec lawful current (load-IsValid codec file current loads)),
    )
