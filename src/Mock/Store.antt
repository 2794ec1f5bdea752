-- ===== src/Mock/Store.antt =====
-- sysconfig/mock/store.go: the file of the records. The JSON library is a parameter, and so is how
-- the calls of the operating system end.
pub mod Valid
use aliyun_cli.Base.{
  ℕ, zero, suc, Text, text_eq, is_empty, trim_space, Bool, true, false, ◌==◌, ltb, Option, none,
  some, List, [], ◌∷◌, ◌++◌, ℤ, pos, negsuc, if◌then◌else◌, Res, ok, err, panic, timeout,
}
use aliyun_cli.Mock.{Record, max_delay_ms, max_response_body_size}

-- What `json.Unmarshal` and `json.MarshalIndent` make of records: an array of records or `null`
-- where the text can be decoded, one record where the text is an object, and the text of records.
pub record Codec : Type 0 where
  pub decode : Text → Option (Option (List Record))
  pub decode_one : Text → Option Record
  pub encode : List Record → Text

pub data File : Type 0 where
  absent unreadable : File
  content : Text → File

pub data RecordError : Type 0 where
  name_is_required cmd_is_required times_is_negative delay_is_negative delay_is_too_long
        body_size_is_negative body_size_is_too_large :
      RecordError

pub data StoreError : Type 0 where
  read_failed bad_json not_an_array input_is_empty name_not_found index_out_of_range : StoreError
  invalid_record : RecordError → StoreError
  mkdir_failed write_failed chmod_failed : StoreError

abbrev pub is_negative : ℤ → Bool
is_negative (pos n) = false
is_negative (negsuc n) = true

-- Is the integer larger than the limit?
abbrev pub exceeds : ℤ → ℕ → Bool
exceeds (pos n) limit = ltb limit n
exceeds (negsuc n) limit = false

-- `validateRecord`: the error, if there is one.
unfoldable pub validate_record : Record → Option RecordError
validate_record r =
    if is_empty r.name
    then some name_is_required
    else if is_empty r.cmd
    then some cmd_is_required
    else if is_negative r.times
    then some times_is_negative
    else if is_negative r.delay_ms
    then some delay_is_negative
    else if exceeds r.delay_ms max_delay_ms
    then some delay_is_too_long
    else if is_negative r.response_body_size
    then some body_size_is_negative
    else if exceeds r.response_body_size max_response_body_size
    then some body_size_is_too_large
    else none

abbrev pub first_error : Option RecordError → Option RecordError → Option RecordError
first_error none later = later
first_error (some e) later = some e

unfoldable pub validate_records : List Record → Option RecordError
validate_records [] = none
validate_records (r ∷ records) = first_error (validate_record r) (validate_records records)

abbrev pub Outcome : Type 0 → Type 0
Outcome A = Res StoreError ⊥ A

-- `load` once the text is decoded.
abbrev pub checked : Bool → List Record → Option RecordError → Outcome (List Record)
checked strict records none = ok records
checked true records (some e) = err (invalid_record e)
checked false records (some e) = ok []

unfoldable pub decoded : Bool → Option (Option (List Record)) → Outcome (List Record)
decoded strict none = err bad_json
decoded true (some none) = err not_an_array
decoded false (some none) = ok []
decoded strict (some (some records)) = checked strict records (validate_records records)

-- `load`
unfoldable pub load : Codec → File → Bool → Outcome (List Record)
load codec absent strict = ok []
load codec unreadable strict = err read_failed
load codec (content text) strict =
    if is_empty (trim_space text) then ok [] else decoded strict (codec.decode text)

abbrev pub ok_or_empty : Outcome (List Record) → List Record
ok_or_empty (ok records) = records
ok_or_empty _ = []

unfoldable pub load_lenient : Codec → File → List Record
load_lenient codec file = ok_or_empty (load codec file false)

-- How the calls of `Save` end: all succeed, the directory cannot be made, the write fails and leaves
-- something, or the write succeeds and the mode cannot be set.
pub data SaveCalls : Type 0 where
  saved mkdir_fails chmod_fails : SaveCalls
  write_fails : File → SaveCalls

-- `Save`: what it returns, and the file behind it.
unfoldable pub save : Codec → SaveCalls → List Record → File → Outcome (Unit {0}) × File
save codec mkdir_fails records file = (err mkdir_failed, file)
save codec (write_fails left) records file = (err write_failed, left)
save codec chmod_fails records file =
    (err chmod_failed, content (codec.encode records ++ (10 ∷ [])))
save codec saved records file = (ok tt, content (codec.encode records ++ (10 ∷ [])))

-- `DecodeInput`
abbrev pub valid_or_error : List Record → Option RecordError → Outcome (List Record)
valid_or_error records none = ok records
valid_or_error records (some e) = err (invalid_record e)

abbrev pub decoded_array : Option (Option (List Record)) → Outcome (List Record)
decoded_array none = err bad_json
decoded_array (some none) = ok []
decoded_array (some (some records)) = valid_or_error records (validate_records records)

abbrev pub decoded_record : Option Record → Outcome (List Record)
decoded_record none = err bad_json
decoded_record (some r) = valid_or_error (r ∷ []) (validate_record r)

abbrev pub decode_trimmed : Codec → Text → Outcome (List Record)
decode_trimmed codec [] = err input_is_empty
decode_trimmed codec (c ∷ s) =
    if c == b'['
    then decoded_array (codec.decode (c ∷ s))
    else decoded_record (codec.decode_one (c ∷ s))

unfoldable pub decode_input : Codec → Text → Outcome (List Record)
decode_input codec input = decode_trimmed codec (trim_space input)

-- `Append`: the records that are there must be valid.
abbrev pub append_to :
    Codec → SaveCalls → List Record → File → Outcome (List Record) → Outcome (Unit {0}) × File
append_to codec calls records file (ok current) = save codec calls (current ++ records) file
append_to codec calls records file (err e) = (err e, file)
append_to codec calls records file (panic p) = (panic p, file)
append_to codec calls records file timeout = (timeout, file)

unfoldable pub append : Codec → SaveCalls → List Record → File → Outcome (Unit {0}) × File
append codec calls records file = append_to codec calls records file (load codec file true)

unfoldable pub append_lenient : Codec → SaveCalls → List Record → File → Outcome (Unit {0}) × File
append_lenient codec calls records file = save codec calls (load_lenient codec file ++ records) file

unfoldable pub clear : Codec → SaveCalls → File → Outcome (Unit {0}) × File
clear codec calls file = save codec calls [] file

-- The first record of a name, taken out.
abbrev pub cons_some : Record → Option (List Record) → Option (List Record)
cons_some r none = none
cons_some r (some rest) = some (r ∷ rest)

unfoldable pub without_name : Text → List Record → Option (List Record)
without_name name [] = none
without_name name (r ∷ records) =
    let later = cons_some r (without_name name records) in
    if text_eq r.name name then some records else later

abbrev pub save_found :
    Codec → SaveCalls → File → StoreError → Option (List Record) → Outcome (Unit {0}) × File
save_found codec calls file e none = (err e, file)
save_found codec calls file e (some records) = save codec calls records file

unfoldable pub remove_by_name : Codec → SaveCalls → Text → File → Outcome (Unit {0}) × File
remove_by_name codec calls name file =
    save_found codec calls file name_not_found (without_name name (load_lenient codec file))

unfoldable pub without_index : ℕ → List Record → Option (List Record)
without_index index [] = none
without_index zero (r ∷ records) = some records
without_index (suc index) (r ∷ records) = cons_some r (without_index index records)

abbrev pub at_index : ℤ → List Record → Option (List Record)
at_index (pos index) records = without_index index records
at_index (negsuc n) records = none

unfoldable pub remove_by_index : Codec → SaveCalls → ℤ → File → Outcome (Unit {0}) × File
remove_by_index codec calls index file =
    save_found codec calls file index_out_of_range (at_index index (load_lenient codec file))
