-- ===== src/Mock/Intercept.antt =====
-- sysconfig/mock/interceptor.go: a command line that a record answers in place of the service, and
-- `FindMatch` and `Consume` of sysconfig/mock/matcher.go.
pub mod Uses
pub mod Answered
pub mod Budget
use aliyun_cli.Base.{
  ℕ, zero, suc, Text, Bool, true, false, not, Option, none, some, List, [], ◌∷◌, ℤ, pos, negsuc,
  if◌then◌else◌, ok, err, panic, timeout,
}
use aliyun_cli.Mock.{Record, resolve_stdout}
use aliyun_cli.Mock.Matcher.Search.{match_command}
use aliyun_cli.Mock.Store.{Codec, File, SaveCalls, StoreError, Outcome, load, save}

abbrev pub later_index : Option ℕ → Option ℕ
later_index none = none
later_index (some i) = some (suc i)

-- `FindMatch`
unfoldable pub find_match : List Record → List Text → Option ℕ
find_match [] args = none
find_match (r ∷ records) args =
    let later = later_index (find_match records args) in
    if match_command r.cmd args then some 0 else later

-- The record behind one more use, or nothing where that was the last one.
abbrev pub used_up : Record → ℤ → Option Record
used_up r (pos zero) = some r
used_up r (pos (suc zero)) = none
used_up r (pos (suc (suc n))) = some (record r { times = pos (suc n) })
used_up r (negsuc n) = none

abbrev pub cons_used : Option Record → List Record → List Record
cons_used none records = records
cons_used (some r) records = r ∷ records

-- `Consume`, at an index that is not negative
unfoldable pub consume : List Record → ℕ → List Record
consume [] index = []
consume (r ∷ records) zero = cons_used (used_up r r.times) records
consume (r ∷ records) (suc index) = r ∷ consume records index

unfoldable pub record_at : List Record → ℕ → Option Record
record_at [] index = none
record_at (r ∷ records) zero = some r
record_at (r ∷ records) (suc index) = record_at records index

-- What is written to standard error: nothing, a message of the program, or a text of the record.
pub data ErrorOutput : Type 0 where
  load_failed save_failed : StoreError → ErrorOutput
  of_record : Text → ErrorOutput
  no_error_output : ErrorOutput

-- `Result` and the effects: the pause in milliseconds and the two outputs.
pub record Interception : Type 0 where
  pub handled : Bool
  pub exit_code : ℤ
  pub slept : ℤ
  pub out : Text
  pub error_out : ErrorOutput

abbrev pub not_handled : Interception
not_handled = record {
  handled = false;
  exit_code = pos 0;
  slept = pos 0;
  out = [];
  error_out = no_error_output;
}

abbrev pub failed_with : ErrorOutput → Interception
failed_with e = record { handled = true; exit_code = pos 1; slept = pos 0; out = []; error_out = e }

abbrev pub pause_of : ℤ → ℤ
pause_of (pos n) = pos n
pause_of (negsuc n) = pos 0

abbrev pub error_output_of : Text → ErrorOutput
error_output_of [] = no_error_output
error_output_of (c ∷ s) = of_record (c ∷ s)

unfoldable pub answer : Record → Interception
answer r = record {
  handled = true;
  exit_code = r.exit_code;
  slept = pause_of r.delay_ms;
  out = resolve_stdout r;
  error_out = error_output_of r.stderr;
}

-- The answer behind the attempt to save.
abbrev pub after_save : Record → Outcome (Unit {0}) × File → Interception × File
after_save r (ok u, file) = (answer r, file)
after_save r (err e, file) = (failed_with (save_failed e), file)
after_save r (panic p, file) = (not_handled, file)
after_save r (timeout, file) = (not_handled, file)

abbrev pub answer_with :
    Codec → SaveCalls → File → List Record → ℕ → Option Record → Interception × File
answer_with codec calls file records index none = (not_handled, file)
answer_with codec calls file records index (some r) =
    after_save r (save codec calls (consume records index) file)

abbrev pub answer_at : Codec → SaveCalls → File → List Record → Option ℕ → Interception × File
answer_at codec calls file records none = (not_handled, file)
answer_at codec calls file records (some index) =
    answer_with codec calls file records index (record_at records index)

abbrev pub answer_from :
    Codec → SaveCalls → List Text → File → Outcome (List Record) → Interception × File
answer_from codec calls args file (ok records) =
    answer_at codec calls file records (find_match records args)
answer_from codec calls args file (err e) = (failed_with (load_failed e), file)
answer_from codec calls args file (panic p) = (not_handled, file)
answer_from codec calls args file timeout = (not_handled, file)

-- `Intercept`; `enabled` is whether the environment switches it on.
unfoldable pub intercept : Bool → Codec → SaveCalls → List Text → File → Interception × File
intercept enabled codec calls args file =
    if not enabled
    then (not_handled, file)
    else answer_from codec calls args file (load codec file true)
