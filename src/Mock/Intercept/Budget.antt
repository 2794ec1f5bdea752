-- ===== src/Mock/Intercept/Budget.antt =====
-- sysconfig/mock/interceptor.go: how often a record answers.
use aliyun_cli.Base.{
  sym, subst, ℕ, zero, suc, Text, true, ◌≡◌, refl, ap, ◌∙◌, List, [], ◌∷◌, ◌++◌, length, pos, ok,
}
use aliyun_cli.Mock.{Record}
use aliyun_cli.Mock.Matcher.Search.{match_command}
use aliyun_cli.Mock.Store.{Codec, File, content, saved, load, save}
use aliyun_cli.Mock.Store.Valid.{IsLawful, load-IsValid, load_of_saved}
use aliyun_cli.Mock.Intercept.{
  used_up, cons_used, Interception, answer, answer_with, answer_at, answer_from, intercept,
}
use aliyun_cli.Mock.Intercept.Uses.{
  repeated, NoneFits, find_match-append, record_at-append, consume-append, used-IsValid,
}
use aliyun_cli.Mock.Intercept.Answered.{
  Answers, UsedOnce, answer-Answers, used_up-UsedOnce, append-valid_record,
}

module _ (codec : Codec) (lawful : IsLawful codec) (args : List Text) where
  -- The answer and the file of a run whose first fitting record is known.
  answered_first :
      (file : File) (before after : List Record) (r : Record)
      → load codec file true ≡ ok (before ++ (r ∷ after))
      → NoneFits args before
      → match_command r.cmd args ≡ true
      → let answered = intercept true codec saved args file in
        (answered.0 ≡ answer r)
        × (load codec answered.1 true ≡ ok (before ++ cons_used (used_up r r.times) after))
  unfolding intercept save
  answered_first file before after r loads miss hit =
      let all = before ++ (r ∷ after) in
      let left = before ++ cons_used (used_up r r.times) after in
      let e : intercept true codec saved args file
          ≡ (answer r, content (codec.encode left ++ (10 ∷ []))) =
        ap (answer_from codec saved args file) loads
        ∙ ap (answer_at codec saved file all) (find_match-append before after r args miss hit)
        ∙ ap (answer_with codec saved file all (length before)) (record_at-append before after r)
        ∙ ap (λ l. (answer r, content (codec.encode l ++ (10 ∷ []))))
            (consume-append before after r) in
      (
        ap (λ a. a.0) e,
        ap (λ a. load codec a.1 true) e
            ∙ load_of_saved codec lawful left
                (used-IsValid before after r (load-IsValid codec file all loads)),
      )

  -- The same command line again and again: the answers, and the file behind the last.
  abbrev pub intercept_times : ℕ → File → List Interception × File
  intercept_times zero file = ([], file)
  intercept_times (suc n) file =
      let (first, file') = intercept true codec saved args file in
      let (rest, last) = intercept_times n file' in (first ∷ rest, last)

  -- A record whose number of uses is zero answers every command line that reaches it, however many
  -- there are, and the records are loaded as they were behind each.
  pub intercept_unlimited :
      (n : ℕ) (file : File) (before after : List Record) (r : Record)
      → r.times ≡ pos 0
      → load codec file true ≡ ok (before ++ (r ∷ after))
      → NoneFits args before
      → match_command r.cmd args ≡ true
      → let run = intercept_times n file in
        (run.0 ≡ repeated n (answer r)) × (load codec run.1 true ≡ ok (before ++ (r ∷ after)))
  intercept_unlimited zero file before after r budget loads miss hit = (refl, loads)
  intercept_unlimited (suc n) file before after r budget loads miss hit =
      let q = answered_first file before after r loads miss hit in
      let file' = (intercept true codec saved args file).1 in
      let loads' : load codec file' true ≡ ok (before ++ (r ∷ after)) =
        q.1 ∙ ap (λ t. ok (before ++ cons_used (used_up r t) after)) budget in
      let ih = intercept_unlimited n file' before after r budget loads' miss hit in
      (ap (λ a. a ∷ (intercept_times n file').0) q.0 ∙ ap (λ l. answer r ∷ l) ih.0, ih.1)

  -- The first record that fits a command line answers it: with its exit code, after its pause, with its
  -- standard error, and with its standard output brought to its body size where it has one. Behind
  -- it one use is taken off the record: a counted record has one use less and is gone after its last,
  -- one with the count zero stays, and the records before and behind it are loaded as they were. The
  -- file must be loadable and writable.
  pub intercept_first :
      (file : File) (before after : List Record) (r : Record)
      → load codec file true ≡ ok (before ++ (r ∷ after))
      → NoneFits args before
      → match_command r.cmd args ≡ true
      → let answered = intercept true codec saved args file in
        Answers r answered.0
        × ((left : List Record) × UsedOnce r left
            × (load codec answered.1 true ≡ ok (before ++ (left ++ after))))
  intercept_first file before after r loads miss hit =
      let q = answered_first file before after r loads miss hit in
      let valid =
        append-valid_record before after r
          (load-IsValid codec file (before ++ (r ∷ after)) loads) in
      let (left, used, same) = used_up-UsedOnce r after valid in
      (
        subst (Answers r) (sym q.0) (answer-Answers r valid),
        (left, used, q.1 ∙ ap (λ l. ok (before ++ l)) same),
      )
