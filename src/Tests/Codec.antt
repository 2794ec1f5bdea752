-- ===== src/Tests/Codec.antt =====
-- A concrete way to write records as texts, for the theorems on the file of the mock records.
use aliyun_cli.Base.{
  ℕ, zero, suc, Text, is_empty, trim_left, trim_right, trim_space, false, ◌≡◌, refl, ap, ◌∙◌,
  Option, none, some, List, [], ◌∷◌, ◌++◌, append_assoc, length, take, drop, ℤ, pos, negsuc,
}
use aliyun_cli.Mock.{Record}
use aliyun_cli.Mock.Store.{Codec}
use aliyun_cli.Mock.Store.Valid.{IsLawful}

-- A text behind its length, and an integer behind its sign.
abbrev put_text : Text → Text → Text
put_text t rest = length t ∷ (t ++ rest)

abbrev put_int : ℤ → Text → Text
put_int (pos n) rest = 0 ∷ n ∷ rest
put_int (negsuc n) rest = 1 ∷ n ∷ rest

unfoldable pub get_text : Text → Text × Text
get_text [] = ([], [])
get_text (n ∷ s) = (take n s, drop n s)

unfoldable pub get_int : Text → ℤ × Text
get_int (zero ∷ n ∷ s) = (pos n, s)
get_int (suc k ∷ n ∷ s) = (negsuc n, s)
get_int _ = (pos 0, [])

take-append : (t rest : Text) → take (length t) (t ++ rest) ≡ t
take-append [] rest = refl
take-append (c ∷ t) rest = ap (λ u. c ∷ u) (take-append t rest)

drop-append : (t rest : Text) → drop (length t) (t ++ rest) ≡ rest
drop-append [] rest = refl
drop-append (c ∷ t) rest = drop-append t rest

get_text-put_text : (t rest : Text) → get_text (put_text t rest) ≡ (t, rest)
unfolding get_text
get_text-put_text t rest = rw (take-append t rest, drop-append t rest) refl

get_int-put_int : (i : ℤ) (rest : Text) → get_int (put_int i rest) ≡ (i, rest)
unfolding get_int
get_int-put_int (pos n) rest = refl
get_int-put_int (negsuc n) rest = refl

unfoldable pub put_record : Record → Text → Text
put_record r rest = put_text r.name (
    put_text r.cmd (
      put_int r.exit_code (
        put_text r.stdout (
          put_text r.stderr
            (put_int r.times (put_int r.delay_ms (put_int r.response_body_size rest)))))))

unfoldable pub get_record : Text → Record × Text
get_record s =
    let (name, s1) = get_text s in
    let (cmd, s2) = get_text s1 in
    let (exit_code, s3) = get_int s2 in
    let (stdout, s4) = get_text s3 in
    let (stderr, s5) = get_text s4 in
    let (times, s6) = get_int s5 in
    let (delay_ms, s7) = get_int s6 in
    let (size, s8) = get_int s7 in
    (
      record {
        name = name;
        cmd = cmd;
        exit_code = exit_code;
        stdout = stdout;
        stderr = stderr;
        times = times;
        delay_ms = delay_ms;
        response_body_size = size;
      },
      s8,
    )

get_record-put_record : (r : Record) (rest : Text) → get_record (put_record r rest) ≡ (r, rest)
unfolding get_record put_record
get_record-put_record r rest = simp (get_text-put_text, get_int-put_int)

unfoldable pub put_records : List Record → Text → Text
put_records [] rest = rest
put_records (r ∷ records) rest = put_record r (put_records records rest)

unfoldable pub get_records : ℕ → Text → List Record
get_records zero s = []
get_records (suc n) s = (get_record s).0 ∷ get_records n (get_record s).1

get_records-put_records :
    (records : List Record) (rest : Text)
    → get_records (length records) (put_records records rest) ≡ records
unfolding get_records put_records
get_records-put_records [] rest = refl
get_records-put_records (r ∷ records) rest =
    rw (get_record-put_record r (put_records records rest), get_records-put_records records rest)
      refl

unfoldable pub decode_array : Text → Option (Option (List Record))
decode_array (bracket ∷ n ∷ s) = some (some (get_records n s))
decode_array _ = none

unfoldable pub encode_array : List Record → Text
encode_array records = b'[' ∷ length records ∷ put_records records []

abbrev pub codec : Codec
codec = record { decode = decode_array; decode_one = λ s. none; encode = encode_array }

put_text-append : (t rest more : Text) → put_text t rest ++ more ≡ put_text t (rest ++ more)
put_text-append t rest more = ap (λ u. length t ∷ u) (append_assoc t rest more)

put_int-append : (i : ℤ) (rest more : Text) → put_int i rest ++ more ≡ put_int i (rest ++ more)
put_int-append (pos n) rest more = refl
put_int-append (negsuc n) rest more = refl

put_record-append :
    (r : Record) (rest more : Text) → put_record r rest ++ more ≡ put_record r (rest ++ more)
unfolding put_record
put_record-append r rest more =
    put_text-append r.name _ more
    ∙ ap (put_text r.name) (
        put_text-append r.cmd _ more
        ∙ ap (put_text r.cmd) (
            put_int-append r.exit_code _ more
            ∙ ap (put_int r.exit_code) (
                put_text-append r.stdout _ more
                ∙ ap (put_text r.stdout) (
                    put_text-append r.stderr _ more
                    ∙ ap (put_text r.stderr) (
                        put_int-append r.times _ more
                        ∙ ap (put_int r.times) (
                            put_int-append r.delay_ms _ more
                            ∙ ap (put_int r.delay_ms)
                                (put_int-append r.response_body_size rest more)))))))

put_records-append :
    (records : List Record) (rest more : Text)
    → put_records records rest ++ more ≡ put_records records (rest ++ more)
unfolding put_records
put_records-append [] rest more = refl
put_records-append (r ∷ records) rest more =
    put_record-append r (put_records records rest) more
    ∙ ap (put_record r) (put_records-append records rest more)

is_visible_bracket : (s : Text) → is_empty (trim_space (b'[' ∷ s)) ≡ false
unfolding trim_space trim_left trim_right
is_visible_bracket s = refl

decode_array-encode_array :
    (records : List Record) → decode_array (encode_array records ++ (10 ∷ [])) ≡ some (some records)
unfolding decode_array encode_array
decode_array-encode_array records =
    ap (λ t. some (some (get_records (length records) t))) (put_records-append records [] (10 ∷ []))
    ∙ ap (λ l. some (some l)) (get_records-put_records records (10 ∷ []))

is_visible-encode_array :
    (records : List Record) → is_empty (trim_space (encode_array records ++ (10 ∷ []))) ≡ false
unfolding encode_array
is_visible-encode_array records = is_visible_bracket _

pub codec-IsLawful : IsLawful codec
codec-IsLawful = record {
  decodes = decode_array-encode_array;
  is_visible = is_visible-encode_array;
}
