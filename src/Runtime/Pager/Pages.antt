-- ===== src/Runtime/Pager/Pages.antt =====
-- aliyun-openapi-runtime/runtime/pager.go: against a service that counts its pages, the loop ends and the
-- pages are merged completely and in order.
use native.Mathlib.Nat.{le-div_iff_mul-le, div-lt_iff_lt-mul}
use aliyun_cli.Base.{
  ◌-◌, ◌*◌, ◌≤◌, ◌<◌, min, List, ℕ, zero, suc, ◌+◌, Text, txt, text_eq, is_empty, split, true,
  false, ltb, ◌≡◌, refl, ap, subst, ◌∙◌, ◌⊎◌, inl, inr, Option, some, [], ◌∷◌, ℤ, pos, ok, and_then,
  arith,
}
use aliyun_cli.Runtime.{
  Value, nil, array, object, Values, no_values, value_cons, no_members, member_cons, append, count,
}
use aliyun_cli.Runtime.Pager.{
  Library, Outcome, PagerConfig, Pager, new_pager, number_at, read_token, read_counts, merge,
  feed_response, ceil_div, has_more, Query, set_query, move_next_page, Service, pager_loop,
  get_response_collection, call_with_pager, go_on, nested, trim_brackets, last_part,
}

-- A service whose pages are numbered from 1: a request without a page number is answered with the
-- first, and one with a number with that page. Each page says how many items there are in all, how
-- many make a page, and its own number; it carries no token, and its items stand at the path: as many
-- as make a page, or what is left of all items if that is less.
pub record IsPaged (lib : Library) (service : Service) (path : Text) (size total : ℕ)
    (raw : ℕ → Text) (page : ℕ → Value) (items : ℕ → Values) : Type 0 where
  pub first_page : service [] ≡ some (raw 1)
  pub numbered : (k : ℕ) → service ((txt "PageNumber", lib.itoa (pos k)) ∷ []) ≡ some (raw k)
  pub has_text : (k : ℕ) → is_empty (raw k) ≡ false
  pub decodes : (k : ℕ) → lib.decode (raw k) ≡ some (page k)
  pub no_token : (k : ℕ) → lib.search (txt "NextToken") (page k) ≡ some nil
  pub says_total : (k : ℕ) (old : ℤ) → number_at lib (txt "TotalCount") (page k) old ≡ pos total
  pub says_size : (k : ℕ) (old : ℤ) → number_at lib (txt "PageSize") (page k) old ≡ pos size
  pub says_number : (k : ℕ) (old : ℤ) → number_at lib (txt "PageNumber") (page k) old ≡ pos k
  pub has_items : (k : ℕ) → lib.search path (page k) ≡ some (array (items k))
  pub page_items : (k : ℕ) → count (items (suc k)) ≡ min size (total - k * size)

-- The configuration that names only the path of the items.
abbrev pub path_config : Text → Option PagerConfig
path_config path =
    some
      (record { path = path; page_number = []; page_size = []; total_count = []; next_token = [] })

-- The items of the first pages, in order.
abbrev pub merged : (ℕ → Values) → ℕ → Values
merged items zero = no_values
merged items (suc k) = append (merged items k) (items (suc k))

abbrev pager_at : Text → ℤ → ℤ → ℤ → Values → Pager
pager_at path size total current results = record {
  page_number_expr = txt "PageNumber";
  page_size_expr = txt "PageSize";
  total_count_expr = txt "TotalCount";
  next_token_expr = txt "NextToken";
  collection_path = path;
  size = size;
  total = total;
  current = current;
  next_token_mode = false;
  token = [];
  results = results;
}

module _ (lib : Library) (service : Service) (c : ℕ) (s : Text) (size total : ℕ) (raw : ℕ → Text)
    (page : ℕ → Value) (items : ℕ → Values)
    (paged : IsPaged lib service (c ∷ s) (suc size) (suc total) raw page items) where
  feed_page :
      (k : ℕ) (z t n : ℤ) (results : Values)
      → feed_response lib (pager_at (c ∷ s) z t n results) (raw k)
        ≡ ok
            (pager_at (c ∷ s) (pos (suc size)) (pos (suc total)) (pos k) (append results (items k)))
  unfolding feed_response merge read_counts read_token
  feed_page k z t n results =
      rw
        (
          paged.has_text k,
          paged.decodes k,
          paged.no_token k,
          paged.says_total k t,
          paged.says_size k z,
          paged.says_number k n,
          paged.has_items k,
        )
        refl

  -- The request for a page: none is numbered for the first, and the number is replaced after that.
  abbrev IsRequest : Query → Type 0
  IsRequest q = (q ≡ []) ⊎ ((v : Text) × (q ≡ (txt "PageNumber", v) ∷ []))

  abbrev numbered_query : ℕ → Query
  numbered_query k = (txt "PageNumber", lib.itoa (pos k)) ∷ []

  set_number :
      (q : Query) (v : Text)
      → IsRequest q
      → set_query q (txt "PageNumber") v ≡ (txt "PageNumber", v) ∷ []
  unfolding set_query text_eq
  set_number q v (inl e) = rw e refl
  set_number q v (inr (w, e)) = rw e refl

  move_page :
      (k : ℕ) (results : Values) (q : Query)
      → IsRequest q
      → move_next_page lib (pager_at (c ∷ s) (pos (suc size)) (pos (suc total)) (pos k) results) q
        ≡ (
          pager_at (c ∷ s) (pos (suc size)) (pos (suc total)) (pos (suc k)) results,
          numbered_query (suc k),
        )
  unfolding move_next_page split
  move_page k results q r =
      ap
        (λ (x : Query).
          (pager_at (c ∷ s) (pos (suc size)) (pos (suc total)) (pos (suc k)) results, x))
        (set_number q (lib.itoa (pos (suc k))) r)

  more_pages :
      (k : ℕ) (results : Values)
      → has_more (pager_at (c ∷ s) (pos (suc size)) (pos (suc total)) (pos k) results)
        ≡ ltb k (ceil_div (suc total) (suc size))
  unfolding has_more
  more_pages k results = refl

  abbrev later_pages : ℕ → Pager → Query → ℕ → Unit {0} → Outcome (Pager × ℕ)
  later_pages fuel fed q calls _ =
      pager_loop fuel lib service (move_next_page lib fed q).0 (move_next_page lib fed q).1
        (suc calls)

  page_round :
      (fuel k : ℕ) (z t n : ℤ) (results : Values) (q : Query) (calls : ℕ)
      → service q ≡ some (raw k)
      → let fed =
          pager_at (c ∷ s) (pos (suc size)) (pos (suc total)) (pos k) (append results (items k)) in
        pager_loop (suc fuel) lib service (pager_at (c ∷ s) z t n results) q calls
        ≡ go_on (has_more fed) fed (suc calls) (later_pages fuel fed q calls)
  unfolding pager_loop
  page_round fuel k z t n results q calls answered_ = rw (answered_, feed_page k z t n results) refl

  pages_from :
      (n j : ℕ) (z t cur : ℤ) (q : Query) (calls : ℕ)
      → suc (j + n) ≡ ceil_div (suc total) (suc size)
      → IsRequest q
      → service q ≡ some (raw (suc j))
      → pager_loop (suc n) lib service (pager_at (c ∷ s) z t cur (merged items j)) q calls
        ≡ ok (
          pager_at
              (c ∷ s)
              (pos (suc size))
              (pos (suc total))
              (pos (suc (j + n)))
              (merged items (suc (j + n))),
          suc (calls + n),
        )
  pages_from zero j z t cur q calls last r answered_ =
      let done : ltb (suc j) (ceil_div (suc total) (suc size)) ≡ false = ground (arith, last) in
      let fed =
        pager_at (c ∷ s) (pos (suc size)) (pos (suc total)) (pos (suc j)) (merged items (suc j)) in
      let same : j + 0 ≡ j = omega arith in
      let count : calls + 0 ≡ calls = omega arith in
      rw (same, count)
        (page_round 0 (suc j) z t cur (merged items j) q calls answered_
          ∙ ap (λ b. go_on b fed (suc calls) (later_pages 0 fed q calls))
              (more_pages (suc j) (merged items (suc j)) ∙ done))
  pages_from (suc n) j z t cur q calls last r answered_ =
      let more : ltb (suc j) (ceil_div (suc total) (suc size)) ≡ true = ground (arith, last) in
      let fed =
        pager_at (c ∷ s) (pos (suc size)) (pos (suc total)) (pos (suc j)) (merged items (suc j)) in
      let shift : j + suc n ≡ suc j + n = omega arith in
      let count : calls + suc n ≡ suc calls + n = omega arith in
      rw (shift, count)
        (page_round (suc n) (suc j) z t cur (merged items j) q calls answered_
          ∙ ap (λ b. go_on b fed (suc calls) (later_pages (suc n) fed q calls))
              (more_pages (suc j) (merged items (suc j)) ∙ more)
          ∙ ap (λ (m : Pager × Query). pager_loop (suc n) lib service m.0 m.1 (suc calls))
              (move_page (suc j) (merged items (suc j)) q r)
          ∙ pages_from n (suc j) (pos (suc size)) (pos (suc total)) (pos (suc (suc j)))
              (numbered_query (suc (suc j))) (suc calls) (omega (arith, last))
              (inr (lib.itoa (pos (suc (suc j))), refl)) (paged.numbered (suc (suc j))))

-- What the loop returns, where the number of pages is as the code computes it.
call_with_pager_pages :
    (lib : Library) (service : Service) (c : ℕ) (s : Text) (size total : ℕ) (raw : ℕ → Text)
    (page : ℕ → Value) (items : ℕ → Values)
    → IsPaged lib service (c ∷ s) (suc size) (suc total) raw page items
    → (n : ℕ) → suc n ≡ ceil_div (suc total) (suc size)
    → call_with_pager (suc n) lib service (path_config (c ∷ s)) []
      ≡ ok (
        get_response_collection (
            pager_at
              (c ∷ s)
              (pos (suc size))
              (pos (suc total))
              (pos (suc n))
              (merged items (suc n))),
        suc n,
      )
unfolding call_with_pager new_pager
call_with_pager_pages lib service c s size total raw page items paged n e =
    let same : 0 + n ≡ n = omega arith in
    let run =
      pages_from lib service c s size total raw page items paged n 0 (pos 0) (pos 0) (pos 0) [] 0
        (omega (arith, e)) (inl refl) paged.first_page in
    let run' =
      subst
        (λ k.
          pager_loop (suc n) lib service (pager_at (c ∷ s) (pos 0) (pos 0) (pos 0) no_values) [] 0
          ≡ ok (
            pager_at (c ∷ s) (pos (suc size)) (pos (suc total)) (pos (suc k))
                (merged items (suc k)),
            suc k,
          ))
        same run in
    ap (λ r. and_then r (λ (done : Pager × ℕ). ok (get_response_collection done.0, done.1))) run'

count-append : (vs ws : Values) → count (append vs ws) ≡ count vs + count ws
unfolding count append
count-append no_values ws = omega arith
count-append (value_cons v vs) ws = omega (arith, count-append vs ws)

-- The number of pages is the number that the items need.
ceil_div_pages :
    (size total n : ℕ)
    → n * suc size < suc total
    → suc total ≤ suc n * suc size
    → suc n ≡ ceil_div (suc total) (suc size)
unfolding ceil_div
ceil_div_pages size total n more enough =
    let positive : 0 < suc size = omega arith in
    let all = suc total + suc size - 1 in
    let low : suc n * suc size ≤ all = grind arith in
    let high : all < suc (suc n) * suc size = grind arith in
    let a = (le-div_iff_mul-le {k = suc size} {x = suc n} {y = all} positive).1 low in
    let b = (div-lt_iff_lt-mul {k = suc size} {x = all} {y = suc (suc n)} positive).1 high in
    omega (arith, a, b)

-- The first pages have as many items as fit on them, or all.
count-merged :
    (items : ℕ → Values) (size total : ℕ)
    → ((k : ℕ) → count (items (suc k)) ≡ min size (total - k * size))
    → (k : ℕ) → count (merged items k) ≡ min (k * size) total
unfolding count
count-merged items size total each zero = omega arith
count-merged items size total each (suc k) =
    let ih = count-merged items size total each k in
    let here = each k in grind (arith, count-append (merged items k) (items (suc k)), ih, here)

-- The items are the only array of the answer: it stands under one key, or under one key below another.
pub data Holds : Value → Values → Type 0 where
  under_key : (key : Text) (vs : Values) → Holds (object (member_cons key (array vs) no_members)) vs
  below_key :
      (outer key : Text) (vs : Values)
      → Holds
          (object (member_cons outer (object (member_cons key (array vs) no_members)) no_members))
          vs

nested-Holds : (parts : List Text) (path : Text) (vs : Values) → Holds (nested parts path vs) vs
nested-Holds [] path vs = under_key (trim_brackets path) vs
nested-Holds (part ∷ []) path vs = under_key (trim_brackets path) vs
nested-Holds (first ∷ next ∷ parts) path vs =
    below_key first (trim_brackets (last_part (next ∷ parts))) vs

collection-Holds :
    (c : ℕ) (s : Text) (size total current : ℤ) (vs : Values)
    → Holds (get_response_collection (pager_at (c ∷ s) size total current vs)) vs
unfolding get_response_collection
collection-Holds c s size total current vs = nested-Holds (split b'.' (c ∷ s)) (c ∷ s) vs

-- Against a service that numbers its pages from 1, counts its items and fills each page but the last, the
-- loop ends, with exactly as many calls as there are pages that the items need. The answer holds
-- the items of these pages, in the order of the pages, and no item is left out: there are as many
-- as the service counts.
pub call_with_pager_complete :
    (lib : Library) (service : Service) (c : ℕ) (s : Text) (size total : ℕ) (raw : ℕ → Text)
    (page : ℕ → Value) (items : ℕ → Values)
    → IsPaged lib service (c ∷ s) (suc size) (suc total) raw page items
    → (n : ℕ) → n * suc size < suc total
    → suc total ≤ suc n * suc size
    → ((root : Value) × (call_with_pager (suc n) lib service (path_config (c ∷ s)) []
          ≡ ok (root, suc n))
        × Holds root (merged items (suc n)))
      × (count (merged items (suc n)) ≡ suc total)
call_with_pager_complete lib service c s size total raw page items paged n more enough =
    let last = merged items (suc n) in
    let counted = count-merged items (suc size) (suc total) paged.page_items (suc n) in
    (
      (
        get_response_collection
            (pager_at (c ∷ s) (pos (suc size)) (pos (suc total)) (pos (suc n)) last),
        call_with_pager_pages lib service c s size total raw page items paged n
            (ceil_div_pages size total n more enough),
        collection-Holds c s (pos (suc size)) (pos (suc total)) (pos (suc n)) last,
      ),
      omega (arith, counted, enough),
    )
