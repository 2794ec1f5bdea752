-- ===== src/Runtime/Pager.antt =====
-- aliyun-openapi-runtime/runtime/pager.go: the pages of an answer are fetched one after the other and merged.
-- The service, the JSON decoder, the search by JMESPath and the printing of integers are parameters.
pub mod Pages
use aliyun_cli.Base.{
  ℕ, zero, suc, ◌+◌, ◌-◌, Text, txt, text_eq, is_empty, split, Bool, true, false, not, ltb, Option,
  none, some, List, [], ◌∷◌, ◌++◌, ℤ, pos, negsuc, ◌/◌, if◌then◌else◌, Res, ok, err, timeout,
  and_then,
}
use aliyun_cli.Config.Profile.Overwrite.{atoi}
use aliyun_cli.Runtime.{
  Value, nil, text, number, float, array, object, Values, no_values, Members, no_members,
  member_cons, append,
}

pub record Library : Type 0 where
  -- `json.Decoder.Decode` with `UseNumber`
  pub decode : Text → Option Value
  -- `jmespath.Search`
  pub search : Text → Value → Option Value
  -- the conversion of a `float64` to an `int`
  pub int_of_float : Text → ℤ
  -- `strconv.Itoa`
  pub itoa : ℤ → Text

pub data PagerError : Type 0 where
  call_failed empty_body bad_json no_collection search_failed result_empty no_array : PagerError

abbrev pub Outcome : Type 0 → Type 0
Outcome A = Res PagerError ⊥ A

-- `argparser.PagerConfig`
pub record PagerConfig : Type 0 where
  pub path : Text
  pub page_number : Text
  pub page_size : Text
  pub total_count : Text
  pub next_token : Text

pub record Pager : Type 0 where
  pub page_number_expr : Text
  pub page_size_expr : Text
  pub total_count_expr : Text
  pub next_token_expr : Text
  pub collection_path : Text
  pub size : ℤ
  pub total : ℤ
  pub current : ℤ
  pub next_token_mode : Bool
  pub token : Text
  pub results : Values

abbrev pub or_default : Text → Text → Text
or_default [] def = def
or_default (c ∷ s) def = c ∷ s

abbrev pub config_or_empty : Option PagerConfig → PagerConfig
config_or_empty none = record {
  path = [];
  page_number = [];
  page_size = [];
  total_count = [];
  next_token = [];
}
config_or_empty (some c) = c

-- `NewPager`
unfoldable pub new_pager : Option PagerConfig → Pager
new_pager config =
    let c = config_or_empty config in
    record {
      page_number_expr = or_default c.page_number (txt "PageNumber");
      page_size_expr = or_default c.page_size (txt "PageSize");
      total_count_expr = or_default c.total_count (txt "TotalCount");
      next_token_expr = or_default c.next_token (txt "NextToken");
      collection_path = c.path;
      size = pos 0;
      total = pos 0;
      current = pos 0;
      next_token_mode = false;
      token = [];
      results = no_values;
    }

-- `asIntValue`
unfoldable pub as_int_value : Library → Value → Option ℤ
as_int_value lib (number s) = atoi s
as_int_value lib (text s) = atoi s
as_int_value lib (float s) = some (lib.int_of_float s)
as_int_value lib v = none

-- `jmespathSearch`
abbrev pub nil_or : Option Value → Value
nil_or none = nil
nil_or (some v) = v

abbrev pub found_or : Option ℤ → ℤ → ℤ
found_or none old = old
found_or (some n) old = n

-- The number that an expression finds; what is no number leaves the old one.
unfoldable pub number_at : Library → Text → Value → ℤ → ℤ
number_at lib expr j old =
    if is_empty expr then old else found_or (as_int_value lib (nil_or (lib.search expr j))) old

-- `detectArrayPath`: the first entry that is an object with an array in it. Go visits the entries in any
-- order; here it is that of the list.
unfoldable pub first_array : Members → Option Text
first_array no_members = none
first_array (member_cons key (array vs) m) = some key
first_array (member_cons key v m) = first_array m

abbrev pub array_path : Text → Option Text → Text → Text
array_path key none later = later
array_path key (some inner) later = key ++ (b'.' ∷ (inner ++ txt "[]"))

unfoldable pub detect_in : Members → Text
detect_in no_members = []
detect_in (member_cons key (object inner) m) = array_path key (first_array inner) (detect_in m)
detect_in (member_cons key v m) = detect_in m

abbrev pub detect_array_path : Value → Text
detect_array_path (object m) = detect_in m
detect_array_path v = []

-- The token that a response carries; where the search fails the old token and mode stay.
abbrev pub with_token : Pager → Option Value → Pager
with_token p none = p
with_token p (some (text [])) = record p { token = [] }
with_token p (some (text (c ∷ s))) = record p { token = c ∷ s; next_token_mode = true }
with_token p (some v) = record p { token = [] }

unfoldable pub read_token : Library → Value → Pager → Pager
read_token lib j p =
    if is_empty p.next_token_expr then p else with_token p (lib.search p.next_token_expr j)

unfoldable pub read_counts : Library → Value → Pager → Pager
read_counts lib j p = record p {
  total = number_at lib p.total_count_expr j p.total;
  size = number_at lib p.page_size_expr j p.size;
  current = number_at lib p.page_number_expr j p.current;
}

abbrev pub path_or_error : Text → Outcome Text
path_or_error [] = err no_collection
path_or_error (c ∷ s) = ok (c ∷ s)

abbrev pub collection_of : Value → Text → Outcome Text
collection_of j [] = path_or_error (detect_array_path j)
collection_of j (c ∷ s) = ok (c ∷ s)

abbrev pub items_of : Option Value → Outcome Values
items_of none = err search_failed
items_of (some nil) = err result_empty
items_of (some (array vs)) = ok vs
items_of (some v) = err no_array

-- The collection of a response is put behind the results.
unfoldable pub merge : Library → Value → Pager → Outcome Pager
merge lib j p = and_then (collection_of j p.collection_path) λ path.
    and_then (items_of (lib.search path j))
      λ vs. ok (record p { collection_path = path; results = append p.results vs })

abbrev pub feed_decoded : Library → Pager → Option Value → Outcome Pager
feed_decoded lib p none = err bad_json
feed_decoded lib p (some j) = merge lib j (read_counts lib j (read_token lib j p))

-- `FeedResponse`
unfoldable pub feed_response : Library → Pager → Text → Outcome Pager
feed_response lib p raw =
    if is_empty raw then err empty_body else feed_decoded lib p (lib.decode raw)

-- `math.Ceil(a / b)`, at numbers that a `float64` holds exactly
unfoldable pub ceil_div : ℕ → ℕ → ℕ
ceil_div a b = (a + b - 1) / b

abbrev pub below_pages : ℤ → ℕ → Bool
below_pages (pos n) pages = ltb n pages
below_pages (negsuc n) pages = true

abbrev pub has_more_pages : ℤ → ℤ → ℤ → Bool
has_more_pages (pos (suc s)) (pos (suc t)) current = below_pages current (ceil_div (suc t) (suc s))
has_more_pages size total current = false

-- `HasMore`
unfoldable pub has_more : Pager → Bool
has_more p =
    if p.next_token_mode then not (is_empty p.token) else has_more_pages p.size p.total p.current

-- The extra parameters of a request.
abbrev pub Query : Type 0
Query = List (Text × Text)

unfoldable pub set_query : Query → Text → Text → Query
set_query [] key v = (key, v) ∷ []
set_query ((k, w) ∷ q) key v =
    let later = (k, w) ∷ set_query q key v in if text_eq k key then (k, v) ∷ q else later

abbrev pub last_part : List Text → Text
last_part [] = []
last_part (s ∷ []) = s
last_part (s ∷ t ∷ parts) = last_part (t ∷ parts)

abbrev pub successor : ℤ → ℤ
successor (pos n) = pos (suc n)
successor (negsuc zero) = pos 0
successor (negsuc (suc n)) = negsuc n

abbrev pub set_unless_empty : Text → Query → Text → Query
set_unless_empty [] q v = q
set_unless_empty (c ∷ expr) q v = set_query q (last_part (split b'.' (c ∷ expr))) v

-- `MoveNextPage`
unfoldable pub move_next_page : Library → Pager → Query → Pager × Query
move_next_page lib p q =
    if p.next_token_mode then (p, set_unless_empty p.next_token_expr q p.token) else (
      record p { current = successor p.current },
      set_unless_empty p.page_number_expr q (lib.itoa (successor p.current)),
    )

-- What the service answers to a request.
abbrev pub Service : Type 0
Service = Query → Option Text

abbrev pub answered : Option Text → Outcome Text
answered none = err call_failed
answered (some raw) = ok raw

-- The loop of `CallWithPager`, on fuel: the pager behind the last page, and the number of calls.
abbrev pub go_on : Bool → Pager → ℕ → (Unit {0} → Outcome (Pager × ℕ)) → Outcome (Pager × ℕ)
go_on false p calls rest = ok (p, calls)
go_on true p calls rest = rest tt

unfoldable pub pager_loop : ℕ → Library → Service → Pager → Query → ℕ → Outcome (Pager × ℕ)
pager_loop zero lib service p q calls = timeout
pager_loop (suc fuel) lib service p q calls = and_then (answered (service q)) λ raw.
    and_then (feed_response lib p raw) λ fed. go_on (has_more fed) fed (suc calls) λ _.
      let moved = move_next_page lib fed q in
      pager_loop fuel lib service moved.0 moved.1 (suc calls)

abbrev pub trim_brackets : Text → Text
trim_brackets [] = []
trim_brackets (c ∷ s) = if text_eq (c ∷ s) (txt "[]") then [] else c ∷ trim_brackets s

-- `GetResponseCollection`, before it is encoded
abbrev pub nested : List Text → Text → Values → Value
nested (first ∷ next ∷ parts) path vs = object (
    member_cons first
      (object (member_cons (trim_brackets (last_part (next ∷ parts))) (array vs) no_members))
      no_members)
nested parts path vs = object (member_cons (trim_brackets path) (array vs) no_members)

unfoldable pub get_response_collection : Pager → Value
get_response_collection p =
    if is_empty p.collection_path
    then array p.results
    else nested (split b'.' p.collection_path) p.collection_path p.results

-- `CallWithPager`: the merged collection and the number of calls.
unfoldable pub call_with_pager :
    ℕ → Library → Service → Option PagerConfig → Query → Outcome (Value × ℕ)
call_with_pager fuel lib service config q =
    and_then (pager_loop fuel lib service (new_pager config) q 0)
      λ done. ok (get_response_collection done.0, done.1)
