-- ===== src/Query/Parse.antt =====
-- `ParseQueryParameter` of pkg/apiserver/query/types.go.
use kubesphere_schedule.Utils.Slices.{has_string}
use kubesphere_schedule.Query.Types.{
  Pagination, no_pagination, default_limit, default_page, new_pagination, Query,
}
use kubesphere_schedule.Base.{
  ◌∷◌, some, none, is_empty, insert, if◌then◌else◌, false, [], String, Option, List, Bool,
}
use kubesphere_schedule.Base.Int.{leb_ℤ, ℤ, pos, negsuc, ltb_ℤ}
use kubesphere_schedule.Base.Words.{sub_int, mul_int}
use kubesphere_schedule.Base.Conv.{atoi, parse_bool}

-- What go-restful hands over: `QueryParameter`, empty if absent, and `Request.URL.Query()`.
pub record RestRequest : Type 0 where
  pub query_parameter : String → String
  pub url_query : List (String × List String)

abbrev pub int_or : ℤ → Option ℤ → ℤ
int_or d none = d
int_or d (some n) = n

unfoldable pub default_string : String → String → String
default_string value default_value = if is_empty value then default_value else value

-- An error, or less than -1, is the default.
unfoldable pub read_limit : RestRequest → ℤ
read_limit request =
    let limit = int_or default_limit (atoi (request.query_parameter "limit")) in
    if ltb_ℤ limit (negsuc 0) then default_limit else limit

-- Zero if there is no page.
unfoldable pub read_page : RestRequest → ℤ
read_page request =
    let page = request.query_parameter "page" in
    if is_empty page then pos 0 else int_or default_page (atoi page)

unfoldable pub read_start : RestRequest → ℤ
read_start request =
    if is_empty (request.query_parameter "page")
    then int_or (pos 0) (atoi (request.query_parameter "start"))
    else pos 0

unfoldable pub read_pagination : RestRequest → Pagination
unfolding new_pagination no_pagination
read_pagination request =
    let limit = read_limit request in
    let page = read_page request in
    let start = read_start request in
    if leb_ℤ (pos 1) page
    then new_pagination limit (mul_int (sub_int page (pos 1)) limit)
    else if leb_ℤ (pos 0) start
    then new_pagination limit start
    else no_pagination

abbrev pub reserved : List String
reserved = "page" ∷ "limit" ∷ "sortBy" ∷ "ascending" ∷ "labelSelector" ∷ "fieldSelector" ∷ []

-- Every value of a key is set in turn, so the last one stays.
unfoldable pub set_values : String → List String → List (String × String) → List (String × String)
set_values key [] filters = filters
set_values key (v ∷ values) filters = set_values key values (insert key v filters)

unfoldable pub read_filters :
    List (String × List String) → List (String × String) → List (String × String)
unfolding set_values
read_filters [] filters = filters
read_filters ((key, values) ∷ query) filters =
    read_filters query (if has_string reserved key then filters else set_values key values filters)

abbrev pub bool_or_false : Option Bool → Bool
bool_or_false none = false
bool_or_false (some b) = b

unfoldable pub parse_query_parameter : RestRequest → Query
unfolding default_string
parse_query_parameter request = record {
  pagination = some (read_pagination request);
  sort_by = default_string (request.query_parameter "sortBy") "creationTimestamp";
  ascending =
      bool_or_false (parse_bool (default_string (request.query_parameter "ascending") "false"));
  filters = read_filters request.url_query [];
  label_selector = request.query_parameter "labelSelector";
}
