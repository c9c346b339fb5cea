-- ===== src/Query/Filters.antt =====
-- The filters that `ParseQueryParameter` takes from the parameters of a query.
use kubesphere_schedule.Utils.Slices.{has_string}
use kubesphere_schedule.Query.Parse.{
  RestRequest, parse_query_parameter, reserved, read_filters, set_values,
}
use kubesphere_schedule.Base.{
  ◌≡◌, ◌∷◌, ◌==◌, some, none, lookup-insert, lookup, insert, if◌then◌else◌, eq_iff, arith, [],
  String, Option, List,
}

-- The last of some values, or an old one.
abbrev pub last_of : List String → Option String → Option String
last_of [] old = old
last_of (v ∷ values) old = last_of values (some v)

-- The last value that the query has under a key.
abbrev pub last_value : String → List (String × List String) → Option String → Option String
last_value key [] old = old
last_value key ((k, values) ∷ query) old =
    last_value key query (if k == key then last_of values old else old)

lookup-set_values :
    (key k : String) (values : List String) (filters : List (String × String))
    → lookup key (set_values k values filters)
      ≡ (if k == key then last_of values (lookup key filters) else lookup key filters)
unfolding set_values
lookup-set_values key k [] filters = ground arith
lookup-set_values key k (v ∷ values) filters =
    ground
      (arith, lookup-set_values key k values (insert k v filters), lookup-insert k key v filters)

lookup-read_filters_from :
    (key : String) (query : List (String × List String)) (filters : List (String × String))
    → lookup key (read_filters query filters) ≡ (
        if has_string reserved key
        then lookup key filters
        else last_value key query (lookup key filters))
unfolding read_filters
lookup-read_filters_from key [] filters = ground arith
lookup-read_filters_from key ((k, values) ∷ query) filters = ground (
  arith,
  lookup-read_filters_from key query
      (if has_string reserved k then filters else set_values k values filters),
  lookup-set_values key k values filters,
  eq_iff k key,
)

-- The filter of a field in the query that is read from a request is the last value that the request
-- has under it, and there is none where it has no value under it; page, limit, sortBy, ascending,
-- labelSelector and fieldSelector are never filters.
pub parse_query_parameter-filter :
    (request : RestRequest) (key : String)
    → lookup key (parse_query_parameter request).filters ≡ (
        if has_string
          ("page" ∷ "limit" ∷ "sortBy" ∷ "ascending" ∷ "labelSelector" ∷ "fieldSelector" ∷ [])
          key
        then none
        else last_value key request.url_query none)
unfolding lookup parse_query_parameter
parse_query_parameter-filter request key = lookup-read_filters_from key request.url_query []
