-- ===== src/Http.antt =====
-- The part of net/http's request that the handlers read: a header is a map from canonical keys to
-- the first value, and the query string is kept raw, as `URL.RawQuery` does.
use kubesphere_schedule.Base.{
  String, List, [], ◌∷◌, Option, none, some, ◌==◌, lookup, insert, if◌then◌else◌,
}

pub record HttpRequest : Type 0 where
  pub method : String
  pub path : String
  pub raw_query : String
  pub header : List (String × String)
  pub remote_addr : String

-- `URL.Query()`, `net.SplitHostPort`, `strings.ToLower`, and `URL.String()` of a request's URL, which
-- are not modelled.
pub record UrlLib : Type 0 where
  pub parse_query : String → List (String × List String)
  pub split_host_port : String → Option String
  pub to_lower : String → String
  pub url_string : HttpRequest → String

abbrev pub or_empty : Option String → String
or_empty none = ""
or_empty (some s) = s

-- `Header.Get`.
unfoldable pub header_get : String → List (String × String) → String
unfolding lookup
header_get key header = or_empty (lookup key header)

-- `Header.Del`.
unfoldable pub header_del : String → List (String × String) → List (String × String)
header_del key [] = []
header_del key ((k, v) ∷ header) =
    let rest = header_del key header in if k == key then rest else (k, v) ∷ rest

-- `Header.Set`.
unfoldable pub header_set : String → String → List (String × String) → List (String × String)
unfolding insert
header_set key value header = insert key value header

abbrev pub values_or_nil : Option (List String) → List String
values_or_nil none = []
values_or_nil (some vs) = vs

-- `query[key]`, empty if the key is absent.
unfoldable pub query_values : String → List (String × List String) → List String
unfolding lookup
query_values key query = values_or_nil (lookup key query)

abbrev pub first_or_empty : List String → String
first_or_empty [] = ""
first_or_empty (v ∷ vs) = v

-- `query.Get(key)`.
unfoldable pub query_get : String → List (String × List String) → String
unfolding query_values
query_get key query = first_or_empty (query_values key query)
