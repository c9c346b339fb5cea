-- ===== src/Tests/ListRuns.antt =====
-- Listings of three objects.
use kubesphere_schedule.Base.Words.{add_int}
use kubesphere_schedule.Query.Filters.{parse_query_parameter-filter, last_value}
use kubesphere_schedule.Resources.Labels.{read_label-print_label, print_label}
use kubesphere_schedule.Server.Conditions.{parse_conditions-split, read_all}
use kubesphere_schedule.Server.Params.{parse_conditions}
use kubesphere_schedule.Resources.Filter.{
  default_object_meta_filter, read_label, LabelFilter, default_filter,
}
use kubesphere_schedule.Resources.Pages.{default_list-window, default_list-panics}
use kubesphere_schedule.Resources.Compare.{default_compare}
use kubesphere_schedule.Resources.Objects.{with_meta, RuntimeObject}
use kubesphere_schedule.Utils.Slices.{has_string}
use kubesphere_schedule.Base.Conv.{atoi}
use kubesphere_schedule.Base.Int.{pos, ℤ}
use kubesphere_schedule.Resources.Matching.{default_list-Passes, passes, Reorders, Passes}
use kubesphere_schedule.Resources.Listing.{
  nil_filter, no_transform_func, transform, selected, new_list_result, slice, ListResult,
  transform_page, filter_objects, transform_all, less, sort_objects, Sort, matching, default_list,
}
use kubesphere_schedule.Query.Window.{get_valid_pagination-IsWindow_iff, Overflows, IsWindow}
use kubesphere_schedule.Query.Types.{get_valid_pagination, Query, Pagination}
use kubesphere_schedule.Resources.Order.{default_compare-IsStrict, less-IsStrict_iff, IsStrict}
use kubesphere_schedule.Query.Parse.{parse_query_parameter, RestRequest}
use kubesphere_schedule.Base.{
  contains, ◌⊎◌, inl, filter, lookup, true, strip_last, split, ◌≤◌, ◌≡◌, ◌∷◌, ◌↔◌, ◌^◌, ◌==◌, ◌-◌,
  ℕ, take, some, returned, refl, panicked, none, map, length, if◌then◌else◌, false, drop, arith, [],
  String, List, All,
}

abbrev keep_order : Sort ℕ
keep_order = λ less xs. xs

abbrev object : String → ℕ → RuntimeObject ℕ
object name n =
    with_meta
      (record {
        name = name;
        namespace = "default";
        uid = name;
        creation_timestamp = n;
        labels = [];
        annotations = [];
        owner_references = [];
      })
      n

abbrev three : List (RuntimeObject ℕ)
three = object "a" 1 ∷ object "b" 2 ∷ object "c" 3 ∷ []

abbrev page_of : ℤ → ℤ → Query
page_of limit offset = record {
  pagination = some (record { limit = limit; offset = offset });
  sort_by = "name";
  ascending = false;
  filters = ("name", "a") ∷ [];
  label_selector = "";
}

abbrev by_page : Query
by_page = page_of (pos 2) (pos 1)

three_match : matching keep_order three by_page none none ≡ three
unfolding matching sort_objects filter_objects
three_match = refl

within : 1 ≤ length (matching keep_order three by_page none none)
within = rw (three_match) (omega arith)

default_list-window_example :
    default_list {V = ⊥} keep_order three by_page none none []
    ≡ returned (record {
      items =
          map (transform_all []) (take 2 (drop 1 (matching keep_order three by_page none none)));
      total_items = length (matching keep_order three by_page none none);
    })
default_list-window_example =
    default_list-window keep_order three by_page none none [] 2 1 refl (omega arith) within

abbrev largest : Pagination
largest = record { limit = pos (2 ^ 63 - 1); offset = pos 1 }

abbrev by_largest : Query
by_largest = page_of (pos (2 ^ 63 - 1)) (pos 1)

three_match_largest : matching keep_order three by_largest none none ≡ three
unfolding matching sort_objects filter_objects
three_match_largest = refl

overflows : Overflows largest (length (matching keep_order three by_largest none none))
overflows = rw (three_match_largest) (refl, refl, omega arith, omega arith)

default_list-panics_example :
    default_list {V = ⊥} keep_order three by_largest none none [] ≡ panicked
default_list-panics_example =
    default_list-panics keep_order three by_largest none none [] largest refl
      (omega arith, omega arith) (omega arith, omega arith) overflows

keep_order-Reorders : Reorders keep_order
keep_order-Reorders = record { keeps = λ P less xs h. h; counts = λ less xs. refl }

abbrev first_page : Query
first_page = page_of (pos 2) (pos 0)

abbrev first_item : ListResult (RuntimeObject ℕ ⊎ ⊥)
first_item = record { items = inl (object "a" 1) ∷ []; total_items = 1 }

first_listed :
    default_list {V = ⊥} keep_order three first_page none (some default_filter) []
    ≡ returned first_item
unfolding default_list transform_page slice new_list_result matching sort_objects filter_objects
    selected get_valid_pagination transform_all transform no_transform_func nil_filter
    default_filter add_int default_object_meta_filter contains
first_listed = refl

default_list-Passes_example :
    All {0, 0}
      (λ x.
        (o : RuntimeObject ℕ) × (Unit × Passes default_filter first_page.filters o)
        × (x ≡ transform_all [] o))
      first_item.items
    × (◌≡◌ {A = ℕ} 1 (length (filter (passes default_filter first_page.filters) three)))
default_list-Passes_example =
    default_list-Passes {V = ⊥} (λ o. Unit) keep_order three first_page none default_filter []
      first_item keep_order-Reorders (tt, (tt, (tt, tt))) first_listed

less-IsStrict_iff_example :
    IsStrict (less {C = ℕ} by_page default_compare) ↔ (by_page.ascending ≡ false)
less-IsStrict_iff_example =
    less-IsStrict_iff by_page default_compare (object "a" 1) (default_compare-IsStrict "name")

get_valid_pagination-IsWindow_iff_example :
    IsWindow (get_valid_pagination largest 3) 3 ↔ (¬ Overflows largest 3)
get_valid_pagination-IsWindow_iff_example =
    get_valid_pagination-IsWindow_iff largest 3 (omega arith, omega arith)
      (omega arith, omega arith)

abbrev third_page : RestRequest
third_page = record {
  query_parameter = λ key. if key == "limit" then "5" else if key == "page" then "3" else "";
  url_query = [];
}

five_limit : atoi (third_page.query_parameter "limit") ≡ some (pos 5)
unfolding atoi
five_limit = refl

page_three : atoi (third_page.query_parameter "page") ≡ some (pos 3)
unfolding atoi
page_three = refl

parse_conditions-split_example :
    parse_conditions "a=b,c~d"
    ≡ read_all (split b',' "a=b,c~d") (record { match_ = []; fuzzy = [] })
parse_conditions-split_example = parse_conditions-split "a=b,c~d"

abbrev not_admin : LabelFilter
not_admin = record { key = "creator"; opposite = true; value = "admin=1" }

read_label-print_label_example : read_label (print_label not_admin) ≡ not_admin
unfolding strip_last
read_label-print_label_example = read_label-print_label not_admin refl refl

abbrev named_page : RestRequest
named_page = record third_page { url_query = ("name", "web" ∷ "db" ∷ []) ∷ ("page", "3" ∷ []) ∷ [] }

parse_query_parameter-filter_example : lookup "name" (parse_query_parameter named_page).filters ≡ (
    if has_string
      ("page" ∷ "limit" ∷ "sortBy" ∷ "ascending" ∷ "labelSelector" ∷ "fieldSelector" ∷ [])
      "name"
    then none
    else last_value "name" named_page.url_query none)
parse_query_parameter-filter_example = parse_query_parameter-filter named_page "name"
