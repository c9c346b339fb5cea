-- ===== src/Resources/Listing.antt =====
-- `DefaultList` of pkg/service/resources/v1alpha3/interface.go and `NewListResult` of api/types.go.
use kubesphere_schedule.Resources.Compare.{CompareFunc}
use kubesphere_schedule.Resources.Filter.{FilterFunc}
use kubesphere_schedule.Query.Types.{get_valid_pagination, no_pagination, Pagination, Query}
use kubesphere_schedule.Resources.Objects.{nil_object, RuntimeObject}
use kubesphere_schedule.Base.Int.{pos, ℤ}
use kubesphere_schedule.Base.{
  all, ◌⊎◌, ◌∷◌, ◌-◌, ◌&&◌, ℕ, true, take, some, returned, panicked, not, none, map, length, leb,
  inr, inl, if◌then◌else◌, filter, false, drop, [], String, Outcome, Option, List, Bool,
}

-- `items` is never nil.
pub record ListResult {ℓ} (A : Type ℓ) : Type ℓ where
  pub items : List A
  pub total_items : ℕ

unfoldable pub new_list_result {ℓ} : {A : Type ℓ} → Option (List A) → ℕ → ListResult A
new_list_result none total = record { items = []; total_items = total }
new_list_result (some items) total = record { items = items; total_items = total }

abbrev pub is_nil : {C : Type 0} → RuntimeObject C → Bool
is_nil nil_object = true
is_nil other = false

-- All the filters of the query hold, in the order in which the map is walked.
unfoldable pub selected :
    {C : Type 0} → List (String × String) → Option (FilterFunc C) → RuntimeObject C → Bool
selected filters none object = true
selected filters (some ff) object =
    all (λ (f : String × String). ff object (record { field = f.0; value = f.1 })) filters

unfoldable pub filter_objects :
    {C : Type 0}
    → List (RuntimeObject C)
    → List (String × String)
    → Option (FilterFunc C)
    → List (RuntimeObject C)
unfolding selected
filter_objects objects filters ff = filter (λ o. not (is_nil o) && selected filters ff o) objects

-- What `sort.Slice` is given.
unfoldable pub less :
    {C : Type 0} → Query → CompareFunc C → RuntimeObject C → RuntimeObject C → Bool
less q compare a b = if q.ascending then not (compare a b q.sort_by) else compare a b q.sort_by

-- `make([]interface{}, end-start)` and `filtered[start:end]` panic at other bounds.
unfoldable pub slice {ℓ} : {A : Type ℓ} → List A → ℤ × ℤ → Outcome (List A)
slice xs (pos s, pos e) =
    if leb s e && leb e (length xs) then returned (take (e - s) (drop s xs)) else panicked
slice xs (s, e) = panicked

abbrev pub or_no_pagination : Option Pagination → Pagination
or_no_pagination none = no_pagination
or_no_pagination (some p) = p

-- A transformation gives a new object, or a value that is none.
abbrev pub TransformFunc : Type 0 → Type 0 → Type 0
TransformFunc C V = RuntimeObject C → RuntimeObject C ⊎ V

unfoldable pub no_transform_func : {C V : Type 0} → RuntimeObject C → RuntimeObject C ⊎ V
no_transform_func object = inl object

unfoldable pub nil_filter :
    {C V : Type 0} → List (Option (TransformFunc C V)) → List (TransformFunc C V)
nil_filter [] = []
nil_filter (none ∷ fs) = nil_filter fs
nil_filter (some f ∷ fs) = f ∷ nil_filter fs

-- The last result; an object is what the next transformation is given.
unfoldable pub transform :
    {C V : Type 0}
    → List (TransformFunc C V)
    → RuntimeObject C
    → RuntimeObject C ⊎ V
    → RuntimeObject C ⊎ V
transform [] obj last = last
transform (f ∷ fs) obj last = elim (f obj) [
  | inl object ↦ transform fs object (inl object)
  | inr value ↦ transform fs obj (inr value)
]

abbrev pub or_identity : {C V : Type 0} → List (TransformFunc C V) → List (TransformFunc C V)
or_identity [] = no_transform_func ∷ []
or_identity (f ∷ fs) = f ∷ fs

unfoldable pub transform_all :
    {C V : Type 0} → List (Option (TransformFunc C V)) → RuntimeObject C → RuntimeObject C ⊎ V
unfolding nil_filter transform no_transform_func
transform_all fs obj = transform (or_identity (nil_filter fs)) obj (inl obj)

unfoldable pub transform_page :
    {C V : Type 0}
    → List (Option (TransformFunc C V))
    → ℕ
    → Outcome (List (RuntimeObject C))
    → Outcome (ListResult (RuntimeObject C ⊎ V))
unfolding new_list_result
transform_page fs total panicked = panicked
transform_page fs total (returned page) =
    returned (new_list_result (some (map (transform_all fs) page)) total)

-- `sort.Slice`.
abbrev pub Sort : Type 0 → Type 0
Sort C =
    (RuntimeObject C → RuntimeObject C → Bool) → List (RuntimeObject C) → List (RuntimeObject C)

unfoldable pub sort_objects :
    {C : Type 0}
    → Sort C
    → Query
    → Option (CompareFunc C)
    → List (RuntimeObject C)
    → List (RuntimeObject C)
sort_objects sort q none objects = objects
sort_objects sort q (some compare) objects = sort (less q compare) objects

-- The objects that are listed, over all pages.
unfoldable pub matching :
    {C : Type 0}
    → Sort C
    → List (RuntimeObject C)
    → Query
    → Option (CompareFunc C)
    → Option (FilterFunc C)
    → List (RuntimeObject C)
matching sort objects q compare ff =
    sort_objects sort q compare (filter_objects objects q.filters ff)

-- The code also stores the pagination of a query without one in the query, which nothing reads again.
unfoldable pub default_list :
    {C V : Type 0}
    → Sort C
    → List (RuntimeObject C)
    → Query
    → Option (CompareFunc C)
    → Option (FilterFunc C)
    → List (Option (TransformFunc C V))
    → Outcome (ListResult (RuntimeObject C ⊎ V))
unfolding transform_page slice
default_list sort objects q compare ff fs =
    let filtered = matching sort objects q compare ff in
    let total = length filtered in
    transform_page fs total
      (slice filtered (get_valid_pagination (or_no_pagination q.pagination) total))
