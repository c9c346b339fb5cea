-- ===== src/Resources/Matching.antt =====
-- Which objects a listing holds.
use kubesphere_schedule.Base.Int.{negsuc, pos, ℤ}
use mathlib.Core.Path.{subst}
use kubesphere_schedule.Resources.Compare.{CompareFunc}
use kubesphere_schedule.Query.Types.{get_valid_pagination, Query}
use kubesphere_schedule.Resources.Objects.{RuntimeObject}
use kubesphere_schedule.Resources.Listing.{
  or_no_pagination, transform_all, ListResult, new_list_result, TransformFunc, default_list, slice,
  transform_page, less, is_nil, sort_objects, filter_objects, matching, selected, Sort,
}
use kubesphere_schedule.Resources.Filter.{FilterFunc}
use kubesphere_schedule.Base.{
  ◌⊎◌, ◌∙◌, ◌-◌, ◌&&◌, ℕ, zero, take, suc, returned, refl, panicked, not, map, leb, inr, inl,
  filter, drop, all, Outcome, Bool-cases, ◌≡◌, ◌∷◌, true, some, none, length, false, arith, [],
  String, Option, List, Bool, All,
}

-- `sort.Slice` only reorders: what holds of all the items holds of all the sorted ones, and their
-- number is kept, whatever the order that it is given.
pub record Reorders {C : Type 0} (sort : Sort C) : Type 1 where
  pub keeps :
      (P : RuntimeObject C → Type 0) (less : RuntimeObject C → RuntimeObject C → Bool)
      (xs : List (RuntimeObject C))
      → All P xs
      → All P (sort less xs)
  pub counts :
      (less : RuntimeObject C → RuntimeObject C → Bool) (xs : List (RuntimeObject C))
      → length (sort less xs) ≡ length xs

-- An object that is not nil and that each filter of the query lets through.
abbrev pub Passes : {C : Type 0} → FilterFunc C → List (String × String) → RuntimeObject C → Type 0
Passes ff filters object =
    (is_nil object ≡ false)
    × All (λ (f : String × String). ff object (record { field = f.0; value = f.1 }) ≡ true) filters

selected-All :
    {C : Type 0} (ff : FilterFunc C) (filters : List (String × String)) (object : RuntimeObject C)
    → selected filters (some ff) object ≡ true
    → All (λ (f : String × String). ff object (record { field = f.0; value = f.1 }) ≡ true) filters
unfolding selected
selected-All ff [] object h = tt
selected-All ff ((field, value) ∷ filters) object h =
    (ground arith, selected-All ff filters object (ground arith))

filter_objects-Passes :
    {C : Type 0} (P : RuntimeObject C → Type 0) (ff : FilterFunc C)
    (filters : List (String × String)) (objects : List (RuntimeObject C))
    → All P objects
    → All (λ o. P o × Passes ff filters o) (filter_objects objects filters (some ff))
unfolding filter_objects
filter_objects-Passes P ff filters [] h = tt
filter_objects-Passes P ff filters (o ∷ objects) (h, hs) =
    let rest = filter_objects-Passes P ff filters objects hs in
    elim (Bool-cases (not (is_nil o) && selected filters (some ff) o)) [
      | inl kept ↦
          let here : is_nil o ≡ false = ground arith in
          let holds : selected filters (some ff) o ≡ true = ground arith in
          rw kept ((h, (here, selected-All ff filters o holds)), rest)
      | inr dropped ↦ rw dropped rest
    ]

matching-Passes :
    {C : Type 0} (P : RuntimeObject C → Type 0) (sort : Sort C) (objects : List (RuntimeObject C))
    (q : Query) (compare : Option (CompareFunc C)) (ff : FilterFunc C)
    → Reorders sort
    → All P objects
    → All (λ o. P o × Passes ff q.filters o) (matching sort objects q compare (some ff))
unfolding matching sort_objects
matching-Passes P sort objects q none ff r h = filter_objects-Passes P ff q.filters objects h
matching-Passes P sort objects q (some compare) ff r h =
    r.keeps (λ o. P o × Passes ff q.filters o) (less q compare) _
      (filter_objects-Passes P ff q.filters objects h)

matching-length :
    {C : Type 0} (sort : Sort C) (objects : List (RuntimeObject C)) (q : Query)
    (compare : Option (CompareFunc C)) (ff : Option (FilterFunc C))
    → Reorders sort
    → length (matching sort objects q compare ff) ≡ length (filter_objects objects q.filters ff)
unfolding matching sort_objects
matching-length sort objects q none ff r = refl
matching-length sort objects q (some compare) ff r =
    r.counts (less q compare) (filter_objects objects q.filters ff)

-- Whether an object passes.
abbrev pub passes : {C : Type 0} → FilterFunc C → List (String × String) → RuntimeObject C → Bool
passes ff filters object =
    not (is_nil object)
    && all (λ (f : String × String). ff object (record { field = f.0; value = f.1 })) filters

All-take {ℓ κ} : {A : Type ℓ} (P : A → Type κ) (n : ℕ) (xs : List A) → All P xs → All P (take n xs)
All-take P zero xs h = tt
All-take P (suc n) [] h = tt
All-take P (suc n) (x ∷ xs) (h, hs) = (h, All-take P n xs hs)

All-drop {ℓ κ} : {A : Type ℓ} (P : A → Type κ) (n : ℕ) (xs : List A) → All P xs → All P (drop n xs)
All-drop P zero xs h = h
All-drop P (suc n) [] h = tt
All-drop P (suc n) (x ∷ xs) (h, hs) = All-drop P n xs hs

slice-All :
    {A : Type 0} (P : A → Type 0) (xs : List A) (w : ℤ × ℤ) (page : List A)
    → slice xs w ≡ returned page
    → All P xs
    → All P page
unfolding slice
slice-All P xs (pos s, pos e) page h k = elim (Bool-cases (leb s e && leb e (length xs))) [
  | inl fits ↦
      let same : take (e - s) (drop s xs) ≡ page = ground arith in
      subst (All P) same (All-take P (e - s) (drop s xs) (All-drop P s xs k))
  | inr bad ↦ absurd (ground arith)
]
slice-All P xs (pos s, negsuc e) page h k = absurd (ground arith)
slice-All P xs (negsuc s, e) page h k = absurd (ground arith)

All-map :
    {A B : Type 0} (P : A → Type 0) (f : A → B) (xs : List A)
    → All P xs
    → All (λ b. (a : A) × P a × (b ≡ f a)) (map f xs)
All-map P f [] h = tt
All-map P f (x ∷ xs) (h, hs) = ((x, h, refl), All-map P f xs hs)

transform_page-All :
    {C V : Type 0} (P : RuntimeObject C → Type 0) (fs : List (Option (TransformFunc C V)))
    (total : ℕ) (page : Outcome (List (RuntimeObject C)))
    (result : ListResult (RuntimeObject C ⊎ V))
    → transform_page fs total page ≡ returned result
    → ((objects : List (RuntimeObject C)) → page ≡ returned objects → All P objects)
    → All (λ x. (o : RuntimeObject C) × P o × (x ≡ transform_all fs o)) result.items
      × (result.total_items ≡ total)
unfolding transform_page new_list_result
transform_page-All P fs total panicked result h k = absurd (ground arith)
transform_page-All P fs total (returned page) result h k =
    let items : map (transform_all fs) page ≡ result.items = ground arith in
    (
      subst (All (λ x. (o : RuntimeObject _) × P o × (x ≡ transform_all fs o))) items
          (All-map P (transform_all fs) page (k page refl)),
      ground arith,
    )

-- What `DefaultList` returns, on whatever page: each item is what the transformations make of an
-- object that is not nil, that each filter of the query lets through, and of which all holds that
-- holds of the objects given; and the total is the number of the objects given that pass. `sort`
-- only reorders, and a filter function is given.
pub default_list-Passes :
    {C V : Type 0} (P : RuntimeObject C → Type 0) (sort : Sort C) (objects : List (RuntimeObject C))
    (q : Query) (compare : Option (CompareFunc C)) (ff : FilterFunc C)
    (fs : List (Option (TransformFunc C V))) (result : ListResult (RuntimeObject C ⊎ V))
    → Reorders sort
    → All P objects
    → default_list sort objects q compare (some ff) fs ≡ returned result
    → All
        (λ x. (o : RuntimeObject C) × (P o × Passes ff q.filters o) × (x ≡ transform_all fs o))
        result.items
      × (result.total_items ≡ length (filter (passes ff q.filters) objects))
unfolding default_list filter_objects selected
default_list-Passes P sort objects q compare ff fs result r given h =
    let found = matching sort objects q compare (some ff) in
    let window = get_valid_pagination (or_no_pagination q.pagination) (length found) in
    let (items, total) =
      transform_page-All (λ o. P o × Passes ff q.filters o) fs (length found) (slice found window)
        result h
        (λ page sliced.
          slice-All (λ o. P o × Passes ff q.filters o) found window page sliced
            (matching-Passes P sort objects q compare ff r given)) in
    (items, total ∙ matching-length sort objects q compare (some ff) r)
