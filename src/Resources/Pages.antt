-- ===== src/Resources/Pages.antt =====
-- The pages that `DefaultList` returns.
use kubesphere_schedule.Query.Window.{
  get_valid_pagination-natural, get_valid_pagination-overflow, Overflows,
}
use kubesphere_schedule.Base.Words.{IsInt}
use kubesphere_schedule.Base.Int.{negsuc, ℤ, pos}
use kubesphere_schedule.Resources.Filter.{FilterFunc}
use kubesphere_schedule.Resources.Compare.{CompareFunc}
use kubesphere_schedule.Query.Types.{Pagination, Query}
use kubesphere_schedule.Resources.Objects.{RuntimeObject}
use kubesphere_schedule.Resources.Listing.{
  transform_all, slice, matching, TransformFunc, Sort, default_list,
}
use kubesphere_schedule.Base.{
  refl, ◌-◌, true, min, length-drop, leb, ◌≤◌, ◌≡◌, ◌∷◌, ◌^◌, ◌<◌, ◌+◌, ℕ, zero, take, suc, some,
  returned, panicked, map, length, drop, arith, [], Option, List,
}

take-min {ℓ} : {A : Type ℓ} (n : ℕ) (xs : List A) → take (min n (length xs)) xs ≡ take n xs
take-min zero xs = let e : min 0 (length xs) ≡ 0 = omega arith in rw e
take-min (suc n) [] = let e : min (suc n) 0 ≡ 0 = omega arith in rw e
take-min (suc n) (x ∷ xs) =
    let e : min (suc n) (suc (length xs)) ≡ suc (min n (length xs)) = omega arith in
    rw (e, take-min n xs)

slice-natural {ℓ} :
    {A : Type ℓ} (xs : List A) (l o : ℕ)
    → o ≤ length xs
    → slice xs (pos o, pos (min (o + l) (length xs))) ≡ returned (take l (drop o xs))
unfolding slice
slice-natural xs l o h =
    let d : length (drop o xs) ≡ length xs - o = length-drop o xs in
    let e : min (o + l) (length xs) - o ≡ min l (length (drop o xs)) = omega arith in
    let s : leb o (min (o + l) (length xs)) ≡ true = ground arith in
    let t : leb (min (o + l) (length xs)) (length xs) ≡ true = ground arith in
    rw (s, t, e, take-min l (drop o xs))

slice-negative {ℓ} : {A : Type ℓ} (xs : List A) (s : ℤ) (n : ℕ) → slice xs (s, negsuc n) ≡ panicked
unfolding slice
slice-negative xs (pos s) n = refl
slice-negative xs (negsuc s) n = refl

-- With an offset `o` within the items and a limit `l`, the list that `DefaultList` returns holds the
-- items from `o` on, at most `l` of them, transformed, and the number of all that match; it does not
-- panic. The sum of offset and limit fits an `int`.
pub default_list-window :
    {C V : Type 0} (sort : Sort C) (objects : List (RuntimeObject C)) (q : Query)
    (compare : Option (CompareFunc C)) (ff : Option (FilterFunc C))
    (fs : List (Option (TransformFunc C V))) (l o : ℕ)
    → q.pagination ≡ some (record { limit = pos l; offset = pos o })
    → o + l < 2 ^ 63
    → o ≤ length (matching sort objects q compare ff)
    → default_list sort objects q compare ff fs
      ≡ returned (record {
        items = map (transform_all fs) (take l (drop o (matching sort objects q compare ff)));
        total_items = length (matching sort objects q compare ff);
      })
unfolding default_list
default_list-window sort objects q compare ff fs l o hq h k =
    let found = matching sort objects q compare ff in
    simp hq (rw (get_valid_pagination-natural l o (length found) h k, slice-natural found l o k))

-- Where the sum of a limit and an offset that pass the check does not fit an `int`, `DefaultList`
-- panics: the end of the page wraps around to a negative number.
pub default_list-panics :
    {C V : Type 0} (sort : Sort C) (objects : List (RuntimeObject C)) (q : Query)
    (compare : Option (CompareFunc C)) (ff : Option (FilterFunc C))
    (fs : List (Option (TransformFunc C V))) (p : Pagination)
    → q.pagination ≡ some p
    → IsInt p.limit
    → IsInt p.offset
    → Overflows p (length (matching sort objects q compare ff))
    → default_list sort objects q compare ff fs ≡ panicked
unfolding default_list
default_list-panics sort objects q compare ff fs p hq hl ho h =
    let found = matching sort objects q compare ff in
    let (n, e) = get_valid_pagination-overflow p (length found) hl ho h in
    simp hq (rw (e, slice-negative found p.offset n))
