-- ===== src/Utils/StringsLaws.antt =====
-- `Diff` and `FindString` against what they promise.
use kubesphere_schedule.Base.Int.{negsuc, ltb_ℤ}
use kubesphere_schedule.Utils.Slices.{has_string}
use kubesphere_schedule.Utils.Strings.{
  diff_loop, find_string, find_from, diff, string_in, exclude_map, is_excluded,
}
use kubesphere_schedule.Base.{
  lookup-insert, lookup, false, ◌≡◌, ◌∷◌, ◌||◌, ◌==◌, ◌+◌, ℕ, true, refl, not, insert, filter,
  eq_iff, arith, [], String, List, Bool,
}

is_excluded-insert :
    (e s : String) (m : List (String × Bool))
    → is_excluded s (insert e true m) ≡ (e == s || is_excluded s m)
unfolding is_excluded
is_excluded-insert e s m = ground (arith, lookup-insert e s true m)

is_excluded-nil : (s : String) → is_excluded s [] ≡ false
unfolding is_excluded lookup
is_excluded-nil s = refl

exclude_map-excluded :
    (exclude : List String) (m : List (String × Bool)) (s : String)
    → is_excluded s (exclude_map exclude m) ≡ (has_string exclude s || is_excluded s m)
unfolding exclude_map has_string
exclude_map-excluded [] m s = refl
exclude_map-excluded (e ∷ exclude) m s =
    ground (arith, exclude_map-excluded exclude (insert e true m) s, is_excluded-insert e s m)

diff_loop-filter :
    (m : List (String × Bool)) (exclude base : List String)
    → ((s : String) → is_excluded s m ≡ has_string exclude s)
    → diff_loop m base ≡ filter (λ s. not (has_string exclude s)) base
diff_loop-filter m exclude [] h = refl
diff_loop-filter m exclude (s ∷ base) h = rw (h s, diff_loop-filter m exclude base h) refl

-- `Diff` keeps exactly the items of `base` that `exclude` does not have, in their order and as often
-- as they occur.
pub diff-filter :
    (base exclude : List String) → diff base exclude ≡ filter (λ s. not (has_string exclude s)) base
unfolding diff
diff-filter base exclude =
    diff_loop-filter (exclude_map exclude []) exclude base
      (λ s. ground (arith, exclude_map-excluded exclude [] s, is_excluded-nil s))

find_from_iff :
    (index : ℕ) (array : List String) (str : String)
    → ltb_ℤ (negsuc 0) (find_from index array str) ≡ has_string array str
unfolding find_from has_string
find_from_iff index [] str = refl
find_from_iff index (s ∷ array) str =
    ground (arith, eq_iff str s, eq_iff s str, find_from_iff (index + 1) array str)

-- `StringIn`, by the index that `FindString` returns, holds exactly of the texts that `HasString` finds.
pub string_in-has_string :
    (array : List String) (str : String) → string_in str array ≡ has_string array str
unfolding string_in find_string
string_in-has_string array str = find_from_iff 0 array str
