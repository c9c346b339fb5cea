-- ===== src/Utils/Slices.antt =====
-- pkg/utils/sliceutil/sliceutils.go.
use kubesphere_schedule.Base.{
  ℕ, zero, suc, ◌+◌, String, Bool, true, false, List, [], ◌∷◌, ◌++◌, none, some, ◌==◌,
  if◌then◌else◌, get_elem?, take, drop, length,
}

unfoldable pub has_string : List String → String → Bool
has_string [] str = false
has_string (s ∷ slice) str = let rest = has_string slice str in if s == str then true else rest

-- The loop of `RemoveString`: `i` stays where an item is removed. The fuel counts the items not yet
-- looked at.
unfoldable pub remove_from : (String → Bool) → ℕ → List String → ℕ → List String
remove_from remove zero slice i = slice
remove_from remove (suc n) slice i = elim (get_elem? slice i) [
  | none ↦ slice
  | some item ↦ elim (remove item) [
    | true ↦ remove_from remove n (take i slice ++ drop (suc i) slice) i
    | false ↦ remove_from remove n slice (i + 1)
  ]
]

unfoldable pub remove_string : List String → (String → Bool) → List String
unfolding remove_from
remove_string slice remove = remove_from remove (length slice) slice 0
