-- ===== src/Utils/Strings.antt =====
-- pkg/utils/stringutils/string.go. A map is an association list; a nil slice is an empty list.
use kubesphere_schedule.Base.Int.{pos, negsuc, ltb_ℤ, ℤ}
use kubesphere_schedule.Base.{
  ◌∷◌, ◌==◌, ◌+◌, ℕ, true, split, some, not, none, lookup, is_empty, insert, if◌then◌else◌, false,
  [], String, List, Bool,
}

unfoldable pub exclude_map : List String → List (String × Bool) → List (String × Bool)
exclude_map [] m = m
exclude_map (s ∷ exclude) m = exclude_map exclude (insert s true m)

-- `excludeMap[s]`, false for a missing key.
unfoldable pub is_excluded : String → List (String × Bool) → Bool
is_excluded s m = elim (lookup s m) [ none ↦ false | some b ↦ b ]

abbrev pub diff_loop : List (String × Bool) → List String → List String
diff_loop m [] = []
diff_loop m (s ∷ base) =
    let result = diff_loop m base in if not (is_excluded s m) then s ∷ result else result

unfoldable pub diff : List String → List String → List String
unfolding exclude_map is_excluded
diff base exclude = diff_loop (exclude_map exclude []) base

-- The loop from an index on.
unfoldable pub find_from : ℕ → List String → String → ℤ
find_from index [] str = negsuc 0
find_from index (s ∷ array) str =
    let later = find_from (index + 1) array str in if str == s then pos index else later

unfoldable pub find_string : List String → String → ℤ
unfolding find_from
find_string array str = find_from 0 array str

unfoldable pub string_in : String → List String → Bool
unfolding find_string
string_in str array = ltb_ℤ (negsuc 0) (find_string array str)

-- With a separator of one character.
unfoldable pub split_or_nil : String → ℕ → List String
split_or_nil str sep = if is_empty str then [] else split sep str
