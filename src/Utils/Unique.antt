-- ===== src/Utils/Unique.antt =====
-- `Unique` of pkg/utils/stringutils/string.go. The order in which Go walks a map is a parameter.
use kubesphere_schedule.Utils.Slices.{has_string}
use kubesphere_schedule.Base.{
  ◌≡◌, ◌∷◌, ◌∙◌, ◌||◌, ◌==◌, ℕ, true, suc, refl, lookup-insert, lookup, is_some, insert,
  if◌then◌else◌, eq_iff, arith, [], String, List, Bool,
}

abbrev pub keys : List (String × Bool) → List String
keys [] = []
keys (entry ∷ entries) = entry.0 ∷ keys entries

-- The loop that fills `smap`.
unfoldable pub mark_all : List String → List (String × Bool) → List (String × Bool)
unfolding insert
mark_all [] smap = smap
mark_all (s ∷ ss) smap = mark_all ss (insert s true smap)

-- `walk` gives the keys of a map in the order of a loop over it.
unfoldable pub unique : (List (String × Bool) → List String) → List String → List String
unfolding mark_all
unique walk ss = walk (mark_all ss [])

abbrev pub count : String → List String → ℕ
count str [] = 0
count str (s ∷ slice) = let rest = count str slice in if s == str then suc rest else rest

-- A loop over a map visits each of its keys once.
abbrev pub VisitsKeys : (List (String × Bool) → List String) → Type 0
VisitsKeys walk =
    (str : String) (m : List (String × Bool)) → count str (walk m) ≡ count str (keys m)

count-insert :
    (str s : String) (m : List (String × Bool))
    → count str (keys (insert s true m)) ≡ (
        if s == str
        then if is_some (lookup str m) then count str (keys m) else suc (count str (keys m))
        else count str (keys m))
unfolding insert lookup
count-insert str s [] = ground arith
count-insert str s (entry ∷ m) =
    ground (arith, count-insert str s m, eq_iff s str, eq_iff entry.0 s, eq_iff entry.0 str)

abbrev once : Bool → ℕ
once b = if b then 1 else 0

count-mark_all :
    (str : String) (ss : List String) (m : List (String × Bool))
    → count str (keys m) ≡ once (is_some (lookup str m))
    → count str (keys (mark_all ss m)) ≡ once (is_some (lookup str m) || has_string ss str)
unfolding mark_all has_string
count-mark_all str [] m h = ground arith
count-mark_all str (s ∷ ss) m h = ground (
  arith,
  count-mark_all str ss (insert s true m),
  count-insert str s m,
  lookup-insert s str true m,
)

-- In whatever order the map is walked, the result has each text of the slice exactly once, and no
-- other text.
pub unique-count :
    (walk : List (String × Bool) → List String) (ss : List String) (str : String)
    → VisitsKeys walk
    → count str (unique walk ss) ≡ (if has_string ss str then 1 else 0)
unfolding unique lookup
unique-count walk ss str visits = visits str (mark_all ss []) ∙ count-mark_all str ss [] refl
