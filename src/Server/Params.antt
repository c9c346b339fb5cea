-- ===== src/Server/Params.antt =====
-- pkg/server/params/params.go. `query_parameter` is go-restful's, empty if absent; the regular
-- expression of the form limit=..,page=.. is a parameter that gives its two groups.
use kubesphere_schedule.Base.Words.{sub_int, mul_int}
use kubesphere_schedule.Query.Parse.{int_or}
use kubesphere_schedule.Base.Conv.{atoi, parse_bool}
use kubesphere_schedule.Base.Int.{pos, ℤ}
use kubesphere_schedule.Base.{
  ◌||◌, ℕ, zero, suc, some, none, is_empty, is_char, insert, if◌then◌else◌, false, cut, String,
  Option, List, Bool,
}
use Prim.Native.Char.{Char}
use Prim.Native.String.{[], ◌∷◌}

unfoldable pub atoi_or_default : String → ℤ → ℤ
atoi_or_default str def_val = int_or def_val (atoi str)

abbrev pub groups_or_default : Option (String × String) → ℤ × ℤ
groups_or_default none = (pos 10, pos 1)
groups_or_default (some (limit, page)) =
    (atoi_or_default limit (pos 10), atoi_or_default page (pos 1))

-- The limit and the page of the request.
unfoldable pub read_paging : (String → Option (String × String)) → (String → String) → ℤ × ℤ
unfolding atoi_or_default
read_paging find_groups query_parameter =
    let paging = query_parameter "paging" in
    if is_empty paging
    then (
      atoi_or_default (query_parameter "limit") (pos 10),
      atoi_or_default (query_parameter "page") (pos 1),
    )
    else groups_or_default (find_groups paging)

-- The limit and the offset; an explicit `start` is the offset.
unfoldable pub parse_paging : (String → Option (String × String)) → (String → String) → ℤ × ℤ
unfolding read_paging
parse_paging find_groups query_parameter =
    let (limit, page) = read_paging find_groups query_parameter in
    let offset = mul_int (sub_int page (pos 1)) limit in
    let start = query_parameter "start" in
    (limit, if is_empty start then offset else atoi_or_default start offset)

unfoldable pub get_bool_value_with_default : (String → String) → String → Bool → Bool
get_bool_value_with_default query_parameter name dv = elim (parse_bool (query_parameter name)) [
  | none ↦ dv
  | some v ↦ v
]

unfoldable pub get_string_value_with_default : (String → String) → String → String → String
get_string_value_with_default query_parameter name dv =
    let v = query_parameter name in if is_empty v then dv else v

pub record Conditions : Type 0 where
  pub match_ : List (String × String)
  pub fuzzy : List (String × String)

-- `invalidKeyRegex`: white space, or a bracket.
unfoldable pub is_invalid : Char → Bool
is_invalid c =
    is_char 9 c
    || is_char 10 c
    || is_char 12 c
    || is_char 13 c
    || is_char b' ' c
    || is_char b'(' c
    || is_char b')' c
    || is_char b'{' c
    || is_char b'}' c
    || is_char b'[' c
    || is_char b']' c

unfoldable pub any_char : (Char → Bool) → String → Bool
any_char p [] = false
any_char p (c ∷ s) = p c || any_char p s

-- Whether the separator that is found is `~`, and the text behind it.
abbrev pub fuzzy_and_value : Option (Char × String) → Bool × String
fuzzy_and_value none = (false, "")
fuzzy_and_value (some (c, value)) = (is_char b'~' c, value)

-- One condition, key=value or key~value; `none` is the error.
unfoldable pub read_condition : String → Conditions → Option Conditions
read_condition part conditions =
    let (key, found) = cut (λ c. is_char b'~' c || is_char b'=' c) part in
    let (is_fuzzy, value) = fuzzy_and_value found in
    if any_char is_invalid key
    then none
    else if is_fuzzy
    then some (record conditions { fuzzy = insert key value conditions.fuzzy })
    else some (record conditions { match_ = insert key value conditions.match_ })

-- `size` bounds the turns of the loop: each turn takes a character at least.
unfoldable pub size : String → ℕ
size [] = 0
size (c ∷ s) = suc (size s)

abbrev pub behind : Option (Char × String) → String
behind none = ""
behind (some (c, s)) = s

-- An empty part is passed over.
unfoldable pub add_condition : String → Conditions → Option Conditions
unfolding read_condition
add_condition part conditions =
    if is_empty part then some conditions else read_condition part conditions

-- The loop, on fuel.
unfoldable pub conditions_loop : ℕ → String → Conditions → Option Conditions
conditions_loop zero s conditions = if is_empty s then some conditions else none
conditions_loop (suc n) s conditions =
    let (part, rest) = cut (is_char b',') s in
    if is_empty s then some conditions else elim (add_condition part conditions) [
      | none ↦ none
      | some conditions' ↦ conditions_loop n (behind rest) conditions'
    ]

unfoldable pub parse_conditions : String → Option Conditions
unfolding conditions_loop size
parse_conditions conditions_str =
    conditions_loop (size conditions_str) conditions_str
      (record { match_ = List.[]; fuzzy = List.[] })
