-- ===== src/Base/Text.antt =====
-- Go's `strings` functions, by recursion on the characters of a text.
use Prim.Native.Nat.{ℕ, compare, Ordering}
use Prim.Native.Char.{Char, code}
use Prim.Native.String.{String, [], ◌∷◌}
use mathlib.Core.Bool.{Bool, true, false, ◌&&◌, ◌||◌}
use mathlib.Core.List.{List}
use mathlib.Core.Path.{◌≡◌, refl}
use mathlib.Core.Option.{Option, none, some}
use kubesphere_schedule.Base.Tests.{eqb, leb, is_some, if◌then◌else◌}

abbrev pub is_char : ℕ → Char → Bool
is_char n c = eqb (code c) n

abbrev pub is_empty : String → Bool
is_empty [] = true
is_empty (c ∷ s) = false

-- Puts a character on the first part.
abbrev pub on_head : Char → List String → List String
on_head c List.[] = List.◌∷◌ (c ∷ []) List.[]
on_head c (List.◌∷◌ p ps) = List.◌∷◌ (c ∷ p) ps

-- `strings.Split(s, sep)` at a separator of one character.
unfoldable pub split : ℕ → String → List String
split sep [] = List.◌∷◌ "" List.[]
split sep (c ∷ s) =
    let parts = split sep s in if is_char sep c then List.◌∷◌ "" parts else on_head c parts

-- The text before the first `sep` and the text behind it, if there is one: `strings.Index` and
-- two slices, or `strings.SplitN(s, sep, 2)`.
unfoldable pub cut : (Char → Bool) → String → String × Option (Char × String)
cut p [] = ("", none)
cut p (c ∷ s) =
    let (before, rest) = cut p s in if p c then ("", some (c, s)) else (c ∷ before, rest)

unfoldable pub trim_left : (Char → Bool) → String → String
trim_left p [] = ""
trim_left p (c ∷ s) = let rest = trim_left p s in if p c then rest else c ∷ s

unfoldable pub trim_right : (Char → Bool) → String → String
trim_right p [] = ""
trim_right p (c ∷ s) = let rest = trim_right p s in if p c && is_empty rest then "" else c ∷ rest

-- `strings.TrimFunc`; with one character it is `strings.Trim(s, "c")`.
unfoldable pub trim : (Char → Bool) → String → String
unfolding trim_left trim_right
trim p s = trim_right p (trim_left p s)

-- `unicode.IsSpace`.
pub is_space : Char → Bool
is_space c =
    (leb 9 (code c) && leb (code c) 13)
    || is_char 0x20 c
    || is_char 0x85 c
    || is_char 0xa0 c
    || is_char 0x1680 c
    || (leb 0x2000 (code c) && leb (code c) 0x200a)
    || is_char 0x2028 c
    || is_char 0x2029 c
    || is_char 0x202f c
    || is_char 0x205f c
    || is_char 0x3000 c

unfoldable pub trim_space : String → String
unfolding trim is_space
trim_space s = trim is_space s

-- `HasPrefix` with `TrimPrefix`: what stands behind the prefix.
unfoldable pub strip_prefix : String → String → Option String
strip_prefix [] s = some s
strip_prefix (a ∷ p) [] = none
strip_prefix (a ∷ p) (c ∷ s) = if eqb (code a) (code c) then strip_prefix p s else none

-- `HasSuffix` with `TrimSuffix` for one character.
unfoldable pub strip_last : ℕ → String → Option String
strip_last n [] = none
strip_last n (c ∷ s) =
    let rest = strip_last n s in
    if is_empty s
    then if is_char n c then some "" else none
    else elim rest [ none ↦ none | some r ↦ some (c ∷ r) ]

-- `strings.Contains`.
unfoldable pub contains : String → String → Bool
unfolding strip_prefix
contains [] sub = is_some (strip_prefix sub "")
contains (c ∷ s) sub = is_some (strip_prefix sub (c ∷ s)) || contains s sub

-- `strings.Compare(a, b) > 0`; UTF-8 keeps the order of the characters.
unfoldable pub after : String → String → Bool
after [] t = false
after (a ∷ s) [] = true
after (a ∷ s) (b ∷ t) =
    let rest = after s t in
    elim (compare (code a) (code b)) [
      | Ordering.lt ↦ false
      | Ordering.gt ↦ true
      | Ordering.eq ↦ rest
    ]

-- The first text in front of the second, by recursion on the first.
abbrev pub join : String → String → String
join [] t = t
join (c ∷ s) t = c ∷ join s t

pub is_empty-eq : (s : String) → is_empty s ≡ true → s ≡ ""
is_empty-eq [] h = refl
is_empty-eq (c ∷ s) h = cc
