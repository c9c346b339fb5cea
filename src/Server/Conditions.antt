-- ===== src/Server/Conditions.antt =====
-- `parseConditions` against a reading of the parts between commas.
use kubesphere_schedule.Server.Params.{
  read_condition, is_invalid, any_char, behind, add_condition, conditions_loop, Conditions,
  parse_conditions, size,
}
use kubesphere_schedule.Base.{
  sym, any, ◌||◌, Bool, insert, if◌then◌else◌, ◌∙◌, is_empty, false, inr, inl, Option-cases, ◌≤◌,
  ◌≡◌, ◌<◌, ℕ, zero, suc, split, some, refl, none, is_char, cut, arith, String, Option, List,
}
use Prim.Native.Char.{Char}
use Prim.Native.String.{[], ◌∷◌}

cut-none :
    (s : String)
    → (cut (is_char b',') s).1 ≡ none
    → split b',' s ≡ List.◌∷◌ (cut (is_char b',') s).0 List.[]
unfolding cut split
cut-none [] h = refl
cut-none (c ∷ s) h = ground (arith, cut-none s)

cut-some :
    (s : String) (d : Char) (r : String)
    → (cut (is_char b',') s).1 ≡ some (d, r)
    → (split b',' s ≡ List.◌∷◌ (cut (is_char b',') s).0 (split b',' r)) × (size r < size s)
unfolding cut split size
cut-some [] d r h = cc
cut-some (c ∷ s) d r h = ground (arith, cut-some s d r)

-- White space or a bracket: tab, line feed, form feed, carriage return, space, and ( ) { } [ ].
abbrev pub in_no_key : Char → Bool
in_no_key c =
    any (λ n. is_char n c)
      (List.◌∷◌ 9 (
        List.◌∷◌ 10 (
          List.◌∷◌ 12 (
            List.◌∷◌ 13 (
              List.◌∷◌ 32 (
                List.◌∷◌ 40 (
                  List.◌∷◌ 41
                    (List.◌∷◌ 123 (List.◌∷◌ 125 (List.◌∷◌ 91 (List.◌∷◌ 93 List.[])))))))))))

abbrev pub some_char : (Char → Bool) → String → Bool
some_char p [] = false
some_char p (c ∷ s) = p c || some_char p s

-- The text before the first `=` or `~`, that sign if there is one, and the text behind it.
abbrev pub split_sign : String → String × Option (Char × String)
split_sign [] = ("", none)
split_sign (c ∷ s) =
    let (key, behind') = split_sign s in
    if is_char 61 c || is_char 126 c then ("", some (c, s)) else (c ∷ key, behind')

-- A condition is kept under its key, behind `~` with the fuzzy ones, and with those to match
-- otherwise; without a sign its value is empty. A later one of a key replaces an earlier one.
abbrev pub keep : String → Option (Char × String) → Conditions → Conditions
keep key none conditions = record {
  match_ = insert key "" conditions.match_;
  fuzzy = conditions.fuzzy;
}
keep key (some (sign, value)) conditions =
    if is_char 126 sign
    then record { match_ = conditions.match_; fuzzy = insert key value conditions.fuzzy }
    else record { match_ = insert key value conditions.match_; fuzzy = conditions.fuzzy }

abbrev pub read_part : String → Conditions → Option Conditions
read_part [] conditions = some conditions
read_part (c ∷ s) conditions =
    let (key, found) = split_sign (c ∷ s) in
    if some_char in_no_key key then none else some (keep key found conditions)

-- Each part in turn, up to the first that is no condition.
unfoldable pub read_all : List String → Conditions → Option Conditions
read_all List.[] conditions = some conditions
read_all (List.◌∷◌ part parts) conditions = elim (read_part part conditions) [
  | none ↦ none
  | some conditions' ↦ read_all parts conditions'
]

is_invalid-in_no_key : (c : Char) → is_invalid c ≡ in_no_key c
unfolding is_invalid
is_invalid-in_no_key c = ground arith

any_char-some_char : (s : String) → any_char is_invalid s ≡ some_char in_no_key s
unfolding any_char
any_char-some_char [] = refl
any_char-some_char (c ∷ s) = rw (is_invalid-in_no_key c, any_char-some_char s) refl

cut-split_sign : (s : String) → cut (λ c. is_char b'~' c || is_char b'=' c) s ≡ split_sign s
unfolding cut
cut-split_sign [] = refl
cut-split_sign (c ∷ s) = ground (arith, cut-split_sign s)

add_condition-read_part :
    (part : String) (conditions : Conditions)
    → add_condition part conditions ≡ read_part part conditions
unfolding add_condition read_condition
add_condition-read_part [] conditions = refl
add_condition-read_part (c ∷ s) conditions =
    rw (cut-split_sign (c ∷ s), any_char-some_char (split_sign (c ∷ s)).0) (ground arith)

loop-empty : (n : ℕ) (conditions : Conditions) → conditions_loop n "" conditions ≡ some conditions
unfolding conditions_loop
loop-empty zero conditions = refl
loop-empty (suc n) conditions = refl

-- Two ways to go on agree if they agree on each value.
go_on : (Conditions → Option Conditions) → Option Conditions → Option Conditions
go_on f none = none
go_on f (some conditions) = f conditions

go_on-agree :
    (f g : Conditions → Option Conditions) (o : Option Conditions)
    → ((conditions : Conditions) → f conditions ≡ g conditions)
    → go_on f o ≡ go_on g o
unfolding go_on
go_on-agree f g none h = refl
go_on-agree f g (some conditions) h = h conditions

loop-turn :
    (n : ℕ) (s : String) (conditions : Conditions)
    → is_empty s ≡ false
    → conditions_loop (suc n) s conditions
      ≡ go_on
          (conditions_loop n (behind (cut (is_char b',') s).1))
          (read_part (cut (is_char b',') s).0 conditions)
unfolding conditions_loop go_on
loop-turn n s conditions h =
    rw (sym (add_condition-read_part (cut (is_char b',') s).0 conditions), h) refl

read_all-turn :
    (part : String) (parts : List String) (conditions : Conditions)
    → read_all (List.◌∷◌ part parts) conditions ≡ go_on (read_all parts) (read_part part conditions)
unfolding read_all go_on
read_all-turn part parts conditions = refl

empty-split :
    (n : ℕ) (conditions : Conditions)
    → conditions_loop n "" conditions ≡ read_all (split b',' "") conditions
unfolding read_all split
empty-split n conditions = loop-empty n conditions

size-zero : (c : Char) (s : String) → ¬ (size (c ∷ s) ≤ 0)
unfolding size
size-zero c s h = omega arith

read_last : (conditions : Conditions) → some conditions ≡ read_all List.[] conditions
unfolding read_all
read_last conditions = refl

loop-split :
    (n : ℕ) (s : String) (conditions : Conditions)
    → size s ≤ n
    → conditions_loop n s conditions ≡ read_all (split b',' s) conditions
loop-split zero [] conditions h = empty-split 0 conditions
loop-split zero (c ∷ s) conditions h = absurd (size-zero c s h)
loop-split (suc n) [] conditions h = empty-split (suc n) conditions
loop-split (suc n) (c ∷ s) conditions h =
    let part = (cut (is_char b',') (c ∷ s)).0 in
    elim (Option-cases (cut (is_char b',') (c ∷ s)).1) [
      | inl last ↦
          rw
            (
              loop-turn n (c ∷ s) conditions refl,
              last,
              cut-none (c ∷ s) last,
              read_all-turn part List.[] conditions,
            )
            (go_on-agree (conditions_loop n "") (read_all List.[]) (read_part part conditions)
              (λ after. loop-empty n after ∙ read_last after))
      | inr ((d, r), found) ↦
          let (parts, shorter) = cut-some (c ∷ s) d r found in
          rw
            (
              loop-turn n (c ∷ s) conditions refl,
              found,
              parts,
              read_all-turn part (split b',' r) conditions,
            )
            (go_on-agree (conditions_loop n r) (read_all (split b',' r)) (read_part part conditions)
              (λ after. loop-split n r after (omega arith)))
    ]

-- The loop of `parseConditions` ends, and reads the parts between the commas in their order, each as
-- one condition: an empty part is passed over; the key is what stands before the first `=` or `~`,
-- and one with white space or a bracket in it is an error, the first such part of all; the value is
-- kept with the fuzzy ones behind `~`, and with those to match otherwise.
pub parse_conditions-split :
    (s : String)
    → parse_conditions s ≡ read_all (split b',' s) (record { match_ = List.[]; fuzzy = List.[] })
unfolding parse_conditions
parse_conditions-split s =
    loop-split (size s) s (record { match_ = List.[]; fuzzy = List.[] }) (omega arith)
