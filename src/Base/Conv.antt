-- ===== src/Base/Conv.antt =====
-- Go's `strconv`: `Atoi` and `ParseBool`.
use Prim.Native.Char.{code}
use Prim.Native.String.{String, [], ◌∷◌}
use Prim.Native.Nat.{ℕ, ◌+◌, ◌-◌, ◌*◌, ◌^◌}
use mathlib.Core.Bool.{Bool, true, false, ◌&&◌, ◌||◌}
use mathlib.Core.Option.{Option, none, some}
use mathlib.Core.Path.{◌≡◌, refl}
use native.Mathlib.Omega.{arith}
use text.Mathlib.Text.{◌==◌}
use mathlib.Core.Logic.{inl, inr}
use kubesphere_schedule.Base.Tests.{leb, if◌then◌else◌, Bool-cases}
use kubesphere_schedule.Base.Text.{is_char, is_empty}
use kubesphere_schedule.Base.Int.{ℤ, pos, sub_ℕ}
use kubesphere_schedule.Base.Words.{IsInt}

digits : ℕ → String → Option ℕ
digits n [] = some n
digits n (c ∷ s) =
    if leb b'0' (code c) && leb (code c) b'9' then digits (n * 10 + (code c - b'0')) s else none

-- At least one digit.
unsigned : String → Option ℕ
unfolding digits
unsigned [] = none
unsigned (c ∷ s) = digits 0 (c ∷ s)

at_most : ℕ → (ℕ → ℤ) → Option ℕ → Option ℤ
at_most top f none = none
at_most top f (some n) = if leb n top then some (f n) else none

-- `none` stands for the error, of syntax or of range.
unfoldable pub atoi : String → Option ℤ
unfolding unsigned at_most
atoi [] = none
atoi (c ∷ s) =
    if is_char b'-' c
    then at_most (2 ^ 63) (sub_ℕ 0) (unsigned s)
    else at_most (2 ^ 63 - 1) pos (unsigned (if is_char b'+' c then s else c ∷ s))

unfoldable pub parse_bool : String → Option Bool
parse_bool s =
    if s == "1" || s == "t" || s == "T" || s == "true" || s == "TRUE" || s == "True"
    then some true
    else if s == "0" || s == "f" || s == "F" || s == "false" || s == "FALSE" || s == "False"
    then some false
    else none

at_most-IsInt_pos : (o : Option ℕ) (z : ℤ) → at_most (2 ^ 63 - 1) pos o ≡ some z → IsInt z
unfolding at_most
at_most-IsInt_pos o z h = ground arith

at_most-IsInt_neg : (o : Option ℕ) (z : ℤ) → at_most (2 ^ 63) (sub_ℕ 0) o ≡ some z → IsInt z
unfolding at_most
at_most-IsInt_neg o z h = ground arith

-- What `Atoi` returns fits an `int`.
pub atoi-IsInt : (s : String) (z : ℤ) → atoi s ≡ some z → IsInt z
unfolding atoi
atoi-IsInt [] z h = cc
atoi-IsInt (c ∷ s) z h = elim (Bool-cases (is_char b'-' c)) [
  | inl minus ↦ at_most-IsInt_neg (unsigned s) z (rw minus at h)
  | inr plain ↦ at_most-IsInt_pos (unsigned (if is_char b'+' c then s else c ∷ s)) z (rw plain at h)
]

pub atoi-empty : (s : String) (z : ℤ) → atoi s ≡ some z → is_empty s ≡ false
unfolding atoi
atoi-empty [] z h = cc
atoi-empty (c ∷ s) z h = refl
