-- ===== src/Utils/Reverse.antt =====
-- `Reverse` and `ShortenString` of pkg/utils/stringutils/string.go.
use kubesphere_schedule.Base.Int.{negsuc, pos_part, pos, ltb_ℤ, ℤ}
use kubesphere_schedule.Base.{
  ◌≡◌, ◌∙◌, ℕ, take-all, take, returned, refl, panicked, length, leb, join, if◌then◌else◌, arith,
  ap, String, Outcome, List,
}
use Prim.Native.String.{[], ◌∷◌}

-- The loop over a text in UTF-8: what has been read stands in reverse at the end of the buffer.
unfoldable pub reverse_onto : String → String → String
reverse_onto [] buf = buf
reverse_onto (r ∷ s) buf = reverse_onto s (r ∷ buf)

unfoldable pub reverse : String → String
unfolding reverse_onto
reverse s = reverse_onto s ""

reverse_onto-reverse_onto :
    (s t u : String) → reverse_onto (reverse_onto s t) u ≡ reverse_onto t (join s u)
unfolding reverse_onto
reverse_onto-reverse_onto [] t u = refl
reverse_onto-reverse_onto (r ∷ s) t u = reverse_onto-reverse_onto s (r ∷ t) u

join-empty : (s : String) → join s "" ≡ s
join-empty [] = refl
join-empty (c ∷ s) = ap (λ t. c ∷ t) (join-empty s)

-- Reversing a text twice gives the text again.
pub reverse-reverse : (s : String) → reverse (reverse s) ≡ s
unfolding reverse reverse_onto
reverse-reverse s = reverse_onto-reverse_onto s "" "" ∙ join-empty s

-- A text as its bytes; a slice with a negative bound panics.
unfoldable pub shorten_string : List ℕ → ℤ → Outcome (List ℕ)
shorten_string str (pos n) = returned (if leb (length str) n then str else take n str)
shorten_string str (negsuc n) = panicked

-- A text is cut to at most `n` bytes, those it starts with; it panics exactly where `n` is negative.
pub shorten_string-take :
    (str : List ℕ) (n : ℤ)
    → shorten_string str n
      ≡ (if ltb_ℤ n (pos 0) then panicked else returned (take (pos_part n) str))
unfolding shorten_string
shorten_string-take str (negsuc n) = ground arith
shorten_string-take str (pos n) = ground (arith, take-all n str)
