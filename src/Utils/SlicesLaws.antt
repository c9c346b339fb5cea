-- ===== src/Utils/SlicesLaws.antt =====
-- `RemoveString` and `HasString` against what they promise.
use kubesphere_schedule.Utils.Slices.{remove_string, remove_from, has_string}
use kubesphere_schedule.Base.{
  suc, ◌≡◌, ◌∷◌, ◌==◌, ◌+◌, ◌++◌, take, sym, some, refl, not, none, length, inr, inl, get_elem?,
  filter, false, drop, arith, ap, [], String, List, Bool-cases, Bool,
}

module _ {ℓ} {A : Type ℓ} where
  get-length :
      (front : List A) (x : A) (back : List A)
      → get_elem? (front ++ x ∷ back) (length front) ≡ some x
  get-length [] x back = refl
  get-length (y ∷ front) x back = get-length front x back

  get-end : (front : List A) → get_elem? (front ++ []) (length front) ≡ none
  get-end [] = refl
  get-end (y ∷ front) = get-end front

  take-front : (front back : List A) → take (length front) (front ++ back) ≡ front
  take-front [] back = refl
  take-front (y ∷ front) back = ap (λ t. y ∷ t) (take-front front back)

  drop-front :
      (front : List A) (x : A) (back : List A)
      → drop (suc (length front)) (front ++ x ∷ back) ≡ back
  drop-front [] x back = refl
  drop-front (y ∷ front) x back = drop-front front x back

  snoc-append :
      (front : List A) (x : A) (back : List A) → (front ++ x ∷ []) ++ back ≡ front ++ x ∷ back
  snoc-append [] x back = refl
  snoc-append (y ∷ front) x back = ap (λ t. y ∷ t) (snoc-append front x back)

  length-snoc : (front : List A) (x : A) → length (front ++ x ∷ []) ≡ length front + 1
  length-snoc [] x = refl
  length-snoc (y ∷ front) x = omega (arith, length-snoc front x)

keep : (String → Bool) → String → Bool
keep remove s = not (remove s)

remove_from-filter :
    (remove : String → Bool) (front back : List String)
    → remove_from remove (length back) (front ++ back) (length front)
      ≡ front ++ filter (keep remove) back
unfolding remove_from keep
remove_from-filter remove front [] = refl
remove_from-filter remove front (x ∷ back) = elim (Bool-cases (remove x)) [
  | inl removed ↦
      rw
        (
          remove_from,
          get-length front x back,
          removed,
          take-front front (x ∷ back),
          drop-front front x back,
        )
        (remove_from-filter remove front back)
  | inr kept ↦
      rw
        (
          remove_from,
          get-length front x back,
          kept,
          sym (snoc-append front x back),
          sym (length-snoc front x),
          sym (snoc-append front x (filter (keep remove) back)),
        )
        (remove_from-filter remove (front ++ x ∷ []) back)
]

-- The loop of `RemoveString`, which deletes in place and steps back, keeps exactly the items that
-- `remove` does not hold of, in their order.
pub remove_string-filter :
    (slice : List String) (remove : String → Bool)
    → remove_string slice remove ≡ filter (λ s. not (remove s)) slice
unfolding remove_string keep
remove_string-filter slice remove = remove_from-filter remove [] slice

has_string-filter :
    (slice : List String) (str : String)
    → has_string (filter (λ s. not (s == str)) slice) str ≡ false
unfolding has_string
has_string-filter [] str = refl
has_string-filter (s ∷ slice) str = ground (arith, has_string-filter slice str)

-- After the removal of a text the slice does not have it.
pub has_string-remove_string :
    (slice : List String) (str : String)
    → has_string (remove_string slice (λ s. s == str)) str ≡ false
has_string-remove_string slice str =
    rw (remove_string-filter slice (λ s. s == str)) (has_string-filter slice str)
