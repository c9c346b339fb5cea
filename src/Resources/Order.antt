-- ===== src/Resources/Order.antt =====
-- The order of a listing.
use kubesphere_schedule.Resources.Objects.{nil_object, bare, RuntimeObject, with_meta}
use kubesphere_schedule.Query.Types.{Query}
use kubesphere_schedule.Resources.Listing.{less}
use kubesphere_schedule.Resources.Compare.{
  CompareFunc, default_compare, default_object_meta_compare,
}
use kubesphere_schedule.Base.{◌↔◌, ◌≡◌, true, refl, false, arith, after, String, Bool}
use Prim.Native.String.{[], ◌∷◌}
use text.Mathlib.TextEquality.{Char-path}
use mathlib.Core.Path.{ap₂}
use Prim.Native.Char.{code}

after_irreflexive : (s : String) → after s s ≡ false
unfolding after
after_irreflexive [] = refl
after_irreflexive (c ∷ s) = ground (arith, after_irreflexive s)

after_asymmetric : (s t : String) → after s t ≡ true → after t s ≡ false
unfolding after
after_asymmetric [] t h = cc
after_asymmetric (a ∷ s) [] h = refl
after_asymmetric (a ∷ s) (b ∷ t) h = ground (arith, after_asymmetric s t)

after_transitive : (s t u : String) → after s t ≡ true → after t u ≡ true → after s u ≡ true
unfolding after
after_transitive [] t u h k = cc
after_transitive (a ∷ s) [] u h k = cc
after_transitive (a ∷ s) (b ∷ t) [] h k = refl
after_transitive (a ∷ s) (b ∷ t) (c ∷ u) h k = ground (arith, after_transitive s t u)

-- Texts that neither comes after the other are equal.
after_total : (s t : String) → after s t ≡ false → after t s ≡ false → s ≡ t
unfolding after
after_total [] [] h k = refl
after_total [] (b ∷ t) h k = cc
after_total (a ∷ s) [] h k = cc
after_total (a ∷ s) (b ∷ t) h k =
    let e : code a ≡ code b = ground arith in
    let f : s ≡ t = after_total s t (ground arith) (ground arith) in
    ap₂ String.◌∷◌ (Char-path a b e) f

-- A strict weak order, as `sort.Slice` wants.
pub record IsStrict {ℓ} {A : Type ℓ} (less : A → A → Bool) : Type ℓ where
  pub irreflexive : (a : A) → less a a ≡ false
  pub asymmetric : (a b : A) → less a b ≡ true → less b a ≡ false
  pub transitive : (a b c : A) → less a b ≡ true → less b c ≡ true → less a c ≡ true

-- The comparison of metadata is irreflexive, asymmetric and transitive, whatever the field that is
-- sorted by.
pub default_object_meta_compare-IsStrict :
    (field : String) → IsStrict (λ a b. default_object_meta_compare a b field)
unfolding default_object_meta_compare
default_object_meta_compare-IsStrict field = record {
  irreflexive = λ a. ground (arith, after_irreflexive a.name);
  asymmetric =
      λ a b h. ground (arith, after_asymmetric a.name b.name, after_asymmetric b.name a.name);
  transitive = λ a b c h k.
      ground (arith, after_transitive a.name b.name c.name, after_transitive c.name b.name a.name);
}

module _ {C : Type 0} (field : String) where
  compare_irreflexive : (a : RuntimeObject C) → default_compare a a field ≡ false
  unfolding default_compare
  compare_irreflexive (with_meta m c) = (default_object_meta_compare-IsStrict field).irreflexive m
  compare_irreflexive nil_object = refl
  compare_irreflexive (bare c) = refl

  compare_asymmetric :
      (a b : RuntimeObject C) → default_compare a b field ≡ true → default_compare b a field ≡ false
  unfolding default_compare
  compare_asymmetric (with_meta l a) (with_meta r b) h =
      (default_object_meta_compare-IsStrict field).asymmetric l r h
  compare_asymmetric (with_meta l a) b h = cc
  compare_asymmetric a b h = cc

  compare_transitive :
      (a b c : RuntimeObject C)
      → default_compare a b field ≡ true
      → default_compare b c field ≡ true
      → default_compare a c field ≡ true
  unfolding default_compare
  compare_transitive (with_meta l a) (with_meta r b) (with_meta t c) h k =
      (default_object_meta_compare-IsStrict field).transitive l r t h k
  compare_transitive (with_meta l a) (with_meta r b) c h k = cc
  compare_transitive (with_meta l a) b c h k = cc
  compare_transitive a b c h k = cc

-- `DefaultCompare` is irreflexive, asymmetric and transitive, over objects with and without
-- metadata.
pub default_compare-IsStrict :
    {C : Type 0} (field : String)
    → IsStrict (λ (a : RuntimeObject C). λ b. default_compare a b field)
default_compare-IsStrict field = record {
  irreflexive = compare_irreflexive field;
  asymmetric = compare_asymmetric field;
  transitive = compare_transitive field;
}

-- What `sort.Slice` is given is a strict order in descending order, and never in ascending order:
-- there an object is less than itself. The comparison is strict, and there is an object.
pub less-IsStrict_iff :
    {C : Type 0} (q : Query) (compare : CompareFunc C) (object : RuntimeObject C)
    → IsStrict (λ a b. compare a b q.sort_by)
    → IsStrict (less q compare) ↔ (q.ascending ≡ false)
unfolding less
less-IsStrict_iff q compare object s = (
  λ t. ground (arith, t.irreflexive object, s.irreflexive object),
  λ h. record {
    irreflexive = λ a. rw h (s.irreflexive a);
    asymmetric = λ a b. rw h (s.asymmetric a b);
    transitive = λ a b c. rw h (s.transitive a b c);
  },
)
