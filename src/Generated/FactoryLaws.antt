-- ===== src/Generated/FactoryLaws.antt =====
-- What `InformerFor` and `Start` of pkg/client/informers/externalversions/factory.go change.
use kubesphere_schedule.Generated.Factory.{resync_period, start}
use kubesphere_schedule.Generated.Factory.{
  mark_started, SharedInformerFactory, is_started, informer_for, NewInformer,
}
use kubesphere_schedule.Base.{
  some, ◌≡◌, ◌∷◌, ◌||◌, ◌==◌, ◌+◌, ◌++◌, ℕ, true, suc, refl, lookup-insert, lookup, is_some,
  if◌then◌else◌, false, eq_iff, arith, [], String, List, Bool,
}

-- How often an informer of the type was run.
abbrev pub runs_of : {I : Type 0} → String → List (String × I) → ℕ
runs_of type [] = 0
runs_of type (run ∷ runs) =
    let later = runs_of type runs in if run.0 == type then suc later else later

abbrev pub as_count : Bool → ℕ
as_count true = 1
as_count false = 0

pub runs_of-append :
    {I : Type 0} (type : String) (xs ys : List (String × I))
    → runs_of type (xs ++ ys) ≡ runs_of type xs + runs_of type ys
runs_of-append type [] ys = omega arith
runs_of-append type (x ∷ xs) ys = ground (arith, runs_of-append type xs ys)

module _ {C T I : Type 0} where
  pub is_started-mark_started :
      (type other : String) (f : SharedInformerFactory C T I)
      → is_started (mark_started type f) other
        ≡ (if type == other then true else is_started f other)
  unfolding is_started mark_started
  is_started-mark_started type other f =
      ground (arith, lookup-insert type other true f.started_informers)

  -- `Start` changes only which informers are started.
  pub start-informers :
      (walk : List (String × I)) (f : SharedInformerFactory C T I)
      → (start walk f).0.informers ≡ f.informers
  unfolding start
  start-informers [] f = refl
  start-informers (entry ∷ walk) f =
      ground (arith, start-informers walk f, start-informers walk (mark_started entry.0 f))

  pub start-is_started :
      (type : String) (walk : List (String × I)) (f : SharedInformerFactory C T I)
      → is_started (start walk f).0 type ≡ (is_started f type || is_some (lookup type walk))
  unfolding start lookup
  start-is_started type [] f = ground arith
  start-is_started type (entry ∷ walk) f = ground (
    arith,
    start-is_started type walk f,
    start-is_started type walk (mark_started entry.0 f),
    is_started-mark_started entry.0 type f,
    eq_iff entry.0 type,
  )

  -- What `Start` runs of a type brings the count to one exactly where the type becomes started.
  pub start-runs_of :
      (type : String) (walk : List (String × I)) (f : SharedInformerFactory C T I)
      → as_count (is_started f type) + runs_of type (start walk f).1
        ≡ as_count (is_started (start walk f).0 type)
  unfolding start
  start-runs_of type [] f = omega arith
  start-runs_of type (entry ∷ walk) f = ground (
    arith,
    start-runs_of type walk f,
    start-runs_of type walk (mark_started entry.0 f),
    is_started-mark_started entry.0 type f,
    eq_iff entry.0 type,
  )

  -- A type that is marked but once.
  pub informer_for-is_started :
      {W : Type 0} (type other : String) (make : NewInformer C I W)
      (f : SharedInformerFactory C T I) (w : W)
      → is_started (informer_for type make f w).1 other ≡ is_started f other
  unfolding informer_for is_started
  informer_for-is_started type other make f w = ground arith

  pub informer_for-lookup :
      {W : Type 0} (type other : String) (make : NewInformer C I W)
      (f : SharedInformerFactory C T I) (w : W) {informer : I}
      → lookup other f.informers ≡ some informer
      → lookup other (informer_for type make f w).1.informers ≡ some informer
  unfolding informer_for
  informer_for-lookup type other make f w h = ground (
    arith,
    lookup-insert type other (make f.client (resync_period f type) w).0 f.informers,
    eq_iff type other,
  )

  -- The informer that a request gives is the one that the factory keeps.
  pub informer_for-kept :
      {W : Type 0} (type : String) (make : NewInformer C I W) (f : SharedInformerFactory C T I)
      (w : W)
      → lookup type (informer_for type make f w).1.informers ≡ some (informer_for type make f w).0
  unfolding informer_for
  informer_for-kept type make f w = ground (
    arith,
    lookup-insert type type (make f.client (resync_period f type) w).0 f.informers,
    eq_iff type type,
  )

  pub informer_for-known :
      {W : Type 0} (type : String) (make : NewInformer C I W) (f : SharedInformerFactory C T I)
      (w : W) {informer : I}
      → lookup type f.informers ≡ some informer
      → informer_for type make f w ≡ (informer, f, w)
  unfolding informer_for
  informer_for-known type make f w h = ground arith
