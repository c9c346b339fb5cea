-- ===== src/Generated/Waiting.antt =====
-- What `WaitForCacheSync` of pkg/client/informers/externalversions/factory.go waits for.
use kubesphere_schedule.Generated.FactoryLaws.{start-is_started, start-informers}
use kubesphere_schedule.Generated.Factory.{wait_for_cache_sync}
use kubesphere_schedule.Generated.Factory.{
  start, is_started, SharedInformerFactory, started_of, sync_all,
}
use kubesphere_schedule.Base.{
  ◌≡◌, ◌∷◌, refl, none, lookup-insert, lookup, if◌then◌else◌, eq_iff, arith, [], String, List, Bool,
}
use mathlib.Core.Option

lookup-sync_all :
    {I : Type 0} (synced : I → Bool) (type : String) (walk : List (String × I))
    → lookup type (sync_all synced walk) ≡ Option.map synced (lookup type walk)
unfolding sync_all lookup
lookup-sync_all synced type [] = refl
lookup-sync_all synced type (entry ∷ walk) = ground (
  arith,
  lookup-sync_all synced type walk,
  lookup-insert entry.0 type (synced entry.1) (sync_all synced walk),
  eq_iff entry.0 type,
)

module _ {C T I : Type 0} (synced : I → Bool) where
  lookup-started_of :
      (type : String) (f : SharedInformerFactory C T I) (walk : List (String × I))
      → lookup type (started_of f walk) ≡ (if is_started f type then lookup type walk else none)
  unfolding started_of lookup
  lookup-started_of type f [] = ground arith
  lookup-started_of type f (entry ∷ walk) = ground (
    arith,
    lookup-started_of type f walk,
    lookup-insert entry.0 type entry.1 (started_of f walk),
    eq_iff entry.0 type,
  )

  -- `Start` and then `WaitForCacheSync`: the answer has the types whose informers were requested of
  -- the factory and no other, each with what its own cache answers. `Start` walks a list with the
  -- informers of the factory, in any order.
  pub start-wait_for_cache_sync :
      (f : SharedInformerFactory C T I) (walk : List (String × I))
      → ((type : String) → lookup type walk ≡ lookup type f.informers)
      → (type : String)
      → lookup type (wait_for_cache_sync synced (start walk f).0)
        ≡ Option.map synced (lookup type f.informers)
  unfolding wait_for_cache_sync
  start-wait_for_cache_sync f walk h type =
      let after = (start walk f).0 in
      rw
        (
          lookup-sync_all synced type (started_of after after.informers),
          lookup-started_of type after after.informers,
          start-informers walk f,
          start-is_started type walk f,
          h type,
        )
        (ground arith)
