-- ===== src/Apiserver/SyncFactory.antt =====
-- What `waitForResourceSync` of pkg/apiserver/apiserver.go hands to `WaitForCacheSync`, over the
-- generated factory of informers of pkg/client/informers/externalversions/factory.go.
use kubesphere_schedule.Generated.FactoryLaws.{start-is_started}
use kubesphere_schedule.Generated.Factory.{start}
use kubesphere_schedule.Generated.Factory.{is_started, informer_for}
use kubesphere_schedule.Generated.InformerLaws.{tasks_of}
use kubesphere_schedule.Apiserver.Sync.{
  fetch_resources, create_all_informers, wait_for_resource_sync, is_resource_exists-any,
  create_informers, SyncLib,
}
use kubesphere_schedule.Schedule.Cluster.{ApiError}
use kubesphere_schedule.Generated.Sessions.{start_all, make_call, FactorySession}
use kubesphere_schedule.Generated.Informers.{
  task_type, tasks_resource, Tweak, for_resource, VersionedInterface, CacheLib,
}
use kubesphere_schedule.Base.{
  eq_iff, true, arith, ◌≡◌, ◌∷◌, refl, lookup, insert, [], some, none, is_char, cut, String, Option,
  List, Bool,
}
use Prim.Native.Char.{Char}
use kubesphere_schedule.Base.Results.{Result, ok, failed}
use kubesphere_schedule.Apiserver.Sync
use kubesphere_schedule.Generated.Informers

abbrev pub TaskSession : Type 0 → Type 0 → Type 0 → Type 0 → Type 0
TaskSession O V I W = FactorySession (VersionedInterface O V W) (Tweak O) I W

abbrev pub behind_slash : Option (Char × String) → String
behind_slash none = ""
behind_slash (some (c, s)) = s

-- A group version is written {group}/{version}.
abbrev pub resource_of : Sync.GroupVersionResource → Informers.GroupVersionResource
resource_of gvr =
    let parts = cut (is_char 47) gvr.group_version in
    record { group = parts.0; version = behind_slash parts.1; resource = gvr.resource }

abbrev pub error_of : {A : Type 0} → Result A → Option String
error_of (ok a) = none
error_of (failed e) = some e

-- What `WaitForCacheSync` is called with: the discovery client, by what the server answers for a
-- group version, `retry.OnError`, the closure over `ForResource`, and the factory, whose map of
-- informers `Start` walks in some order. Waiting changes nothing.
module _ {O V W I X : Type 0} (cache : CacheLib O V W I X)
    (shown : Informers.GroupVersionResource → String)
    (server : String → List String × Option ApiError)
    (retry : (ApiError → Bool)
      → (List String × TaskSession O V I W → Option ApiError × (List String × TaskSession O V I W))
      → List String × TaskSession O V I W
      → Option ApiError × (List String × TaskSession O V I W))
    (order : List (String × I) → List (String × I)) where
  unfoldable pub generated_sync : SyncLib (TaskSession O V I W)
  unfolding for_resource make_call
  generated_sync = record {
    discover = λ group_version s. (server group_version, s);
    retry = retry;
    informer_for_resource = λ gvr s.
        let made = for_resource cache shown (resource_of gvr) s.factory s.state in
        (error_of made.0, record s { factory = made.1; state = made.2 });
    start = λ s. make_call (start_all (order s.factory.informers)) s;
    wait_for_cache_sync = λ s. s;
  }

abbrev pub schedule_version : String
schedule_version = "schedule.kubesphere.io/v1alpha1"

abbrev pub tasks_gvr : Sync.GroupVersionResource
tasks_gvr = record { group_version = schedule_version; resource = "analysistasks" }

resource_of-tasks : resource_of tasks_gvr ≡ tasks_resource
unfolding cut
resource_of-tasks = refl

-- The session behind a request for the informer of analysis tasks.
abbrev pub requested :
    {O V W I X : Type 0} → CacheLib O V W I X → TaskSession O V I W → TaskSession O V I W
requested cache s =
    let made = Informers.informer cache (tasks_of s.factory) s.factory s.state in
    record s { factory = made.1; state = made.2 }

module _ {O V W I X : Type 0} (cache : CacheLib O V W I X) (s : TaskSession O V I W)
    (empty : s.factory.informers ≡ []) where
  pub requested-informers :
      (requested cache s).factory.informers
      ≡ (task_type, (Informers.informer cache (tasks_of s.factory) s.factory s.state).0) ∷ []
  unfolding Informers.informer informer_for lookup insert
  requested-informers = ground arith

  -- `Start` then starts the informer of analysis tasks, in the one order of one informer.
  pub start-requested :
      (walk : List (String × I))
      → walk ≡ (requested cache s).factory.informers
      → is_started (start walk (requested cache s).factory).0 task_type ≡ true
  unfolding lookup
  start-requested walk e =
      rw (start-is_started task_type walk (requested cache s).factory, e, requested-informers)
        (ground (arith, eq_iff task_type task_type))
