-- ===== src/Tests/SyncRuns.antt =====
-- The start of the API server's informers where the server has analysis tasks.
use kubesphere_schedule.Generated.Sessions.{new_session}
use kubesphere_schedule.Generated.FactoryLaws.{runs_of}
use kubesphere_schedule.Apiserver.SyncLaws.{wait_for_resource_sync-starts, sync}
use kubesphere_schedule.Generated.Informers.{task_type}
use kubesphere_schedule.Apiserver.Sync.{wait_for_resource_sync}
use kubesphere_schedule.Apiserver.SyncFactory.{TaskSession}
use kubesphere_schedule.Generated.Factory.{is_started}
use kubesphere_schedule.Schedule.Cluster.{ApiError}
use kubesphere_schedule.Base.{◌≡◌, ◌∷◌, ℕ, true, refl, none, [], String, Option, List}
use kubesphere_schedule.Base.Int.{pos}
use kubesphere_schedule.Tests.GeneratedRuns.{counting_cache, no_tasks}

abbrev small_server : String → List String × Option ApiError
small_server group_version = ("other" ∷ "analysistasks" ∷ [], none)

abbrev synced_session : Option String × TaskSession ℕ ℕ ℕ ℕ
synced_session =
    wait_for_resource_sync
      (sync counting_cache (λ r. r.resource) small_server (λ test f x. f x) (λ es. es)) (λ s. s)
      (new_session no_tasks (pos 600) [] 3)

wait_for_resource_sync-starts_example :
    (synced_session.0 ≡ none)
    × (is_started synced_session.1.factory task_type ≡ true)
    × (runs_of task_type synced_session.1.runs ≡ 1)
wait_for_resource_sync-starts_example =
    wait_for_resource_sync-starts counting_cache (λ r. r.resource) small_server (λ test f x. f x)
      (λ es. es) ("other" ∷ "analysistasks" ∷ []) no_tasks (pos 600) [] 3 refl (λ test f x e. refl)
      refl (λ e. refl)
