-- ===== src/Tests/GeneratedRuns.antt =====
-- The generated factory, clients and lister at concrete inputs.
use kubesphere_schedule.Generated.ListerLaws.{
  FilesTasks, key_of, find_task, get_from_cache-list_in_namespace,
}
use kubesphere_schedule.Request.Namespaced.{namespaced_info}
use kubesphere_schedule.Generated.InformerLaws.{for_resource-informer, tasks_of}
use kubesphere_schedule.Generated.Waiting.{start-wait_for_cache_sync}
use kubesphere_schedule.Generated.Rest.{empty_task, empty_list}
use kubesphere_schedule.Generated.TaskLaws.{
  object_request, object_request-read, IsSentAs, patching, ObjectCall,
}
use kubesphere_schedule.Schedule.Cluster.{api_status, ApiError}
use kubesphere_schedule.Generated.Sessions.{
  make_calls-runs_of, in_namespace, request, start_all, new_session, make_calls, FactoryCall,
  FactorySession,
}
use kubesphere_schedule.Generated.FactoryLaws.{as_count, runs_of}
use kubesphere_schedule.Request.Parse.{info_and_error, split_path, new_request_info}
use kubesphere_schedule.Generated.Factory.{wait_for_cache_sync}
use kubesphere_schedule.Generated.Factory.{
  mark_started, with_namespace, is_started, new_with_options, start, informer_for, NewInformer,
  SharedInformerFactory,
}
use kubesphere_schedule.Http.{HttpRequest}
use kubesphere_schedule.Generated.Tasks.{patch_request}
use kubesphere_schedule.Schedule.Types.{AnalysisTask}
use kubesphere_schedule.Generated.Informers.{
  task_type, Tweak, tasks_resource, VersionedInterface, for_resource, CacheLib,
}
use kubesphere_schedule.Generated.Lister.{
  task_object, get_from_cache, namespace_lister, Indexer, list_in_namespace,
}
use kubesphere_schedule.Base.{
  is_empty, inr, if◌then◌else◌, map, ◌≡◌, ◌∷◌, ◌==◌, ◌+◌, ℕ, true, returned, refl, none, lookup,
  insert, inl, filter, eqb, eq_iff, arith, [], String, List,
}
use mathlib.Core.Option
use kubesphere_schedule.Generated.Informers
use kubesphere_schedule.Base.Results.{ok}
use kubesphere_schedule.Base.Int.{pos}
use kubesphere_schedule.Tests.RequestRuns.{plain_lib, no_options, server_factory}

-- A constructor of informers that numbers them by a counter.
abbrev numbered : NewInformer ℕ ℕ ℕ
numbered client period n = (n, n + 1)

abbrev twice_started : List (FactoryCall ℕ ℕ ℕ)
twice_started =
    request "pods" numbered
    ∷ start_all (("pods", 0) ∷ [])
    ∷ request "pods" numbered
    ∷ request "tasks" numbered
    ∷ start_all (("tasks", 1) ∷ ("pods", 0) ∷ [])
    ∷ []

abbrev after_calls : FactorySession ℕ ℕ ℕ ℕ
after_calls = make_calls twice_started (new_session 7 (pos 600) (in_namespace "default" ∷ []) 0)

twice_started_test : after_calls.runs ≡ ("pods", 0) ∷ ("tasks", 1) ∷ []
unfolding make_calls informer_for start new_with_options with_namespace lookup insert is_started
    mark_started
twice_started_test = refl

make_calls-runs_of_example :
    runs_of "pods" after_calls.runs ≡ as_count (is_started after_calls.factory "pods")
make_calls-runs_of_example =
    make_calls-runs_of 7 (pos 600) (in_namespace "default" ∷ []) 0 twice_started "pods"

abbrev two_informers : SharedInformerFactory ℕ ℕ ℕ
two_informers = record {
  client = 7;
  namespace = "";
  tweak_list_options = none;
  default_resync = pos 600;
  custom_resync = [];
  informers = ("pods", 0) ∷ ("tasks", 1) ∷ [];
  started_informers = ("pods", true) ∷ [];
}

abbrev two_entries : List (String × ℕ)
two_entries = ("tasks", 1) ∷ ("pods", 0) ∷ []

two_entries_walk : (type : String) → lookup type two_entries ≡ lookup type two_informers.informers
unfolding lookup
two_entries_walk type =
    ground (arith, eq_iff "pods" type, eq_iff "tasks" type, eq_iff "pods" "tasks")

start-wait_for_cache_sync_example :
    lookup "tasks" (wait_for_cache_sync (λ n. eqb n 1) (start two_entries two_informers).0)
    ≡ Option.map (λ n. eqb n 1) (lookup "tasks" two_informers.informers)
start-wait_for_cache_sync_example =
    start-wait_for_cache_sync (λ n. eqb n 1) two_informers two_entries two_entries_walk "tasks"

abbrev patch_call : ObjectCall ℕ ℕ
patch_call = patching "daily" "application/merge-patch+json" 5 0

abbrev patch_sent : HttpRequest
patch_sent = record {
  method = "PATCH";
  path = "/apis/schedule.kubesphere.io/v1alpha1/namespaces/default/analysistasks/daily";
  raw_query = "";
  header = [];
  remote_addr = "";
}

patch_IsSentAs :
    IsSentAs "schedule.kubesphere.io" "v1alpha1" (object_request "default" patch_call) patch_sent
unfolding patch_request split_path
patch_IsSentAs = record { method = refl; path = refl }

object_request-read_example :
    new_request_info plain_lib no_options server_factory patch_sent
    ≡ info_and_error
        (record (namespaced_info "apis" "schedule.kubesphere.io" "v1alpha1" "default"
          "analysistasks" "daily" plain_lib patch_sent) { verb = "patch" })
        none
object_request-read_example =
    object_request-read "schedule.kubesphere.io" "v1alpha1" "default" patch_call plain_lib
      no_options server_factory patch_sent patch_IsSentAs refl refl tt
      (ground (arith, eq_iff "schedule.kubesphere.io" "clusters")) refl refl

-- A cache whose informers are numbered, and a clientset without tasks.
abbrev pub counting_cache : CacheLib ℕ ℕ ℕ ℕ ℕ
counting_cache = record {
  new_shared_index_informer = λ lw type period indexers n. (n, n + 1);
  get_indexer = λ n. n;
}

abbrev pub no_tasks : VersionedInterface ℕ ℕ ℕ
no_tasks = record {
  list = λ ns opts w. ((empty_list, none), w);
  watch_tasks = λ ns opts w. ((0, none), w);
}

abbrev task_session : FactorySession (VersionedInterface ℕ ℕ ℕ) (Tweak ℕ) ℕ ℕ
task_session = new_session no_tasks (pos 600) [] 3

abbrev start_tasks : List (FactoryCall (VersionedInterface ℕ ℕ ℕ) ℕ ℕ)
start_tasks = start_all ((task_type, 3) ∷ []) ∷ []

abbrev shared_after : FactorySession (VersionedInterface ℕ ℕ ℕ) (Tweak ℕ) ℕ ℕ
shared_after =
    let made =
      Informers.informer counting_cache (tasks_of task_session.factory) task_session.factory 3 in
    make_calls start_tasks (record task_session { factory = made.1; state = made.2 })

for_resource-informer_example :
    for_resource counting_cache
      (λ r. r.resource)
      tasks_resource
      shared_after.factory
      shared_after.state
    ≡ (
      ok (record {
        informer =
            (Informers.informer counting_cache
              (tasks_of task_session.factory)
              task_session.factory
              3).0;
        group = "schedule.kubesphere.io";
        resource = "analysistasks";
      }),
      shared_after.factory,
      shared_after.state,
    )
for_resource-informer_example =
    for_resource-informer counting_cache (λ r. r.resource) task_session start_tasks

-- An indexer over two tasks of two namespaces, whose one selector matches all.
abbrev task_in : String → String → AnalysisTask
task_in ns id = record empty_task {
  metadata = record (empty_task.metadata) { name = id; namespace = ns };
}

abbrev stored_tasks : List AnalysisTask
stored_tasks = task_in "default" "daily" ∷ task_in "web" "daily" ∷ []

abbrev missing_error : ApiError
missing_error = record { status = api_status 404; not_found = true; message = "not found" }

abbrev stored_indexer : Indexer (Unit {0})
stored_indexer = record {
  list_all = λ s. (map task_object stored_tasks, none);
  list_all_by_namespace = λ ns s. (
    map task_object (
        if is_empty ns
        then stored_tasks
        else filter (λ (t : AnalysisTask). t.metadata.namespace == ns) stored_tasks),
    none,
  );
  get_by_key = λ key. inl (Option.map task_object (find_task (λ t. key_of t == key) stored_tasks));
  not_found = λ resource id. missing_error;
}

stored_FilesTasks : FilesTasks tt stored_indexer stored_tasks
stored_FilesTasks = record {
  by_key = λ key. refl;
  by_namespace = λ ns n. rw n refl;
  everywhere = refl;
}

get_from_cache-list_in_namespace_example :
    (list_in_namespace (namespace_lister stored_indexer "web") tt
      ≡ returned (task_in "web" "daily" ∷ [], none))
    × (get_from_cache (namespace_lister stored_indexer "web") "daily"
        ≡ returned (inl (task_in "web" "daily")))
    × (list_in_namespace (namespace_lister stored_indexer "") tt ≡ returned (stored_tasks, none))
    × (get_from_cache (namespace_lister stored_indexer "") "daily" ≡ returned (inr missing_error))
get_from_cache-list_in_namespace_example =
    get_from_cache-list_in_namespace tt stored_indexer stored_tasks "web" "daily" stored_FilesTasks
      ((refl, refl), ((refl, refl), tt)) refl refl
