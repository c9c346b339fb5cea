-- ===== src/Generated/Tasks.antt =====
-- pkg/client/clientset/versioned/typed/schedule/v1alpha1/analysistask.go: the client of the analysis
-- tasks of a namespace.
use kubesphere_schedule.Base.Words.{mul_int}
use kubesphere_schedule.Base.Int.{pos, ℤ}
use kubesphere_schedule.Schedule.Cluster.{ApiError}
use kubesphere_schedule.Schedule.Types.{AnalysisTask}
use kubesphere_schedule.Base.{◌∷◌, ℕ, true, some, none, [], String, Option, List}
use kubesphere_schedule.Generated.Rest.{
  timeout, bytes, options, task, body, listing, sub_resource, plain, name, versioned_params,
  resource, empty_list, empty_task, namespace, AnalysisTaskList, ListOptions, RestRequest,
  RestClient, get, post, put, delete, patch,
}

-- `analysisTasks`.
pub record AnalysisTasks (O D V W : Type 0) : Type 0 where
  pub client : RestClient O D V W
  pub ns : String

-- `time.Duration(*opts.TimeoutSeconds) * time.Second`, which wraps; nil is no timeout.
abbrev pub nanoseconds : ℕ
nanoseconds = 1000000000

unfoldable pub duration_of : Option ℤ → ℤ
duration_of none = pos 0
duration_of (some seconds) = mul_int seconds (pos nanoseconds)

-- The requests.
module _ {O : Type 0} (D : Type 0) (ns : String) where
  unfoldable pub get_request : String → O → RestRequest O D
  get_request id options' = record {
    verb = get;
    calls =
        namespace ns ∷ resource "analysistasks" ∷ name id ∷ versioned_params (plain options') ∷ [];
  }

  unfoldable pub list_request : ListOptions O → RestRequest O D
  unfolding duration_of
  list_request opts = record {
    verb = get;
    calls =
        namespace ns
        ∷ resource "analysistasks"
        ∷ versioned_params (listing opts)
        ∷ timeout (duration_of opts.timeout_seconds)
        ∷ [];
  }

  unfoldable pub watch_request : ListOptions O → RestRequest O D
  unfolding duration_of
  watch_request opts = record {
    verb = get;
    calls =
        namespace ns
        ∷ resource "analysistasks"
        ∷ versioned_params (listing (record opts { watch = true }))
        ∷ timeout (duration_of opts.timeout_seconds)
        ∷ [];
  }

  unfoldable pub create_request : AnalysisTask → O → RestRequest O D
  create_request analysis_task opts = record {
    verb = post;
    calls =
        namespace ns
        ∷ resource "analysistasks"
        ∷ versioned_params (plain opts)
        ∷ body (task analysis_task)
        ∷ [];
  }

  unfoldable pub update_request : AnalysisTask → O → RestRequest O D
  update_request analysis_task opts = record {
    verb = put;
    calls =
        namespace ns
        ∷ resource "analysistasks"
        ∷ name analysis_task.metadata.name
        ∷ versioned_params (plain opts)
        ∷ body (task analysis_task)
        ∷ [];
  }

  unfoldable pub update_status_request : AnalysisTask → O → RestRequest O D
  update_status_request analysis_task opts = record {
    verb = put;
    calls =
        namespace ns
        ∷ resource "analysistasks"
        ∷ name analysis_task.metadata.name
        ∷ sub_resource ("status" ∷ [])
        ∷ versioned_params (plain opts)
        ∷ body (task analysis_task)
        ∷ [];
  }

  unfoldable pub delete_request : String → O → RestRequest O D
  delete_request id opts = record {
    verb = delete;
    calls = namespace ns ∷ resource "analysistasks" ∷ name id ∷ body (options opts) ∷ [];
  }

  unfoldable pub delete_collection_request : O → ListOptions O → RestRequest O D
  unfolding duration_of
  delete_collection_request opts list_opts = record {
    verb = delete;
    calls =
        namespace ns
        ∷ resource "analysistasks"
        ∷ versioned_params (listing list_opts)
        ∷ timeout (duration_of list_opts.timeout_seconds)
        ∷ body (options opts)
        ∷ [];
  }

  unfoldable pub patch_request : String → String → D → O → List String → RestRequest O D
  patch_request id type content opts subresources = record {
    verb = patch type;
    calls =
        namespace ns
        ∷ resource "analysistasks"
        ∷ name id
        ∷ sub_resource subresources
        ∷ versioned_params (plain opts)
        ∷ body (bytes content)
        ∷ [];
  }

-- The methods.
module _ {O D V W : Type 0} (c : AnalysisTasks O D V W) where
  unfoldable pub get_task : String → O → W → (AnalysisTask × Option ApiError) × W
  unfolding get_request
  get_task id options' = c.client.do_task (get_request D c.ns id options') empty_task

  unfoldable pub list_tasks : ListOptions O → W → (AnalysisTaskList × Option ApiError) × W
  unfolding list_request
  list_tasks opts = c.client.do_list (list_request D c.ns opts) empty_list

  unfoldable pub watch_tasks : ListOptions O → W → (V × Option ApiError) × W
  unfolding watch_request
  watch_tasks opts = c.client.do_watch (watch_request D c.ns opts)

  unfoldable pub create_task : AnalysisTask → O → W → (AnalysisTask × Option ApiError) × W
  unfolding create_request
  create_task analysis_task opts =
      c.client.do_task (create_request D c.ns analysis_task opts) empty_task

  unfoldable pub update_task : AnalysisTask → O → W → (AnalysisTask × Option ApiError) × W
  unfolding update_request
  update_task analysis_task opts =
      c.client.do_task (update_request D c.ns analysis_task opts) empty_task

  unfoldable pub update_status : AnalysisTask → O → W → (AnalysisTask × Option ApiError) × W
  unfolding update_status_request
  update_status analysis_task opts =
      c.client.do_task (update_status_request D c.ns analysis_task opts) empty_task

  unfoldable pub delete_task : String → O → W → Option ApiError × W
  unfolding delete_request
  delete_task id opts = c.client.do_error (delete_request D c.ns id opts)

  unfoldable pub delete_collection : O → ListOptions O → W → Option ApiError × W
  unfolding delete_collection_request
  delete_collection opts list_opts =
      c.client.do_error (delete_collection_request D c.ns opts list_opts)

  unfoldable pub patch_task :
      String → String → D → O → List String → W → (AnalysisTask × Option ApiError) × W
  unfolding patch_request
  patch_task id type content opts subresources =
      c.client.do_task (patch_request D c.ns id type content opts subresources) empty_task
