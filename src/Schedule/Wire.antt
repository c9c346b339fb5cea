-- ===== src/Schedule/Wire.antt =====
-- The operator of pkg/service/schedule/interface.go over the generated client of analysis tasks,
-- pkg/client/clientset/versioned/typed/schedule/v1alpha1/analysistask.go: which requests that change
-- the cluster it sends. `client.MergeFrom` is a parameter, as are the empty options.

use kubesphere_schedule.Schedule.OperatorLaws.{with_spec_and_labels}
use kubesphere_schedule.Schedule.Operator.{
  send_patch, modify_analysis_task, delete_analysis_task, modified, create_analysis_task,
}
use kubesphere_schedule.Schedule.Cluster.{Client, ApiError}
use kubesphere_schedule.Schedule.Types.{AnalysisTask}
use kubesphere_schedule.Generated.Tasks.{
  delete_request, create_request, patch_request, list_tasks, patch_task, AnalysisTasks, create_task,
}
use kubesphere_schedule.Generated.Rest.{
  ListOptions, RestClient, RestRequest, body, bytes, delete, name, namespace, options, patch, plain,
  post, resource, sub_resource, task, versioned_params,
}
use kubesphere_schedule.Base.{
  ◌∙◌, ap, sym, inr, inl, Bool-cases, ◌≡◌, ◌∷◌, ◌++◌, ℕ, some, refl, none, if◌then◌else◌, eqb, [],
  String, Option, List,
}
use kubesphere_schedule.Generated.Tasks
use mathlib.Core.List.{append-nil}

-- A REST client that keeps the requests that it is given.
abbrev pub Logged : Type 0 → Type 0 → Type 0 → Type 0
Logged O D W = List (RestRequest O D) × W

unfoldable pub logged : {O D V W : Type 0} → RestClient O D V W → RestClient O D V (Logged O D W)
logged rest = record {
  do_task =
      λ req into x. let done = rest.do_task req into x.1 in (done.0, (x.0 ++ req ∷ [], done.1));
  do_list =
      λ req into x. let done = rest.do_list req into x.1 in (done.0, (x.0 ++ req ∷ [], done.1));
  do_error = λ req x. let done = rest.do_error req x.1 in (done.0, (x.0 ++ req ∷ [], done.1));
  do_watch = λ req x. let done = rest.do_watch req x.1 in (done.0, (x.0 ++ req ∷ [], done.1));
}

abbrev pub merge_patch_type : String
merge_patch_type = "application/merge-patch+json"

-- The operator's client over the generated one. What a read leaves of the state is not used.
unfoldable pub task_client :
    {O D V W : Type 0}
    → RestClient O D V W
    → O
    → ListOptions O
    → (AnalysisTask → AnalysisTask → D × Option ApiError)
    → (D → ℕ)
    → Client W AnalysisTask D
unfolding Tasks.get_task create_task patch_task Tasks.delete_task list_tasks
task_client rest opts list_opts merge_data data_len = record {
  get = λ ns id w. (Tasks.get_task (record { client = rest; ns = ns }) id opts w).0;
  create = λ ns t w. create_task (record { client = rest; ns = ns }) t opts w;
  patch =
      λ ns id d w. patch_task (record { client = rest; ns = ns }) id merge_patch_type d opts [] w;
  delete = λ ns id w. Tasks.delete_task (record { client = rest; ns = ns }) id opts w;
  list_all = λ w.
      let listed = list_tasks (record { client = rest; ns = "" }) list_opts w in
      (listed.0.0.items, listed.0.1);
  merge_data = merge_data;
  data_len = data_len;
}

module _ {O D V W : Type 0} (rest : RestClient O D V W) (opts : O) (list_opts : ListOptions O)
    (merge_data : AnalysisTask → AnalysisTask → D × Option ApiError) (data_len : D → ℕ) where
  abbrev pub wire : Client (Logged O D W) AnalysisTask D
  wire = task_client (logged rest) opts list_opts merge_data data_len

  -- The patch that is sent for what `MergeFrom` computes: none for an error and for `{}`.
  abbrev pub sent_patch : String → String → D × Option ApiError → List (RestRequest O D)
  sent_patch ns id (content, some e) = []
  sent_patch ns id (content, none) =
      if eqb (data_len content) 2
      then []
      else record {
        verb = patch "application/merge-patch+json";
        calls =
            namespace ns
            ∷ resource "analysistasks"
            ∷ name id
            ∷ sub_resource []
            ∷ versioned_params (plain opts)
            ∷ body (bytes content)
            ∷ [];
      }
        ∷ []

  -- The patch of a modification, of which there is none where the task cannot be read.
  abbrev pub patch_of :
      String → String → AnalysisTask → AnalysisTask × Option ApiError → List (RestRequest O D)
  patch_of ns id t (stored, some e) = []
  patch_of ns id t (stored, none) =
      sent_patch ns id (merge_data stored (with_spec_and_labels stored t))

  send_patch-sent :
      (ns id : String) (content : D × Option ApiError) (log : List (RestRequest O D)) (w : W)
      → (send_patch wire ns id content (log, w)).1.0 ≡ log ++ sent_patch ns id content
  unfolding send_patch task_client logged patch_request
  send_patch-sent ns id (content, some e) log w = sym (append-nil log)
  send_patch-sent ns id (content, none) log w = elim (Bool-cases (eqb (data_len content) 2)) [
    | inl same ↦ rw same (sym (append-nil log))
    | inr other ↦ rw other refl
  ]

  -- What a modification does with what it has read.
  abbrev after_read :
      String
      → String
      → AnalysisTask
      → AnalysisTask × Option ApiError
      → Logged O D W
      → Option ApiError × Logged O D W
  after_read ns id t x state = elim x.1 [
    | some e ↦ (some e, state)
    | none ↦ send_patch wire ns id (wire.merge_data x.0 (modified wire x.0 t)) state
  ]

  modify-after_read :
      (ns id : String) (t : AnalysisTask) (state : Logged O D W)
      → modify_analysis_task wire ns id t state ≡ after_read ns id t (wire.get ns id state) state
  unfolding modify_analysis_task
  modify-after_read ns id t state = refl

  after_read-sent :
      (ns id : String) (t : AnalysisTask) (x : AnalysisTask × Option ApiError)
      (log : List (RestRequest O D)) (w : W)
      → (after_read ns id t x (log, w)).1.0 ≡ log ++ patch_of ns id t x
  unfolding task_client modified
  after_read-sent ns id t (stored, some e) log w = sym (append-nil log)
  after_read-sent ns id t (stored, none) log w =
      send_patch-sent ns id (merge_data stored (modified wire stored t)) log w

  -- The requests of the operator that change the cluster, on every branch: creating a task sends one
  -- POST of the task, deleting one sends one DELETE of its name, and modifying one sends the merge
  -- patch from the stored task to the stored task with the new spec and labels, and nothing at all if
  -- the task cannot be read, the patch cannot be made or is `{}`. Each is sent for the namespace that
  -- the operator was given.
  pub operator-requests :
      (ns id : String) (t : AnalysisTask) (log : List (RestRequest O D)) (w : W)
      → ((create_analysis_task wire ns t (log, w)).1.0
          ≡ log
            ++ record {
              verb = post;
              calls =
                  namespace ns
                  ∷ resource "analysistasks"
                  ∷ versioned_params (plain opts)
                  ∷ body (task t)
                  ∷ [];
            }
              ∷ [])
        × ((delete_analysis_task wire ns id (log, w)).1.0
            ≡ log
              ++ record {
                verb = delete;
                calls =
                    namespace ns ∷ resource "analysistasks" ∷ name id ∷ body (options opts) ∷ [];
              }
                ∷ [])
        × ((modify_analysis_task wire ns id t (log, w)).1.0
            ≡ log ++ patch_of ns id t (wire.get ns id (log, w)))
  unfolding create_analysis_task delete_analysis_task task_client logged create_request
      delete_request
  operator-requests ns id t log w = (
    refl,
    refl,
    ap (λ x. x.1.0) (modify-after_read ns id t (log, w))
        ∙ after_read-sent ns id t (wire.get ns id (log, w)) log w,
  )
