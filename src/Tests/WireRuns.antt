-- ===== src/Tests/WireRuns.antt =====
-- The operator's requests through a REST client that answers with an empty task.
use kubesphere_schedule.Schedule.Types.{AnalysisTask}
use kubesphere_schedule.Generated.Tasks.{patch_request, delete_request}
use kubesphere_schedule.Schedule.Cluster.{Client}
use kubesphere_schedule.Schedule.Wire.{
  wire, operator-requests, merge_patch_type, patch_of, logged, Logged, task_client,
}
use kubesphere_schedule.Schedule.Operator.{
  modify_analysis_task, delete_analysis_task, create_analysis_task,
}
use kubesphere_schedule.Base.{◌≡◌, ◌∷◌, ◌++◌, ℕ, refl, none, false, [], List}
use kubesphere_schedule.Generated.Rest.{
  options, name, delete, task, body, plain, versioned_params, resource, namespace, post, RestClient,
  ListOptions, RestRequest, empty_task,
}

abbrev answering : RestClient ℕ ℕ ℕ ℕ
answering = record {
  do_task = λ req into w. ((into, none), w);
  do_list = λ req into w. ((into, none), w);
  do_error = λ req w. (none, w);
  do_watch = λ req w. ((0, none), w);
}

abbrev no_list_options : ListOptions ℕ
no_list_options = record { timeout_seconds = none; watch = false; others = 0 }

-- Patches are numbers, each its own length.
abbrev through_wire : Client (Logged ℕ ℕ ℕ) AnalysisTask ℕ
through_wire = wire answering 0 no_list_options (λ a b. (5, none)) (λ d. d)

abbrev earlier : List (RestRequest ℕ ℕ)
earlier = delete_request ℕ "default" "weekly" 0 ∷ []

operator-requests_example :
    ((create_analysis_task through_wire "default" empty_task (earlier, 3)).1.0
      ≡ earlier
        ++ record {
          verb = post;
          calls =
              namespace "default"
              ∷ resource "analysistasks"
              ∷ versioned_params (plain 0)
              ∷ body (task empty_task)
              ∷ [];
        }
          ∷ [])
    × ((delete_analysis_task through_wire "default" "daily" (earlier, 3)).1.0
        ≡ earlier
          ++ record {
            verb = delete;
            calls =
                namespace "default"
                ∷ resource "analysistasks"
                ∷ name "daily"
                ∷ body (options 0)
                ∷ [];
          }
            ∷ [])
    × ((modify_analysis_task through_wire "default" "daily" empty_task (earlier, 3)).1.0
        ≡ earlier
          ++ patch_of answering 0 no_list_options
              (λ a b. (5, none))
              (λ d. d)
              "default"
              "daily"
              empty_task
              (through_wire.get "default" "daily" (earlier, 3)))
operator-requests_example =
    operator-requests answering 0 no_list_options (λ a b. (5, none)) (λ d. d) "default" "daily"
      empty_task earlier 3

patch_test :
    patch_of answering 0 no_list_options
      (λ a b. (5, none))
      (λ d. d)
      "default"
      "daily"
      empty_task
      (through_wire.get "default" "daily" (earlier, 3))
    ≡ patch_request ℕ "default" "daily" merge_patch_type 5 0 [] ∷ []
unfolding task_client logged
patch_test = refl
