-- ===== src/Schedule/Handlers.antt =====
-- `scheduleHandler` of pkg/kapis/schedule/v1alpha1/handler.go. The operator is the one of
-- Schedule.Operator and Schedule.Config; a panic of the operator is one of the handler.
use kubesphere_schedule.Query.Types.{Query}
use kubesphere_schedule.Resources.Objects.{RuntimeObject}
use kubesphere_schedule.Resources.Listing.{Sort, ListResult}
use kubesphere_schedule.Schedule.Types.{
  resource_type_namespace, resource_type_deployment, SchedulerConfig, AnalysisTask,
}
use kubesphere_schedule.Schedule.Operator.{
  list_analysis_task, modify_analysis_task, create_analysis_task, delete_analysis_task,
  describe_analysis_task, GoResult,
}
use kubesphere_schedule.Schedule.Cluster.{no_status, ApiError, Client}
use kubesphere_schedule.Schedule.Config.{modify_analysis_task_config, ConfigClient}
use kubesphere_schedule.Schedule.Response.{
  error_handle, result, error_arg, output, handle_bad_request, nil_arg, value_arg, Arg, Response,
}
use kubesphere_schedule.Base.{
  ◌⊎◌, ◌∷◌, ◌==◌, some, returned, panicked, not, none, inr, inl, if◌then◌else◌, false, [], String,
  Outcome, Option, List, Bool,
}

-- What `ReadEntity` makes of a request's body: an error, the nil pointer of a JSON `null`, or an
-- object.
pub data ReadEntity (T : Type 0) : Type 0 where
  bad_entity : ApiError → ReadEntity T
  null_entity : ReadEntity T
  read : T → ReadEntity T

abbrev pub err_schedule_client_nil : ApiError
err_schedule_client_nil = record {
  status = no_status;
  not_found = false;
  message = "schedule client is nil";
}

abbrev pub err_schedule_type_nil : ApiError
err_schedule_type_nil = record {
  status = no_status;
  not_found = false;
  message = "analysis task type error";
}

abbrev pub kubesphere_schedule_namespace : String
kubesphere_schedule_namespace = "kubesphere-schedule-system"

abbrev pub error_or_nil : {A : Type 0} → Option ApiError → Arg A
error_or_nil none = nil_arg
error_or_nil (some e) = error_arg e

-- The object and the error of an operation as arguments. A nil pointer is a value of its type, so
-- no error and no nil of `interface{}`.
abbrev pub args_of : {T : Type 0} → GoResult T → List (Arg (Option T))
args_of (item, err) = value_arg item ∷ error_or_nil err ∷ []

abbrev pub args_of_error : {A : Type 0} → Option ApiError → List (Arg A)
args_of_error err = error_or_nil err ∷ []

abbrev pub Answer : Type 0 → Type 0 → Type 0
Answer W A = Outcome (Response (Option A) × W)

module _ {W D : Type 0} (client : Client W AnalysisTask D) where
  -- The three handlers that create a task check its type first.
  unfoldable pub create_typed :
      String → String → ReadEntity AnalysisTask → W → Answer W AnalysisTask
  create_typed wanted namespace (bad_entity err) w = returned (handle_bad_request err, w)
  create_typed wanted namespace null_entity w = panicked
  create_typed wanted namespace (read task) w =
      let (res, w') = create_analysis_task client namespace task w in
      if not (task.spec.type == wanted)
      then returned (handle_bad_request err_schedule_type_nil, w)
      else returned (output (result (args_of res)), w')

  unfoldable pub create_analysis : String → ReadEntity AnalysisTask → W → Answer W AnalysisTask
  create_analysis namespace entity w = create_typed resource_type_deployment namespace entity w

  unfoldable pub modify_scheduler : String → ReadEntity AnalysisTask → W → Answer W AnalysisTask
  modify_scheduler namespace entity w = create_typed resource_type_deployment namespace entity w

  unfoldable pub create_namespace_analysis : ReadEntity AnalysisTask → W → Answer W AnalysisTask
  create_namespace_analysis entity w =
      create_typed resource_type_namespace kubesphere_schedule_namespace entity w

  -- With a nil task the operator panics where it copies the spec, behind the read of the stored one.
  unfoldable pub handle_modify_analysis_task :
      String → String → ReadEntity AnalysisTask → W → Answer W AnalysisTask
  handle_modify_analysis_task namespace analysis (bad_entity err) w =
      returned (handle_bad_request err, w)
  handle_modify_analysis_task namespace analysis null_entity w =
      elim (client.get namespace analysis w).1 [
        | some e ↦ returned (output (result (args_of_error (some e))), w)
        | none ↦ panicked
      ]
  handle_modify_analysis_task namespace analysis (read task) w =
      let (err, w') = modify_analysis_task client namespace analysis task w in
      returned (output (result (args_of_error err)), w')

  unfoldable pub handle_delete_analysis_task : String → String → W → Answer W AnalysisTask
  handle_delete_analysis_task namespace analysis w =
      let (err, w') = delete_analysis_task client namespace analysis w in
      returned (output (result (args_of_error err)), w')

  unfoldable pub handle_describe_analysis_task : String → String → W → Answer W AnalysisTask
  handle_describe_analysis_task namespace analysis w =
      elim (describe_analysis_task namespace analysis) [
        | returned res ↦ returned (output (result (args_of res)), w)
        | panicked ↦ panicked
      ]

  abbrev pub Listed : Type 0
  Listed = ListResult (RuntimeObject AnalysisTask ⊎ ⊥)

  -- `Ready` answers where the handler has no operator.
  unfoldable pub handle_list_analysis_task :
      Bool → Sort AnalysisTask → Query → W → Outcome (Response Listed)
  handle_list_analysis_task ready sort query w =
      let listed = list_analysis_task client sort query w in
      if ready
      then elim listed [
        | returned res ↦ returned (elim res [
          | inl objs ↦ error_handle (some objs) none
          | inr err ↦ error_handle none (some err)
        ])
        | panicked ↦ panicked
      ]
      else returned (handle_bad_request err_schedule_client_nil)

module _ {W O D : Type 0} (client : ConfigClient W O D) where
  abbrev pub answer_config : Outcome (GoResult SchedulerConfig × W) → Answer W SchedulerConfig
  answer_config (returned (res, w)) = returned (output (result (args_of res)), w)
  answer_config panicked = panicked

  unfoldable pub handle_modify_analysis_task_config :
      ReadEntity SchedulerConfig → W → Answer W SchedulerConfig
  handle_modify_analysis_task_config (bad_entity err) w = returned (handle_bad_request err, w)
  handle_modify_analysis_task_config null_entity w =
      answer_config (modify_analysis_task_config client none w)
  handle_modify_analysis_task_config (read config) w =
      answer_config (modify_analysis_task_config client (some config) w)
