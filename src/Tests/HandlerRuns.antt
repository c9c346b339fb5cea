-- ===== src/Tests/HandlerRuns.antt =====
-- Answers of the handlers, at the clients of Tests.ScheduleRuns.
use kubesphere_schedule.Schedule.Cluster.{ApiError}
use kubesphere_schedule.Schedule.Operator.{create_analysis_task}
use kubesphere_schedule.Schedule.HandlerLaws.{
  create_namespace_analysis-change, create_analysis-ok_iff,
  handle_modify_analysis_task_config-panics_iff,
}
use kubesphere_schedule.Base.Int.{pos, pos_part}
use kubesphere_schedule.Tests.ScheduleRuns.{task_of, second_task, one_task, first_task}
use kubesphere_schedule.Schedule.Types.{
  resource_type_namespace, resource_type_deployment, AnalysisTask, SchedulerConfig,
}
use kubesphere_schedule.Schedule.Handlers.{
  bad_entity, ReadEntity, null_entity, kubesphere_schedule_namespace, args_of, create_typed, read,
  handle_modify_analysis_task_config, create_namespace_analysis, create_analysis,
}
use kubesphere_schedule.Schedule.ResponseLaws.{output-ne-value}
use kubesphere_schedule.Schedule.Config.{
  patch_config, with_thresholds, change_config, ConfigClient, modify_analysis_task_config,
}
use kubesphere_schedule.Schedule.Response.{
  write_entity, value, success, result, entity, output, Response,
}
use kubesphere_schedule.Base.{
  ◌⊎◌, true, ◌≢◌, ◌≡◌, ◌↔◌, ℕ, some, returned, refl, panicked, none, [], Option,
}

abbrev written : Response (Option AnalysisTask)
written = record { status_code = 200; body = entity success }

second_created :
    create_analysis one_task "default" (read second_task) first_task
    ≡ returned (written, second_task)
unfolding create_analysis create_typed create_analysis_task output result write_entity
second_created = refl

create_analysis-ok_iff_example : (◌≡◌ {A = ℕ} 200 200) ↔ (
    (task : AnalysisTask) × (read second_task ≡ read task)
    × (task.spec.type ≡ resource_type_deployment)
    × ((one_task.create "default" task first_task).0.1 ≡ none))
create_analysis-ok_iff_example =
    create_analysis-ok_iff one_task "default" (read second_task) first_task written second_task
      second_created

abbrev everything : AnalysisTask
everything = task_of "all" resource_type_namespace []

everything_created :
    create_namespace_analysis one_task (read everything) first_task ≡ returned (written, everything)
unfolding create_namespace_analysis create_typed create_analysis_task output result write_entity
everything_created = refl

everything-ne : everything ≢ first_task
everything-ne h = cc

create_namespace_analysis-change_example :
    (task : AnalysisTask) × (read everything ≡ read task)
    × (task.spec.type ≡ resource_type_namespace)
    × (everything ≡ (one_task.create kubesphere_schedule_namespace task first_task).1)
create_namespace_analysis-change_example =
    create_namespace_analysis-change one_task (read everything) first_task written everything
      everything_created everything-ne

-- The configuration is a number, of which a threshold is set; a patch is the number that it leads to.
abbrev number : ConfigClient ℕ ℕ ℕ
number = record {
  get = λ w. (some w, none);
  patch = λ d w. (none, d);
  set_path = λ o path n. pos_part n;
  merge_data = λ a b. (b, none);
  data_len = λ d. d;
}

abbrev thresholds : SchedulerConfig
thresholds = record {
  scheduler = none;
  mem_notify_present = none;
  cpu_notify_present = some (pos 80);
}

handle_modify_analysis_task_config-panics_iff_example :
    (handle_modify_analysis_task_config number null_entity 5 ≡ panicked) ↔ (
      ((e : ApiError) → ◌≢◌ {A = ReadEntity SchedulerConfig} null_entity (bad_entity e))
      × ((e : ApiError) → (number.get 5).1 ≡ some e → e.not_found ≡ true)
      × ((◌≡◌ {A = ReadEntity SchedulerConfig} null_entity null_entity)
          ⊎ ((number.get 5).0 ≡ none)))
handle_modify_analysis_task_config-panics_iff_example =
    handle_modify_analysis_task_config-panics_iff number null_entity 5

abbrev accepted : Response (Option SchedulerConfig)
accepted = record { status_code = 200; body = entity success }

config_answer :
    handle_modify_analysis_task_config number (read thresholds) 5 ≡ returned (accepted, 80)
unfolding handle_modify_analysis_task_config modify_analysis_task_config change_config patch_config
    with_thresholds output result write_entity
config_answer = refl

output-ne-value_example :
    (output (result (args_of (some first_task, none)))).body ≢ entity (value (some first_task))
output-ne-value_example = output-ne-value (args_of (some first_task, none)) (some first_task)
