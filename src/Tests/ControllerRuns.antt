-- ===== src/Tests/ControllerRuns.antt =====
-- Runs of the controller of analysis tasks.
use kubesphere_schedule.Base.Int.{pos}
use kubesphere_schedule.Base.Conv.{atoi}
use kubesphere_schedule.Schedule.Crane.{convert_analytics, create_missing, create_crane_analysis}
use kubesphere_schedule.Tests.ScheduleRuns.{nothing, selector_of, crane, task_of, same}
use kubesphere_schedule.Schedule.Reachable.{
  reconcile_namespace_analysis-add_deployment, Steps-IsCovered,
}
use kubesphere_schedule.Schedule.Thresholds.{number_or, Steps-HasThresholds, HasThresholds}
use kubesphere_schedule.Schedule.Controller.{
  updates_installer, reconciles, convert_resource, done, get_string, then_step, reconcile,
  get_int64, reconcile_namespace_selectors, update_schedule_config, Reconciler, update_installer,
  reconcile_namespace_analysis, add_deployment, Reader,
}
use kubesphere_schedule.Schedule.Types.{
  resource_type_namespace, Analytics, Deployment, AnalysisTask,
}
use kubesphere_schedule.Schedule.CacheLaws.{names, IsCovered}
use kubesphere_schedule.Base.{
  ◌≡◌, ◌∷◌, ◌==◌, ℕ, true, some, refl, none, insert, if◌then◌else◌, false, [], List,
}

abbrev namespace_task : AnalysisTask
namespace_task = task_of "all" resource_type_namespace (selector_of "Namespace" "default" ∷ [])

abbrev one_deployment : Reader (List Analytics) ℕ
one_deployment = record {
  get_task = λ namespace name w. (namespace_task, none);
  list_deployments = λ namespace w. (record { name = "web"; namespace = namespace } ∷ [], none);
  json_get = λ object path. none;
}

abbrev start : Reconciler
start = record {
  scheduler_config = record {
    scheduler = none;
    mem_notify_present = none;
    cpu_notify_present = none;
  };
  name_space_cache = [];
}

start-IsCovered : IsCovered start
unfolding IsCovered
start-IsCovered = tt

abbrev reconciled : Reconciler × List Analytics
reconciled = (reconcile same (crane false) one_deployment "default" "all" (start, [])).1

Steps-IsCovered_example : IsCovered reconciled.0
Steps-IsCovered_example =
    Steps-IsCovered same (crane false) one_deployment (start, []) reconciled
      (then_step (start, []) (start, []) reconciled (done (start, []))
        (reconciles "default" "all" (start, [])))
      start-IsCovered

abbrev late : Deployment
late = record { name = "late"; namespace = "default" }

abbrev cached : Reconciler
cached = record start { name_space_cache = ("default", namespace_task) ∷ [] }

no_empty_name : names "" namespace_task.spec.resource_selectors ≡ false
unfolding names
no_empty_name = refl

default_named : names late.namespace namespace_task.spec.resource_selectors ≡ true
unfolding names
default_named = refl

analysis_reconciled :
    reconcile_namespace_analysis same (crane false) one_deployment namespace_task (start, [])
    ≡ (none, (cached, nothing ∷ []))
unfolding reconcile_namespace_analysis reconcile_namespace_selectors insert create_crane_analysis
    create_missing convert_analytics
analysis_reconciled = refl

reconcile_namespace_analysis-add_deployment_example :
    add_deployment same (crane false) one_deployment late (cached, nothing ∷ []) ≡ (
      cached,
      (create_crane_analysis same
          (crane false)
          late.namespace
          (convert_resource late)
          namespace_task.spec.completion_strategy
          (nothing ∷ [])).1,
    )
reconcile_namespace_analysis-add_deployment_example =
    reconcile_namespace_analysis-add_deployment same (crane false) one_deployment namespace_task
      late start cached [] (nothing ∷ []) no_empty_name default_named analysis_reconciled

-- An installer's object with one threshold that is a number and one that is not.
abbrev thresholds_set : Reader (List Analytics) ℕ
thresholds_set = record {
  get_task = λ namespace name w. (namespace_task, none);
  list_deployments = λ namespace w. ([], none);
  json_get = λ object path.
      if path == "spec.schedule.analysis.notifyThreshold.cpu"
      then some "80"
      else some "9223372036854775808";
}

abbrev installed : Reconciler × List Analytics
installed = update_installer same (crane false) thresholds_set 0 (start, [])

installed_cpu : installed.0.scheduler_config.cpu_notify_present ≡ some (pos 80)
unfolding update_installer update_schedule_config get_int64 get_string atoi
installed_cpu = refl

Steps-HasThresholds_example :
    (installed.0.scheduler_config.cpu_notify_present
      ≡ number_or start.scheduler_config.cpu_notify_present (some "80"))
    × (installed.0.scheduler_config.mem_notify_present
        ≡ number_or start.scheduler_config.mem_notify_present (some "9223372036854775808"))
    × HasThresholds installed.0.scheduler_config
Steps-HasThresholds_example =
    Steps-HasThresholds same (crane false) thresholds_set (start, []) installed
      (then_step (start, []) (start, []) installed (done (start, []))
        (updates_installer 0 (start, [])))
      (tt, tt)
