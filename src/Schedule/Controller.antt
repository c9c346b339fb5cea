-- ===== src/Schedule/Controller.antt =====
-- `AnalysisTaskReconciler` of pkg/controller/schedule/analysis/analysis_controller.go, with
-- `convertResource` of its utils.go and pkg/utils/jsonpath/jsonpath.go. The world holds the cluster;
-- a Go error that the code drops is dropped here. The mutex is never taken.
use kubesphere_schedule.Schedule.Crane.{create_crane_analysis}
use kubesphere_schedule.Base.Conv.{atoi}
use kubesphere_schedule.Schedule.Cluster.{ApiError, Client}
use kubesphere_schedule.Base.Int.{ℤ}
use kubesphere_schedule.Schedule.Types.{
  resource_type_deployment, resource_type_namespace, ResourceSelector, Analytics, SchedulerConfig,
  AnalysisTask, Deployment,
}
use kubesphere_schedule.Base.{
  ◌∷◌, ◌==◌, some, not, none, lookup, insert, if◌then◌else◌, [], String, Option, List,
}

-- What the reconciler reads of the cluster besides the analytics: the manager's client, the
-- deployments of a namespace, and the text of what github.com/mdaverde/jsonpath finds in an object.
pub record Reader (W V : Type 0) : Type 0 where
  pub get_task : String → String → W → AnalysisTask × Option ApiError
  pub list_deployments : String → W → List Deployment × Option ApiError
  pub json_get : V → String → Option String

-- The fields of the reconciler that it changes.
pub record Reconciler : Type 0 where
  pub scheduler_config : SchedulerConfig
  pub name_space_cache : List (String × AnalysisTask)

unfoldable pub convert_resource : Deployment → ResourceSelector
convert_resource deployment = record {
  kind = "Deployment";
  api_version = "apps/v1";
  name = deployment.name;
  label_selector = "";
}

unfoldable pub get_string : {W V : Type 0} → Reader W V → V → String → Option String
get_string reader object path = reader.json_get object path

-- `none` is an error.
unfoldable pub get_int64 : {W V : Type 0} → Reader W V → V → String → Option ℤ
unfolding get_string
get_int64 reader object path = elim (get_string reader object path) [
  | none ↦ none
  | some val ↦ atoi val
]

abbrev pub some_or : {A : Type 0} → Option A → Option A → Option A
some_or none old = old
some_or (some a) old = some a

-- A threshold that cannot be read stays as it was.
unfoldable pub update_schedule_config :
    {W V : Type 0} → Reader W V → V → SchedulerConfig → SchedulerConfig
update_schedule_config reader object config = record config {
  cpu_notify_present =
      some_or (get_int64 reader object "spec.schedule.analysis.notifyThreshold.cpu")
        config.cpu_notify_present;
  mem_notify_present =
      some_or (get_int64 reader object "spec.schedule.analysis.notifyThreshold.mem")
        config.mem_notify_present;
}

module _ {W V D : Type 0} (to_lower : String → String) (client : Client W Analytics D)
    (reader : Reader W V) where
  abbrev pub create : String → ResourceSelector → String → W → W
  create namespace resource strategy w =
      (create_crane_analysis to_lower client namespace resource strategy w).1

  abbrev pub create_deployments : String → String → List Deployment → W → W
  create_deployments namespace strategy [] w = w
  create_deployments namespace strategy (d ∷ deployments) w =
      create_deployments namespace strategy deployments
        (create namespace (convert_resource d) strategy w)

  -- The loop over the selectors.
  unfoldable pub reconcile_deployment_selectors : String → String → List ResourceSelector → W → W
  reconcile_deployment_selectors namespace strategy [] w = w
  reconcile_deployment_selectors namespace strategy (resource ∷ resources) w =
      if not (resource.kind == resource_type_deployment)
      then reconcile_deployment_selectors namespace strategy resources w
      else reconcile_deployment_selectors namespace strategy resources
          (create namespace resource strategy w)

  unfoldable pub reconcile_deployment_analysis : AnalysisTask → W → W
  unfolding reconcile_deployment_selectors
  reconcile_deployment_analysis analysis w =
      reconcile_deployment_selectors analysis.metadata.namespace analysis.spec.completion_strategy
        analysis.spec.resource_selectors w

  abbrev pub State : Type 0
  State = Reconciler × W

  -- The loop over the selectors; it ends early at an empty name and at an error.
  unfoldable pub reconcile_namespace_selectors :
      AnalysisTask → List ResourceSelector → State → Option ApiError × State
  reconcile_namespace_selectors analysis [] s = (none, s)
  reconcile_namespace_selectors analysis (resource ∷ resources) (r, w) =
      let namespace = resource.name in
      let cached = record r { name_space_cache = insert namespace analysis r.name_space_cache } in
      let (deployments, err) = reader.list_deployments namespace w in
      if not (resource.kind == resource_type_namespace)
      then reconcile_namespace_selectors analysis resources (r, w)
      else if namespace == ""
      then (none, (r, w))
      else elim err [
        | some e ↦ (some e, (cached, w))
        | none ↦
            reconcile_namespace_selectors analysis resources
              (cached, create_deployments namespace analysis.spec.completion_strategy deployments w)
      ]

  unfoldable pub reconcile_namespace_analysis : AnalysisTask → State → Option ApiError × State
  unfolding reconcile_namespace_selectors
  reconcile_namespace_analysis analysis s =
      reconcile_namespace_selectors analysis analysis.spec.resource_selectors s

  -- What `Reconcile` does with a task that it has read.
  unfoldable pub reconcile_task : AnalysisTask → State → State
  unfolding reconcile_deployment_analysis reconcile_namespace_analysis
  reconcile_task analysis (r, w) =
      if analysis.spec.type == resource_type_deployment
      then (r, reconcile_deployment_analysis analysis w)
      else if analysis.spec.type == resource_type_namespace
      then (reconcile_namespace_analysis analysis (r, w)).1
      else (r, w)

  unfoldable pub reconcile : String → String → State → Option ApiError × State
  unfolding reconcile_task
  reconcile namespace name (r, w) =
      let (analysis, err) = reader.get_task namespace name w in
      elim err [ some e ↦ (some e, (r, w)) | none ↦ (none, reconcile_task analysis (r, w)) ]

  -- The `AddFunc` of `DeploymentEventHandler`.
  unfoldable pub add_deployment : Deployment → State → State
  unfolding lookup
  add_deployment deployment (r, w) = elim (lookup deployment.namespace r.name_space_cache) [
    | none ↦ (r, w)
    | some analysis ↦ (
      r,
      create deployment.namespace (convert_resource deployment) analysis.spec.completion_strategy w,
    )
  ]

  -- The `AddFunc` and the `UpdateFunc` of `InstallerEventHandler`.
  unfoldable pub update_installer : V → State → State
  update_installer object (r, w) =
      (record r { scheduler_config = update_schedule_config reader object r.scheduler_config }, w)

  -- What happens to the reconciler, one call at a time. `elsewhere` is a change of the cluster by
  -- another party; the handlers that only write the log are none.
  pub data Step : State → State → Type 0 where
    reconciles : (namespace name : String) (s : State) → Step s (reconcile namespace name s).1
    adds_deployment : (deployment : Deployment) (s : State) → Step s (add_deployment deployment s)
    updates_installer : (object : V) (s : State) → Step s (update_installer object s)
    elsewhere : (r : Reconciler) (w w' : W) → Step (r, w) (r, w')

  pub data Steps : State → State → Type 0 where
    done : (s : State) → Steps s s
    then_step : (s t u : State) → Steps s t → Step t u → Steps s u
