-- ===== src/Schedule/Config.antt =====
-- `ModifyAnalysisTaskConfig` of pkg/service/schedule/interface.go: the thresholds in the cluster
-- configuration of the installer.
use kubesphere_schedule.Schedule.Operator.{GoResult}
use kubesphere_schedule.Base.Int.{ℤ}
use kubesphere_schedule.Schedule.Cluster.{ApiError}
use kubesphere_schedule.Schedule.Types.{SchedulerConfig}
use kubesphere_schedule.Base.{
  ℕ, some, returned, panicked, not, none, if◌then◌else◌, false, eqb, String, Outcome, Option, Bool,
}

-- The dynamic client of the one configuration object, whose `Get` returns nil with an error.
-- `set_path` is `jsonpath.Set`.
pub record ConfigClient (W O D : Type 0) : Type 0 where
  pub get : W → Option O × Option ApiError
  pub patch : D → W → Option ApiError × W
  pub set_path : O → String → ℤ → O
  pub merge_data : O → O → D × Option ApiError
  pub data_len : D → ℕ

module _ {W O D : Type 0} (client : ConfigClient W O D) where
  abbrev pub set_if : O → String → Option ℤ → O
  set_if object path none = object
  set_if object path (some n) = client.set_path object path n

  unfoldable pub with_thresholds : O → SchedulerConfig → O
  with_thresholds object config =
      set_if (set_if object "spec.schedule.analysis.notifyThreshold.cpu" config.cpu_notify_present)
        "spec.schedule.analysis.notifyThreshold.mem" config.mem_notify_present

  abbrev pub is_fatal : Option ApiError → Bool
  is_fatal none = false
  is_fatal (some e) = not e.not_found

  -- The answer to a patch: an object that is not found is no error.
  abbrev pub patch_answer : SchedulerConfig → Option ApiError × W → GoResult SchedulerConfig × W
  patch_answer config (err, w) = if is_fatal err then ((none, err), w) else ((some config, none), w)

  unfoldable pub patch_config :
      SchedulerConfig → D × Option ApiError → W → GoResult SchedulerConfig × W
  patch_config config (data', some e) w = ((none, some e), w)
  patch_config config (data', none) w =
      if eqb (client.data_len data') 2
      then ((none, none), w)
      else patch_answer config (client.patch data' w)

  -- Where the object is not found the code goes on with nil, and reads its `Object`; behind that it
  -- reads the thresholds, of nil too.
  unfoldable pub change_config :
      Option SchedulerConfig → Option O → W → Outcome (GoResult SchedulerConfig × W)
  unfolding patch_config with_thresholds
  change_config config none w = panicked
  change_config none (some object) w = panicked
  change_config (some config) (some object) w =
      returned (patch_config config (client.merge_data object (with_thresholds object config)) w)

  unfoldable pub modify_analysis_task_config :
      Option SchedulerConfig → W → Outcome (GoResult SchedulerConfig × W)
  unfolding change_config
  modify_analysis_task_config config w =
      let (ks_config, err) = client.get w in
      if is_fatal err then returned ((none, err), w) else change_config config ks_config w
