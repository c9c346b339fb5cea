-- ===== src/Schedule/HandlerLaws.antt =====
-- What the handlers of analysis tasks do.
use kubesphere_schedule.Schedule.Operator.{GoResult, create_analysis_task}
use kubesphere_schedule.Schedule.Response.{
  write_entity, handle, handle_not_found, handle_bad_request, Response, result, output,
}
use kubesphere_schedule.Schedule.Types.{
  resource_type_deployment, resource_type_namespace, SchedulerConfig, AnalysisTask,
}
use kubesphere_schedule.Schedule.Handlers.{
  answer_config, kubesphere_schedule_namespace, read, bad_entity, null_entity, ReadEntity,
  create_typed, create_namespace_analysis, handle_modify_analysis_task, create_analysis,
  handle_modify_analysis_task_config,
}
use kubesphere_schedule.Schedule.Cluster.{ApiError, Client}
use kubesphere_schedule.Schedule.Config.{
  with_thresholds, is_fatal, patch_config, change_config, modify_analysis_task_config, ConfigClient,
}
use kubesphere_schedule.Base.{
  Outcome, true, inl, ◌⊎◌, ◌≢◌, ◌≡◌, ◌↔◌, some, returned, refl, panicked, none, false, eq_iff,
  arith, String, Option,
}

module _ {W D : Type 0} (client : Client W AnalysisTask D) where
  -- `CreateAnalysis` answers with the status 200 exactly where the body is a task of the type
  -- Deployment and the client creates it without an error, whatever the body.
  pub create_analysis-ok_iff :
      (namespace : String) (body : ReadEntity AnalysisTask) (w : W)
      (answer : Response (Option AnalysisTask)) (w' : W)
      → create_analysis client namespace body w ≡ returned (answer, w')
      → (answer.status_code ≡ 200) ↔ (
          (task : AnalysisTask) × (body ≡ read task)
          × (task.spec.type ≡ resource_type_deployment)
          × ((client.create namespace task w).0.1 ≡ none))
  unfolding create_analysis create_typed create_analysis_task output result handle_bad_request
      handle_not_found handle write_entity
  create_analysis-ok_iff namespace (bad_entity e) w answer w' h =
      (λ k. ground arith, λ k. let (task, same, of_type, created) = k in cc)
  create_analysis-ok_iff namespace null_entity w answer w' h = ground arith
  create_analysis-ok_iff namespace (read task) w answer w' h =
      let typed : (answer.status_code ≡ 200) ↔ (
          (task.spec.type ≡ resource_type_deployment)
          × ((client.create namespace task w).0.1 ≡ none)) =
        ground (arith, eq_iff task.spec.type resource_type_deployment) in
      (
        λ k. (task, refl, (typed.0 k).0, (typed.0 k).1),
        λ k. let (other, same, of_type, created) = k in ground (arith, typed.1),
      )

  -- Where `CreateNamespaceAnalysis` changes the cluster, the body is a task of the type Namespace,
  -- and the change is that it is created in the namespace of the scheduler.
  pub create_namespace_analysis-change :
      (body : ReadEntity AnalysisTask) (w : W) (answer : Response (Option AnalysisTask)) (w' : W)
      → create_namespace_analysis client body w ≡ returned (answer, w')
      → w' ≢ w
      → (task : AnalysisTask) × (body ≡ read task)
        × (task.spec.type ≡ resource_type_namespace)
        × (w' ≡ (client.create kubesphere_schedule_namespace task w).1)
  unfolding create_namespace_analysis create_typed create_analysis_task
  create_namespace_analysis-change (bad_entity e) w answer w' h n = ground arith
  create_namespace_analysis-change null_entity w answer w' h n = ground arith
  create_namespace_analysis-change (read task) w answer w' h n =
      let created : (task.spec.type ≡ resource_type_namespace)
          × (w' ≡ (client.create kubesphere_schedule_namespace task w).1) =
        ground (arith, eq_iff task.spec.type resource_type_namespace) in
      (task, refl, created.0, created.1)

  -- `ModifyAnalysisTask` panics exactly where the body is `null` and the stored task can be read.
  pub modify-panics_iff :
      (namespace analysis : String) (body : ReadEntity AnalysisTask) (w : W)
      → (handle_modify_analysis_task client namespace analysis body w ≡ panicked)
        ↔ ((body ≡ null_entity) × ((client.get namespace analysis w).1 ≡ none))
  unfolding handle_modify_analysis_task
  modify-panics_iff namespace analysis (bad_entity e) w = ground arith
  modify-panics_iff namespace analysis null_entity w = ground arith
  modify-panics_iff namespace analysis (read task) w = ground arith

module _ {W O D : Type 0} (client : ConfigClient W O D) where
  is_fatal-false_iff :
      (err : Option ApiError)
      → (is_fatal client err ≡ false) ↔ ((e : ApiError) → err ≡ some e → e.not_found ≡ true)
  is_fatal-false_iff none = (λ h e k. cc, λ h. refl)
  is_fatal-false_iff (some e) =
      (λ h e' k. ground arith, λ h. let missing : e.not_found ≡ true = h e refl in ground arith)

  modify_analysis_task_config-panics_iff :
      (config : Option SchedulerConfig) (w : W)
      → (modify_analysis_task_config client config w ≡ panicked) ↔ (
          (is_fatal client (client.get w).1 ≡ false)
          × ((config ≡ none) ⊎ ((client.get w).0 ≡ none)))
  unfolding modify_analysis_task_config change_config
  modify_analysis_task_config-panics_iff none w = ground arith
  modify_analysis_task_config-panics_iff (some config) w = ground arith

  answer_config-panics_iff :
      (outcome : Outcome (GoResult SchedulerConfig × W))
      → (answer_config client outcome ≡ panicked) ↔ (outcome ≡ panicked)
  answer_config-panics_iff outcome = ground arith

  -- The handler `ModifyAnalysisTaskConfig` panics exactly where the body can be read, the read of the
  -- configuration gives no error or the one that it is not found, and the body is `null` or that read
  -- gives no object.
  pub handle_modify_analysis_task_config-panics_iff :
      (body : ReadEntity SchedulerConfig) (w : W)
      → (handle_modify_analysis_task_config client body w ≡ panicked) ↔ (
          ((e : ApiError) → body ≢ bad_entity e)
          × ((e : ApiError) → (client.get w).1 ≡ some e → e.not_found ≡ true)
          × ((body ≡ null_entity) ⊎ ((client.get w).0 ≡ none)))
  unfolding handle_modify_analysis_task_config
  handle_modify_analysis_task_config-panics_iff (bad_entity err) w =
      (λ h. ground arith, λ h. absurd (h.0 err refl))
  handle_modify_analysis_task_config-panics_iff null_entity w =
      let answered = answer_config-panics_iff (modify_analysis_task_config client none w) in
      let panics = modify_analysis_task_config-panics_iff none w in
      let fatal = is_fatal-false_iff (client.get w).1 in
      (
        λ h. (λ e k. cc, fatal.0 (panics.0 (answered.0 h)).0, inl refl),
        λ h. answered.1 (panics.1 (fatal.1 h.1, inl refl)),
      )
  handle_modify_analysis_task_config-panics_iff (read config) w =
      let answered =
        answer_config-panics_iff (modify_analysis_task_config client (some config) w) in
      let panics = modify_analysis_task_config-panics_iff (some config) w in
      let fatal = is_fatal-false_iff (client.get w).1 in
      (
        λ h.
            let (fine, missing) = panics.0 (answered.0 h) in
            (λ e k. cc, fatal.0 fine, ground arith),
        λ h. answered.1 (panics.1 (fatal.1 h.1, ground (arith, h.2))),
      )

  -- Where the configuration is read, the handler of its thresholds answers 200 only if the read
  -- fails by no error but `not found`, the patch can be computed, and it is empty or sent without
  -- an error but `not found`; the cluster is then as before, or as the patch leaves it.
  pub modify_config-ok :
      (config : SchedulerConfig) (object : O) (w w' : W)
      (answer : Response (Option SchedulerConfig))
      → (client.get w).0 ≡ some object
      → handle_modify_analysis_task_config client (read config) w ≡ returned (answer, w')
      → answer.status_code ≡ 200
      → let merged = client.merge_data object (with_thresholds client object config) in
        (is_fatal client (client.get w).1 ≡ false)
        × (merged.1 ≡ none)
        × (((client.data_len merged.0 ≡ 2) × (w' ≡ w))
            ⊎ ((is_fatal client (client.patch merged.0 w).0 ≡ false)
                × (w' ≡ (client.patch merged.0 w).1)))
  unfolding handle_modify_analysis_task_config modify_analysis_task_config change_config
      patch_config output result handle_bad_request handle_not_found handle write_entity
  modify_config-ok config object w w' answer e h k = ground arith
