-- ===== src/Schedule/Reachable.antt =====
-- What holds of the reconciler after any steps, and what a reconciled namespace leads to.
use kubesphere_schedule.Schedule.Crane.{create_crane_analysis}
use kubesphere_schedule.Schedule.CacheLaws.{reconcile_selectors-IsCovered, IsCovered, names}
use kubesphere_schedule.Schedule.Controller.{
  elsewhere, updates_installer, adds_deployment, then_step, reconciles, convert_resource, Step,
  done, create_deployments, update_installer, add_deployment, Reconciler, Steps,
  reconcile_namespace_selectors, State, reconcile, reconcile_task, reconcile_namespace_analysis,
  Reader,
}
use kubesphere_schedule.Schedule.Types.{
  resource_type_namespace, resource_type_deployment, Deployment, ResourceSelector, AnalysisTask,
  Analytics,
}
use kubesphere_schedule.Schedule.Cluster.{Client}
use kubesphere_schedule.Base.{
  ◌≡◌, ◌∷◌, ◌==◌, true, some, refl, none, lookup-insert, lookup, insert, inr, inl, false, eq_iff,
  arith, [], String, Option-cases, List, Bool-cases,
}

module _ {W V D : Type 0} (to_lower : String → String) (client : Client W Analytics D)
    (reader : Reader W V) where
  task-IsCovered :
      (task : AnalysisTask) (r : Reconciler) (w : W)
      → IsCovered r
      → IsCovered (reconcile_task to_lower client reader task (r, w)).0
  unfolding reconcile_task reconcile_namespace_analysis
  task-IsCovered task r w h = elim (Bool-cases (task.spec.type == resource_type_deployment)) [
    | inl deployment ↦ rw (deployment) h
    | inr other ↦ elim (Bool-cases (task.spec.type == resource_type_namespace)) [
      | inr unknown ↦ rw (other, unknown) h
      | inl namespace ↦
          let t : task.spec.type ≡ resource_type_namespace =
            ground (arith, eq_iff task.spec.type resource_type_namespace) in
          rw (other, namespace)
            (reconcile_selectors-IsCovered to_lower client reader task task.spec.resource_selectors
              r w t (λ j k. k) h)
    ]
  ]

  reconcile-IsCovered :
      (namespace name : String) (r : Reconciler) (w : W)
      → IsCovered r
      → IsCovered (reconcile to_lower client reader namespace name (r, w)).1.0
  unfolding reconcile
  reconcile-IsCovered namespace name r w h =
      elim (Option-cases (reader.get_task namespace name w).1) [
        | inl found ↦
            rw (found, reconcile) (task-IsCovered (reader.get_task namespace name w).0 r w h)
        | inr (e, failed) ↦ rw (failed, reconcile) h
      ]

  add_deployment-IsCovered :
      (d : Deployment) (r : Reconciler) (w : W)
      → IsCovered r
      → IsCovered (add_deployment to_lower client reader d (r, w)).0
  unfolding add_deployment
  add_deployment-IsCovered d r w h = elim (Option-cases (lookup d.namespace r.name_space_cache)) [
    | inl missing ↦ rw (missing, add_deployment) h
    | inr (task, found) ↦ rw (found, add_deployment) h
  ]

  Step-IsCovered :
      (s t : State to_lower client reader)
      → Step to_lower client reader s t
      → IsCovered s.0
      → IsCovered t.0
  unfolding update_installer IsCovered
  Step-IsCovered s t (reconciles namespace name (r, w)) h = reconcile-IsCovered namespace name r w h
  Step-IsCovered s t (adds_deployment d (r, w)) h = add_deployment-IsCovered d r w h
  Step-IsCovered s t (updates_installer object (r, w)) h = h
  Step-IsCovered s t (elsewhere r w w') h = h

  -- Whatever the reconciler is called with and whoever else changes the cluster: if each entry of
  -- the cache is under a namespace that is not empty, with a task of the type Namespace that
  -- selects it, then this holds after any steps.
  pub Steps-IsCovered :
      (s t : State to_lower client reader)
      → Steps to_lower client reader s t
      → IsCovered s.0
      → IsCovered t.0
  Steps-IsCovered s t (done u) h = h
  Steps-IsCovered s t (then_step u v x steps step) h =
      Step-IsCovered v x step (Steps-IsCovered u v steps h)

  IsCached : AnalysisTask → String → Reconciler → Type 0
  IsCached task namespace r = lookup namespace r.name_space_cache ≡ some task

  reconcile_selectors-keeps :
      (task : AnalysisTask) (namespace : String) (resources : List ResourceSelector)
      (r : Reconciler) (w : W)
      → IsCached task namespace r
      → IsCached task namespace
          (reconcile_namespace_selectors to_lower client reader task resources (r, w)).1.0
  unfolding IsCached reconcile_namespace_selectors
  reconcile_selectors-keeps task namespace [] r w h = h
  reconcile_selectors-keeps task namespace (resource ∷ resources) r w h =
      let r' : Reconciler = record r {
        name_space_cache = insert resource.name task r.name_space_cache;
      } in
      let w' =
        create_deployments to_lower client reader resource.name task.spec.completion_strategy
          (reader.list_deployments resource.name w).0 w in
      let inserted = lookup-insert resource.name namespace task r.name_space_cache in
      let h' : IsCached task namespace r' = ground (arith, inserted) in
      ground (
        arith,
        h',
        reconcile_selectors-keeps task namespace resources r w h,
        reconcile_selectors-keeps task namespace resources r' w' h',
      )

  reconcile_selectors-caches :
      (task : AnalysisTask) (namespace : String) (resources : List ResourceSelector)
      (r : Reconciler) (w : W)
      → names "" resources ≡ false
      → (reconcile_namespace_selectors to_lower client reader task resources (r, w)).0 ≡ none
      → names namespace resources ≡ true
      → IsCached task namespace
          (reconcile_namespace_selectors to_lower client reader task resources (r, w)).1.0
  unfolding IsCached reconcile_namespace_selectors names
  reconcile_selectors-caches task namespace [] r w n e k = cc
  reconcile_selectors-caches task namespace (resource ∷ resources) r w n e k =
      let r' : Reconciler = record r {
        name_space_cache = insert resource.name task r.name_space_cache;
      } in
      let w' =
        create_deployments to_lower client reader resource.name task.spec.completion_strategy
          (reader.list_deployments resource.name w).0 w in
      let inserted = lookup-insert resource.name namespace task r.name_space_cache in
      ground (
        arith,
        inserted,
        reconcile_selectors-caches task namespace resources r w,
        reconcile_selectors-caches task namespace resources r' w',
        reconcile_selectors-keeps task namespace resources r' w',
      )

  -- Once a task is reconciled without an error, none of whose Namespace selectors has the empty
  -- name, a deployment that is added in a namespace it selects is handed to `CreateCraneAnalysis`,
  -- with the completion strategy of the task.
  pub reconcile_namespace_analysis-add_deployment :
      (task : AnalysisTask) (deployment : Deployment) (r r' : Reconciler) (w w' : W)
      → names "" task.spec.resource_selectors ≡ false
      → names deployment.namespace task.spec.resource_selectors ≡ true
      → reconcile_namespace_analysis to_lower client reader task (r, w) ≡ (none, (r', w'))
      → add_deployment to_lower client reader deployment (r', w') ≡ (
        r',
        (create_crane_analysis to_lower client deployment.namespace
            (convert_resource deployment)
            task.spec.completion_strategy
            w').1,
      )
  unfolding reconcile_namespace_analysis add_deployment IsCached
  reconcile_namespace_analysis-add_deployment task deployment r r' w w' n k e =
      let cached =
        reconcile_selectors-caches task deployment.namespace task.spec.resource_selectors r w n
          (rw (e) refl) k in
      let found : lookup deployment.namespace r'.name_space_cache ≡ some task = rw e at cached in
      rw (found, add_deployment) refl
