-- ===== src/Schedule/Thresholds.antt =====
-- The thresholds of the reconciler's configuration after any steps.
use mathlib.Core.Path.{subst}
use kubesphere_schedule.Schedule.Controller.{
  elsewhere, updates_installer, adds_deployment, reconciles, then_step, Step, done,
  update_schedule_config, reconcile_namespace_analysis, Steps, reconcile_task, State, reconcile,
  add_deployment, update_installer, Reconciler, get_string, reconcile_namespace_selectors,
  get_int64, Reader, some_or,
}
use kubesphere_schedule.Base.Words.{IsInt}
use kubesphere_schedule.Schedule.Cluster.{Client}
use kubesphere_schedule.Base.Conv.{atoi-IsInt, atoi}
use kubesphere_schedule.Schedule.Types.{
  Deployment, resource_type_namespace, ResourceSelector, AnalysisTask, Analytics, SchedulerConfig,
}
use kubesphere_schedule.Base.Int.{ℤ}
use kubesphere_schedule.Base.{
  ap, ◌∙◌, ◌==◌, sym, Bool-cases, ◌≡◌, ◌∷◌, some, refl, none, inr, inl, arith, [], String,
  Option-cases, Option, List,
}

-- A threshold that is given fits an `int64`.
abbrev pub FitsInt : Option ℤ → Type 0
FitsInt none = Unit
FitsInt (some z) = IsInt z

abbrev pub HasThresholds : SchedulerConfig → Type 0
HasThresholds config = FitsInt config.cpu_notify_present × FitsInt config.mem_notify_present

atoi-FitsInt : (s : String) → FitsInt (atoi s)
atoi-FitsInt s = elim (Option-cases (atoi s)) [
  | inl failed ↦ rw (failed) tt
  | inr (z, read) ↦ rw (read) (atoi-IsInt s z read)
]

abbrev pub new_or : Option ℤ → Option ℤ → Option ℤ
new_or old none = old
new_or old (some z) = some z

new_or-FitsInt : (old new : Option ℤ) → FitsInt old → FitsInt new → FitsInt (new_or old new)
new_or-FitsInt old none h k = h
new_or-FitsInt old (some z) h k = k

-- The number that a text stands for, if there is a text, and it is a number that fits an `int64`;
-- else an old one.
abbrev pub number_or : Option ℤ → Option String → Option ℤ
number_or old none = old
number_or old (some text) = new_or old (atoi text)

number_or-FitsInt :
    (old : Option ℤ) (text : Option String) → FitsInt old → FitsInt (number_or old text)
number_or-FitsInt old none h = h
number_or-FitsInt old (some text) h = new_or-FitsInt old (atoi text) h (atoi-FitsInt text)

some_or-new_or : (old new : Option ℤ) → some_or new old ≡ new_or old new
some_or-new_or old none = refl
some_or-new_or old (some z) = refl

module _ {W V D : Type 0} (to_lower : String → String) (client : Client W Analytics D)
    (reader : Reader W V) where
  update_schedule_config-number_or :
      (object : V) (path : String) (old : Option ℤ)
      → some_or (get_int64 reader object path) old ≡ number_or old (reader.json_get object path)
  unfolding get_int64 get_string
  update_schedule_config-number_or object path old =
      elim (Option-cases (reader.json_get object path)) [
        | inl missing ↦ rw (get_int64, missing) refl
        | inr (text, found) ↦ rw (get_int64, found) (some_or-new_or old (atoi text))
      ]

  reconcile_selectors-config :
      (task : AnalysisTask) (resources : List ResourceSelector) (r : Reconciler) (w : W)
      → (reconcile_namespace_selectors to_lower client reader task resources
          (r, w)).1.0.scheduler_config
        ≡ r.scheduler_config
  unfolding reconcile_namespace_selectors
  reconcile_selectors-config task [] r w = refl
  reconcile_selectors-config task (resource ∷ resources) r w =
      elim (Bool-cases (resource.kind == resource_type_namespace)) [
        | inr skipped ↦ rw (skipped) (reconcile_selectors-config task resources r w)
        | inl kind ↦ elim (Bool-cases (resource.name == "")) [
          | inl stop ↦ rw (kind, stop) refl
          | inr go ↦ elim (Option-cases (reader.list_deployments resource.name w).1) [
            | inl fine ↦ rw (kind, go, fine) (reconcile_selectors-config task resources _ _)
            | inr (e, failed) ↦ rw (kind, go, failed) refl
          ]
        ]
      ]

  reconcile_task-config :
      (task : AnalysisTask) (r : Reconciler) (w : W)
      → (reconcile_task to_lower client reader task (r, w)).0.scheduler_config ≡ r.scheduler_config
  unfolding reconcile_task reconcile_namespace_analysis
  reconcile_task-config task r w =
      ground (arith, reconcile_selectors-config task task.spec.resource_selectors r w)

  reconcile-config :
      (namespace name : String) (r : Reconciler) (w : W)
      → (reconcile to_lower client reader namespace name (r, w)).1.0.scheduler_config
        ≡ r.scheduler_config
  unfolding reconcile
  reconcile-config namespace name r w =
      ground (arith, reconcile_task-config (reader.get_task namespace name w).0 r w)

  add_deployment-config :
      (d : Deployment) (r : Reconciler) (w : W)
      → (add_deployment to_lower client reader d (r, w)).0.scheduler_config ≡ r.scheduler_config
  unfolding add_deployment
  add_deployment-config d r w = ground arith

  -- The threshold that stands at a path behind a step, and behind steps: the number of the last
  -- object of the installer that has a readable one, or the threshold of the start.
  abbrev pub behind_step :
      {s t : State to_lower client reader}
      → String
      → Step to_lower client reader s t
      → Option ℤ
      → Option ℤ
  behind_step path (reconciles namespace name s) old = old
  behind_step path (adds_deployment d s) old = old
  behind_step path (updates_installer object s) old = number_or old (reader.json_get object path)
  behind_step path (elsewhere r w w') old = old

  abbrev pub behind_steps :
      {s t : State to_lower client reader}
      → String
      → Steps to_lower client reader s t
      → Option ℤ
      → Option ℤ
  behind_steps path (done s) old = old
  behind_steps path (then_step s t u steps step) old =
      behind_step path step (behind_steps path steps old)

  Step-thresholds :
      (s t : State to_lower client reader) (step : Step to_lower client reader s t)
      → (t.0.scheduler_config.cpu_notify_present
          ≡ behind_step "spec.schedule.analysis.notifyThreshold.cpu" step
              s.0.scheduler_config.cpu_notify_present)
        × (t.0.scheduler_config.mem_notify_present
            ≡ behind_step "spec.schedule.analysis.notifyThreshold.mem" step
                s.0.scheduler_config.mem_notify_present)
  unfolding update_installer update_schedule_config
  Step-thresholds _ _ (reconciles namespace name (r, w)) =
      let kept = reconcile-config namespace name r w in
      (
        ap (λ (c : SchedulerConfig). c.cpu_notify_present) kept,
        ap (λ (c : SchedulerConfig). c.mem_notify_present) kept,
      )
  Step-thresholds _ _ (adds_deployment d (r, w)) =
      let kept = add_deployment-config d r w in
      (
        ap (λ (c : SchedulerConfig). c.cpu_notify_present) kept,
        ap (λ (c : SchedulerConfig). c.mem_notify_present) kept,
      )
  Step-thresholds _ _ (updates_installer object (r, w)) = (
    update_schedule_config-number_or object "spec.schedule.analysis.notifyThreshold.cpu"
        r.scheduler_config.cpu_notify_present,
    update_schedule_config-number_or object "spec.schedule.analysis.notifyThreshold.mem"
        r.scheduler_config.mem_notify_present,
  )
  Step-thresholds _ _ (elsewhere r w w') = (refl, refl)

  behind_step-FitsInt :
      (s t : State to_lower client reader) (path : String) (step : Step to_lower client reader s t)
      (old : Option ℤ)
      → FitsInt old
      → FitsInt (behind_step path step old)
  behind_step-FitsInt _ _ path (reconciles namespace name s) old h = h
  behind_step-FitsInt _ _ path (adds_deployment d s) old h = h
  behind_step-FitsInt _ _ path (updates_installer object s) old h =
      number_or-FitsInt old (reader.json_get object path) h
  behind_step-FitsInt _ _ path (elsewhere r w w') old h = h

  behind_steps-FitsInt :
      (s t : State to_lower client reader) (path : String)
      (steps : Steps to_lower client reader s t) (old : Option ℤ)
      → FitsInt old
      → FitsInt (behind_steps path steps old)
  behind_steps-FitsInt _ _ path (done s) old h = h
  behind_steps-FitsInt _ _ path (then_step s t u steps step) old h =
      behind_step-FitsInt t u path step (behind_steps path steps old)
        (behind_steps-FitsInt s t path steps old h)

  Steps-behind :
      (s t : State to_lower client reader) (steps : Steps to_lower client reader s t)
      → (t.0.scheduler_config.cpu_notify_present
          ≡ behind_steps "spec.schedule.analysis.notifyThreshold.cpu" steps
              s.0.scheduler_config.cpu_notify_present)
        × (t.0.scheduler_config.mem_notify_present
            ≡ behind_steps "spec.schedule.analysis.notifyThreshold.mem" steps
                s.0.scheduler_config.mem_notify_present)
  Steps-behind _ _ (done s) = (refl, refl)
  Steps-behind _ _ (then_step s t u steps step) =
      let (cpu, mem) = Steps-behind s t steps in
      let (cpu', mem') = Step-thresholds t u step in
      (
        cpu' ∙ ap (behind_step "spec.schedule.analysis.notifyThreshold.cpu" step) cpu,
        mem' ∙ ap (behind_step "spec.schedule.analysis.notifyThreshold.mem" step) mem,
      )

  -- The thresholds of the configuration after any steps: each is the number that stands at its path
  -- in the last object of the installer in which a number stands there that fits an `int64`, and the
  -- threshold of the start if there is none; a missing text, one that is no number and one out of
  -- range leave it as it was. If those of the start fit an `int64`, so do those behind the steps.
  pub Steps-HasThresholds :
      (s t : State to_lower client reader) (steps : Steps to_lower client reader s t)
      → HasThresholds s.0.scheduler_config
      → (t.0.scheduler_config.cpu_notify_present
          ≡ behind_steps "spec.schedule.analysis.notifyThreshold.cpu" steps
              s.0.scheduler_config.cpu_notify_present)
        × (t.0.scheduler_config.mem_notify_present
            ≡ behind_steps "spec.schedule.analysis.notifyThreshold.mem" steps
                s.0.scheduler_config.mem_notify_present)
        × HasThresholds t.0.scheduler_config
  Steps-HasThresholds s t steps (cpu, mem) =
      let (cpu', mem') = Steps-behind s t steps in
      (
        cpu',
        mem',
        (
          subst FitsInt (sym cpu') (behind_steps-FitsInt s t _ steps _ cpu),
          subst FitsInt (sym mem') (behind_steps-FitsInt s t _ steps _ mem),
        ),
      )
