-- ===== src/Process/Run.antt =====
-- `run`, `addAllControllers` and the command of cmd/controller/app. The manager and the scheme of
-- controller-runtime are a record of parameters, `M` is a manager and `W` the state that starting
-- informers and controllers changes; `klog.Fatalf` ends the process.
use kubesphere_schedule.Clients.Interface.{ext_resources, kubernetes_methods, informer_clients}
use kubesphere_schedule.Base.Results.{ok, failed, Result}
use kubesphere_schedule.Clients.Informers.{
  new_informer_factories, start_factories, Clientset, InformerFactories, InformerLib,
}
use kubesphere_schedule.Base.Int.{ℤ}
use kubesphere_schedule.Utils.Slices.{has_string}
use kubesphere_schedule.Clients.Kubernetes.{
  new_kubernetes_client, RestConfig, ClientLib, KubernetesClient,
}
use kubesphere_schedule.Process.Options.{is_controller_enabled, ControllerManagerOptions}
use kubesphere_schedule.Base.{
  ◌∷◌, ℕ, some, returned, panicked, not, none, map, join, if◌then◌else◌, [], String, Outcome,
  Option, List,
}

pub record LeaderElectionOptions : Type 0 where
  pub namespace : String
  pub id : String
  pub lease_duration : ℤ
  pub retry_period : ℤ
  pub renew_deadline : ℤ

pub record ManagerOptions : Type 0 where
  pub cert_dir : String
  pub port : ℕ
  pub leader_election : Option LeaderElectionOptions

-- What the reconciler of tasks is made of.
pub record ReconcilerParts (F X I : Type 0) : Type 0 where
  pub client : KubernetesClient F X
  pub kubernetes_informers : I
  pub crane_informers : I
  pub dynamic_informers : Option I

-- `setup` is `SetupWithManager` of the reconciler, `register` is `AddToScheme`; both give an error or
-- none.
pub record ManagerLib (F X I W M : Type 0) : Type 0 where
  pub new_manager : RestConfig F → ManagerOptions → Result M
  pub register : M → Option String
  pub setup : M → ReconcilerParts F X I → Option String
  pub start : M → W → Option String × W

-- How `run` ends: with an error or nil, with `klog.Fatalf`, or with a panic.
pub data Ending : Type 0 where
  ends_with : Option String → Ending
  ends_process : String → Ending
  ends_in_panic : Ending

-- What is written of a controller behind the setup.
pub data Report : Type 0 where
  added not_going_to_run disabled : String → Report

abbrev pub all_controllers : List String
all_controllers = "analysis" ∷ []

module _ {F : Type 0} where
  -- The loop that logs.
  unfoldable pub report : ControllerManagerOptions F → List String → String → Report
  unfolding is_controller_enabled has_string
  report o succeeded name =
      if is_controller_enabled o name
      then if has_string succeeded name then added name else not_going_to_run name
      else disabled name

  abbrev pub plain_options :
      ControllerManagerOptions F → Option LeaderElectionOptions → ManagerOptions
  plain_options s election = record {
    cert_dir = s.webhook_cert_dir;
    port = 8443;
    leader_election = election;
  }

  -- `none` where nil leader election is read.
  unfoldable pub manager_options : ControllerManagerOptions F → Option ManagerOptions
  manager_options s =
      if not s.leader_elect then some (plain_options s none) else elim s.leader_election [
        | none ↦ none
        | some election ↦ some (
            plain_options s (
              some (record {
                namespace = "kubesphere-schedule-system";
                id = "ks-controller-manager-leader-election";
                lease_duration = election.lease_duration;
                retry_period = election.retry_period;
                renew_deadline = election.renew_deadline;
              })))
      ]

-- `sets.String.Insert`.
abbrev pub insert_name : List String → String → List String
insert_name names name = if has_string names name then names else name ∷ names

module _ {F X I W M : Type 0} (clients : ClientLib F X) (informers : InformerLib X I W)
    (managers : ManagerLib F X I W M) where
  -- The setup of the one controller, whose error ends the process, and the loop that logs; the names
  -- set up are kept in a package variable.
  unfoldable pub add_controller :
      M
      → ReconcilerParts F X I
      → ControllerManagerOptions F
      → List String
      → Result (List Report) × List String
  unfolding report
  add_controller mgr parts o succeeded = elim (managers.setup mgr parts) [
    | some err ↦ (failed (join "Unable to create analysis controller: " err), succeeded)
    | none ↦ (
      ok (map (report o (insert_name succeeded "analysis")) all_controllers),
      insert_name succeeded "analysis",
    )
  ]

  -- Nil informers panic.
  unfoldable pub add_all_controllers :
      M
      → KubernetesClient F X
      → InformerFactories I
      → ControllerManagerOptions F
      → List String
      → Outcome (Result (List Report) × List String)
  unfolding add_controller
  add_all_controllers mgr client factories o succeeded = elim factories.informer_factory [
    | none ↦ panicked
    | some kubernetes ↦ elim factories.crane_informer [
      | none ↦ panicked
      | some crane ↦ returned (
          add_controller mgr
            (record {
              client = client;
              kubernetes_informers = kubernetes;
              crane_informers = crane;
              dynamic_informers = factories.dynamic_informer_factory;
            })
            o succeeded)
    ]
  ]

  -- The clients that `run` gives the informers: that of the extensions twice, also as Crane's.
  abbrev pub run_clientset : KubernetesClient F X → Clientset X
  run_clientset k = record (informer_clients (kubernetes_methods k)) {
    crane_client = ext_resources k;
  }

  -- What follows the setup of the controllers.
  unfoldable pub start_manager :
      M → InformerFactories I → Outcome (Result (List Report) × List String) → W → Ending × W
  unfolding start_factories
  start_manager mgr factories panicked w = (ends_in_panic, w)
  start_manager mgr factories (returned (failed err, succeeded)) w = (ends_process err, w)
  start_manager mgr factories (returned (ok reports, succeeded)) w =
      let (err, w') = managers.start mgr (start_factories informers factories w) in
      elim err [
        | some e ↦ (ends_process (join "unable to run the manager: " e), w')
        | none ↦ (ends_with none, w')
      ]

  unfoldable pub run_manager :
      KubernetesClient F X
      → InformerFactories I
      → ControllerManagerOptions F
      → List String
      → Result M
      → W
      → Ending × W
  unfolding start_manager add_all_controllers
  run_manager client factories s succeeded (failed e) w =
      (ends_process (join "unable to set up overall controller manager: " e), w)
  run_manager client factories s succeeded (ok mgr) w = elim (managers.register mgr) [
    | some e ↦ (ends_process (join "unable add APIs to scheme: " e), w)
    | none ↦ start_manager mgr factories (add_all_controllers mgr client factories s succeeded) w
  ]

  -- What follows the making of the clients.
  unfoldable pub run_with :
      Result (Option (KubernetesClient F X))
      → ControllerManagerOptions F
      → List String
      → W
      → Ending × W
  unfolding new_informer_factories manager_options run_manager
  run_with (failed e) s succeeded w = (ends_with (some e), w)
  run_with (ok none) s succeeded w = (ends_in_panic, w)
  run_with (ok (some k)) s succeeded w = elim (manager_options s) [
    | none ↦ (ends_in_panic, w)
    | some options ↦
        run_manager k (new_informer_factories informers (run_clientset k)) s succeeded
          (managers.new_manager k.config options) w
  ]

  unfoldable pub run : ControllerManagerOptions F → List String → W → Ending × W
  unfolding new_kubernetes_client run_with
  run s succeeded w = run_with (new_kubernetes_client clients s.kubernetes_options) s succeeded w
