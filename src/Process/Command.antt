-- ===== src/Process/Command.antt =====
-- The commands of the two processes: cmd/controller/app/server.go and cmd/apiserver/app/server.go,
-- and `WaitForAPIServer`. A process that ends gives its exit code; `klog.Fatal` gives 255.
use kubesphere_schedule.Base.Results.{ok, failed, Result}
use kubesphere_schedule.Process.Config.{Config}
use kubesphere_schedule.Clients.Options.{Files, Floats}
use kubesphere_schedule.Process.Options.{
  ApiserverOptions, new_apiserver_options, new_controller_manager_options, ControllerManagerOptions,
}
use kubesphere_schedule.Base.{
  ◌∷◌, ◌&&◌, ℕ, true, some, returned, panicked, none, join, is_some, if◌then◌else◌, false, eqb, [],
  String, Outcome, Option, List, Bool,
}

-- `NewControllerManagerCommand`: the options that stand where the file is loaded; `none` is a fatal
-- error. The flags of `Flags` keep the values, but for the gates, whose default is "*".
unfoldable pub command_options :
    {F : Type 0} → Floats F → Files → Config F × Option String → Option (ControllerManagerOptions F)
unfolding new_controller_manager_options
command_options floats files (conf, some err) = none
command_options floats files (conf, none) =
    let s = new_controller_manager_options floats files in
    some (record {
      kubernetes_options = conf.kubernetes_options;
      schedule_options = conf.schedule_options;
      leader_elect = s.leader_elect;
      leader_election = s.leader_election;
      webhook_cert_dir = s.webhook_cert_dir;
      application_selector = "";
      controller_gates = [];
      gops_enabled = false;
    })

unfoldable pub with_flags :
    {F : Type 0} → Option (List String) → ControllerManagerOptions F → ControllerManagerOptions F
with_flags none s = record s { controller_gates = "*" ∷ [] }
with_flags (some gates) s = record s { controller_gates = gates }

-- The command's `Run`: `errs` is what `Validate` gives, `listen` the error of gops, `loop` what `Run`
-- of the loop returns.
unfoldable pub run_command :
    {F : Type 0}
    → ControllerManagerOptions F
    → Outcome (List String)
    → (listen loop : Option String) → Outcome ℕ
run_command s panicked listen loop = panicked
run_command s (returned (err ∷ errs)) listen loop = returned 1
run_command s (returned []) listen loop =
    if s.gops_enabled && is_some listen
    then returned 255
    else if is_some loop
    then returned 1
    else returned 0

-- One answer of /healthz: the error of the request, the status and the body.
pub record Probe : Type 0 where
  pub error : Option String
  pub status : ℕ
  pub body : String

-- The condition of the poll, which keeps the last error.
unfoldable pub is_healthy : Probe → Option String → Bool × Option String
is_healthy probe last_err = elim probe.error [
  | some e ↦ (false, some (join "failed to get apiserver /healthz status: " e))
  | none ↦
      if eqb probe.status 200
      then (true, last_err)
      else (false, some (join "APIServer isn't healthy: " probe.body))
]

-- `wait.PollImmediate` calls the condition from a state until it holds, and gives the state and the
-- error of a timeout or none.
abbrev pub Poll : Type 0 → Type 0
Poll W = (W → Bool × W) → W → Option String × W

abbrev pub last_error : Option String → String
last_error none = "%!v(<nil>)"
last_error (some e) = e

-- The function given to the poll; `probe` sends one request, from a state of the server.
unfoldable pub poll_condition :
    {W : Type 0} → (W → Probe × W) → W × Option String → Bool × (W × Option String)
unfolding is_healthy
poll_condition probe (w, last_err) =
    let (answer, w') = probe w in
    let (healthy, last) = is_healthy answer last_err in (healthy, (w', last))

unfoldable pub wait_for_apiserver :
    {W : Type 0} → Poll (W × Option String) → (W → Probe × W) → W → Option String
unfolding poll_condition
wait_for_apiserver poll probe w =
    let (err, last) = poll (poll_condition probe) (w, none) in
    elim err [ none ↦ none | some e ↦ some (join e (join ": " (last_error last.1))) ]

-- `NewAPIServerCommand`: the options where the file is loaded, and the check of the command.
unfoldable pub apiserver_command_options :
    {F : Type 0} → Floats F → Files → Config F × Option String → Option (ApiserverOptions F)
unfolding new_apiserver_options
apiserver_command_options floats files (conf, some err) = none
apiserver_command_options floats files (conf, none) = some (record {
  config_file = "";
  generic_server_run_options = (new_apiserver_options floats files).generic_server_run_options;
  config = conf;
  debug_mode = false;
})

-- `Run` over the answers of `NewAPIServer`, `PrepareRun` and `Run` of the server `S`: an error of
-- `PrepareRun` is not returned.
unfoldable pub run_apiserver :
    {S : Type 0} → Result S → (S → Option String × S) → (S → Option String) → Option String
run_apiserver (failed e) prepare_run run_server = some e
run_apiserver (ok s) prepare_run run_server =
    let (err, s') = prepare_run s in if is_some err then none else run_server s'
