-- ===== src/Process/Options.antt =====
-- cmd/controller/app/options/options.go, and the options of cmd/apiserver/app/options without
-- `NewAPIServer`. A nil pointer is `none`.
use kubesphere_schedule.Utils.Slices.{has_string}
use kubesphere_schedule.Process.Config.{new_config, Config}
use kubesphere_schedule.Base.Int.{pos, ℤ}
use kubesphere_schedule.Server.Options.{new_server_run_options, ServerRunOptions}
use kubesphere_schedule.Clients.Options.{
  Files, new_schedule_options, ScheduleOptions, Floats, new_kubernetes_options, KubernetesOptions,
  validate_kubernetes,
}
use kubesphere_schedule.Base.{
  ◌∷◌, ◌||◌, ◌==◌, ◌++◌, ◌*◌, ℕ, true, strip_prefix, some, returned, panicked, none, join, is_empty,
  if◌then◌else◌, false, [], String, Outcome, Option, List, Bool,
}

-- Durations are nanoseconds.
pub record LeaderElectionConfig : Type 0 where
  pub lease_duration : ℤ
  pub renew_deadline : ℤ
  pub retry_period : ℤ

pub record ControllerManagerOptions (F : Type 0) : Type 0 where
  pub kubernetes_options : Option (KubernetesOptions F)
  pub schedule_options : Option ScheduleOptions
  pub leader_elect : Bool
  pub leader_election : Option LeaderElectionConfig
  pub webhook_cert_dir : String
  pub application_selector : String
  pub controller_gates : List String
  pub gops_enabled : Bool

abbrev second : ℕ
second = 1000000000

unfoldable pub new_controller_manager_options :
    {F : Type 0} → Floats F → Files → ControllerManagerOptions F
unfolding new_kubernetes_options new_schedule_options
new_controller_manager_options floats files = record {
  kubernetes_options = some (new_kubernetes_options floats files);
  schedule_options = some new_schedule_options;
  leader_elect = false;
  leader_election = some (record {
    lease_duration = pos (30 * second);
    renew_deadline = pos (15 * second);
    retry_period = pos (5 * second);
  });
  webhook_cert_dir = "";
  application_selector = "";
  controller_gates = "*" ∷ [];
  gops_enabled = false;
}

-- `strings.TrimPrefix(s, "-")`.
abbrev pub trim_dash : String → String
trim_dash s = elim (strip_prefix "-" s) [ none ↦ s | some rest ↦ rest ]

-- `quote` is the verb %q.
abbrev pub unknown : (String → String) → String → String
unknown quote selector = join (quote selector) " is not in the list of known controllers"

-- The loop over the gates.
unfoldable pub check_gates : (String → String) → List String → List String → List String
unfolding has_string
check_gates quote names [] = []
check_gates quote names (selector ∷ gates) =
    let later = check_gates quote names gates in
    if selector == "*" || has_string names (trim_dash selector)
    then later
    else unknown quote (trim_dash selector) ∷ later

-- `parse` is `labels.Parse`, an error or none.
unfoldable pub check_selector : (String → Option String) → String → List String
check_selector parse selector =
    if is_empty selector then [] else elim (parse selector) [ none ↦ [] | some err ↦ err ∷ [] ]

-- `Validate` reads the fields of nil Kubernetes options; the method of the schedule options reads
-- none.
unfoldable pub validate_controller :
    {F : Type 0}
    → Floats F
    → Files
    → (parse : String → Option String) (quote : String → String) → List String
    → ControllerManagerOptions F
    → Outcome (List String)
unfolding validate_kubernetes check_selector check_gates
validate_controller floats files parse quote names o = elim o.kubernetes_options [
  | none ↦ panicked
  | some k ↦ returned (
      validate_kubernetes floats files k
      ++ (check_selector parse o.application_selector
          ++ check_gates quote names o.controller_gates))
]

-- The loop of `IsControllerEnabled` with `hasStar`.
unfoldable pub enabled_from : String → Bool → List String → Bool
enabled_from name has_star [] = has_star
enabled_from name has_star (ctrl ∷ gates) =
    let later = enabled_from name (has_star || ctrl == "*") gates in
    if ctrl == name then true else if ctrl == join "-" name then false else later

unfoldable pub is_controller_enabled : {F : Type 0} → ControllerManagerOptions F → String → Bool
unfolding enabled_from
is_controller_enabled o name = enabled_from name false o.controller_gates

unfoldable pub merge_config :
    {F : Type 0} → ControllerManagerOptions F → Config F → ControllerManagerOptions F
merge_config s cfg = record s {
  kubernetes_options = cfg.kubernetes_options;
  schedule_options = cfg.schedule_options;
}

-- The options of the API server.
pub record ApiserverOptions (F : Type 0) : Type 0 where
  pub config_file : String
  pub generic_server_run_options : ServerRunOptions
  pub config : Config F
  pub debug_mode : Bool

unfoldable pub new_apiserver_options : {F : Type 0} → Floats F → Files → ApiserverOptions F
unfolding new_server_run_options new_config
new_apiserver_options floats files = record {
  config_file = "";
  generic_server_run_options = new_server_run_options;
  config = new_config floats files;
  debug_mode = false;
}

-- `Validate`: the checks of the parts are commented out.
unfoldable pub validate_apiserver : {F : Type 0} → ApiserverOptions F → List String
validate_apiserver s = []
