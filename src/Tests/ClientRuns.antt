-- ===== src/Tests/ClientRuns.antt =====
-- Runs of the clients and of the controllers that are made from the options.
use kubesphere_schedule.Tests.ProcessRuns.{gated, local_options}
use kubesphere_schedule.Process.RunLaws.{IsEnding, run-ends, add_controller-ignores_gates}
use kubesphere_schedule.Base.Int.{pos}
use kubesphere_schedule.Base.Results.{ok}
use kubesphere_schedule.Clients.Informers.{InformerLib}
use kubesphere_schedule.Utils.Slices.{has_string}
use kubesphere_schedule.Clients.Options.{KubernetesOptions}
use kubesphere_schedule.Clients.Kubernetes.{
  make_clients, new_kubernetes_client-IsClientOf, IsClientOf, new_kubernetes_client_with_config,
  new_kubernetes_client, KubernetesClient, ClientLib, RestConfig,
}
use kubesphere_schedule.Process.Run.{
  added, disabled, report, ReconcilerParts, add_controller, run, ManagerLib,
}
use kubesphere_schedule.Process.Options.{enabled_from, is_controller_enabled}
use kubesphere_schedule.Base.{
  ◌⊎◌, ◌≡◌, ◌∷◌, ◌+◌, ℕ, true, some, refl, none, if◌then◌else◌, false, [], String,
}

-- Clients are the names of their libraries, informers are numbers, and the state counts them.
abbrev pub named_clients : ClientLib ℕ String
named_clients = record {
  kubernetes = λ c. ok "kubernetes";
  dynamic = λ c. ok "dynamic";
  schedule = λ c. ok "schedule";
  crane = λ c. ok "crane";
  discovery = λ c. ok "discovery";
  apiextensions = λ c. ok "apiextensions";
  ext = λ c. ok "ext";
  build_config = λ path.
      ok (record { host = "host"; bearer_token = ""; insecure = false; qps = 0; burst = pos 0 });
  zero = 0;
}

abbrev pub counted_informers : InformerLib String ℕ ℕ
counted_informers = record {
  kubernetes = λ c. 1;
  schedule = λ c. 2;
  apiextensions = λ c. 3;
  dynamic = λ c. 4;
  crane = λ c. 5;
  extensions = λ c. 6;
  start = λ i w. w + 1;
}

abbrev a_manager : ManagerLib ℕ String ℕ ℕ String
a_manager = record {
  new_manager = λ config options. ok "manager";
  register = λ m. none;
  setup = λ m parts. none;
  start = λ m w. (none, w);
}

abbrev local_rest_config : RestConfig ℕ
local_rest_config = record {
  host = "host";
  bearer_token = "";
  insecure = false;
  qps = 50;
  burst = pos 100;
}

abbrev pub local_client : KubernetesClient ℕ String
local_client = record {
  k8s = "kubernetes";
  discovery_client = "discovery";
  schedule = "schedule";
  crane = "crane";
  apiextensions = "apiextensions";
  ext = "ext";
  dynamic = "dynamic";
  master = "https://host";
  config = local_rest_config;
}

pub local_client_made :
    new_kubernetes_client named_clients (some local_options) ≡ ok (some local_client)
unfolding new_kubernetes_client new_kubernetes_client_with_config make_clients
local_client_made = refl

new_kubernetes_client-IsClientOf_example :
    ((some local_options ≡ none) × (some local_client ≡ none))
    ⊎ ((o : KubernetesOptions ℕ) × (some local_options ≡ some o)
        × IsClientOf named_clients o (some local_client))
new_kubernetes_client-IsClientOf_example =
    new_kubernetes_client-IsClientOf named_clients (some local_options) (some local_client)
      local_client_made

run-ends_example :
    IsEnding named_clients counted_informers a_manager
      (new_kubernetes_client named_clients gated.kubernetes_options)
      gated
      0
      (run named_clients counted_informers a_manager gated [] 0).0
run-ends_example = run-ends named_clients counted_informers a_manager gated [] 0

abbrev local_parts : ReconcilerParts ℕ String ℕ
local_parts = record {
  client = local_client;
  kubernetes_informers = 1;
  crane_informers = 5;
  dynamic_informers = some 4;
}

gated_added :
    add_controller named_clients counted_informers a_manager "manager" local_parts gated []
    ≡ (ok (disabled "analysis" ∷ []), "analysis" ∷ [])
unfolding add_controller report is_controller_enabled enabled_from has_string
gated_added = refl

add_controller-ignores_gates_example :
    (a_manager.setup "manager" local_parts ≡ none)
    × (has_string ("analysis" ∷ []) "analysis" ≡ true)
    × (disabled "analysis" ∷ []
        ≡ (if is_controller_enabled gated "analysis" then added "analysis" else disabled "analysis")
          ∷ [])
add_controller-ignores_gates_example =
    add_controller-ignores_gates named_clients counted_informers a_manager "manager" local_parts
      gated [] (disabled "analysis" ∷ []) ("analysis" ∷ []) gated_added
