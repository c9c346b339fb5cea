-- ===== src/Clients/Kubernetes.antt =====
-- pkg/client/k8s/kubernetes.go. `X` are the clients that the libraries and the generated code make
-- from a configuration, `F` is `float32`.
use kubesphere_schedule.Base.Results.{>>=-succeeds, ◌>>=◌, failed, ok, Result}
use kubesphere_schedule.Base.Int.{pos, ℤ}
use kubesphere_schedule.Clients.Options.{KubernetesOptions}
use kubesphere_schedule.Base.{
  refl, inr, inl, ◌⊎◌, ◌≡◌, true, some, none, is_empty, if◌then◌else◌, arith, String, Option, Bool,
}

pub record RestConfig (F : Type 0) : Type 0 where
  pub host : String
  pub bearer_token : String
  pub insecure : Bool
  pub qps : F
  pub burst : ℤ

-- `NewForConfig` of each library, and `clientcmd.BuildConfigFromFlags("", path)`.
pub record ClientLib (F X : Type 0) : Type 0 where
  pub kubernetes : RestConfig F → Result X
  pub dynamic : RestConfig F → Result X
  pub schedule : RestConfig F → Result X
  pub crane : RestConfig F → Result X
  pub discovery : RestConfig F → Result X
  pub apiextensions : RestConfig F → Result X
  pub ext : RestConfig F → Result X
  pub build_config : String → Result (RestConfig F)
  pub zero : F

pub record KubernetesClient (F X : Type 0) : Type 0 where
  pub k8s : X
  pub discovery_client : X
  pub schedule : X
  pub crane : X
  pub apiextensions : X
  pub ext : X
  pub dynamic : X
  pub master : String
  pub config : RestConfig F

module _ {F X : Type 0} (lib : ClientLib F X) where
  -- The constructors in their order; the first error ends them.
  unfoldable pub make_clients : RestConfig F → Result (KubernetesClient F X)
  make_clients config = do
    k8s ← lib.kubernetes config
    dynamic ← lib.dynamic config
    schedule ← lib.schedule config
    crane ← lib.crane config
    discovery ← lib.discovery config
    apiextensions ← lib.apiextensions config
    ext ← lib.ext config
    ok (record {
      k8s = k8s;
      discovery_client = discovery;
      schedule = schedule;
      crane = crane;
      apiextensions = apiextensions;
      ext = ext;
      dynamic = dynamic;
      master = "";
      config = config;
    })

  abbrev pub map_ok : {A : Type 0} {B : Type 0} → (A → B) → Result A → Result B
  map_ok f (ok a) = ok (f a)
  map_ok f (failed e) = failed e

  -- A nil configuration gives a nil client and no error.
  unfoldable pub new_kubernetes_client_with_config :
      Option (RestConfig F) → Result (Option (KubernetesClient F X))
  unfolding make_clients
  new_kubernetes_client_with_config none = ok none
  new_kubernetes_client_with_config (some config) = map_ok some (make_clients config)

  unfoldable pub new_kubernetes_client_with_token :
      String → String → Result (Option (KubernetesClient F X))
  unfolding new_kubernetes_client_with_config
  new_kubernetes_client_with_token token master =
      if is_empty token
      then failed "token required"
      else new_kubernetes_client_with_config (
          some (record {
            host = master;
            bearer_token = token;
            insecure = true;
            qps = lib.zero;
            burst = pos 0;
          }))

  abbrev pub tuned : KubernetesOptions F → RestConfig F → RestConfig F
  tuned options config = record config { qps = options.qps; burst = options.burst }

  abbrev pub with_master :
      KubernetesOptions F
      → RestConfig F
      → Option (KubernetesClient F X)
      → Option (KubernetesClient F X)
  with_master options config none = none
  with_master options config (some k) = some (record k { config = config; master = options.master })

  -- Nil options give a nil client and no error, too.
  unfoldable pub new_kubernetes_client :
      Option (KubernetesOptions F) → Result (Option (KubernetesClient F X))
  unfolding new_kubernetes_client_with_config
  new_kubernetes_client none = ok none
  new_kubernetes_client (some options) = do
    config ← lib.build_config options.kube_config
    client ← new_kubernetes_client_with_config (some (tuned options config))
    ok (with_master options (tuned options config) client)

  -- A client whose parts are made from its own configuration.
  pub record IsMadeFrom (config : RestConfig F) (k : KubernetesClient F X) : Type 0 where
    pub kubernetes : lib.kubernetes config ≡ ok k.k8s
    pub dynamic : lib.dynamic config ≡ ok k.dynamic
    pub schedule : lib.schedule config ≡ ok k.schedule
    pub crane : lib.crane config ≡ ok k.crane
    pub discovery : lib.discovery config ≡ ok k.discovery_client
    pub apiextensions : lib.apiextensions config ≡ ok k.apiextensions
    pub ext : lib.ext config ≡ ok k.ext

  pub make_clients-IsMadeFrom :
      (config : RestConfig F) (k : KubernetesClient F X)
      → make_clients config ≡ ok k
      → IsMadeFrom config k × (k.config ≡ config)
  unfolding make_clients
  make_clients-IsMadeFrom config k h = ground arith

  -- A client that belongs to options.
  pub record IsClientOf (o : KubernetesOptions F) (client : Option (KubernetesClient F X))
      : Type 0 where
    pub built_config : RestConfig F
    pub built : lib.build_config o.kube_config ≡ ok built_config
    pub made : KubernetesClient F X
    pub is_made : client ≡ some made
    pub parts : IsMadeFrom (tuned o built_config) made
    pub keeps_config : made.config ≡ tuned o built_config
    pub keeps_master : made.master ≡ o.master

  with_master-IsClientOf :
      (o : KubernetesOptions F) (config : RestConfig F) (client : Option (KubernetesClient F X))
      (result : Result (KubernetesClient F X))
      → make_clients (tuned o config) ≡ result
      → lib.build_config o.kube_config ≡ ok config
      → (map_ok some result >>= λ c. ok (with_master o (tuned o config) c)) ≡ ok client
      → IsClientOf o client
  with_master-IsClientOf o config client (failed e) made built h = cc
  with_master-IsClientOf o config client (ok k) made built h =
      let (parts, keeps) = make_clients-IsMadeFrom (tuned o config) k made in
      record {
        built_config = config;
        built = built;
        made = record k { config = tuned o config; master = o.master };
        is_made = ground arith;
        parts = ground (arith, parts);
        keeps_config = refl;
        keeps_master = refl;
      }

  -- A client that is returned for options has all its parts, each made from the configuration of
  -- the file named in the options with their limits, which it also keeps, and the master's address;
  -- without an error only nil options give no client.
  pub new_kubernetes_client-IsClientOf :
      (options : Option (KubernetesOptions F)) (client : Option (KubernetesClient F X))
      → new_kubernetes_client options ≡ ok client
      → ((options ≡ none) × (client ≡ none))
        ⊎ ((o : KubernetesOptions F) × (options ≡ some o) × IsClientOf o client)
  unfolding new_kubernetes_client new_kubernetes_client_with_config
  new_kubernetes_client-IsClientOf none client h = inl (refl, ground arith)
  new_kubernetes_client-IsClientOf (some o) client h =
      let (config, rest, built) = >>=-succeeds _ (lib.build_config o.kube_config) client h in
      inr (o, refl, with_master-IsClientOf o config client _ refl built rest)
