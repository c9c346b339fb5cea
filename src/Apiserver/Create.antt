-- ===== src/Apiserver/Create.antt =====
-- `NewAPIServer` of cmd/apiserver/app/options/options.go, with `NewScheduleOperator` of
-- pkg/service/schedule/interface.go. `C` are certificates and `M` managers, which only give a client
-- and a cache.
use kubesphere_schedule.Clients.Interface.{kubernetes_methods, informer_clients}
use kubesphere_schedule.Process.Options.{ApiserverOptions}
use kubesphere_schedule.Server.Options.{ServerRunOptions}
use kubesphere_schedule.Base.Results.{ok, failed, Result}
use kubesphere_schedule.Process.Config.{Config}
use kubesphere_schedule.Clients.Kubernetes.{
  new_kubernetes_client, RestConfig, KubernetesClient, ClientLib,
}
use kubesphere_schedule.Clients.Informers.{
  Clientset, new_informer_factories, InformerLib, InformerFactories,
}
use kubesphere_schedule.Base.Int.{eqb_ℤ, pos, ℤ}
use kubesphere_schedule.Base.{◌⊎◌, ◌≡◌, some, none, join, if◌then◌else◌, arith, String, Option}

-- `scheduleOperator`.
pub record OperatorParts (X I : Type 0) : Type 0 where
  pub informers : Option I
  pub k8s_client : X
  pub schedule_client : X
  pub res_client : X
  pub dynamic_client : X

unfoldable pub new_schedule_operator :
    {X I : Type 0} → InformerFactories I → X → X → X → X → OperatorParts X I
new_schedule_operator factories k8s schedule res dynamic = record {
  informers = factories.schedule_informer_factory;
  k8s_client = k8s;
  schedule_client = schedule;
  res_client = res;
  dynamic_client = dynamic;
}

-- The fields of `APIServer` and of its `http.Server`; the manager gives the client and the cache.
pub record ApiServer (F X I C M : Type 0) : Type 0 where
  pub config : Config F
  pub kubernetes_client : KubernetesClient F X
  pub informer_factory : InformerFactories I
  pub schedule_client : OperatorParts X I
  pub addr : String
  pub tls_config : Option C
  pub manager : M

-- `show_int` is the verb %d, `load_key_pair` is `tls.LoadX509KeyPair`, `add_to_scheme` the error of
-- registering the types, which ends the process.
pub record ServerLib (F C M : Type 0) : Type 0 where
  pub show_int : ℤ → String
  pub load_key_pair : String → String → Result C
  pub add_to_scheme : Option String
  pub new_manager : RestConfig F → Result M

-- What `NewAPIServer` does: it returns a server or an error, ends the process, or panics.
pub data Creation (S : Type 0) : Type 0 where
  creates : S → Creation S
  refuses : String → Creation S
  exits : String → Creation S
  crashes : Creation S

module _ {F X I W C M : Type 0} (clients : ClientLib F X) (informers : InformerLib X I W)
    (servers : ServerLib F C M) where
  abbrev pub apiserver_clientset : KubernetesClient F X → Clientset X
  apiserver_clientset k = informer_clients (kubernetes_methods k)

  -- The address and the certificate.
  unfoldable pub server_address : ServerRunOptions → Result (String × Option C)
  server_address o =
      if eqb_ℤ o.secure_port (pos 0)
      then ok (join ":" (servers.show_int o.insecure_port), none)
      else elim (servers.load_key_pair o.tls_cert_file o.tls_private_key) [
        | failed e ↦ failed e
        | ok certificate ↦ ok (join ":" (servers.show_int o.secure_port), some certificate)
      ]

  abbrev pub built : Config F → KubernetesClient F X → String × Option C → M → ApiServer F X I C M
  built config k (addr, certificate) manager =
      let factories = new_informer_factories informers (apiserver_clientset k) in
      record {
        config = config;
        kubernetes_client = k;
        informer_factory = factories;
        schedule_client = new_schedule_operator factories k.k8s k.schedule k.ext k.dynamic;
        addr = addr;
        tls_config = certificate;
        manager = manager;
      }

  -- Nil Kubernetes options give a nil client, whose methods panic.
  unfoldable pub new_api_server : ApiserverOptions F → Creation (ApiServer F X I C M)
  unfolding new_kubernetes_client new_informer_factories new_schedule_operator server_address
  new_api_server s = elim (new_kubernetes_client clients s.config.kubernetes_options) [
    | failed e ↦ refuses e
    | ok none ↦ crashes
    | ok (some k) ↦ elim (server_address s.generic_server_run_options) [
      | failed e ↦ refuses e
      | ok address ↦ elim servers.add_to_scheme [
        | some e ↦ exits (join "unable add APIs to scheme: " e)
        | none ↦ elim (servers.new_manager k.config) [
          | failed e ↦ refuses e
          | ok manager ↦ creates (built s.config k address manager)
        ]
      ]
    ]
  ]

  -- A server that is created listens with a certificate exactly where the secure port is not 0, then
  -- on that port, with the certificate of the two files, and else on the insecure port; it keeps the
  -- configuration, and its clients are those of the configuration's Kubernetes options.
  pub new_api_server-listens :
      (s : ApiserverOptions F) (server : ApiServer F X I C M)
      → new_api_server s ≡ creates server
      → let o = s.generic_server_run_options in
        (((o.secure_port ≡ pos 0)
            × (server.tls_config ≡ none)
            × (server.addr ≡ join ":" (servers.show_int o.insecure_port)))
          ⊎ ((certificate : C) × (servers.load_key_pair o.tls_cert_file o.tls_private_key
                ≡ ok certificate)
              × (server.tls_config ≡ some certificate)
              × (server.addr ≡ join ":" (servers.show_int o.secure_port))))
        × (server.config ≡ s.config)
        × (new_kubernetes_client clients s.config.kubernetes_options
            ≡ ok (some server.kubernetes_client))
  unfolding new_api_server server_address
  new_api_server-listens s server h = ground arith
