-- ===== src/Clients/Interface.antt =====
-- The interface `Client` of pkg/client/k8s/kubernetes.go, and what implements it: the client that is
-- made from a configuration, and the one of fake_client.go. A nil interface is `none`.
use kubesphere_schedule.Clients.Informers.{InformerLib, new_informer_factories, Clientset}
use kubesphere_schedule.Clients.Kubernetes.{RestConfig, KubernetesClient}
use kubesphere_schedule.Base.{◌≡◌, refl, some, none, String, Option}

pub record ClientMethods (F X : Type 0) : Type 0 where
  pub kubernetes : Option X
  pub dynamic : Option X
  pub schedule : Option X
  pub api_extensions : Option X
  pub crane_resources : Option X
  pub ext_resources : Option X
  pub discovery : Option X
  pub master : String
  pub config : Option (RestConfig F)

module _ {F X : Type 0} where
  abbrev pub crane_resources : KubernetesClient F X → Option X
  crane_resources k = some k.crane

  abbrev pub dynamic : KubernetesClient F X → Option X
  dynamic k = some k.dynamic

  abbrev pub schedule : KubernetesClient F X → Option X
  schedule k = some k.schedule

  abbrev pub kubernetes : KubernetesClient F X → Option X
  kubernetes k = some k.k8s

  abbrev pub discovery : KubernetesClient F X → Option X
  discovery k = some k.discovery_client

  abbrev pub api_extensions : KubernetesClient F X → Option X
  api_extensions k = some k.apiextensions

  abbrev pub ext_resources : KubernetesClient F X → Option X
  ext_resources k = some k.ext

  abbrev pub master : KubernetesClient F X → String
  master k = k.master

  abbrev pub config : KubernetesClient F X → Option (RestConfig F)
  config k = some k.config

  abbrev pub kubernetes_methods : KubernetesClient F X → ClientMethods F X
  kubernetes_methods k = record {
    kubernetes = kubernetes k;
    dynamic = dynamic k;
    schedule = schedule k;
    api_extensions = api_extensions k;
    crane_resources = crane_resources k;
    ext_resources = ext_resources k;
    discovery = discovery k;
    master = master k;
    config = config k;
  }

pub record FakeClient (F X : Type 0) : Type 0 where
  pub k8s_client : Option X
  pub discovery_client : Option X
  pub api_extension_client : Option X
  pub master_url : String
  pub kube_config : Option (RestConfig F)
  pub ext_resource_client : Option X
  pub dynamic : Option X
  pub schedule : Option X
  pub crane : Option X

module _ {F X : Type 0} where
  -- The client of the extensions is not among the arguments.
  unfoldable pub new_fake_client_sets :
      (k8s_client discovery_client api_extensions_client : Option X) (master_url : String)
      (kube_config : Option (RestConfig F)) (schedule dynamic crane : Option X)
      → FakeClient F X
  new_fake_client_sets k8s_client discovery_client api_extensions_client master_url kube_config
        schedule dynamic crane =
      record {
        k8s_client = k8s_client;
        discovery_client = discovery_client;
        api_extension_client = api_extensions_client;
        master_url = master_url;
        kube_config = kube_config;
        ext_resource_client = none;
        dynamic = dynamic;
        schedule = schedule;
        crane = crane;
      }

  unfoldable pub fake_methods : FakeClient F X → ClientMethods F X
  fake_methods n = record {
    kubernetes = n.k8s_client;
    dynamic = n.dynamic;
    schedule = n.schedule;
    api_extensions = n.api_extension_client;
    crane_resources = n.crane;
    ext_resources = n.ext_resource_client;
    discovery = n.discovery_client;
    master = n.master_url;
    config = n.kube_config;
  }

  -- The arguments of `NewInformerFactories` in the API server's process, of any client.
  abbrev pub informer_clients : ClientMethods F X → Clientset X
  informer_clients m = record {
    client = m.kubernetes;
    schedule_client = m.schedule;
    ext_client = m.ext_resources;
    crane_client = m.crane_resources;
    apiextensions_client = m.api_extensions;
    dynamic_client = m.dynamic;
  }

  -- The factory of the extensions is made over nil where the Kubernetes client is a fake one.
  pub new_informer_factories-fake :
      {I W : Type 0} (lib : InformerLib X I W) (k8s : X)
      (discovery_client api_extensions_client : Option X) (master_url : String)
      (kube_config : Option (RestConfig F)) (schedule dynamic crane : Option X)
      → (new_informer_factories lib (
          informer_clients (
            fake_methods (
              new_fake_client_sets
                (some k8s)
                discovery_client
                api_extensions_client
                master_url
                kube_config
                schedule
                dynamic
                crane)))).extensions_informer_factory
        ≡ some (lib.extensions none)
  unfolding new_informer_factories fake_methods new_fake_client_sets
  new_informer_factories-fake lib k8s discovery_client api_extensions_client master_url kube_config
        schedule dynamic crane =
      refl
