-- ===== src/Clients/Informers.antt =====
-- pkg/informers/informers.go and null_informers.go. `X` are clients, where `none` is a nil interface,
-- `I` are factories of informers, and `W` is the state that `Start` of a library's factory changes.
-- The generated factories are parameters.
use kubesphere_schedule.Base.{
  ◌≡◌, ◌∷◌, ◌++◌, some, none, is_some, if◌then◌else◌, arith, [], Option, List,
}

-- `NewSharedInformerFactory` of each library, with the resync period; the one of the extensions may
-- be given nil. `start` is a factory's `Start`.
pub record InformerLib (X I W : Type 0) : Type 0 where
  pub kubernetes : X → I
  pub schedule : X → I
  pub apiextensions : X → I
  pub dynamic : X → I
  pub crane : X → I
  pub extensions : Option X → I
  pub start : I → W → W

pub record InformerFactories (I : Type 0) : Type 0 where
  pub informer_factory : Option I
  pub schedule_informer_factory : Option I
  pub apiextensions_informer_factory : Option I
  pub extensions_informer_factory : Option I
  pub dynamic_informer_factory : Option I
  pub crane_informer : Option I

-- The arguments of `NewInformerFactories`.
pub record Clientset (X : Type 0) : Type 0 where
  pub client : Option X
  pub schedule_client : Option X
  pub ext_client : Option X
  pub crane_client : Option X
  pub apiextensions_client : Option X
  pub dynamic_client : Option X

module _ {X I W : Type 0} (lib : InformerLib X I W) where
  abbrev pub map_some : (X → I) → Option X → Option I
  map_some f none = none
  map_some f (some x) = some (f x)

  unfoldable pub new_informer_factories : Clientset X → InformerFactories I
  new_informer_factories c = record {
    informer_factory = map_some lib.kubernetes c.client;
    schedule_informer_factory = map_some lib.schedule c.schedule_client;
    apiextensions_informer_factory = map_some lib.apiextensions c.apiextensions_client;
    dynamic_informer_factory = map_some lib.dynamic c.dynamic_client;
    crane_informer = map_some lib.crane c.crane_client;
    extensions_informer_factory =
        if is_some c.client then some (lib.extensions c.ext_client) else none;
  }

  abbrev pub start_some : Option I → W → W
  start_some none w = w
  start_some (some i) w = lib.start i w

  unfoldable pub start_factories : InformerFactories I → W → W
  start_factories f w =
      let w1 = start_some f.informer_factory w in
      let w2 = start_some f.schedule_informer_factory w1 in
      let w3 = start_some f.apiextensions_informer_factory w2 in
      let w4 = start_some f.extensions_informer_factory w3 in
      let w5 = start_some f.dynamic_informer_factory w4 in start_some f.crane_informer w5

  abbrev pub start_all : List I → W → W
  start_all [] w = w
  start_all (i ∷ is) w = start_all is (lib.start i w)

  abbrev pub made : (X → I) → Option X → List I
  made f none = []
  made f (some x) = f x ∷ []

  -- What `Start` starts behind `NewInformerFactories`: the factory of each client that is given, in
  -- the order Kubernetes, schedule, API extensions, extensions, dynamic, crane; that of the
  -- extensions exactly where the Kubernetes client is given, over an extensions client or nil.
  pub start_factories-starts :
      (c : Clientset X) (w : W)
      → start_factories (new_informer_factories c) w
        ≡ start_all
            (made lib.kubernetes c.client
              ++ (made lib.schedule c.schedule_client
                  ++ (made lib.apiextensions c.apiextensions_client
                      ++ (made (λ x. lib.extensions c.ext_client) c.client
                          ++ (made lib.dynamic c.dynamic_client
                              ++ made lib.crane c.crane_client)))))
            w
  unfolding start_factories new_informer_factories
  start_factories-starts c w = ground arith

-- `nullInformerFactory` over two fake factories: the others are nil, and `Start` starts none.
unfoldable pub new_null_informer_factory : {I : Type 0} → I → I → InformerFactories I
new_null_informer_factory fake_k8s fake_schedule = record {
  informer_factory = some fake_k8s;
  schedule_informer_factory = some fake_schedule;
  apiextensions_informer_factory = none;
  extensions_informer_factory = none;
  dynamic_informer_factory = none;
  crane_informer = none;
}

unfoldable pub start_null : {I W : Type 0} → InformerFactories I → W → W
start_null f w = w
