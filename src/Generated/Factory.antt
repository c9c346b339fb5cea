-- ===== src/Generated/Factory.antt =====
-- pkg/client/informers/externalversions/factory.go. `C` are clients, `T` the functions that change list
-- options, `I` references to informers, and `W` the state in which a new informer is made. A
-- `reflect.Type` stands as its name, and a call holds the factory's lock to its end.
use kubesphere_schedule.Base.Int.{ℤ}
use kubesphere_schedule.Base.{
  lookup, insert, String, List, [], ◌∷◌, Option, none, some, Bool, true, false, if◌then◌else◌,
}

pub record SharedInformerFactory (C T I : Type 0) : Type 0 where
  pub client : C
  pub namespace : String
  pub tweak_list_options : Option T
  pub default_resync : ℤ
  pub custom_resync : List (String × ℤ)
  pub informers : List (String × I)
  pub started_informers : List (String × Bool)

-- `NewInformerFunc`.
abbrev pub NewInformer : Type 0 → Type 0 → Type 0 → Type 0
NewInformer C I W = C → ℤ → W → I × W

abbrev pub SharedInformerOption : Type 0 → Type 0 → Type 0 → Type 0
SharedInformerOption C T I = SharedInformerFactory C T I → SharedInformerFactory C T I

unfoldable pub set_resyncs : List (String × ℤ) → List (String × ℤ) → List (String × ℤ)
set_resyncs [] custom = custom
set_resyncs (entry ∷ config) custom = set_resyncs config (insert entry.0 entry.1 custom)

-- The loop over the informers that `WaitForCacheSync` has taken.
unfoldable pub sync_all : {I : Type 0} → (I → Bool) → List (String × I) → List (String × Bool)
sync_all synced [] = []
sync_all synced (entry ∷ walk) = insert entry.0 (synced entry.1) (sync_all synced walk)

module _ {C T I : Type 0} where
  unfoldable pub with_custom_resync_config : List (String × ℤ) → SharedInformerOption C T I
  unfolding set_resyncs
  with_custom_resync_config config f = record f {
    custom_resync = set_resyncs config f.custom_resync;
  }

  unfoldable pub with_tweak_list_options : T → SharedInformerOption C T I
  with_tweak_list_options tweak f = record f { tweak_list_options = some tweak }

  unfoldable pub with_namespace : String → SharedInformerOption C T I
  with_namespace namespace f = record f { namespace = namespace }

  unfoldable pub apply_options : List (SharedInformerOption C T I) → SharedInformerOption C T I
  apply_options [] f = f
  apply_options (option ∷ rest) f = apply_options rest (option f)

  unfoldable pub new_with_options :
      C → ℤ → List (SharedInformerOption C T I) → SharedInformerFactory C T I
  unfolding apply_options
  new_with_options client default_resync options = apply_options options (record {
    client = client;
    namespace = "";
    tweak_list_options = none;
    default_resync = default_resync;
    custom_resync = [];
    informers = [];
    started_informers = [];
  })

  unfoldable pub new_shared_informer_factory : C → ℤ → SharedInformerFactory C T I
  unfolding new_with_options
  new_shared_informer_factory client default_resync = new_with_options client default_resync []

  unfoldable pub new_filtered : C → ℤ → String → T → SharedInformerFactory C T I
  unfolding new_with_options with_namespace with_tweak_list_options
  new_filtered client default_resync namespace tweak =
      new_with_options client default_resync
        (with_namespace namespace ∷ with_tweak_list_options tweak ∷ [])

  -- `f.startedInformers[t]`: a missing key reads as false.
  unfoldable pub is_started : SharedInformerFactory C T I → String → Bool
  is_started f type = elim (lookup type f.started_informers) [ none ↦ false | some b ↦ b ]

  unfoldable pub mark_started : String → SharedInformerFactory C T I → SharedInformerFactory C T I
  mark_started type f = record f { started_informers = insert type true f.started_informers }

  -- `Start`: the list is the map of informers in the order in which the loop walks it, and the
  -- result has the informers that it gives a goroutine with `Run`, by their types.
  unfoldable pub start :
      List (String × I)
      → SharedInformerFactory C T I
      → SharedInformerFactory C T I × List (String × I)
  unfolding is_started mark_started
  start [] f = (f, [])
  start (entry ∷ walk) f =
      let later = start walk (if is_started f entry.0 then f else mark_started entry.0 f) in
      if is_started f entry.0 then later else (later.0, entry ∷ later.1)

  -- The informers of `WaitForCacheSync`: the started ones.
  unfoldable pub started_of : SharedInformerFactory C T I → List (String × I) → List (String × I)
  unfolding is_started
  started_of f [] = []
  started_of f (entry ∷ walk) =
      let later = started_of f walk in
      if is_started f entry.0 then insert entry.0 entry.1 later else later

  -- `synced` is what `cache.WaitForCacheSync` answers for an informer.
  unfoldable pub wait_for_cache_sync :
      (I → Bool) → SharedInformerFactory C T I → List (String × Bool)
  unfolding started_of sync_all
  wait_for_cache_sync synced f = sync_all synced (started_of f f.informers)

  unfoldable pub resync_period : SharedInformerFactory C T I → String → ℤ
  resync_period f type = elim (lookup type f.custom_resync) [
    | none ↦ f.default_resync
    | some period ↦ period
  ]

-- `InformerFor`, by the type of its object.
unfoldable pub informer_for :
    {C T I W : Type 0}
    → String
    → NewInformer C I W
    → SharedInformerFactory C T I
    → W
    → I × SharedInformerFactory C T I × W
unfolding resync_period
informer_for type new_informer f w = elim (lookup type f.informers) [
  | some informer ↦ (informer, f, w)
  | none ↦
      let (informer, w') = new_informer f.client (resync_period f type) w in
      (informer, record f { informers = insert type informer f.informers }, w')
]
