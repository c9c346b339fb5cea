-- ===== src/Apiserver/Sync.antt =====
-- `WaitForCacheSync` and `waitForResourceSync` of pkg/apiserver/apiserver.go. `W` is the state of the
-- cluster and of the informers; the map of resources is the list of its entries in the order of the
-- walk.
use kubesphere_schedule.Schedule.Cluster.{ApiError}
use kubesphere_schedule.Base.{
  ◌≡◌, ◌∷◌, ◌==◌, true, some, refl, not, none, join, if◌then◌else◌, false, arith, any, [], String,
  Option, List, Bool,
}

pub record GroupVersionResource : Type 0 where
  pub group_version : String
  pub resource : String

-- Its `String`.
abbrev pub gvr_text : GroupVersionResource → String
gvr_text gvr = join gvr.group_version (join ", Resource=" gvr.resource)

-- `discover` is `ServerResourcesForGroupVersion`, the names of the resources; `retry` is
-- `retry.OnError` with its default backoff, which calls a function until its error is nil, or is one
-- that the test does not let through, or the backoff ends, and gives the last error.
pub record SyncLib (W : Type 0) : Type 0 where
  pub discover : String → W → (List String × Option ApiError) × W
  pub retry :
      (ApiError → Bool)
      → (List String × W → Option ApiError × (List String × W))
      → List String × W
      → Option ApiError × (List String × W)
  pub informer_for_resource : GroupVersionResource → W → Option String × W
  pub start : W → W
  pub wait_for_cache_sync : W → W

unfoldable pub is_resource_exists : List String → GroupVersionResource → Bool
is_resource_exists [] resource = false
is_resource_exists (name ∷ api_resources) resource =
    let later = is_resource_exists api_resources resource in
    if name == resource.resource then true else later

module _ {W : Type 0} (lib : SyncLib W) where
  -- The function that is retried: it assigns the list of its caller.
  unfoldable pub fetch_resources : String → List String × W → Option ApiError × (List String × W)
  fetch_resources group_version (resources, w) =
      let (answer, w') = lib.discover group_version w in (answer.1, (answer.0, w'))

  -- The loop over the names of one group; a resource that the server does not have is skipped.
  unfoldable pub create_informers : List String → String → List String → W → Option String × W
  unfolding is_resource_exists
  create_informers api_resources group_version [] w = (none, w)
  create_informers api_resources group_version (name ∷ names) w =
      let gvr : GroupVersionResource = record { group_version = group_version; resource = name } in
      let (err, w') = lib.informer_for_resource gvr w in
      if is_resource_exists api_resources gvr
      then elim err [
        | some e ↦
            (some (join "failed to create informer for " (join (gvr_text gvr) (join ": " e))), w')
        | none ↦ create_informers api_resources group_version names w'
      ]
      else create_informers api_resources group_version names w

  -- The loop over the groups.
  unfoldable pub create_all_informers : List (String × List String) → W → Option String × W
  unfolding fetch_resources create_informers
  create_all_informers [] w = (none, w)
  create_all_informers ((group_version, names) ∷ gvrs) w =
      let (err, fetched) =
        lib.retry (λ e. not e.not_found) (fetch_resources group_version) ([], w) in
      let (err', w') = create_informers fetched.0 group_version names fetched.1 in
      elim err [
        | some e ↦ (
          some (
              join "failed to fetch group version resources "
                (join group_version (join ": " e.message))),
          fetched.1,
        )
        | none ↦ elim err' [ some e ↦ (some e, w') | none ↦ create_all_informers gvrs w' ]
      ]

  unfoldable pub wait_for_cache_sync : List (String × List String) → W → Option String × W
  unfolding create_all_informers
  wait_for_cache_sync gvrs w =
      let (err, w') = create_all_informers gvrs w in
      elim err [ some e ↦ (some e, w') | none ↦ (none, lib.wait_for_cache_sync (lib.start w')) ]

  -- `runtime_cache` starts the cache of controller-runtime and waits for it.
  unfoldable pub wait_for_resource_sync : (runtime_cache : W → W) → W → Option String × W
  unfolding wait_for_cache_sync
  wait_for_resource_sync runtime_cache w =
      let (err, w') =
        wait_for_cache_sync (("schedule.kubesphere.io/v1alpha1", "analysistasks" ∷ []) ∷ []) w in
      elim err [ some e ↦ (some e, w') | none ↦ (none, runtime_cache w') ]

pub is_resource_exists-any :
    (names : List String) (resource : GroupVersionResource)
    → is_resource_exists names resource ≡ any (λ name. name == resource.resource) names
unfolding is_resource_exists
is_resource_exists-any [] resource = refl
is_resource_exists-any (name ∷ names) resource =
    ground (arith, is_resource_exists-any names resource)
