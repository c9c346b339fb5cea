-- ===== src/Schedule/CraneLaws.antt =====
-- What `CreateCraneAnalysis` does to the cluster.
use kubesphere_schedule.Schedule.Crane.{
  wrapped, update_found, convert_analytics, create_missing, analytics_name, create_crane_analysis,
}
use kubesphere_schedule.Schedule.Types.{ResourceSelector, Analytics}
use kubesphere_schedule.Schedule.Cluster.{ApiError, HasEmptyPatch, Client}
use kubesphere_schedule.Base.{if◌then◌else◌, Option, refl, arith, ◌≡◌, some, none, String}

module _ {W D : Type 0} (to_lower : String → String) (client : Client W Analytics D) where
  create_of_name : String → String → W → Option ApiError × W
  create_of_name namespace name w = elim (client.get namespace name w).1 [
    | none ↦ update_found to_lower client namespace name (client.get namespace name w).0 w
    | some e ↦
        if e.not_found
        then create_missing to_lower client namespace (client.get namespace name w).0 w
        else (some (wrapped to_lower client e), w)
  ]

  create_crane_analysis-of_name :
      (namespace : String) (target : ResourceSelector) (strategy : String) (w : W)
      → create_crane_analysis to_lower client namespace target strategy w
        ≡ create_of_name namespace (analytics_name to_lower target) w
  unfolding create_crane_analysis create_of_name convert_analytics
  create_crane_analysis-of_name namespace target strategy w = refl

  -- What `CreateCraneAnalysis` does depends on the target through the name alone, and on the
  -- strategy not at all: two calls whose targets give one name answer alike and leave one
  -- cluster, whatever the strategies.
  pub create_crane_analysis-ignores :
      (namespace : String) (target target' : ResourceSelector) (strategy strategy' : String) (w : W)
      → analytics_name to_lower target ≡ analytics_name to_lower target'
      → create_crane_analysis to_lower client namespace target strategy w
        ≡ create_crane_analysis to_lower client namespace target' strategy' w
  create_crane_analysis-ignores namespace target target' strategy strategy' w e =
      let of_name = create_crane_analysis-of_name namespace in
      rw (of_name target strategy w, of_name target' strategy' w, e) refl

  -- Where the client finds analytics of the name, `CreateCraneAnalysis` changes nothing and
  -- returns no error. The client computes from an object to itself a patch of two bytes, without
  -- an error.
  pub create_crane_analysis-found :
      (namespace : String) (target : ResourceSelector) (strategy : String) (w : W)
      → HasEmptyPatch client
      → (client.get namespace (analytics_name to_lower target) w).1 ≡ none
      → create_crane_analysis to_lower client namespace target strategy w ≡ (none, w)
  unfolding create_crane_analysis
  create_crane_analysis-found namespace target strategy w p e =
      let found = (client.get namespace (analytics_name to_lower target) w).0 in
      ground (arith, p.no_error found, p.two_bytes found)
