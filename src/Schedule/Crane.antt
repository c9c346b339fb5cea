-- ===== src/Schedule/Crane.antt =====
-- pkg/service/schedule/crane.go, and `convertAnalytics` of utils.go.
use kubesphere_schedule.Schedule.Types.{Analytics, ResourceSelector}
use kubesphere_schedule.Schedule.Cluster.{ApiError, Client}
use kubesphere_schedule.Base.{◌∷◌, some, none, if◌then◌else◌, eqb, [], String, Option}
use Prim.Native.String.{◌++◌ as ◌++ˢ◌}
use mathlib.Core.Option

-- `strings.ToLower(fmt.Sprintf("kubesphere-%s-%s", ...))`, with `to_lower` of the standard library.
unfoldable pub analytics_name : (String → String) → ResourceSelector → String
analytics_name to_lower target = to_lower ("kubesphere-" ++ˢ target.kind ++ˢ "-" ++ˢ target.name)

unfoldable pub convert_analytics :
    (String → String) → ResourceSelector → String → String × Analytics
convert_analytics to_lower target strategy =
    let name = analytics_name to_lower target in
    (
      name,
      record {
        name = name;
        type = "Resource";
        resource_selectors =
            record { kind = target.kind; api_version = target.api_version; name = target.name }
            ∷ [];
        completion_strategy = strategy;
      },
    )

module _ {W D : Type 0} (to_lower : String → String) (client : Client W Analytics D) where
  -- `fmt.Errorf("create analytics error: %w", err)`
  abbrev pub wrapped : ApiError → ApiError
  wrapped e = record e { message = "create analytics error: " ++ˢ e.message }

  unfoldable pub create_missing : String → Analytics → W → Option ApiError × W
  create_missing namespace analytics w =
      let ((ret, err), w') = client.create namespace analytics w in (Option.map wrapped err, w')

  unfoldable pub update_found : String → String → Analytics → W → Option ApiError × W
  update_found namespace name analytics w =
      let analytics_copy = analytics in
      elim (client.merge_data analytics analytics_copy).1 [
        | some e ↦ (some e, w)
        | none ↦
            let data' = (client.merge_data analytics analytics_copy).0 in
            if eqb (client.data_len data') 2
            then (none, w)
            else let ((item, err), w') = client.patch namespace name data' w in (err, w')
      ]

  -- `analytics, err := ...Get(...)` assigns what `convertAnalytics` has built anew.
  unfoldable pub create_crane_analysis :
      String → ResourceSelector → String → W → Option ApiError × W
  unfolding create_missing update_found convert_analytics
  create_crane_analysis namespace target strategy w =
      let (name, built) = convert_analytics to_lower target strategy in
      let (analytics, err) = client.get namespace name w in
      elim err [
        | none ↦ update_found namespace name analytics w
        | some e ↦
            if e.not_found then create_missing namespace analytics w else (some (wrapped e), w)
      ]
