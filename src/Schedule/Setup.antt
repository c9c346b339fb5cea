-- ===== src/Schedule/Setup.antt =====
-- `SetupWithManager` of pkg/controller/schedule/analysis/analysis_controller.go, with `NotNil` and
-- `IsNil` of utils.go.
use kubesphere_schedule.Base.{
  ◌≡◌, ◌∷◌, ◌↔◌, ◌&&◌, true, some, returned, refl, panicked, not, none, join, is_some,
  if◌then◌else◌, false, arith, [], String, Outcome, Option, List, Bool, All,
}

-- What reflection tells of a value: no value at all, a kind that can be nil, or another kind.
pub data Reflected : Type 0 where
  no_value plain : Reflected
  nilable : (nil : Bool) → Reflected

unfoldable pub is_nil : Reflected → Bool
is_nil no_value = true
is_nil plain = false
is_nil (nilable nil) = nil

-- The error; `show` is the verb %v.
unfoldable pub not_nil :
    (show : Reflected → String) → Reflected → (msgs : List String) → Option String
unfolding is_nil
not_nil show obj msgs =
    if not (is_nil obj)
    then none
    else some (
        join "[" (
          join (show obj) (
            join "] is nil"
              (elim msgs [ [] ↦ "" | ◌∷◌ msg rest ↦ join " [" (join msg (join_all rest)) ]))))
  where
    join_all : List String → String
    join_all [] = "]"
    join_all (m ∷ ms) = join " " (join m (join_all ms))

-- The fields of the reconciler that are looked at; `SchedulerConfig` is a struct.
pub record ReconcilerFields : Type 0 where
  pub k8s_client : Reflected
  pub schedule_client : Reflected
  pub deployment_informer : Reflected
  pub namespace_informer : Reflected
  pub dynamic_informer : Reflected
  pub name_space_cache : Reflected
  pub analytics_informer : Reflected
  pub recommendation_informer : Reflected

abbrev pub checked : ReconcilerFields → List Reflected
checked r =
    r.k8s_client ∷ r.schedule_client ∷ r.deployment_informer ∷ r.namespace_informer
    ∷ r.dynamic_informer ∷ r.name_space_cache ∷ plain ∷ r.analytics_informer
    ∷ r.recommendation_informer ∷ []

-- The informers that get a handler.
pub data Watched : Type 0 where
  deployments namespaces cluster_configurations analytics recommendations : Watched

-- `urlruntime.Must` of each check in turn.
unfoldable pub must_all : (show : Reflected → String) → List Reflected → Bool
unfolding not_nil
must_all show [] = true
must_all show (obj ∷ objs) = not (is_some (not_nil show obj [])) && must_all show objs

-- The handlers that are added, and the error of the builder, which `complete` gives.
unfoldable pub setup_with_manager :
    (show : Reflected → String)
    → (complete : Option String) → ReconcilerFields
    → Outcome (List Watched × Option String)
unfolding must_all
setup_with_manager show complete r =
    if must_all show (checked r)
    then returned (
      deployments ∷ namespaces ∷ cluster_configurations ∷ analytics ∷ recommendations ∷ [],
      complete,
    )
    else panicked

must_all_iff :
    (show : Reflected → String) (objs : List Reflected)
    → (must_all show objs ≡ true) ↔ All (λ obj. is_nil obj ≡ false) objs
unfolding must_all not_nil
must_all_iff show [] = (λ h. tt, λ h. refl)
must_all_iff show (obj ∷ objs) = ground (arith, must_all_iff show objs)

-- The setup returns exactly where none of the fields is nil; then every one of the five informers
-- has its handler, and the error is that of the builder.
pub setup_with_manager-returns_iff :
    (show : Reflected → String) (complete : Option String) (r : ReconcilerFields)
    → (setup_with_manager show complete r
        ≡ returned (
          deployments ∷ namespaces ∷ cluster_configurations ∷ analytics ∷ recommendations ∷ [],
          complete,
        ))
      ↔ All (λ obj. is_nil obj ≡ false) (checked r)
unfolding setup_with_manager
setup_with_manager-returns_iff show complete r = ground (arith, must_all_iff show (checked r))
