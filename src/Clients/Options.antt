-- ===== src/Clients/Options.antt =====
-- pkg/client/k8s/options.go and pkg/client/schedule/options.go. `F` is `float32`, which the program
-- only copies and compares with 0; the home directory and `os.Stat` are parameters.
use kubesphere_schedule.Base.Int.{eqb_ℤ, ℤ, pos}
use kubesphere_schedule.Clients.Reflect.{
  struct_pointer, override_fields, nil_value, override, Argument,
}
use kubesphere_schedule.Base.{
  ◌≡◌, ◌∷◌, ◌*◌, ℕ, true, some, returned, refl, not, none, is_some, is_empty, if◌then◌else◌, false,
  arith, [], String, Outcome, Option, List, Bool,
}

-- What the options use of `float32`.
pub record Floats (F : Type 0) : Type 0 where
  pub of_ℕ : ℕ → F
  pub is_zero : F → Bool

-- `homedir.HomeDir` joined with ".kube/config", and `os.Stat`, which gives an error or none;
-- `is_not_exist` is `os.IsNotExist`.
pub record Files : Type 0 where
  pub user_home_config : String
  pub stat : String → Option String
  pub is_not_exist : String → Bool

pub record KubernetesOptions (F : Type 0) : Type 0 where
  pub kube_config : String
  pub master : String
  pub qps : F
  pub burst : ℤ

-- The values of the fields, as reflection sees them.
pub data FieldValue (F : Type 0) : Type 0 where
  text : String → FieldValue F
  float : F → FieldValue F
  int : ℤ → FieldValue F

module _ {F : Type 0} (floats : Floats F) where
  abbrev pub exists : Files → Bool
  exists files = elim (files.stat files.user_home_config) [
    | none ↦ true
    | some err ↦ not (files.is_not_exist err)
  ]

  unfoldable pub new_kubernetes_options : Files → KubernetesOptions F
  new_kubernetes_options files = record {
    kube_config = if exists files then files.user_home_config else "";
    master = "";
    qps = floats.of_ℕ 1000000;
    burst = pos 1000000;
  }

  unfoldable pub validate_kubernetes : Files → KubernetesOptions F → List String
  validate_kubernetes files k =
      if is_empty k.kube_config
      then []
      else elim (files.stat k.kube_config) [ none ↦ [] | some err ↦ err ∷ [] ]

  unfoldable pub is_zero_value : FieldValue F → Bool
  is_zero_value (text s) = is_empty s
  is_zero_value (float x) = floats.is_zero x
  is_zero_value (int n) = eqb_ℤ n (pos 0)

  unfoldable pub same_kind : FieldValue F → FieldValue F → Bool
  same_kind (text s) (text t) = true
  same_kind (float x) (float y) = true
  same_kind (int m) (int n) = true
  same_kind value old = false

  unfoldable pub fields : KubernetesOptions F → List (FieldValue F)
  fields k = text k.kube_config ∷ text k.master ∷ float k.qps ∷ int k.burst ∷ []

  -- `none` is a nil pointer.
  unfoldable pub pointer_to : Option (KubernetesOptions F) → Argument (FieldValue F)
  unfolding fields
  pointer_to none = nil_value
  pointer_to (some k) = struct_pointer (fields k)

  -- `k.ApplyTo(options)`.
  unfoldable pub apply_kubernetes :
      Option (KubernetesOptions F)
      → Option (KubernetesOptions F)
      → Outcome (Argument (FieldValue F))
  unfolding override pointer_to is_zero_value same_kind
  apply_kubernetes k options = override is_zero_value same_kind (pointer_to options) (pointer_to k)

  -- The options where those of `k` that are set replace the others.
  abbrev pub replaced : KubernetesOptions F → KubernetesOptions F → KubernetesOptions F
  replaced k options = record {
    kube_config = if is_empty k.kube_config then options.kube_config else k.kube_config;
    master = if is_empty k.master then options.master else k.master;
    qps = if floats.is_zero k.qps then options.qps else k.qps;
    burst = if eqb_ℤ k.burst (pos 0) then options.burst else k.burst;
  }

  -- `ApplyTo` never panics: it replaces exactly the options that are not the zero value in the
  -- receiver, and does nothing where either pointer is nil.
  pub apply_kubernetes-returns :
      (k options : Option (KubernetesOptions F))
      → apply_kubernetes k options
        ≡ returned (
            pointer_to (elim k [
              | none ↦ options
              | some new ↦ elim options [ none ↦ none | some old ↦ some (replaced new old) ]
            ]))
  unfolding apply_kubernetes override override_fields pointer_to fields same_kind is_zero_value
  apply_kubernetes-returns none none = refl
  apply_kubernetes-returns none (some old) = refl
  apply_kubernetes-returns (some new) none = refl
  apply_kubernetes-returns (some new) (some old) = ground arith

-- `Options` of the schedule client; a wait time is a number of nanoseconds.
pub record ReleaseControllerOptions : Type 0 where
  pub max_concurrent : ℤ
  pub wait_time : ℤ

-- A pointer, where `none` is nil.
pub record ScheduleOptions : Type 0 where
  pub release_controller_options : Option ReleaseControllerOptions

unfoldable pub new_schedule_options : ScheduleOptions
new_schedule_options = record {
  release_controller_options =
      some (record { max_concurrent = pos 10; wait_time = pos (30 * 1000000000) });
}

unfoldable pub schedule_pointer :
    Option ScheduleOptions → Argument (Option ReleaseControllerOptions)
schedule_pointer none = nil_value
schedule_pointer (some s) = struct_pointer (s.release_controller_options ∷ [])

-- `DeepEqual` with the zero value of a pointer is true of nil alone; the one field is of one type.
unfoldable pub apply_schedule :
    ScheduleOptions → Option ScheduleOptions → Outcome (Argument (Option ReleaseControllerOptions))
unfolding override schedule_pointer
apply_schedule s options =
    if is_some s.release_controller_options
    then override (λ p. not (is_some p)) (λ p q. true) (schedule_pointer options)
        (schedule_pointer (some s))
    else returned (schedule_pointer options)

unfoldable pub validate_schedule : ScheduleOptions → List String
validate_schedule s = []
