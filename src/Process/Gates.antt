-- ===== src/Process/Gates.antt =====
-- What the gates of the controllers and the checks of the options mean.
use kubesphere_schedule.Clients.Options.{KubernetesOptions, Files, Floats, validate_kubernetes}
use kubesphere_schedule.Utils.Slices.{has_string}
use kubesphere_schedule.Process.Options.{
  check_selector, validate_controller, trim_dash, ControllerManagerOptions, enabled_from,
  is_controller_enabled, check_gates,
}
use kubesphere_schedule.Base.{
  append-nil, Option-cases, some, returned, none, is_empty, Option, ◌⊎◌, ◌≡◌, ◌∷◌, ◌↔◌, ◌||◌, ◌==◌,
  ◌++◌, true, refl, join, inr, inl, false, eq_iff, arith, ap, after, [], String, List, Bool-cases,
  Bool, All,
}

-- The gates name the controller before they switch it off.
abbrev pub IsSwitchedOn : String → List String → Type 0
IsSwitchedOn name gates =
    (before : List String) × (after : List String) × (gates ≡ before ++ (name ∷ after))
    × (has_string before (join "-" name) ≡ false)

-- The gates do not name the controller, on or off.
abbrev pub IsUnnamed : String → List String → Type 0
IsUnnamed name gates = (has_string gates name ≡ false) × (has_string gates (join "-" name) ≡ false)

switched_on-enabled :
    (name : String) (b : Bool) (before after : List String)
    → has_string before (join "-" name) ≡ false
    → enabled_from name b (before ++ (name ∷ after)) ≡ true
unfolding enabled_from has_string
switched_on-enabled name b [] after h = ground (arith, eq_iff name name)
switched_on-enabled name b (ctrl ∷ before) after h =
    ground (arith, switched_on-enabled name (b || ctrl == "*") before after)

unnamed-enabled :
    (name : String) (b : Bool) (gates : List String)
    → IsUnnamed name gates
    → enabled_from name b gates ≡ (b || has_string gates "*")
unfolding enabled_from has_string
unnamed-enabled name b [] h = ground arith
unnamed-enabled name b (ctrl ∷ gates) h =
    ground (arith, unnamed-enabled name (b || ctrl == "*") gates)

enabled-cases :
    (name : String) (b : Bool) (gates : List String)
    → enabled_from name b gates ≡ true
    → IsSwitchedOn name gates ⊎ IsUnnamed name gates
unfolding enabled_from has_string
enabled-cases name b [] h = inr (refl, refl)
enabled-cases name b (ctrl ∷ gates) h = elim (Bool-cases (ctrl == name)) [
  | inl same ↦ inl ([], gates, ap (λ c. c ∷ gates) ((eq_iff ctrl name).0 same), refl)
  | inr other ↦ elim (Bool-cases (ctrl == join "-" name)) [
    | inl off ↦ ground (arith)
    | inr on ↦ elim (enabled-cases name (b || ctrl == "*") gates (ground arith)) [
      | inl (before, after, e, clean) ↦
          inl (ctrl ∷ before, after, ap (λ g. ctrl ∷ g) e, ground arith)
      | inr unnamed ↦ inr (ground arith)
    ]
  ]
]

-- A controller is enabled exactly where its name stands among the gates with no gate in front of it
-- that switches it off, or where the gates have "*" and name it in neither form, in whatever order
-- they stand.
pub is_controller_enabled_iff :
    {F : Type 0} (o : ControllerManagerOptions F) (name : String)
    → (is_controller_enabled o name ≡ true) ↔ (
        IsSwitchedOn name o.controller_gates
        ⊎ (IsUnnamed name o.controller_gates × (has_string o.controller_gates "*" ≡ true)))
unfolding is_controller_enabled
is_controller_enabled_iff o name = (
  λ h. elim (enabled-cases name false o.controller_gates h) [
    | inl on ↦ inl on
    | inr unnamed ↦
        inr (unnamed, ground (arith, unnamed-enabled name false o.controller_gates unnamed))
  ],
  λ h. elim h [
    | inl (before, after, e, clean) ↦ rw (e) (switched_on-enabled name false before after clean)
    | inr (unnamed, star) ↦ ground (arith, unnamed-enabled name false o.controller_gates unnamed)
  ],
)

-- A gate that `Validate` takes: "*", or a known name with or without a dash.
abbrev pub IsKnownGate : List String → String → Type 0
IsKnownGate names gate = (gate ≡ "*") ⊎ (has_string names (trim_dash gate) ≡ true)

check_gates-ok_iff :
    (quote : String → String) (names gates : List String)
    → (check_gates quote names gates ≡ []) ↔ All (IsKnownGate names) gates
unfolding check_gates
check_gates-ok_iff quote names [] = (λ h. tt, λ h. refl)
check_gates-ok_iff quote names (gate ∷ gates) =
    ground (arith, check_gates-ok_iff quote names gates, eq_iff gate "*")

validate_kubernetes-ok_iff :
    {F : Type 0} (floats : Floats F) (files : Files) (k : KubernetesOptions F)
    → (validate_kubernetes floats files k ≡ [])
      ↔ ((is_empty k.kube_config ≡ true) ⊎ (files.stat k.kube_config ≡ none))
unfolding validate_kubernetes
validate_kubernetes-ok_iff floats files k = ground arith

check_selector-ok_iff :
    (parse : String → Option String) (selector : String)
    → (check_selector parse selector ≡ []) ↔ ((is_empty selector ≡ true) ⊎ (parse selector ≡ none))
unfolding check_selector
check_selector-ok_iff parse selector = ground arith

append_three-nil :
    {P Q R : Type 0} (xs ys zs : List String)
    → (xs ≡ []) ↔ P
    → (ys ≡ []) ↔ Q
    → (zs ≡ []) ↔ R
    → (xs ++ (ys ++ zs) ≡ []) ↔ (P × Q × R)
append_three-nil xs ys zs p q r = (
  λ h.
      let (nx, rest) = (append-nil xs (ys ++ zs)).0 h in
      let (ny, nz) = (append-nil ys zs).0 rest in (p.0 nx, q.0 ny, r.0 nz),
  λ h.
      let (hp, hq, hr) = h in
      (append-nil xs (ys ++ zs)).1 (p.1 hp, (append-nil ys zs).1 (q.1 hq, r.1 hr)),
)

returned_iff : (errs : List String) → (returned errs ≡ returned []) ↔ (errs ≡ [])
returned_iff errs = ground arith

-- What is asked of options beside their being given.
abbrev pub IsAccepted :
    {F : Type 0}
    → Files
    → (String → Option String)
    → List String
    → KubernetesOptions F
    → ControllerManagerOptions F
    → Type 0
IsAccepted files parse names k o =
    ((is_empty k.kube_config ≡ true) ⊎ (files.stat k.kube_config ≡ none))
    × ((is_empty o.application_selector ≡ true) ⊎ (parse o.application_selector ≡ none))
    × All (IsKnownGate names) o.controller_gates

checks-ok_iff :
    {F : Type 0} (floats : Floats F) (files : Files) (parse : String → Option String)
    (quote : String → String) (names : List String) (k : KubernetesOptions F)
    (o : ControllerManagerOptions F)
    → (validate_kubernetes floats files k
          ++ (check_selector parse o.application_selector
              ++ check_gates quote names o.controller_gates)
        ≡ [])
      ↔ IsAccepted files parse names k o
checks-ok_iff floats files parse quote names k o =
    append_three-nil _ _ _ (validate_kubernetes-ok_iff floats files k)
      (check_selector-ok_iff parse o.application_selector)
      (check_gates-ok_iff quote names o.controller_gates)

-- The options of the controller manager are accepted exactly where there are Kubernetes options, a
-- kubeconfig that is named can be read, a selector that is given can be parsed, and each gate is "*"
-- or a known name with or without a dash.
pub validate_controller-ok_iff :
    {F : Type 0} (floats : Floats F) (files : Files) (parse : String → Option String)
    (quote : String → String) (names : List String) (o : ControllerManagerOptions F)
    → (validate_controller floats files parse quote names o ≡ returned []) ↔ (
        (k : KubernetesOptions F) × (o.kubernetes_options ≡ some k)
        × IsAccepted files parse names k o)
unfolding validate_controller
validate_controller-ok_iff {F = F} floats files parse quote names o =
    elim (Option-cases o.kubernetes_options) [
      | inl nil ↦ rw (nil) (λ h. ground arith, λ (k, given, rest). ground arith)
      | inr (k, given) ↦ rw (given) (
        λ h. (k, refl, (checks-ok_iff floats files parse quote names k o).0 ((returned_iff _).0 h)),
        λ (k', same, rest).
            let e : k ≡ k' = ground arith in
            (returned_iff _).1 ((checks-ok_iff floats files parse quote names k o).1 (rw (e) rest)),
      )
    ]
