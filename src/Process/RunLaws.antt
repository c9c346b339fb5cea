-- ===== src/Process/RunLaws.antt =====
-- How `run` of the controllers ends, and which controllers are set up.
use mathlib.Core.Path.{subst}
use kubesphere_schedule.Base.Results.{failed, ok, Result}
use kubesphere_schedule.Process.Options.{is_controller_enabled, ControllerManagerOptions}
use kubesphere_schedule.Utils.Slices.{has_string}
use kubesphere_schedule.Process.Run.{
  Ending, ManagerOptions, run_with, ends_in_panic, manager_options, run, disabled, added,
  ends_process, ends_with, run_clientset, Report, ReconcilerParts, start_manager, report,
  add_all_controllers, run_manager, add_controller, ManagerLib,
}
use kubesphere_schedule.Clients.Informers.{start_factories, new_informer_factories, InformerLib}
use kubesphere_schedule.Clients.Kubernetes.{new_kubernetes_client, KubernetesClient, ClientLib}
use kubesphere_schedule.Base.{
  ◌≢◌, refl, inr, inl, Option-cases, ◌↔◌, some, Option, ◌⊎◌, ◌≡◌, ◌∷◌, true, none, if◌then◌else◌,
  eq_iff, arith, [], String, List,
}

manager_options-none_iff :
    {F : Type 0} (s : ControllerManagerOptions F)
    → (manager_options s ≡ none) ↔ ((s.leader_elect ≡ true) × (s.leader_election ≡ none))
unfolding manager_options
manager_options-none_iff s = ground arith

module _ {F X I W M : Type 0} (clients : ClientLib F X) (informers : InformerLib X I W)
    (managers : ManagerLib F X I W M) where
  -- Whatever the gates: where the controllers are added without an error, the one controller has been
  -- set up and is among the names set up, and the gates decide only whether it is logged as added or
  -- as disabled.
  pub add_controller-ignores_gates :
      (mgr : M) (parts : ReconcilerParts F X I) (o : ControllerManagerOptions F)
      (succeeded : List String) (reports : List Report) (names : List String)
      → add_controller clients informers managers mgr parts o succeeded ≡ (ok reports, names)
      → (managers.setup mgr parts ≡ none)
        × (has_string names "analysis" ≡ true)
        × (reports
            ≡ (if is_controller_enabled o "analysis" then added "analysis" else disabled "analysis")
              ∷ [])
  unfolding add_controller report has_string
  add_controller-ignores_gates mgr parts o succeeded reports names h =
      ground (arith, eq_iff "analysis" "analysis")

  -- What the reconciler of tasks is made of, over all clients.
  abbrev pub parts_of : KubernetesClient F X → ReconcilerParts F X I
  parts_of k = record {
    client = k;
    kubernetes_informers = informers.kubernetes k.k8s;
    crane_informers = informers.crane k.ext;
    dynamic_informers = some (informers.dynamic k.dynamic);
  }

  -- The manager of some options is made, knows the APIs, has the controller, and runs to its end
  -- behind the started informers, all without an error.
  abbrev pub RunsWell : KubernetesClient F X → Result M → W → Type 0
  RunsWell k made w =
      (mgr : M) × (made ≡ ok mgr)
      × (managers.register mgr ≡ none)
      × (managers.setup mgr (parts_of k) ≡ none)
      × ((managers.start mgr (
            start_factories informers
              (new_informer_factories informers (run_clientset clients informers managers k)) w)).0
          ≡ none)

  run_manager-ends :
      (k : KubernetesClient F X) (s : ControllerManagerOptions F) (succeeded : List String)
      (made : Result M) (w : W)
      → let ending =
          (run_manager clients informers managers k
            (new_informer_factories informers (run_clientset clients informers managers k))
            s
            succeeded
            made
            w).0 in
        ((ending ≡ ends_with none) ⊎ ((e : String) × (ending ≡ ends_process e)))
        × ((ending ≡ ends_with none) ↔ RunsWell k made w)
  unfolding run_manager add_all_controllers add_controller start_manager new_informer_factories
  run_manager-ends k s succeeded (failed e) w = (
    inr (_, refl),
    (λ h. ground arith, λ h. let (mgr, same, registered, set, ran) = h in ground arith),
  )
  run_manager-ends k s succeeded (ok mgr) w = (
    ground arith,
    (
      λ h.
          let registered : managers.register mgr ≡ none = ground arith in
          let set : managers.setup mgr (parts_of k) ≡ none = ground arith in
          (mgr, refl, registered, set, ground arith),
      λ h. let (mgr', same, registered, set, ran) = h in ground arith,
    ),
  )

  panics :
      (k : KubernetesClient F X) (s : ControllerManagerOptions F) (succeeded : List String) (w : W)
      → ((run_with clients informers managers (ok (some k)) s succeeded w).0 ≡ ends_in_panic) ↔ (
          (ok (some k) ≡ ok none)
          ⊎ ((k' : KubernetesClient F X) × (ok (some k) ≡ ok (some k'))
              × (s.leader_elect ≡ true)
              × (s.leader_election ≡ none)))
  unfolding run_with
  panics k s succeeded w = (
    λ h. elim (Option-cases (manager_options s)) [
      | inl unread ↦
          let (elects, unset) = (manager_options-none_iff s).0 unread in
          inr (k, refl, elects, unset)
      | inr (options, read) ↦
          ground
            (arith, (run_manager-ends k s succeeded (managers.new_manager k.config options) w).0)
    ],
    λ h. elim h [
      | inl impossible ↦ cc
      | inr (k', same, elects, unset) ↦ ground (arith, manager_options-none_iff s)
    ],
  )

  -- The clients are made, and with the options that are read from `s` all runs well.
  abbrev pub Succeeds :
      Result (Option (KubernetesClient F X)) → ControllerManagerOptions F → W → Type 0
  Succeeds made s w =
      (k : KubernetesClient F X) × (options : ManagerOptions) × (made ≡ ok (some k))
      × (manager_options s ≡ some options)
      × RunsWell k (managers.new_manager k.config options) w

  succeeds :
      (k : KubernetesClient F X) (s : ControllerManagerOptions F) (succeeded : List String) (w : W)
      → ((run_with clients informers managers (ok (some k)) s succeeded w).0 ≡ ends_with none)
        ↔ Succeeds (ok (some k)) s w
  unfolding run_with
  succeeds k s succeeded w = (
    λ h. elim (Option-cases (manager_options s)) [
      | inl unread ↦ absurd (ground arith)
      | inr (options, read) ↦
          let made = managers.new_manager k.config options in
          let ends : (run_manager clients informers managers k
                (new_informer_factories informers (run_clientset clients informers managers k)) s
                succeeded made w).0
              ≡ ends_with none =
            ground arith in
          (k, options, refl, read, (run_manager-ends k s succeeded made w).1.0 ends)
    ],
    λ h.
        let (k', options, same, read, well) = h in
        let e : k' ≡ k = ground arith in
        let ran = subst (λ x. RunsWell x (managers.new_manager x.config options) w) e well in
        ground (
          arith,
          (run_manager-ends k s succeeded (managers.new_manager k.config options) w).1.1 ran,
        ),
  )

  no_error :
      (k : KubernetesClient F X) (s : ControllerManagerOptions F) (succeeded : List String) (w : W)
      (e : String)
      → (run_with clients informers managers (ok (some k)) s succeeded w).0 ≢ ends_with (some e)
  unfolding run_with
  no_error k s succeeded w e h = elim (Option-cases (manager_options s)) [
    | inl unread ↦ ground arith
    | inr (options, read) ↦
        ground (arith, (run_manager-ends k s succeeded (managers.new_manager k.config options) w).0)
  ]

  -- Which ending there is, by what fails.
  abbrev pub IsEnding :
      Result (Option (KubernetesClient F X)) → ControllerManagerOptions F → W → Ending → Type 0
  IsEnding made s w ending =
      ((e : String) → (ending ≡ ends_with (some e)) ↔ (made ≡ failed e))
      × ((ending ≡ ends_in_panic) ↔ (
          (made ≡ ok none)
          ⊎ ((k : KubernetesClient F X) × (made ≡ ok (some k))
              × (s.leader_elect ≡ true)
              × (s.leader_election ≡ none))))
      × ((ending ≡ ends_with none) ↔ Succeeds made s w)

  run_with-ends :
      (made : Result (Option (KubernetesClient F X))) (s : ControllerManagerOptions F)
      (succeeded : List String) (w : W)
      → IsEnding made s w (run_with clients informers managers made s succeeded w).0
  unfolding run_with manager_options
  run_with-ends (failed e) s succeeded w = (
    λ e'. ground arith,
    ground arith,
    (λ h. ground arith, λ h. let (k, options, same, read, well) = h in cc),
  )
  run_with-ends (ok none) s succeeded w = (
    λ e'. ground arith,
    ground arith,
    (λ h. ground arith, λ h. let (k, options, same, read, well) = h in cc),
  )
  run_with-ends (ok (some k)) s succeeded w = (
    λ e'. (λ h. absurd (no_error k s succeeded w e' h), λ h. cc),
    panics k s succeeded w,
    succeeds k s succeeded w,
  )

  -- How `run` ends, on every branch: it returns an error exactly where the clients cannot be made,
  -- with that error; it panics exactly where there are no Kubernetes options, or leader election is
  -- on and its times are nil, once the clients are made; it returns nil exactly where the clients and
  -- the manager are made, the APIs are registered, the controller is set up and the manager runs to
  -- its end without an error. Any other failure ends the process: there is no other ending.
  pub run-ends :
      (s : ControllerManagerOptions F) (succeeded : List String) (w : W)
      → IsEnding
          (new_kubernetes_client clients s.kubernetes_options)
          s
          w
          (run clients informers managers s succeeded w).0
  unfolding run
  run-ends s succeeded w =
      run_with-ends (new_kubernetes_client clients s.kubernetes_options) s succeeded w
