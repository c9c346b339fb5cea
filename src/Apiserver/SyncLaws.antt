-- ===== src/Apiserver/SyncLaws.antt =====
-- What `waitForResourceSync` of pkg/apiserver/apiserver.go starts of the generated factory of
-- pkg/client/informers/externalversions/factory.go.
use kubesphere_schedule.Apiserver.SyncFactory.{
  requested-informers, start-requested, tasks_gvr, generated_sync, schedule_version, requested,
  TaskSession,
}
use kubesphere_schedule.Base.Int.{ℤ}
use kubesphere_schedule.Generated.FactoryLaws.{as_count, runs_of, start-is_started}
use kubesphere_schedule.Generated.Factory.{is_started}
use kubesphere_schedule.Generated.InformerLaws.{tasks_of}
use kubesphere_schedule.Apiserver.Sync.{
  fetch_resources, wait_for_resource_sync, is_resource_exists-any, create_informers, SyncLib,
}
use kubesphere_schedule.Schedule.Cluster.{ApiError}
use kubesphere_schedule.Generated.Sessions.{
  request, make_calls-runs_of, make_call-RunsOnce, make_calls, RunsOnce,
  new_with_options-is_started, new_with_options-informers, new_session, FactoryOption, start_all,
  make_call,
}
use kubesphere_schedule.Generated.Informers.{
  task_type, tasks_resource, Tweak, for_resource, VersionedInterface, CacheLib,
}
use kubesphere_schedule.Base.{
  sym, false, join, ◌∙◌, ap, not, inr, inl, Bool-cases, ◌==◌, if◌then◌else◌, any, true, ◌≡◌, ◌∷◌,
  refl, lookup, [], some, none, cut, String, Option, List, Bool,
}
use kubesphere_schedule.Generated.Informers

module _ {O V W I X : Type 0} (cache : CacheLib O V W I X)
    (shown : Informers.GroupVersionResource → String)
    (server : String → List String × Option ApiError)
    (retry : (ApiError → Bool)
      → (List String × TaskSession O V I W → Option ApiError × (List String × TaskSession O V I W))
      → List String × TaskSession O V I W
      → Option ApiError × (List String × TaskSession O V I W))
    (order : List (String × I) → List (String × I)) where
  abbrev pub sync : SyncLib (TaskSession O V I W)
  sync = generated_sync cache shown server retry order

  -- The loop over the one resource of the schedule group.
  create_informers-tasks :
      (names : List String) (s : TaskSession O V I W)
      → create_informers sync names schedule_version ("analysistasks" ∷ []) s
        ≡ (none, if any (λ name. name == "analysistasks") names then requested cache s else s)
  unfolding create_informers generated_sync cut lookup
  create_informers-tasks names s =
      let named = is_resource_exists-any names tasks_gvr in
      elim (Bool-cases (any (λ name. name == "analysistasks") names)) [
        | inl found ↦ rw (named, found) refl
        | inr missing ↦ rw (named, missing) refl
      ]

  -- The rest of the loop, behind the fetched resources and behind the loop over the names.
  abbrev after_names : Option String × TaskSession O V I W → Option String × TaskSession O V I W
  after_names made = elim made.0 [ some e ↦ (some e, made.1) | none ↦ (none, made.1) ]

  abbrev after_fetch :
      Option ApiError × (List String × TaskSession O V I W) → Option String × TaskSession O V I W
  after_fetch x = elim x.0 [
    | some e ↦ (
      some (
          join "failed to fetch group version resources "
            (join schedule_version (join ": " e.message))),
      x.1.1,
    )
    | none ↦ after_names (create_informers sync x.1.0 schedule_version ("analysistasks" ∷ []) x.1.1)
  ]

  abbrev after_all : Option String × TaskSession O V I W → Option String × TaskSession O V I W
  after_all made = elim made.0 [
    | some e ↦ (some e, made.1)
    | none ↦ (none, sync.wait_for_cache_sync (sync.start made.1))
  ]

  wait_for_resource_sync-after_all :
      (s : TaskSession O V I W)
      → wait_for_resource_sync sync (λ s. s) s
        ≡ after_names (
            after_all (
              after_fetch (
                sync.retry (λ e. not e.not_found) (fetch_resources sync schedule_version) ([], s))))
  unfolding wait_for_resource_sync
  wait_for_resource_sync-after_all s = refl

  -- The sessions that `create_informers` may leave.
  abbrev asked : List String → TaskSession O V I W → TaskSession O V I W
  asked names s = if any (λ name. name == "analysistasks") names then requested cache s else s

  module _ (names : List String) (answers : server schedule_version ≡ (names, none))
      (retried : (test : ApiError → Bool)
          (f : List String × TaskSession O V I W
            → Option ApiError × (List String × TaskSession O V I W))
          (x : List String × TaskSession O V I W)
        → (f x).0 ≡ none
        → retry test f x ≡ f x) where
    fetched_resources :
        (s : TaskSession O V I W)
        → fetch_resources sync schedule_version ([], s) ≡ (none, (names, s))
    unfolding fetch_resources generated_sync
    fetched_resources s = λ i. ((answers i).1, ((answers i).0, s))

    retry-fetched :
        (s : TaskSession O V I W)
        → sync.retry (λ e. not e.not_found) (fetch_resources sync schedule_version) ([], s)
          ≡ (none, (names, s))
    unfolding generated_sync
    retry-fetched s =
        retried _ (fetch_resources sync schedule_version) ([], s)
          (ap (λ x. x.0) (fetched_resources s))
        ∙ fetched_resources s

    wait_for_resource_sync-asked :
        (s : TaskSession O V I W)
        → wait_for_resource_sync sync (λ s. s) s
          ≡ (none, sync.wait_for_cache_sync (sync.start (asked names s)))
    wait_for_resource_sync-asked s =
        wait_for_resource_sync-after_all s
        ∙ ap (λ x. after_names (after_all (after_fetch x))) (retry-fetched s)
        ∙ ap (λ made. after_names (after_all (after_names made))) (create_informers-tasks names s)

  -- What `Start` has started behind that.
  module _ (s : TaskSession O V I W) (empty : s.factory.informers ≡ [])
      (unstarted : is_started s.factory task_type ≡ false) (e0 : order [] ≡ [])
      (e1 : (entry : String × I) → order (entry ∷ []) ≡ entry ∷ []) where
    started_of-requested :
        is_started
          (make_call
            (start_all (order (requested cache s).factory.informers))
            (requested cache s)).factory
          task_type
        ≡ true
    unfolding make_call
    started_of-requested =
        start-requested cache s empty (order (requested cache s).factory.informers) (
          ap order (requested-informers cache s empty)
          ∙ e1 _
          ∙ sym (requested-informers cache s empty))

    started_of-empty :
        is_started (make_call (start_all (order s.factory.informers)) s).factory task_type ≡ false
    unfolding make_call lookup
    started_of-empty =
        rw (start-is_started task_type (order s.factory.informers) s.factory, empty, e0, unstarted)
          refl

    runs_of-requested :
        RunsOnce s
        → runs_of task_type
            (make_call
              (start_all (order (requested cache s).factory.informers))
              (requested cache s)).runs
          ≡ 1
    unfolding make_call Informers.informer
    runs_of-requested once =
        let first = Informers.default_informer cache (tasks_of s.factory) in
        let asked_once = make_call-RunsOnce (request task_type first) s once in
        make_call-RunsOnce (start_all (order (requested cache s).factory.informers))
          (requested cache s) asked_once task_type
        ∙ ap as_count started_of-requested

    runs_of-empty :
        RunsOnce s
        → runs_of task_type (make_call (start_all (order s.factory.informers)) s).runs ≡ 0
    unfolding make_call
    runs_of-empty once =
        make_call-RunsOnce (start_all (order s.factory.informers)) s once task_type
        ∙ ap as_count started_of-empty

  -- `waitForResourceSync` at the start of the API server, with a new factory, where the discovery
  -- of the schedule group succeeds: no error is returned, whether or not the server has the resource
  -- "analysistasks"; the informer of analysis tasks is started exactly where the server has it, and
  -- it then runs once, and else never. `retry.OnError` gives what its function does at once without
  -- an error, and a map of one informer or none has one order.
  pub wait_for_resource_sync-starts :
      (names : List String) (client : VersionedInterface O V W) (default_resync : ℤ)
      (options : List (FactoryOption (Tweak O))) (w : W)
      → server schedule_version ≡ (names, none)
      → ((test : ApiError → Bool)
            (f : List String × TaskSession O V I W
              → Option ApiError × (List String × TaskSession O V I W))
            (x : List String × TaskSession O V I W)
          → (f x).0 ≡ none
          → retry test f x ≡ f x)
      → order [] ≡ []
      → ((entry : String × I) → order (entry ∷ []) ≡ entry ∷ [])
      → (let result =
            wait_for_resource_sync sync (λ s. s) (new_session client default_resync options w) in
          (result.0 ≡ none)
          × (is_started result.1.factory task_type ≡ any (λ name. name == "analysistasks") names)
          × (runs_of task_type result.1.runs
              ≡ as_count (any (λ name. name == "analysistasks") names)))
  unfolding generated_sync make_calls
  wait_for_resource_sync-starts names client default_resync options w answers retried e0 e1 =
      let s = new_session {T = Tweak O} {I = I} client default_resync options w in
      let empty = new_with_options-informers I client default_resync options in
      let unstarted = new_with_options-is_started I task_type client default_resync options in
      let once : RunsOnce s = make_calls-runs_of client default_resync options w [] in
      elim (Bool-cases (any (λ name. name == "analysistasks") names)) [
        | inl found ↦
            rw (wait_for_resource_sync-asked names answers retried s, found)
              (
                refl,
                started_of-requested s empty unstarted e0 e1,
                runs_of-requested s empty unstarted e0 e1 once,
              )
        | inr missing ↦
            rw (wait_for_resource_sync-asked names answers retried s, missing)
              (
                refl,
                started_of-empty s empty unstarted e0 e1,
                runs_of-empty s empty unstarted e0 e1 once,
              )
      ]
