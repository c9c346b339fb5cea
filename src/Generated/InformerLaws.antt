-- ===== src/Generated/InformerLaws.antt =====
-- Which informer the factory of pkg/client/informers/externalversions makes for analysis tasks, and who
-- shares it.
use kubesphere_schedule.Generated.Tasks.{watch_request, list_request}
use kubesphere_schedule.Generated.Rest.{empty_list, RestClient}
use kubesphere_schedule.Generated.Sessions.{
  informer_for-once, request, make_calls, FactoryCall, FactorySession, make_call,
}
use kubesphere_schedule.Generated.Factory.{
  with_tweak_list_options, with_namespace, with_custom_resync_config, new_with_options,
}
use kubesphere_schedule.Generated.Informers.{
  namespace_index, default_informer, tasks_resource, task_type, Tweak, clientset_of, schedule,
  VersionedInterface, v1alpha1, analysis_tasks, GroupVersionResource, AnalysisTaskInformer,
  TaskFactory, for_resource, CacheLib,
}
use kubesphere_schedule.Base.{◌≡◌, ◌∷◌, refl, lookup, insert, [], String, List}
use kubesphere_schedule.Generated.Informers
use kubesphere_schedule.Base.Results.{ok}
use kubesphere_schedule.Base.Int.{ℤ}

-- The way to the informer of a factory: `Schedule().V1alpha1().AnalysisTasks()`.
abbrev pub tasks_of : {O V W I : Type 0} → TaskFactory O V W I → AnalysisTaskInformer O
tasks_of f = analysis_tasks (v1alpha1 (schedule f))

module _ {O V W I X : Type 0} (cache : CacheLib O V W I X) where
  -- The first informer of analysis tasks of a factory with a namespace, a function that changes list
  -- options and a resync period for that type: its cache lists by the REST request for the tasks of
  -- that namespace and watches by the one for watching them, each with the changed options, and it is
  -- made with that period, not the factory's default; the factory then keeps this informer alone.
  pub informer-new_with_options :
      {D : Type 0} (rest : RestClient O D V W) (default_resync period : ℤ) (ns : String)
      (tweak : Tweak O) (w : W)
      → (let f = new_with_options {I = I} (clientset_of rest) default_resync (
            with_custom_resync_config ((task_type, period) ∷ [])
            ∷ with_namespace ns
            ∷ with_tweak_list_options tweak
            ∷ []) in
          let made =
            cache.new_shared_index_informer
              (record {
                list_func = λ opts. rest.do_list (list_request D ns (tweak opts)) empty_list;
                watch_func = λ opts. rest.do_watch (watch_request D ns (tweak opts));
              })
              task_type
              period
              (namespace_index ∷ [])
              w in
          Informers.informer cache (tasks_of f) f w
          ≡ (made.0, record f { informers = (task_type, made.0) ∷ [] }, made.1))
  unfolding new_with_options with_custom_resync_config with_namespace with_tweak_list_options lookup
      insert schedule v1alpha1 analysis_tasks Informers.informer clientset_of
  informer-new_with_options {D} rest default_resync period ns tweak w = refl

  -- Whoever asks for the informer of analysis tasks shares it: after a request through `Schedule()`
  -- and whatever further calls of the factory, `ForResource` at the resource "analysistasks" of the
  -- group version gives that informer, and changes neither the factory nor the state in which
  -- informers are made.
  pub for_resource-informer :
      (shown : GroupVersionResource → String)
      (s : FactorySession (VersionedInterface O V W) (Tweak O) I W)
      (calls : List (FactoryCall (VersionedInterface O V W) I W))
      → (let made = Informers.informer cache (tasks_of s.factory) s.factory s.state in
          let after = make_calls calls (record s { factory = made.1; state = made.2 }) in
          for_resource cache shown tasks_resource after.factory after.state ≡ (
            ok (record {
              informer = made.0;
              group = tasks_resource.group;
              resource = tasks_resource.resource;
            }),
            after.factory,
            after.state,
          ))
  unfolding for_resource Informers.informer make_call
  for_resource-informer shown s calls =
      let first = default_informer cache (tasks_of s.factory) in
      let after = make_calls calls (make_call (request task_type first) s) in
      let later = default_informer cache (tasks_of after.factory) in
      rw (informer_for-once task_type first later s calls) refl
