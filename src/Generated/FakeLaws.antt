-- ===== src/Generated/FakeLaws.antt =====
-- What `List` of
-- pkg/client/clientset/versioned/typed/schedule/v1alpha1/fake/fake_analysistask.go keeps.
use mathlib.Core.List.{append-nil, append_assoc}
use kubesphere_schedule.Schedule.Cluster.{ApiError}
use kubesphere_schedule.Generated.Rest.{empty_list, AnalysisTaskList, ListOptions}
use kubesphere_schedule.Schedule.Types.{AnalysisTask}
use kubesphere_schedule.Generated.Fake.{
  label_or_everything, list_result, tasks_kind, list_action, FakeAnalysisTasks, matching_items,
  fake_list,
}
use kubesphere_schedule.Base.{
  ◌≡◌, ◌∷◌, ◌++◌, sym, some, returned, refl, filter, arith, [], String, Option, List, Bool,
}

matching_items-filter :
    {S : Type 0} (matches : S → List (String × String) → Bool) (label : S)
    (tasks items : List AnalysisTask)
    → matching_items matches label tasks items
      ≡ items ++ filter (λ (t : AnalysisTask). matches label t.metadata.labels) tasks
unfolding matching_items
matching_items-filter matches label [] items = sym (append-nil items)
matching_items-filter matches label (t ∷ tasks) items = ground (
  arith,
  matching_items-filter matches label tasks items,
  matching_items-filter matches label tasks (items ++ t ∷ []),
  append_assoc items (t ∷ [])
      (filter (λ (t : AnalysisTask). matches label t.metadata.labels) tasks),
)

-- The fake `List` of a namespace, where the fake answers the list action with a list: the items
-- whose labels the selector of the options matches, in their order, or all that the selector of
-- everything matches where the options have none, with the metadata of the list and the error of the
-- fake beside it.
pub fake_list-filter :
    {O D V S W : Type 0} (c : FakeAnalysisTasks O D V S W) (opts : ListOptions O) (w w' : W)
    (l : AnalysisTaskList) (e : Option ApiError)
    → c.fake.invokes (list_action c.ns tasks_kind opts) (list_result empty_list) w
      ≡ ((some (list_result l), e), w')
    → fake_list c opts w ≡ (
      returned (
        some (record {
          list_meta = l.list_meta;
          items =
              filter
                (λ (t : AnalysisTask).
                  c.fake.matches (label_or_everything c opts) t.metadata.labels)
                l.items;
        }),
        e,
      ),
      w',
    )
unfolding fake_list
fake_list-filter c opts w w' l e h =
    rw (h, matching_items-filter c.fake.matches (label_or_everything c opts) l.items []) refl
