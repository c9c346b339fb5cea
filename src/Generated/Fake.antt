-- ===== src/Generated/Fake.antt =====
-- The fake client of analysis tasks:
-- pkg/client/clientset/versioned/typed/schedule/v1alpha1/fake/fake_analysistask.go and
-- fake_schedule_client.go. An action stands for what client-go's constructor is given, beside the
-- resource of analysis tasks.
use kubesphere_schedule.Generated.Rest.{empty_task, AnalysisTaskList, empty_list, ListOptions}
use kubesphere_schedule.Schedule.Types.{AnalysisTask}
use kubesphere_schedule.Schedule.Cluster.{ApiError}
use kubesphere_schedule.Base.{
  ◌∷◌, ◌++◌, some, returned, panicked, none, if◌then◌else◌, [], String, Outcome, Option, List, Bool,
}

pub data FakeAction (O D : Type 0) : Type 0 where
  get_action : String → String → FakeAction O D
  list_action : String → String → ListOptions O → FakeAction O D
  watch_action : String → ListOptions O → FakeAction O D
  create_action update_action : String → AnalysisTask → FakeAction O D
  update_subresource_action : String → String → AnalysisTask → FakeAction O D
  delete_action : String → String → FakeAction O D
  delete_collection_action : String → ListOptions O → FakeAction O D
  patch_subresource_action : String → String → String → D → List String → FakeAction O D

-- The objects that a fake answers with; one of another type makes a type assertion panic.
pub data FakeObject : Type 0 where
  task_result : AnalysisTask → FakeObject
  list_result : AnalysisTaskList → FakeObject
  other_result : FakeObject

-- `testing.Fake`: `Invokes` with its default object, where no object is a nil one, and
-- `InvokesWatch`; `label_of` is the label selector of `ExtractFromListOptions`, and a selector
-- matches sets of labels.
pub record FakeLib (O D V S W : Type 0) : Type 0 where
  pub invokes : FakeAction O D → FakeObject → W → (Option FakeObject × Option ApiError) × W
  pub invokes_watch : FakeAction O D → W → (V × Option ApiError) × W
  pub label_of : ListOptions O → Option S
  pub everything : S
  pub matches : S → List (String × String) → Bool

pub record FakeAnalysisTasks (O D V S W : Type 0) : Type 0 where
  pub fake : FakeLib O D V S W
  pub ns : String

abbrev pub tasks_kind : String
tasks_kind = "AnalysisTask"

-- `if obj == nil { return nil, err }; return obj.(*AnalysisTask), err`.
unfoldable pub task_answer :
    Option FakeObject × Option ApiError → Outcome (Option AnalysisTask × Option ApiError)
task_answer (none, e) = returned (none, e)
task_answer (some (task_result t), e) = returned (some t, e)
task_answer (some (list_result l), e) = panicked
task_answer (some other_result, e) = panicked

-- The loop over the items of a list.
unfoldable pub matching_items :
    {S : Type 0}
    → (S → List (String × String) → Bool)
    → S
    → List AnalysisTask
    → List AnalysisTask
    → List AnalysisTask
matching_items matches label [] items = items
matching_items matches label (item ∷ rest) items =
    matching_items matches label rest
      (if matches label item.metadata.labels then items ++ item ∷ [] else items)

module _ {O D V S W : Type 0} (c : FakeAnalysisTasks O D V S W) where
  abbrev invoke : FakeAction O D → W → Outcome (Option AnalysisTask × Option ApiError) × W
  invoke action w =
      let res = c.fake.invokes action (task_result empty_task) w in (task_answer res.0, res.1)

  unfoldable pub fake_get : String → O → W → Outcome (Option AnalysisTask × Option ApiError) × W
  unfolding task_answer
  fake_get id opts = invoke (get_action c.ns id)

  -- The selector of the options, or that of everything for nil.
  unfoldable pub label_or_everything : ListOptions O → S
  label_or_everything opts = elim (c.fake.label_of opts) [ none ↦ c.fake.everything | some l ↦ l ]

  unfoldable pub list_answer :
      ListOptions O
      → Option FakeObject × Option ApiError
      → Outcome (Option AnalysisTaskList × Option ApiError)
  unfolding matching_items label_or_everything
  list_answer opts (none, e) = returned (none, e)
  list_answer opts (some (list_result l), e) = returned (
    some (record {
      list_meta = l.list_meta;
      items = matching_items c.fake.matches (label_or_everything opts) l.items [];
    }),
    e,
  )
  list_answer opts (some (task_result t), e) = panicked
  list_answer opts (some other_result, e) = panicked

  unfoldable pub fake_list :
      ListOptions O → W → Outcome (Option AnalysisTaskList × Option ApiError) × W
  unfolding list_answer
  fake_list opts w =
      let res = c.fake.invokes (list_action c.ns tasks_kind opts) (list_result empty_list) w in
      (list_answer opts res.0, res.1)

  unfoldable pub fake_watch : ListOptions O → W → (V × Option ApiError) × W
  fake_watch opts = c.fake.invokes_watch (watch_action c.ns opts)

  unfoldable pub fake_create :
      AnalysisTask → O → W → Outcome (Option AnalysisTask × Option ApiError) × W
  unfolding task_answer
  fake_create t opts = invoke (create_action c.ns t)

  unfoldable pub fake_update :
      AnalysisTask → O → W → Outcome (Option AnalysisTask × Option ApiError) × W
  unfolding task_answer
  fake_update t opts = invoke (update_action c.ns t)

  unfoldable pub fake_update_status :
      AnalysisTask → O → W → Outcome (Option AnalysisTask × Option ApiError) × W
  unfolding task_answer
  fake_update_status t opts = invoke (update_subresource_action "status" c.ns t)

  unfoldable pub fake_delete : String → O → W → Option ApiError × W
  fake_delete id opts w =
      let res = c.fake.invokes (delete_action c.ns id) (task_result empty_task) w in
      (res.0.1, res.1)

  unfoldable pub fake_delete_collection : O → ListOptions O → W → Option ApiError × W
  fake_delete_collection opts list_opts w =
      let res =
        c.fake.invokes (delete_collection_action c.ns list_opts) (list_result empty_list) w in
      (res.0.1, res.1)

  unfoldable pub fake_patch :
      String
      → String
      → D
      → O
      → List String
      → W
      → Outcome (Option AnalysisTask × Option ApiError) × W
  unfolding task_answer
  fake_patch id type content opts subresources =
      invoke (patch_subresource_action c.ns id type content subresources)

-- `AnalysisTasks` of the fake client of the group.
unfoldable pub fake_analysis_tasks :
    {O D V S W : Type 0} → FakeLib O D V S W → String → FakeAnalysisTasks O D V S W
fake_analysis_tasks fake namespace = record { fake = fake; ns = namespace }
