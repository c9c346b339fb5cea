-- ===== src/Generated/DeepCopy.antt =====
-- api/schedule/v1alpha1/zz_generated.deepcopy.go, over the objects as they lie in memory. Beside each
-- `DeepCopyInto` stands what is read of its object.
use kubesphere_schedule.Generated.Memory.Parts.{inside_option, copy_option}
use kubesphere_schedule.Generated.Memory.Slices.{slice_copier}
use kubesphere_schedule.Generated.Memory.{Heap, Copier}
use kubesphere_schedule.Generated.MemTypes.{
  conditions_of, selectors_of, tasks_of, conditions, tasks, selectors, TaskListValue, SpecValue,
  StatusValue, TaskValue, SelectorValue, Cell, MemStatus, MemTaskList, MemSpec, MemSelector,
  MemTask, CopyLib,
}
use kubesphere_schedule.Base.{◌&&◌, ℕ, Option, List}
use mathlib.Core.Option

module _ {M L S T C X I U : Type 0} (lib : CopyLib M L S T C X I U) where
  -- `DeepCopyInto` of a `ResourceSelector`.
  unfoldable pub copy_selector :
      MemSelector L → Heap (Cell M L S T C X) → MemSelector L × Heap (Cell M L S T C X)
  copy_selector s h =
      let label = lib.label_selector.copy s.label_selector h in
      (record s { label_selector = label.0 }, label.1)

  abbrev pub selector_copier : Copier (Cell M L S T C X) (MemSelector L) (SelectorValue U)
  selector_copier = record {
    copy = copy_selector;
    read = λ h s. record {
      kind = s.kind;
      api_version = s.api_version;
      name = s.name;
      label_selector = lib.label_selector.read h s.label_selector;
    };
    inside = λ h s. lib.label_selector.inside h s.label_selector;
  }

  abbrev pub selectors_copier :
      Copier (Cell M L S T C X) (Option ℕ) (Option (List (SelectorValue U)))
  selectors_copier = slice_copier selectors selectors_of selector_copier

  -- `DeepCopyInto` of an `AnalysisTaskSpec`.
  unfoldable pub copy_spec :
      MemSpec S → Heap (Cell M L S T C X) → MemSpec S × Heap (Cell M L S T C X)
  copy_spec s h =
      let copied = selectors_copier.copy s.resource_selectors h in
      let strategy = lib.completion_strategy.copy s.completion_strategy copied.1 in
      (record s { resource_selectors = copied.0; completion_strategy = strategy.0 }, strategy.1)

  abbrev pub conditions_copier : Copier (Cell M L S T C X) (Option ℕ) (Option (List U))
  conditions_copier = slice_copier conditions conditions_of lib.condition

  -- `DeepCopyInto` of an `AnalysisTaskStatus`.
  unfoldable pub copy_status :
      MemStatus T → Heap (Cell M L S T C X) → MemStatus T × Heap (Cell M L S T C X)
  copy_status s h =
      let time = copy_option lib.time s.last_update_time h in
      let copied = conditions_copier.copy s.conditions time.1 in
      (record { last_update_time = time.0; conditions = copied.0 }, copied.1)

  abbrev pub spec_copier : Copier (Cell M L S T C X) (MemSpec S) (SpecValue U)
  spec_copier = record {
    copy = copy_spec;
    read = λ h s. record {
      type = s.type;
      resource_selectors = selectors_copier.read h s.resource_selectors;
      completion_strategy = lib.completion_strategy.read h s.completion_strategy;
    };
    inside = λ h s.
        selectors_copier.inside h s.resource_selectors
        && lib.completion_strategy.inside h s.completion_strategy;
  }

  abbrev pub status_copier : Copier (Cell M L S T C X) (MemStatus T) (StatusValue U)
  status_copier = record {
    copy = copy_status;
    read = λ h s. record {
      last_update_time = Option.map (lib.time.read h) s.last_update_time;
      conditions = conditions_copier.read h s.conditions;
    };
    inside = λ h s.
        inside_option lib.time h s.last_update_time && conditions_copier.inside h s.conditions;
  }

  -- `DeepCopyInto` of an `AnalysisTask`.
  unfoldable pub copy_task :
      MemTask M S T → Heap (Cell M L S T C X) → MemTask M S T × Heap (Cell M L S T C X)
  unfolding copy_spec copy_status
  copy_task t h =
      let meta = lib.object_meta.copy t.object_meta h in
      let spec = copy_spec t.spec meta.1 in
      let status = copy_status t.status spec.1 in
      (record t { object_meta = meta.0; spec = spec.0; status = status.0 }, status.1)

  abbrev pub task_copier : Copier (Cell M L S T C X) (MemTask M S T) (TaskValue U)
  task_copier = record {
    copy = copy_task;
    read = λ h t. record {
      kind = t.kind;
      api_version = t.api_version;
      object_meta = lib.object_meta.read h t.object_meta;
      spec = spec_copier.read h t.spec;
      status = status_copier.read h t.status;
    };
    inside = λ h t.
        lib.object_meta.inside h t.object_meta
        && (spec_copier.inside h t.spec && status_copier.inside h t.status);
  }

  abbrev pub tasks_copier : Copier (Cell M L S T C X) (Option ℕ) (Option (List (TaskValue U)))
  tasks_copier = slice_copier tasks tasks_of task_copier

  -- `DeepCopyInto` of an `AnalysisTaskList`.
  unfoldable pub copy_task_list :
      MemTaskList I → Heap (Cell M L S T C X) → MemTaskList I × Heap (Cell M L S T C X)
  copy_task_list l h =
      let meta = lib.list_meta.copy l.list_meta h in
      let copied = tasks_copier.copy l.items meta.1 in
      (record l { list_meta = meta.0; items = copied.0 }, copied.1)

  abbrev pub task_list_copier : Copier (Cell M L S T C X) (MemTaskList I) (TaskListValue U)
  task_list_copier = record {
    copy = copy_task_list;
    read = λ h l. record {
      kind = l.kind;
      api_version = l.api_version;
      list_meta = lib.list_meta.read h l.list_meta;
      items = tasks_copier.read h l.items;
    };
    inside = λ h l. lib.list_meta.inside h l.list_meta && tasks_copier.inside h l.items;
  }

  -- `DeepCopy` of a pointer, nil for nil, and `DeepCopyObject`, which returns the nil interface for
  -- a nil copy.
  unfoldable pub deep_copy_task :
      Option (MemTask M S T)
      → Heap (Cell M L S T C X)
      → Option (MemTask M S T) × Heap (Cell M L S T C X)
  deep_copy_task = copy_option task_copier

  unfoldable pub deep_copy_task_list :
      Option (MemTaskList I)
      → Heap (Cell M L S T C X)
      → Option (MemTaskList I) × Heap (Cell M L S T C X)
  deep_copy_task_list = copy_option task_list_copier

  unfoldable pub deep_copy_spec :
      Option (MemSpec S) → Heap (Cell M L S T C X) → Option (MemSpec S) × Heap (Cell M L S T C X)
  deep_copy_spec = copy_option spec_copier

  unfoldable pub deep_copy_status :
      Option (MemStatus T)
      → Heap (Cell M L S T C X)
      → Option (MemStatus T) × Heap (Cell M L S T C X)
  deep_copy_status = copy_option status_copier

  unfoldable pub deep_copy_selector :
      Option (MemSelector L)
      → Heap (Cell M L S T C X)
      → Option (MemSelector L) × Heap (Cell M L S T C X)
  deep_copy_selector = copy_option selector_copier
