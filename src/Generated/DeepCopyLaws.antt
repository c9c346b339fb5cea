-- ===== src/Generated/DeepCopyLaws.antt =====
-- The copies of api/schedule/v1alpha1/zz_generated.deepcopy.go are deep where those of the libraries are.
use mathlib.Core.Option
use kubesphere_schedule.Generated.Memory.Slices.{slice-IsDeep}
use kubesphere_schedule.Generated.Memory.Parts.{
  inside_option, option-IsDeep, pair-IsDeep, option_copier, pair_copier,
}
use kubesphere_schedule.Generated.DeepCopy.{
  deep_copy_task_list, tasks_copier, selectors_copier, status_copier, task_list_copier, task_copier,
  spec_copier, selector_copier, conditions_copier, copy_status, copy_task, copy_spec, copy_selector,
  copy_task_list,
}
use kubesphere_schedule.Generated.MemTypes.{
  Cell, tasks_of, tasks, TaskListValue, StatusValue, MemTaskList, TaskValue, conditions_of,
  SpecValue, selectors_of, MemStatus, SelectorValue, MemTask, MemSpec, selectors, conditions,
  MemSelector, CopyLib,
}
use kubesphere_schedule.Generated.Memory.{AgreesFrom, Heap, IsDeep, Copier}
use kubesphere_schedule.Base.{true, Option, ◌≡◌, refl, ap}

-- Copies of the part of a value that refers to memory, where the rest is copied as it is.
module _ {K A B V W : Type 0} (c : Copier K A V) (get : B → A) (put : B → A → B)
    (view : B → V → W) where
  abbrev via_copier : Copier K B W
  via_copier = record {
    copy = λ b h. let a = c.copy (get b) h in (put b a.0, a.1);
    read = λ h b. view b (c.read h (get b));
    inside = λ h b. c.inside h (get b);
  }

  via-IsDeep :
      IsDeep c
      → ((b : B) (a : A) → get (put b a) ≡ a)
      → ((b : B) (a : A) (v : V) → view (put b a) v ≡ view b v)
      → IsDeep via_copier
  via-IsDeep deep got seen = record {
    extends = λ b h. deep.extends (get b) h;
    kept = λ b h h' i e. let k = deep.kept (get b) h h' i e in (k.0, ap (view b) k.1);
    apart = λ b h h' i a.
        let copied = (c.copy (get b) h).0 in
        rw (got b copied, seen b copied) (ap (view b) (deep.apart (get b) h h' i a));
  }

-- Each copy of the libraries is deep.
pub record IsDeepLib {M L S T C X I U : Type 0} (lib : CopyLib M L S T C X I U) : Type 0 where
  pub object_meta : IsDeep lib.object_meta
  pub list_meta : IsDeep lib.list_meta
  pub label_selector : IsDeep lib.label_selector
  pub completion_strategy : IsDeep lib.completion_strategy
  pub time : IsDeep lib.time
  pub condition : IsDeep lib.condition

module _ {M L S T C X I U : Type 0} (lib : CopyLib M L S T C X I U) (deep : IsDeepLib lib) where
  selector-IsDeep : IsDeep (selector_copier lib)
  unfolding copy_selector
  selector-IsDeep =
      via-IsDeep lib.label_selector (λ (s : MemSelector L). s.label_selector)
        (λ s a. record s { label_selector = a })
        (λ (s : MemSelector L) v.
          let w : SelectorValue U = record {
            kind = s.kind;
            api_version = s.api_version;
            name = s.name;
            label_selector = v;
          } in
          w)
        deep.label_selector (λ s a. refl) (λ s a v. refl)

  selectors-IsDeep : IsDeep (selectors_copier lib)
  selectors-IsDeep =
      slice-IsDeep selectors selectors_of (selector_copier lib) selector-IsDeep (λ xs. refl)

  conditions-IsDeep : IsDeep (conditions_copier lib)
  conditions-IsDeep =
      slice-IsDeep conditions conditions_of lib.condition deep.condition (λ xs. refl)

  spec-IsDeep : IsDeep (spec_copier lib)
  unfolding copy_spec
  spec-IsDeep =
      via-IsDeep (pair_copier (selectors_copier lib) lib.completion_strategy)
        (λ (s : MemSpec S). (s.resource_selectors, s.completion_strategy))
        (λ s a. record s { resource_selectors = a.0; completion_strategy = a.1 })
        (λ (s : MemSpec S) v.
          let w : SpecValue U = record {
            type = s.type;
            resource_selectors = v.0;
            completion_strategy = v.1;
          } in
          w)
        (pair-IsDeep (selectors_copier lib) lib.completion_strategy selectors-IsDeep
          deep.completion_strategy)
        (λ s a. refl) (λ s a v. refl)

  status-IsDeep : IsDeep (status_copier lib)
  unfolding copy_status
  status-IsDeep =
      via-IsDeep (pair_copier (option_copier lib.time) (conditions_copier lib))
        (λ (s : MemStatus T). (s.last_update_time, s.conditions))
        (λ s a. record s { last_update_time = a.0; conditions = a.1 })
        (λ (s : MemStatus T) v.
          let w : StatusValue U = record { last_update_time = v.0; conditions = v.1 } in w)
        (pair-IsDeep (option_copier lib.time) (conditions_copier lib)
          (option-IsDeep lib.time deep.time) conditions-IsDeep)
        (λ s a. refl) (λ s a v. refl)

  task-IsDeep : IsDeep (task_copier lib)
  unfolding copy_task
  task-IsDeep =
      via-IsDeep (pair_copier lib.object_meta (pair_copier (spec_copier lib) (status_copier lib)))
        (λ (t : MemTask M S T). (t.object_meta, (t.spec, t.status)))
        (λ t a. record t { object_meta = a.0; spec = a.1.0; status = a.1.1 })
        (λ (t : MemTask M S T) v.
          let w : TaskValue U = record {
            kind = t.kind;
            api_version = t.api_version;
            object_meta = v.0;
            spec = v.1.0;
            status = v.1.1;
          } in
          w)
        (pair-IsDeep lib.object_meta (pair_copier (spec_copier lib) (status_copier lib))
          deep.object_meta
          (pair-IsDeep (spec_copier lib) (status_copier lib) spec-IsDeep status-IsDeep))
        (λ t a. refl) (λ t a v. refl)

  task_list-IsDeep : IsDeep (task_list_copier lib)
  unfolding copy_task_list
  task_list-IsDeep =
      via-IsDeep (pair_copier lib.list_meta (tasks_copier lib))
        (λ (l : MemTaskList I). (l.list_meta, l.items))
        (λ l a. record l { list_meta = a.0; items = a.1 })
        (λ (l : MemTaskList I) v.
          let w : TaskListValue U = record {
            kind = l.kind;
            api_version = l.api_version;
            list_meta = v.0;
            items = v.1;
          } in
          w)
        (pair-IsDeep lib.list_meta (tasks_copier lib) deep.list_meta
          (slice-IsDeep tasks tasks_of (task_copier lib) task-IsDeep (λ xs. refl)))
        (λ l a. refl) (λ l a v. refl)

  -- `DeepCopy` of a list of analysis tasks shares no memory with it, if the copies of the libraries
  -- do not: in every memory that keeps the cells used for the copy, the copy reads as the list did
  -- before, whatever was written to the cells of the list; and the list reads as before in the memory
  -- behind the call. The list lies in used memory; a nil list has a nil copy.
  pub deep_copy_task_list-apart :
      (l : Option (MemTaskList I)) (h written : Heap (Cell M L S T C X))
      → inside_option (task_list_copier lib) h l ≡ true
      → AgreesFrom h.next (deep_copy_task_list lib l h).1 written
      → (let read = λ (m : Heap (Cell M L S T C X)). Option.map ((task_list_copier lib).read m) in
          (read written (deep_copy_task_list lib l h).0 ≡ read h l)
          × (read (deep_copy_task_list lib l h).1 l ≡ read h l))
  unfolding deep_copy_task_list
  deep_copy_task_list-apart l h written i a =
      let whole = option-IsDeep (task_list_copier lib) task_list-IsDeep in
      (whole.apart l h written i a, (whole.kept l h _ i (whole.extends l h)).1)
