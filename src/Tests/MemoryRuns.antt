-- ===== src/Tests/MemoryRuns.antt =====
-- A deep copy of a list of one analysis task, whose label selector refers to a cell of its library.
use kubesphere_schedule.Generated.Memory.Parts.{copy_option, copy_each, inside_option}
use kubesphere_schedule.Generated.Memory.Slices.{copy_slice, slice_copier, slice-IsDeep, items_at}
use kubesphere_schedule.Generated.DeepCopyLaws.{deep_copy_task_list-apart, IsDeepLib}
use kubesphere_schedule.Generated.Memory.{
  write, reserve, Extends-refl, Copier, IsDeep, AgreesFrom, Heap,
}
use kubesphere_schedule.Generated.DeepCopy.{
  copy_selector, copy_status, copy_spec, copy_task, copy_task_list, task_list_copier,
  deep_copy_task_list,
}
use kubesphere_schedule.Generated.MemTypes.{
  tasks, conditions, selectors, MemTaskList, MemSelector, Cell, CopyLib, library, MemTask,
}
use kubesphere_schedule.Base.{
  ◌≡◌, ◌∷◌, ℕ, zero, true, suc, some, refl, none, ltb, if◌then◌else◌, arith, [], String, Option,
  List,
}
use mathlib.Core.Option

abbrev Value : Type 0
Value = Option (List String)

-- Copies of values that refer to no memory.
abbrev flat : {K A : Type 0} → Copier K A A
flat = record { copy = λ a h. (a, h); read = λ h a. a; inside = λ h a. true }

flat-IsDeep : {K A : Type 0} → IsDeep (flat {K = K} {A = A})
flat-IsDeep = record {
  extends = λ a h. Extends-refl h;
  kept = λ a h h' i e. (refl, refl);
  apart = λ a h h' i a'. refl;
}

-- Label selectors are slices of texts, which lie in the library's cells.
abbrev SmallCell : Type 0
SmallCell = Cell Value (Option ℕ) Value Value Value (List String)

abbrev texts_of : SmallCell → List String
texts_of (selectors _) = []
texts_of (conditions _) = []
texts_of (tasks _) = []
texts_of (library xs) = xs

abbrev texts_copier : Copier SmallCell (Option ℕ) (Option (List String))
texts_copier = slice_copier library texts_of flat

abbrev small_lib : CopyLib Value (Option ℕ) Value Value Value (List String) Value Value
small_lib = record {
  object_meta = flat;
  list_meta = flat;
  label_selector = texts_copier;
  completion_strategy = flat;
  time = flat;
  condition = flat;
}

small_lib-IsDeepLib : IsDeepLib small_lib
small_lib-IsDeepLib = record {
  object_meta = flat-IsDeep;
  list_meta = flat-IsDeep;
  label_selector = slice-IsDeep library texts_of flat flat-IsDeep (λ xs. refl);
  completion_strategy = flat-IsDeep;
  time = flat-IsDeep;
  condition = flat-IsDeep;
}

abbrev one_selector : MemSelector (Option ℕ)
one_selector = record {
  kind = "Deployment";
  api_version = "apps/v1";
  name = "web";
  label_selector = some 0;
}

abbrev one_task_in_memory : MemTask Value Value Value
one_task_in_memory = record {
  kind = "AnalysisTask";
  api_version = "schedule.kubesphere.io/v1alpha1";
  object_meta = some ("daily" ∷ []);
  spec = record { type = "Deployment"; resource_selectors = some 1; completion_strategy = none };
  status = record { last_update_time = none; conditions = none };
}

abbrev cells : ℕ → Option SmallCell
cells zero = some (library ("app=web" ∷ []))
cells (suc zero) = some (selectors (one_selector ∷ []))
cells (suc (suc zero)) = some (tasks (one_task_in_memory ∷ []))
cells (suc (suc (suc p))) = none

abbrev before : Heap SmallCell
before = record { next = 3; cell = cells }

abbrev listed : MemTaskList Value
listed = record {
  kind = "AnalysisTaskList";
  api_version = "schedule.kubesphere.io/v1alpha1";
  list_meta = none;
  items = some 2;
}

-- The memory behind the copy, with the cells of the list overwritten.
abbrev overwritten : Heap SmallCell
overwritten =
    let made = (deep_copy_task_list small_lib (some listed) before).1 in
    record made { cell = λ p. if ltb p 3 then none else made.cell p }

overwritten_agrees : AgreesFrom 3 (deep_copy_task_list small_lib (some listed) before).1 overwritten
overwritten_agrees = record { agrees = λ p b u. ground arith }

listed_inside : inside_option (task_list_copier small_lib) before (some listed) ≡ true
unfolding items_at
listed_inside = refl

deep_copy_task_list-apart_example :
    (Option.map
        ((task_list_copier small_lib).read overwritten)
        (deep_copy_task_list small_lib (some listed) before).0
      ≡ Option.map ((task_list_copier small_lib).read before) (some listed))
    × (Option.map
          ((task_list_copier small_lib).read (deep_copy_task_list small_lib (some listed) before).1)
          (some listed)
        ≡ Option.map ((task_list_copier small_lib).read before) (some listed))
deep_copy_task_list-apart_example =
    deep_copy_task_list-apart small_lib small_lib-IsDeepLib (some listed) before overwritten
      listed_inside overwritten_agrees

copied_test :
    (overwritten.cell 5 ≡ some (library ("app=web" ∷ [])))
    × ((deep_copy_task_list small_lib (some listed) before).1.next ≡ 6)
unfolding deep_copy_task_list copy_task_list copy_task copy_spec copy_status copy_selector
    copy_slice copy_each copy_option items_at reserve write
copied_test = (refl, refl)
