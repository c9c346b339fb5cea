-- ===== src/Generated/MemTypes.antt =====
-- The types of api/schedule/v1alpha1/types.go as they lie in memory: a slice is nil
-- or a reference to its items. What the Kubernetes and Crane libraries own (`M` object metadata, `I`
-- metadata of lists, `L` label selectors, `S` completion strategies, `T` references to times, `C`
-- conditions, and `X` cells of theirs) is copied by their functions, which are parameters.
use kubesphere_schedule.Generated.Memory.{Copier}
use kubesphere_schedule.Base.{ℕ, [], String, Option, List}

pub record MemSelector (L : Type 0) : Type 0 where
  pub kind : String
  pub api_version : String
  pub name : String
  pub label_selector : L

pub record MemSpec (S : Type 0) : Type 0 where
  pub type : String
  pub resource_selectors : Option ℕ
  pub completion_strategy : S

pub record MemStatus (T : Type 0) : Type 0 where
  pub last_update_time : Option T
  pub conditions : Option ℕ

-- The first two fields are `TypeMeta`.
pub record MemTask (M S T : Type 0) : Type 0 where
  pub kind : String
  pub api_version : String
  pub object_meta : M
  pub spec : MemSpec S
  pub status : MemStatus T

pub record MemTaskList (I : Type 0) : Type 0 where
  pub kind : String
  pub api_version : String
  pub list_meta : I
  pub items : Option ℕ

-- The cells of slices, and those of the libraries.
pub data Cell (M L S T C X : Type 0) : Type 0 where
  selectors : List (MemSelector L) → Cell M L S T C X
  conditions : List C → Cell M L S T C X
  tasks : List (MemTask M S T) → Cell M L S T C X
  library : X → Cell M L S T C X

module _ {M L S T C X : Type 0} where
  abbrev pub selectors_of : Cell M L S T C X → List (MemSelector L)
  selectors_of (selectors xs) = xs
  selectors_of (conditions _) = []
  selectors_of (tasks _) = []
  selectors_of (library _) = []

  abbrev pub conditions_of : Cell M L S T C X → List C
  conditions_of (selectors _) = []
  conditions_of (conditions xs) = xs
  conditions_of (tasks _) = []
  conditions_of (library _) = []

  abbrev pub tasks_of : Cell M L S T C X → List (MemTask M S T)
  tasks_of (selectors _) = []
  tasks_of (conditions _) = []
  tasks_of (tasks xs) = xs
  tasks_of (library _) = []

-- What is read of the objects, where `U` are the values of the libraries' types.
pub record SelectorValue (U : Type 0) : Type 0 where
  pub kind : String
  pub api_version : String
  pub name : String
  pub label_selector : U

pub record SpecValue (U : Type 0) : Type 0 where
  pub type : String
  pub resource_selectors : Option (List (SelectorValue U))
  pub completion_strategy : U

pub record StatusValue (U : Type 0) : Type 0 where
  pub last_update_time : Option U
  pub conditions : Option (List U)

pub record TaskValue (U : Type 0) : Type 0 where
  pub kind : String
  pub api_version : String
  pub object_meta : U
  pub spec : SpecValue U
  pub status : StatusValue U

pub record TaskListValue (U : Type 0) : Type 0 where
  pub kind : String
  pub api_version : String
  pub list_meta : U
  pub items : Option (List (TaskValue U))

-- `DeepCopyInto` of each library type, and `DeepCopy` of a time, with what is read of such a value.
pub record CopyLib (M L S T C X I U : Type 0) : Type 0 where
  pub object_meta : Copier (Cell M L S T C X) M U
  pub list_meta : Copier (Cell M L S T C X) I U
  pub label_selector : Copier (Cell M L S T C X) L U
  pub completion_strategy : Copier (Cell M L S T C X) S U
  pub time : Copier (Cell M L S T C X) T U
  pub condition : Copier (Cell M L S T C X) C U
