-- ===== src/Generated/Lister.antt =====
-- pkg/client/listers/schedule/v1alpha1/analysistask.go. The indexer is client-go's and a parameter: it
-- holds objects, of which an analysis task is one kind, and `S` are label selectors.
use kubesphere_schedule.Schedule.Cluster.{ApiError}
use kubesphere_schedule.Schedule.Types.{AnalysisTask}
use kubesphere_schedule.Base.{
  ◌⊎◌, ◌∷◌, some, returned, panicked, none, join, inr, inl, [], String, Outcome, Option, List,
}

pub data CacheObject : Type 0 where
  task_object : AnalysisTask → CacheObject
  other_object : CacheObject

-- `cache.ListAll` and `cache.ListAllByNamespace` give the objects for which they call the function
-- that they are handed, in that order, and their error; `get_by_key` is `GetByKey`, without an error
-- an object if the key exists; `not_found` is `errors.NewNotFound` for a resource and a name.
pub record Indexer (S : Type 0) : Type 0 where
  pub list_all : S → List CacheObject × Option ApiError
  pub list_all_by_namespace : String → S → List CacheObject × Option ApiError
  pub get_by_key : String → Option CacheObject ⊎ ApiError
  pub not_found : String → String → ApiError

-- The appended tasks of the calls: `m.(*AnalysisTask)` panics at an object of another type.
unfoldable pub append_tasks : List CacheObject → Outcome (List AnalysisTask)
append_tasks [] = returned []
append_tasks (task_object t ∷ objects) = elim (append_tasks objects) [
  | returned rest ↦ returned (t ∷ rest)
  | panicked ↦ panicked
]
append_tasks (other_object ∷ objects) = panicked

abbrev pub with_error :
    Option ApiError → Outcome (List AnalysisTask) → Outcome (List AnalysisTask × Option ApiError)
with_error e (returned ts) = returned (ts, e)
with_error e panicked = panicked

-- `analysisTaskNamespaceLister`.
pub record NamespaceLister (S : Type 0) : Type 0 where
  pub indexer : Indexer S
  pub namespace : String

module _ {S : Type 0} where
  unfoldable pub list_all_tasks : Indexer S → S → Outcome (List AnalysisTask × Option ApiError)
  unfolding append_tasks
  list_all_tasks indexer selector =
      let listed = indexer.list_all selector in with_error listed.1 (append_tasks listed.0)

  unfoldable pub namespace_lister : Indexer S → String → NamespaceLister S
  namespace_lister indexer namespace = record { indexer = indexer; namespace = namespace }

  unfoldable pub list_in_namespace :
      NamespaceLister S → S → Outcome (List AnalysisTask × Option ApiError)
  unfolding append_tasks
  list_in_namespace s selector =
      let listed = s.indexer.list_all_by_namespace s.namespace selector in
      with_error listed.1 (append_tasks listed.0)

  -- The answer of `Get` for what `GetByKey` gives.
  abbrev pub found :
      NamespaceLister S → String → Option CacheObject ⊎ ApiError → Outcome (AnalysisTask ⊎ ApiError)
  found s id (inr e) = returned (inr e)
  found s id (inl none) = returned (inr (s.indexer.not_found "analysistask" id))
  found s id (inl (some (task_object t))) = returned (inl t)
  found s id (inl (some other_object)) = panicked

  unfoldable pub get_from_cache : NamespaceLister S → String → Outcome (AnalysisTask ⊎ ApiError)
  get_from_cache s id = found s id (s.indexer.get_by_key (join s.namespace (join "/" id)))
