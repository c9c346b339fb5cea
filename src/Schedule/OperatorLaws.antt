-- ===== src/Schedule/OperatorLaws.antt =====
-- What `ModifyAnalysisTask` and `ListAnalysisTask` do.
use kubesphere_schedule.Resources.Compare.{default_compare}
use kubesphere_schedule.Query.Types.{Query}
use kubesphere_schedule.Resources.Filter.{default_filter, FilterFunc}
use kubesphere_schedule.Resources.Objects.{nil_object, with_meta, RuntimeObject}
use kubesphere_schedule.Schedule.Operator.{padded, list_analysis_task}
use kubesphere_schedule.Resources.Listing.{ListResult, Sort, matching, default_list, filter_objects}
use kubesphere_schedule.Schedule.Cluster.{Client}
use kubesphere_schedule.Schedule.Types.{AnalysisTask}
use kubesphere_schedule.Base.{
  ◌⊎◌, ◌≡◌, ◌∷◌, ◌++◌, true, some, returned, refl, none, map, inl, eqb, [], String, Option, List,
}

-- JSON merge patches, where `apply` is what a patch makes of an object: the patch that is computed of
-- two objects brings the first to the second, one of two bytes, `{}`, changes nothing, and the server
-- applies the patch that is computed of a stored object without an error.
pub record AppliesPatches {W D : Type 0} (client : Client W AnalysisTask D)
    (apply : D → AnalysisTask → AnalysisTask) : Type 0 where
  pub computes : (a b : AnalysisTask) → (client.merge_data a b).1 ≡ none
  pub merges : (a b : AnalysisTask) → apply (client.merge_data a b).0 a ≡ b
  pub empty : (d : D) (a : AnalysisTask) → eqb (client.data_len d) 2 ≡ true → apply d a ≡ a
  pub applies :
      (namespace id : String) (a b : AnalysisTask) (w : W)
      → client.get namespace id w ≡ (a, none)
      → let d = (client.merge_data a b).0 in
        ((client.patch namespace id d w).0.1 ≡ none)
        × (client.get namespace id (client.patch namespace id d w).1 ≡ (apply d a, none))

-- The stored task with the spec and the labels of a given one, field by field.
abbrev pub with_spec_and_labels : AnalysisTask → AnalysisTask → AnalysisTask
with_spec_and_labels stored task = record {
  metadata = record {
    name = stored.metadata.name;
    namespace = stored.metadata.namespace;
    uid = stored.metadata.uid;
    creation_timestamp = stored.metadata.creation_timestamp;
    labels = task.metadata.labels;
    annotations = stored.metadata.annotations;
    owner_references = stored.metadata.owner_references;
  };
  spec = task.spec;
  status = stored.status;
}

abbrev pub objects : List AnalysisTask → List (RuntimeObject AnalysisTask)
objects tasks = map (λ (t : AnalysisTask). with_meta t.metadata t) tasks

filter_objects-nils :
    (tasks : List AnalysisTask) (rest : List (RuntimeObject AnalysisTask))
    (filters : List (String × String)) (ff : Option (FilterFunc AnalysisTask))
    → filter_objects (map (λ t. nil_object) tasks ++ rest) filters ff
      ≡ filter_objects rest filters ff
unfolding filter_objects
filter_objects-nils [] rest filters ff = refl
filter_objects-nils (t ∷ tasks) rest filters ff = filter_objects-nils tasks rest filters ff

default_list-padded :
    {W D : Type 0} (client : Client W AnalysisTask D) (sort : Sort AnalysisTask)
    (tasks : List AnalysisTask) (q : Query)
    → default_list {V = ⊥} sort
        (padded client tasks)
        q
        (some default_compare)
        (some default_filter)
        []
      ≡ default_list sort (objects tasks) q (some default_compare) (some default_filter) []
unfolding default_list matching padded
default_list-padded client sort tasks q =
    rw (filter_objects-nils tasks (objects tasks) q.filters (some default_filter))

-- The nils in front of the tasks do not show: `ListAnalysisTask` answers with the listing of the
-- stored tasks alone. The client lists them without an error, and that listing does not panic.
pub list_analysis_task-unpadded :
    {W D : Type 0} (client : Client W AnalysisTask D) (sort : Sort AnalysisTask) (q : Query) (w : W)
    (result : ListResult (RuntimeObject AnalysisTask ⊎ ⊥))
    → (client.list_all w).1 ≡ none
    → default_list {V = ⊥} sort
        (objects (client.list_all w).0)
        q
        (some default_compare)
        (some default_filter)
        []
      ≡ returned result
    → list_analysis_task client sort q w ≡ returned (inl result)
unfolding list_analysis_task
list_analysis_task-unpadded client sort q w result h k =
    rw (h, list_analysis_task, default_list-padded client sort (client.list_all w).0 q, k)
