-- ===== src/Schedule/Operator.antt =====
-- `scheduleOperator` of pkg/service/schedule/interface.go. A pointer that may be nil is an `Option`.
use kubesphere_schedule.Resources.Filter.{default_filter}
use kubesphere_schedule.Resources.Compare.{default_compare}
use kubesphere_schedule.Query.Types.{Query}
use kubesphere_schedule.Resources.Listing.{default_list, ListResult, Sort}
use kubesphere_schedule.Resources.Objects.{with_meta, nil_object, RuntimeObject}
use kubesphere_schedule.Schedule.Types.{AnalysisTask}
use kubesphere_schedule.Schedule.Cluster.{ApiError, Client}
use kubesphere_schedule.Base.{
  ◌⊎◌, ◌++◌, some, returned, panicked, none, map, inr, inl, if◌then◌else◌, eqb, [], String, Outcome,
  Option, List,
}

abbrev pub GoResult : Type 0 → Type 0
GoResult T = Option T × Option ApiError

-- `(item, err)` of a client, where an error returns nil.
abbrev pub item_or_nil : {T : Type 0} → T × Option ApiError → GoResult T
item_or_nil (item, none) = (some item, none)
item_or_nil (item, some e) = (none, some e)

module _ {W D : Type 0} (client : Client W AnalysisTask D) where
  unfoldable pub create_analysis_task : String → AnalysisTask → W → GoResult AnalysisTask × W
  create_analysis_task namespace task w =
      let (res, w') = client.create namespace task w in (item_or_nil res, w')

  unfoldable pub get_analysis_task : String → String → W → GoResult AnalysisTask
  get_analysis_task namespace id w = item_or_nil (client.get namespace id w)

  unfoldable pub delete_analysis_task : String → String → W → Option ApiError × W
  delete_analysis_task namespace id w = client.delete namespace id w

  -- The stored task with the spec and the labels of the given one.
  unfoldable pub modified : AnalysisTask → AnalysisTask → AnalysisTask
  modified analysis task = record analysis {
    metadata = record (analysis.metadata) { labels = task.metadata.labels };
    spec = task.spec;
  }

  -- Sends a patch, unless it is `{}`.
  unfoldable pub send_patch : String → String → D × Option ApiError → W → Option ApiError × W
  send_patch namespace id (data', some e) w = (some e, w)
  send_patch namespace id (data', none) w =
      if eqb (client.data_len data') 2
      then (none, w)
      else let ((item, err), w') = client.patch namespace id data' w in (err, w')

  unfoldable pub modify_analysis_task : String → String → AnalysisTask → W → Option ApiError × W
  modify_analysis_task namespace id task w = elim (client.get namespace id w).1 [
    | some e ↦ (some e, w)
    | none ↦
        let analysis = (client.get namespace id w).0 in
        send_patch namespace id (client.merge_data analysis (modified analysis task)) w
  ]

  -- `make([]runtime.Object, n)` holds n nils, and the tasks are appended behind them.
  unfoldable pub padded : List AnalysisTask → List (RuntimeObject AnalysisTask)
  padded tasks =
      map (λ t. nil_object) tasks ++ map (λ (t : AnalysisTask). with_meta t.metadata t) tasks

  unfoldable pub list_analysis_task :
      Sort AnalysisTask
      → Query
      → W
      → Outcome (ListResult (RuntimeObject AnalysisTask ⊎ ⊥) ⊎ ApiError)
  list_analysis_task sort q w = elim (client.list_all w).1 [
    | some e ↦ returned (inr e)
    | none ↦
        elim (default_list {V = ⊥} sort (padded (client.list_all w).0) q (some default_compare)
          (some default_filter) []) [
            | returned result ↦ returned (inl result)
            | panicked ↦ panicked
          ]
  ]

-- `DescribeAnalysisTask` is not implemented.
unfoldable pub describe_analysis_task : String → String → Outcome (GoResult AnalysisTask)
describe_analysis_task namespace id = panicked
