-- ===== src/Tests/ScheduleRuns.antt =====
-- A cluster of one stored task, and one of the analytics of each name.
use kubesphere_schedule.Base.Words.{add_int}
use kubesphere_schedule.Resources.Filter.{default_filter}
use kubesphere_schedule.Resources.Compare.{default_compare}
use kubesphere_schedule.Base.Int.{pos}
use kubesphere_schedule.Schedule.CraneLaws.{create_crane_analysis-ignores}
use kubesphere_schedule.Schedule.Crane.{analytics_name, create_crane_analysis}
use kubesphere_schedule.Schedule.OperatorLaws.{objects}
use kubesphere_schedule.Resources.Listing.{
  transform_all, slice, transform_page, filter_objects, sort_objects, matching, default_list,
  ListResult, Sort,
}
use kubesphere_schedule.Schedule.Types.{
  resource_type_deployment, Analytics, ResourceSelector, AnalysisTask,
}
use kubesphere_schedule.Schedule.Cluster.{api_status, ApiError, Client}
use kubesphere_schedule.Resources.Objects.{with_meta, RuntimeObject, ObjectMeta}
use kubesphere_schedule.Query.Types.{get_valid_pagination, Query}
use kubesphere_schedule.Base.{
  ◌⊎◌, ◌≡◌, ◌∷◌, ℕ, true, some, returned, refl, none, inl, if◌then◌else◌, false, [], String, List,
  Bool,
}

abbrev pub metadata : String → List (String × String) → ObjectMeta
metadata name labels = record {
  name = name;
  namespace = "default";
  uid = name;
  creation_timestamp = 0;
  labels = labels;
  annotations = [];
  owner_references = [];
}

abbrev pub selector_of : String → String → ResourceSelector
selector_of kind name = record {
  kind = kind;
  api_version = "apps/v1";
  name = name;
  label_selector = "";
}

abbrev pub task_of : String → String → List ResourceSelector → AnalysisTask
task_of name type selectors = record {
  metadata = metadata name [];
  spec = record { type = type; resource_selectors = selectors; completion_strategy = "Once" };
  status = record { last_update_time = none; conditions = [] };
}

abbrev pub first_task : AnalysisTask
first_task = task_of "first" resource_type_deployment []

abbrev pub second_task : AnalysisTask
second_task = task_of "second" resource_type_deployment (selector_of "Deployment" "web" ∷ [])

abbrev pub not_found_error : ApiError
not_found_error = record { status = api_status 404; not_found = true; message = "not found" }

-- The cluster is its one task, and a patch is the task that it leads to; every patch is sent.
abbrev pub one_task : Client AnalysisTask AnalysisTask AnalysisTask
one_task = record {
  get = λ namespace id w. (w, none);
  create = λ namespace t w. ((t, none), t);
  patch = λ namespace id d w. ((d, none), d);
  delete = λ namespace id w. (none, w);
  list_all = λ w. (w ∷ [], none);
  merge_data = λ a b. (b, none);
  data_len = λ d. 3;
}

-- A client that finds nothing.
abbrev pub no_task : Client AnalysisTask AnalysisTask AnalysisTask
no_task = record one_task { get = λ namespace id w. (w, some not_found_error) }

abbrev unsorted : Sort AnalysisTask
unsorted = λ less xs. xs

abbrev one_result : ListResult (RuntimeObject AnalysisTask ⊎ ⊥)
one_result = record { items = inl (with_meta first_task.metadata first_task) ∷ []; total_items = 1 }

abbrev first_ten : Query
first_ten = record {
  pagination = some (record { limit = pos 10; offset = pos 0 });
  sort_by = "";
  ascending = false;
  filters = [];
  label_selector = "";
}

one_listed :
    default_list {V = ⊥} unsorted
      (objects (first_task ∷ []))
      first_ten
      (some default_compare)
      (some default_filter)
      []
    ≡ returned one_result
unfolding default_list matching sort_objects filter_objects get_valid_pagination transform_page
    slice transform_all add_int
one_listed = refl

abbrev pub nothing : Analytics
nothing = record { name = ""; type = ""; resource_selectors = []; completion_strategy = "" }

-- The cluster is the list of what is created; `found` says whether a name is found. A patch is a
-- length of two bytes.
abbrev pub crane : Bool → Client (List Analytics) Analytics ℕ
crane found = record {
  get = λ namespace id w. (nothing, if found then none else some not_found_error);
  create = λ namespace a w. ((a, none), a ∷ w);
  patch = λ namespace id d w. ((nothing, none), w);
  delete = λ namespace id w. (none, w);
  list_all = λ w. (w, none);
  merge_data = λ a b. (2, none);
  data_len = λ d. d;
}

abbrev pub same : String → String
same s = s

abbrev labelled : ResourceSelector
labelled = record {
  kind = "Deployment";
  api_version = "v2";
  name = "web";
  label_selector = "app=web";
}

create_crane_analysis-ignores_example :
    create_crane_analysis same (crane false) "default" (selector_of "Deployment" "web") "Once" []
    ≡ create_crane_analysis same (crane false) "default" labelled "Periodical" []
unfolding analytics_name
create_crane_analysis-ignores_example =
    create_crane_analysis-ignores same (crane false) "default" (selector_of "Deployment" "web")
      labelled "Once" "Periodical" [] refl
