-- ===== src/Generated/Rest.antt =====
-- What the generated clients hand to client-go's REST client, which is a parameter: a request is the
-- verb with the builder's calls in their order. `O` are the options that the code only passes on, `D`
-- the bytes of a patch, `V` watches, and `W` the state that a request changes.
use kubesphere_schedule.Schedule.Cluster.{ApiError}
use kubesphere_schedule.Schedule.Types.{AnalysisTask}
use kubesphere_schedule.Base.Int.{ℤ}
use kubesphere_schedule.Base.{none, [], String, Option, List, Bool}

-- `ListOptions`: the fields that the code reads or sets, and the others.
pub record ListOptions (O : Type 0) : Type 0 where
  pub timeout_seconds : Option ℤ
  pub watch : Bool
  pub others : O

pub data RestVerb : Type 0 where
  get post put delete : RestVerb
  patch : String → RestVerb

-- The arguments of `VersionedParams` and of `Body`.
pub data RestParams (O : Type 0) : Type 0 where
  plain : O → RestParams O
  listing : ListOptions O → RestParams O

pub data RestBody (O D : Type 0) : Type 0 where
  task : AnalysisTask → RestBody O D
  options : O → RestBody O D
  bytes : D → RestBody O D

pub data RestCall (O D : Type 0) : Type 0 where
  namespace resource name : String → RestCall O D
  sub_resource : List String → RestCall O D
  versioned_params : RestParams O → RestCall O D
  timeout : ℤ → RestCall O D
  body : RestBody O D → RestCall O D

pub record RestRequest (O D : Type 0) : Type 0 where
  pub verb : RestVerb
  pub calls : List (RestCall O D)

pub record AnalysisTaskList : Type 0 where
  pub list_meta : String
  pub items : List AnalysisTask

-- `rest.Interface`. `do_task` is `Do(ctx).Into(result)` for a task, given what `result` points to and
-- giving what it then points to; `do_list` is that for a list, `do_error` is `Do(ctx).Error()` and
-- `do_watch` is `Watch(ctx)`.
pub record RestClient (O D V W : Type 0) : Type 0 where
  pub do_task : RestRequest O D → AnalysisTask → W → (AnalysisTask × Option ApiError) × W
  pub do_list : RestRequest O D → AnalysisTaskList → W → (AnalysisTaskList × Option ApiError) × W
  pub do_error : RestRequest O D → W → Option ApiError × W
  pub do_watch : RestRequest O D → W → (V × Option ApiError) × W

-- `AnalysisTask{}` and `AnalysisTaskList{}`.
abbrev pub empty_task : AnalysisTask
empty_task = record {
  metadata = record {
    name = "";
    namespace = "";
    uid = "";
    creation_timestamp = 0;
    labels = [];
    annotations = [];
    owner_references = [];
  };
  spec = record { type = ""; resource_selectors = []; completion_strategy = "" };
  status = record { last_update_time = none; conditions = [] };
}

abbrev pub empty_list : AnalysisTaskList
empty_list = record { list_meta = ""; items = [] }
