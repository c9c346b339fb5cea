-- ===== src/Schedule/Types.antt =====
-- api/schedule/v1alpha1/types.go and pkg/service/model/types.go. A label selector and a completion
-- strategy belong to the Kubernetes and Crane libraries; the code only copies them, so each stands
-- as its JSON text, an empty selector as the empty text.
use kubesphere_schedule.Resources.Objects.{ObjectMeta}
use kubesphere_schedule.Base.Int.{ℤ}
use kubesphere_schedule.Base.{ℕ, String, Option, List}

abbrev pub resource_type_deployment : String
resource_type_deployment = "Deployment"

abbrev pub resource_type_namespace : String
resource_type_namespace = "Namespace"

pub record ResourceSelector : Type 0 where
  pub kind : String
  pub api_version : String
  pub name : String
  pub label_selector : String

pub record AnalysisTaskSpec : Type 0 where
  pub type : String
  pub resource_selectors : List ResourceSelector
  pub completion_strategy : String

-- Nobody here writes a status; a condition stands as its JSON text.
pub record AnalysisTaskStatus : Type 0 where
  pub last_update_time : Option ℕ
  pub conditions : List String

pub record AnalysisTask : Type 0 where
  pub metadata : ObjectMeta
  pub spec : AnalysisTaskSpec
  pub status : AnalysisTaskStatus

pub record SchedulerConfig : Type 0 where
  pub scheduler : Option String
  pub mem_notify_present : Option ℤ
  pub cpu_notify_present : Option ℤ

-- The part of Crane's `Analytics` that the program writes.
pub record AnalyticsSelector : Type 0 where
  pub kind : String
  pub api_version : String
  pub name : String

pub record Analytics : Type 0 where
  pub name : String
  pub type : String
  pub resource_selectors : List AnalyticsSelector
  pub completion_strategy : String

pub record Deployment : Type 0 where
  pub name : String
  pub namespace : String
