-- ===== src/Apiserver/Routes.antt =====
-- `AddToContainer` of pkg/kapis/schedule/v1alpha1/register.go: the routes of the web service. The
-- parts of a route for its documentation are left out.
use kubesphere_schedule.Apiserver.Runtime.{new_web_service, WebService, GroupVersion}
use kubesphere_schedule.Base.{◌∷◌, ◌++◌, none, [], String, Option, List}

-- The methods of `scheduleHandler`.
pub data RouteHandler : Type 0 where
  list_scheduler modify_scheduler modify_analysis_task_config list_analysis_task : RouteHandler
  create_namespace_analysis create_analysis modify_analysis_task : RouteHandler
  describe_analysis_task delete_analysis_task : RouteHandler

pub record Route : Type 0 where
  pub method : String
  pub path : String
  pub consumes : List String
  pub handler : RouteHandler

unfoldable pub group_version : GroupVersion
group_version = record { group = "schedule.kubesphere.io"; version = "v1" }

abbrev pub mime_patch : List String
mime_patch =
    "application/json" ∷ "application/json-patch+json" ∷ "application/merge-patch+json" ∷ []

abbrev pub route : String → String → List String → RouteHandler → Route
route method path consumes handler = record {
  method = method;
  path = path;
  consumes = consumes;
  handler = handler;
}

unfoldable pub routes : List Route
routes =
    route "GET" "/scheduler" [] list_scheduler
    ∷ route "PATCH" "/scheduler" mime_patch modify_scheduler
    ∷ route "PATCH" "/analysis/config" mime_patch modify_analysis_task_config
    ∷ route "GET" "/analysis" [] list_analysis_task
    ∷ route "POST" "/analysis" [] create_namespace_analysis
    ∷ route "POST" "/namespaces/{namespace}/analysis" [] create_analysis
    ∷ route "PATCH" "/namespaces/{namespace}/analysis/{analysis}" mime_patch modify_analysis_task
    ∷ route "GET" "/namespaces/{namespace}/analysis/{analysis}" [] describe_analysis_task
    ∷ route "DELETE" "/namespaces/{namespace}/analysis/{analysis}" [] delete_analysis_task
    ∷ []

-- A container as its web services with their routes.
abbrev pub Container : Type 0
Container = List (WebService × List Route)

unfoldable pub add_schedule_service : Container → Option String × Container
unfolding new_web_service group_version routes
add_schedule_service c = (none, c ++ ((new_web_service group_version, routes) ∷ []))
