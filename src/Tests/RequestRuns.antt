-- ===== src/Tests/RequestRuns.antt =====
-- Requests of the API server's factory and of one with a global resource.
use kubesphere_schedule.Request.TenantForms.{in_workspace_devops, Tenant}
use kubesphere_schedule.Request.Tenants.{new_request_info-tenant, tenant_object, tenant_path}
use kubesphere_schedule.Request.Panics.{new_request_info-panics_iff, IsClusterVersion}
use kubesphere_schedule.Request.Scope.{new_request_info-ne-global}
use kubesphere_schedule.Request.Clusters.{new_request_info-clusters}
use kubesphere_schedule.Request.Clusters.Commutes.{Parsed_at_cluster}
use kubesphere_schedule.Request.Namespaced.{
  new_request_info-namespaced, namespaced_info, namespaced_path,
}
use kubesphere_schedule.Request.Parse.{
  read_workspace, read_verb, read_kind, read_version, read_group, read_cluster, read_prefix,
  read_api, parse_parts, panics, info_and_error, verb_of_method, split_path, new_request_info,
}
use kubesphere_schedule.Http.{HttpRequest, UrlLib}
use kubesphere_schedule.Request.Types.{RequestInfo, Codec, RequestInfoFactory, global_scope}
use kubesphere_schedule.Base.{
  ◌≢◌, ◌≡◌, ◌∷◌, ◌↔◌, some, refl, none, false, eq_iff, arith, [], String,
}

abbrev pub plain_lib : UrlLib
plain_lib = record {
  parse_query = λ q. [];
  split_host_port = λ a. none;
  to_lower = λ s. s;
  url_string = λ (req : HttpRequest). req.path;
}

abbrev pub no_options : Codec
no_options = record {
  decode_list_options = λ q. some (record { watch = false; field_selector = none });
  is_valid_path_segment_name = λ s. [];
}

-- The factory of pkg/apiserver/apiserver.go.
abbrev pub server_factory : RequestInfoFactory
server_factory = record {
  api_prefixes = "api" ∷ "apis" ∷ "kapis" ∷ "kapi" ∷ [];
  groupless_api_prefixes = "api" ∷ "kapi" ∷ [];
  global_resources = [];
}

abbrev pub global_factory : RequestInfoFactory
global_factory = record server_factory {
  global_resources = record { group = "apps"; resource = "deployments" } ∷ [];
}

abbrev pub request_of : String → HttpRequest
request_of path = record {
  method = "GET";
  path = path;
  raw_query = "";
  header = [];
  remote_addr = "";
}

abbrev pub web : HttpRequest
web = request_of "/apis/apps/v1/namespaces/default/deployments/web"

abbrev pub web_info : RequestInfo
web_info = namespaced_info "apis" "apps" "v1" "default" "deployments" "web" plain_lib web

split_path_test : split_path "/a//b/" ≡ "a" ∷ "" ∷ "b" ∷ []
unfolding split_path
split_path_test = refl

panic_test :
    new_request_info plain_lib no_options server_factory (request_of "/api/clusters/host/v1")
    ≡ panics
unfolding new_request_info split_path parse_parts read_api read_prefix read_cluster read_group
    read_version read_kind read_verb read_workspace
panic_test = refl

new_request_info-panics_iff_example :
    (new_request_info plain_lib no_options server_factory (request_of "/api/clusters/host/v1")
      ≡ panics)
    ↔ IsClusterVersion server_factory (split_path "/api/clusters/host/v1")
new_request_info-panics_iff_example =
    new_request_info-panics_iff plain_lib no_options server_factory
      (request_of "/api/clusters/host/v1")

deployments-ne : ◌≢◌ {A = String} "deployments" ""
deployments-ne = ground (arith, eq_iff "deployments" "")

apis-ne : ◌≢◌ {A = String} "apis" ""
apis-ne = ground (arith, eq_iff "apis" "")

apps-ne : ◌≢◌ {A = String} "apps" "clusters"
apps-ne = ground (arith, eq_iff "apps" "clusters")

default-ne : ◌≢◌ {A = String} "default" ""
default-ne = ground (arith, eq_iff "default" "")

tools-ne : ◌≢◌ {A = String} "tools" ""
tools-ne = ground (arith, eq_iff "tools" "")

web_split : split_path web.path ≡ namespaced_path "apis" "apps" "v1" "default" "deployments" "web"
unfolding split_path
web_split = refl

pub web_parsed :
    new_request_info plain_lib no_options global_factory web ≡ info_and_error web_info none
web_parsed =
    new_request_info-namespaced "apis" "apps" "v1" "default" "deployments" "web" plain_lib
      no_options global_factory web web_split refl refl apis-ne apps-ne refl default-ne refl
      (deployments-ne, tt)

abbrev hosted_run : HttpRequest
hosted_run = request_of "/apis/apps/v1/workspaces/research/devops/tools/pipelines/nightly"

abbrev tools : Tenant
tools = in_workspace_devops "research" "tools"

hosted_run_split :
    split_path hosted_run.path ≡ tenant_path "apis" "apps" "v1" "pipelines" "nightly" tools
unfolding split_path
hosted_run_split = refl

new_request_info-tenant_example :
    new_request_info plain_lib no_options global_factory hosted_run
    ≡ info_and_error
        (tenant_object "apis" "apps" "v1" "pipelines" "nightly" tools plain_lib hosted_run)
        none
new_request_info-tenant_example =
    new_request_info-tenant "apis" "apps" "v1" "pipelines" "nightly" tools plain_lib no_options
      global_factory hosted_run hosted_run_split refl refl apis-ne apps-ne tools-ne refl
      (deployments-ne, tt)

hosted_run_scope :
    (tenant_object "apis" "apps" "v1" "pipelines" "nightly" tools plain_lib
      hosted_run).resource_scope
    ≡ "DevOps"
hosted_run_scope = refl

new_request_info-ne-global_example : web_info.resource_scope ≢ global_scope
new_request_info-ne-global_example =
    new_request_info-ne-global plain_lib no_options global_factory web web_info none
      (deployments-ne, tt) web_parsed

web_verb : web_info.verb ≡ "get"
unfolding verb_of_method
web_verb = refl

abbrev hosted : String
hosted = "/apis/clusters/host/apps/v1/namespaces/default/deployments/web"

hosted_split :
    split_path hosted
    ≡ "apis" ∷ "clusters" ∷ "host" ∷ "apps" ∷ "v1" ∷ "namespaces" ∷ "default" ∷ "deployments"
      ∷ "web" ∷ []
unfolding split_path
hosted_split = refl

new_request_info-clusters_example :
    new_request_info plain_lib no_options global_factory (record web { path = hosted })
    ≡ Parsed_at_cluster hosted "host" hosted
        (new_request_info plain_lib no_options global_factory web)
new_request_info-clusters_example =
    new_request_info-clusters plain_lib no_options global_factory web hosted "apis" "host" "apps"
      "v1" ("namespaces" ∷ "default" ∷ "deployments" ∷ "web" ∷ []) web_split hosted_split refl
      apis-ne apps-ne
