-- ===== src/Request/Tenants.antt =====
-- Paths of an object below a workspace, a namespace or a devops project, as `NewRequestInfo` of
-- pkg/apiserver/request/requestinfo.go reads them.
use kubesphere_schedule.Request.TenantForms.{
  in_workspace_devops, in_workspace_namespace, in_workspace, in_devops, read_kind-tenant,
  tenant_scope, in_namespace, tenant_parts, IsRead, tenant_info, Tenant,
}
use kubesphere_schedule.Request.Later.{mark-prefix, verb_of_method-ne-watch, read_verbs-kept}
use kubesphere_schedule.Http.{HttpRequest, UrlLib}
use kubesphere_schedule.Request.Scope.{is_global-nil, HaveNames}
use kubesphere_schedule.Request.Parse.{
  info_and_error, split_path, new_request_info, read_version, read_group, read_cluster,
  read_resource, read_prefix, initial_info, parse_parts, read_api, read_parts, next,
  is_global_scope_resource,
}
use kubesphere_schedule.Request.Types.{
  Codec, kubernetes_api_prefixes, RequestInfoFactory, RequestInfo, has,
}
use kubesphere_schedule.Request.Parse.{resolve_resource_scope}
use kubesphere_schedule.Base.{
  none, is_empty, true, refl, ltb, length, ◌≢◌, ◌≡◌, ◌∷◌, false, eq_iff, arith, [], String, List,
}

-- The scope where the resource is none of the global ones.
resolve-tenant :
    (r : RequestInfoFactory) (info : RequestInfo) (method k : String) (t : Tenant)
    → is_global_scope_resource r.global_resources info.api_group info.resource ≡ false
    → IsRead t k
    → resolve_resource_scope r (record (tenant_info info method t) { parts = info.parts })
      ≡ tenant_scope t
unfolding resolve_resource_scope
resolve-tenant r info method k (in_namespace n) g h = ground (arith, eq_iff n "")
resolve-tenant r info method k (in_devops d) g h = ground (arith, eq_iff d "")
resolve-tenant r info method k (in_workspace w) g h = ground (arith, eq_iff w "")
resolve-tenant r info method k (in_workspace_namespace w n) g h = ground (arith, eq_iff n "")
resolve-tenant r info method k (in_workspace_devops w d) g h = ground (arith, eq_iff d "")

tenant_parts-pos : (t : Tenant) (rest : List String) → ltb 0 (length (tenant_parts t rest)) ≡ true
tenant_parts-pos (in_namespace n) rest = ground arith
tenant_parts-pos (in_devops d) rest = ground arith
tenant_parts-pos (in_workspace w) rest = ground arith
tenant_parts-pos (in_workspace_namespace w n) rest = ground arith
tenant_parts-pos (in_workspace_devops w d) rest = ground arith

module _ (p g v k name : String) (t : Tenant) where
  abbrev pub tenant_path : List String
  tenant_path = p ∷ g ∷ v ∷ tenant_parts t (k ∷ name ∷ [])

  -- What is known behind the version.
  abbrev api_info : UrlLib → HttpRequest → RequestInfo
  api_info lib req = record (initial_info lib req) {
    api_prefix = p;
    api_group = g;
    api_version = v;
    is_resource_request = true;
  }

  -- What such a path asks for.
  abbrev pub tenant_object : UrlLib → HttpRequest → RequestInfo
  tenant_object lib req = record (tenant_info (api_info lib req) req.method t) {
    resource = k;
    name = name;
    parts = k ∷ name ∷ [];
    is_kubernetes_request = has kubernetes_api_prefixes p;
    resource_scope = tenant_scope t;
  }

  read_api-tenant :
      (r : RequestInfoFactory) (info : RequestInfo) (rest : List String)
      → has r.api_prefixes p ≡ true
      → has r.groupless_api_prefixes p ≡ false
      → g ≢ "clusters"
      → ltb 0 (length rest) ≡ true
      → read_api r info (p ∷ g ∷ v ∷ rest)
        ≡ next (
          record info {
            api_prefix = p;
            api_group = g;
            api_version = v;
            is_resource_request = true;
          },
          rest,
        )
  unfolding read_api read_prefix read_cluster read_group read_version
  read_api-tenant r info rest h1 h2 h3 h4 = ground (arith, eq_iff g "clusters")

  parse_parts-tenant :
      (lib : UrlLib) (r : RequestInfoFactory) (req : HttpRequest)
      → has r.api_prefixes p ≡ true
      → has r.groupless_api_prefixes p ≡ false
      → g ≢ "clusters"
      → IsRead t k
      → parse_parts lib r req tenant_path
        ≡ next (tenant_info (api_info lib req) req.method t, k ∷ name ∷ [])
  unfolding parse_parts initial_info
  parse_parts-tenant lib r req h1 h2 h3 h4 =
      rw
        (read_api-tenant r (initial_info lib req) (tenant_parts t (k ∷ name ∷ [])) h1 h2 h3
          (tenant_parts-pos t (k ∷ name ∷ [])))
        (read_kind-tenant req.method (lib.url_string req) k name (api_info lib req) t refl refl refl
          h4)

  parts_info : UrlLib → HttpRequest → RequestInfo
  parts_info lib req = record (tenant_info (api_info lib req) req.method t) {
    parts = k ∷ name ∷ [];
    resource_scope = tenant_scope t;
    name = name;
    resource = k;
  }

  read_parts-tenant :
      (lib : UrlLib) (r : RequestInfoFactory) (req : HttpRequest)
      → IsRead t k
      → HaveNames r.global_resources
      → read_parts r (tenant_info (api_info lib req) req.method t) (k ∷ name ∷ [])
        ≡ parts_info lib req
  unfolding read_parts read_resource parts_info initial_info
  read_parts-tenant lib r req h names =
      let global = is_global-nil r.global_resources g names in
      rw
        (resolve-tenant r (record (api_info lib req) { parts = k ∷ name ∷ [] }) req.method k t
          global h)
        refl

  -- A path {prefix}/{group}/{version} followed by a namespace, a devops project, a workspace, or a
  -- workspace with one of the other two, and then by {resource}/{name}, is read as a request for that
  -- object: with the verb of the method, the workspace, the namespace and the project of the path,
  -- and the scope of the innermost of them. The prefix is an API prefix with groups, the group is not
  -- "clusters", the names are not empty, the resource is none that the form reads otherwise, and no
  -- listed global resource has an empty name.
  pub new_request_info-tenant :
      (lib : UrlLib) (codec : Codec) (r : RequestInfoFactory) (req : HttpRequest)
      → split_path req.path ≡ tenant_path
      → has r.api_prefixes p ≡ true
      → has r.groupless_api_prefixes p ≡ false
      → p ≢ ""
      → g ≢ "clusters"
      → IsRead t k
      → is_empty name ≡ false
      → HaveNames r.global_resources
      → new_request_info lib codec r req ≡ info_and_error (tenant_object lib req) none
  unfolding new_request_info parts_info initial_info
  new_request_info-tenant lib codec r req hp h1 h2 hp' h3 h4 hname names =
      let kept = read_verbs-kept lib codec (lib.parse_query req.raw_query) in
      rw
        (
          hp,
          parse_parts-tenant lib r req h1 h2 h3 h4,
          read_parts-tenant lib r req h4 names,
          kept (parts_info lib req) (verb_of_method-ne-watch req.method) hname,
          mark-prefix (parts_info lib req) hp' refl,
        )
        refl
