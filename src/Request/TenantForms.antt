-- ===== src/Request/TenantForms.antt =====
-- The forms of a path below a workspace, a namespace or a devops project, and what the stages of
-- `NewRequestInfo`, pkg/apiserver/request/requestinfo.go, read of them up to the resource.
use kubesphere_schedule.Request.Parse.{
  next, read_namespace, read_workspace, read_verb, verb_of_method, read_kind,
}
use kubesphere_schedule.Request.Types.{
  workspace_scope, devops_scope, namespace_subresources, namespace_scope, RequestInfo, has,
}
use kubesphere_schedule.Base.{◌≢◌, ◌≡◌, ◌∷◌, false, eq_iff, arith, [], String, List}

-- Whose object a path names.
pub data Tenant : Type 0 where
  in_namespace in_devops in_workspace : String → Tenant
  in_workspace_namespace in_workspace_devops : String → String → Tenant

abbrev pub tenant_workspace : Tenant → String
tenant_workspace (in_namespace n) = ""
tenant_workspace (in_devops d) = ""
tenant_workspace (in_workspace w) = w
tenant_workspace (in_workspace_namespace w n) = w
tenant_workspace (in_workspace_devops w d) = w

abbrev pub tenant_namespace : Tenant → String
tenant_namespace (in_namespace n) = n
tenant_namespace (in_devops d) = ""
tenant_namespace (in_workspace w) = ""
tenant_namespace (in_workspace_namespace w n) = n
tenant_namespace (in_workspace_devops w d) = ""

abbrev pub tenant_devops : Tenant → String
tenant_devops (in_namespace n) = ""
tenant_devops (in_devops d) = d
tenant_devops (in_workspace w) = ""
tenant_devops (in_workspace_namespace w n) = ""
tenant_devops (in_workspace_devops w d) = d

abbrev pub tenant_scope : Tenant → String
tenant_scope (in_namespace n) = namespace_scope
tenant_scope (in_devops d) = devops_scope
tenant_scope (in_workspace w) = workspace_scope
tenant_scope (in_workspace_namespace w n) = namespace_scope
tenant_scope (in_workspace_devops w d) = devops_scope

-- The parts behind the version.
abbrev pub tenant_parts : Tenant → List String → List String
tenant_parts (in_namespace n) rest = "namespaces" ∷ n ∷ rest
tenant_parts (in_devops d) rest = "devops" ∷ d ∷ rest
tenant_parts (in_workspace w) rest = "workspaces" ∷ w ∷ rest
tenant_parts (in_workspace_namespace w n) rest = "workspaces" ∷ w ∷ "namespaces" ∷ n ∷ rest
tenant_parts (in_workspace_devops w d) rest = "workspaces" ∷ w ∷ "devops" ∷ d ∷ rest

-- The name of the namespace, of the project or of a workspace alone is not empty, and the resource is
-- none that the form reads otherwise.
abbrev pub IsRead : Tenant → String → Type 0
IsRead (in_namespace n) k = (n ≢ "") × (has namespace_subresources k ≡ false)
IsRead (in_devops d) k = d ≢ ""
IsRead (in_workspace w) k = (w ≢ "") × (k ≢ "namespaces") × (k ≢ "devops")
IsRead (in_workspace_namespace w n) k = (n ≢ "") × (has namespace_subresources k ≡ false)
IsRead (in_workspace_devops w d) k = d ≢ ""

-- What is known of the tenant behind the verb.
abbrev pub tenant_info : RequestInfo → String → Tenant → RequestInfo
tenant_info info method t = record info {
  verb = verb_of_method method;
  workspace = tenant_workspace t;
  namespace = tenant_namespace t;
  devops = tenant_devops t;
}

pub read_kind-tenant :
    (method url k name : String) (info : RequestInfo) (t : Tenant)
    → info.workspace ≡ ""
    → info.namespace ≡ ""
    → info.devops ≡ ""
    → IsRead t k
    → read_kind method url info (tenant_parts t (k ∷ name ∷ []))
      ≡ next (tenant_info info method t, k ∷ name ∷ [])
unfolding read_kind read_verb read_workspace read_namespace
read_kind-tenant method url k name info (in_namespace n) e0 e1 e2 h = ground arith
read_kind-tenant method url k name info (in_devops d) e0 e1 e2 h = ground arith
read_kind-tenant method url k name info (in_workspace w) e0 e1 e2 h =
    ground (arith, eq_iff k "namespaces", eq_iff k "devops")
read_kind-tenant method url k name info (in_workspace_namespace w n) e0 e1 e2 h = ground arith
read_kind-tenant method url k name info (in_workspace_devops w d) e0 e1 e2 h = ground arith
