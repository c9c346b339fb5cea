-- ===== src/Request/Parse/Parts.antt =====
-- `NewRequestInfo` of pkg/apiserver/request/requestinfo.go, the stages that read the parts of the
-- path, with what an index out of range does.
use kubesphere_schedule.Base.{
  ℕ, String, Bool, true, false, not, ◌&&◌, ◌||◌, List, [], ◌∷◌, Option, none, some, ◌==◌, length,
  drop, get_elem?, any, ltb, if◌then◌else◌, is_char, is_empty, trim, split, join,
}
use kubesphere_schedule.Http.{HttpRequest, UrlLib, header_get, or_empty}
use kubesphere_schedule.Utils.Net.{get_request_ip}
use kubesphere_schedule.Request.Types.{
  has, special_verbs, namespace_subresources, kubernetes_api_prefixes, RequestInfo, GroupResource,
  RequestInfoFactory, global_scope, cluster_scope, workspace_scope, namespace_scope, devops_scope,
}

-- `next` goes on to the code below; `finish` is an early return with an error or none.
pub data Flow (A : Type 0) : Type 0 where
  next : A → Flow A
  finish : RequestInfo → Option String → Flow A
  index_panic : Flow A

infixl 5 ◌>>=◌
abbrev pub ◌>>=◌ : {A B : Type 0} → Flow A → (A → Flow B) → Flow B
next a >>= f = f a
finish info err >>= f = finish info err
index_panic >>= f = index_panic

abbrev pub Parsing : Type 0
Parsing = RequestInfo × List String

unfoldable pub split_path : String → List String
unfolding trim split
split_path path =
    let trimmed = trim (is_char b'/') path in if is_empty trimmed then [] else split b'/' trimmed

unfoldable pub is_global_scope_resource : List GroupResource → String → String → Bool
is_global_scope_resource resources api_group resource =
    any (λ (g : GroupResource). g.group == api_group && g.resource == resource) resources

unfoldable pub resolve_resource_scope : RequestInfoFactory → RequestInfo → String
resolve_resource_scope r request =
    if is_global_scope_resource r.global_resources request.api_group request.resource
    then global_scope
    else if not (request.namespace == "")
    then namespace_scope
    else if not (request.devops == "")
    then devops_scope
    else if not (request.workspace == "")
    then workspace_scope
    else cluster_scope

-- The information at the start.
unfoldable pub initial_info : UrlLib → HttpRequest → RequestInfo
initial_info lib req = record {
  is_resource_request = false;
  path = req.path;
  verb = req.method;
  api_prefix = "";
  api_group = "";
  api_version = "";
  namespace = "";
  resource = "";
  subresource = "";
  name = "";
  parts = [];
  is_kubernetes_request = false;
  workspace = "";
  cluster = "";
  devops = "";
  resource_scope = "";
  source_ip = get_request_ip lib req;
  user_agent = header_get "User-Agent" req.header;
}

-- The prefix that the deferred function looks up.
unfoldable pub deferred_prefix : RequestInfo → String
deferred_prefix info =
    let current_parts = split_path info.path in
    if info.api_prefix == ""
    then if ltb 0 (length current_parts) && ltb (length current_parts) 3
      then or_empty (get_elem? current_parts 0)
      else ""
    else info.api_prefix

-- The deferred function.
unfoldable pub mark_kubernetes : RequestInfo → RequestInfo
unfolding deferred_prefix
mark_kubernetes info =
    if has kubernetes_api_prefixes (deferred_prefix info)
    then record info { is_kubernetes_request = true }
    else info

-- Fewer than three parts, or a first part that is no API prefix, is no resource request.
unfoldable pub read_prefix : RequestInfoFactory → RequestInfo → List String → Flow Parsing
read_prefix r info [] = finish info none
read_prefix r info (p ∷ parts) =
    if ltb (length parts) 2 || not (has r.api_prefixes p)
    then finish info none
    else next (record info { api_prefix = p }, parts)

-- `currentParts[2:]` if there are more than two.
abbrev pub step_over : List String → List String
step_over parts = if ltb 2 (length parts) then drop 2 parts else parts

abbrev pub part_or : List String → ℕ → String → String
part_or parts i old = elim (get_elem? parts i) [ none ↦ old | some p ↦ p ]

-- URL forms: /clusters/{cluster}/*
unfoldable pub read_cluster : RequestInfo → List String → Flow Parsing
read_cluster info [] = index_panic
read_cluster info (p ∷ parts) =
    if p == "clusters"
    then next (record info { cluster = part_or (p ∷ parts) 1 info.cluster }, step_over (p ∷ parts))
    else next (info, p ∷ parts)

unfoldable pub read_group : RequestInfoFactory → RequestInfo → List String → Flow Parsing
read_group r info parts =
    if has r.groupless_api_prefixes info.api_prefix
    then next (info, parts)
    else if ltb (length parts) 3
    then finish info none
    else next (record info { api_group = part_or parts 0 "" }, drop 1 parts)

unfoldable pub read_version : RequestInfo → List String → Flow Parsing
read_version info [] = index_panic
read_version info (p ∷ parts) =
    next (record info { is_resource_request = true; api_version = p }, parts)

unfoldable pub verb_of_method : String → String
verb_of_method method =
    if method == "POST"
    then "create"
    else if method == "GET" || method == "HEAD"
    then "get"
    else if method == "PUT"
    then "update"
    else if method == "PATCH"
    then "patch"
    else if method == "DELETE"
    then "delete"
    else ""

abbrev pub kind_error : String → String
kind_error url = join "unable to determine kind and namespace from url: " url

unfoldable pub read_verb : String → String → RequestInfo → List String → Flow Parsing
read_verb method url info [] = next (record info { verb = verb_of_method method }, [])
read_verb method url info (p ∷ parts) =
    if has special_verbs p
    then if ltb (length parts) 1
      then finish info (some (kind_error url))
      else next (record info { verb = p }, parts)
    else next (record info { verb = verb_of_method method }, p ∷ parts)

-- URL forms: /workspaces/{workspace}/*
unfoldable pub read_workspace : RequestInfo → List String → Flow Parsing
read_workspace info [] = index_panic
read_workspace info (p ∷ parts) =
    if p == "workspaces"
    then next
        (record info { workspace = part_or (p ∷ parts) 1 info.workspace }, step_over (p ∷ parts))
    else next (info, p ∷ parts)

-- `currentParts[2:]` unless the third part is a subresource of the namespace.
abbrev pub step_over_namespace : List String → List String
step_over_namespace parts =
    if ltb 2 (length parts) && not (has namespace_subresources (part_or parts 2 ""))
    then drop 2 parts
    else parts

-- URL forms: /namespaces/{namespace}/{kind}/* and /devops/{devops}/*
unfoldable pub read_namespace : RequestInfo → List String → Flow Parsing
read_namespace info [] = index_panic
read_namespace info (p ∷ parts) =
    if p == "namespaces"
    then next (
      record info { namespace = part_or (p ∷ parts) 1 info.namespace },
      step_over_namespace (p ∷ parts),
    )
    else if p == "devops"
    then next (record info { devops = part_or (p ∷ parts) 1 info.devops }, step_over (p ∷ parts))
    else next (record info { namespace = ""; devops = "" }, p ∷ parts)
