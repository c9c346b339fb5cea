-- ===== src/Request/Parse.antt =====
-- `NewRequestInfo` of pkg/apiserver/request/requestinfo.go, one function for each of its stages. A
-- stage hands the information so far and the parts not yet read on, returns early, or indexes past
-- the end of the parts, which is a panic.
mod Parts
unfoldable pub use Parts.*
use kubesphere_schedule.Base.{
  ◌*◌, ℕ, String, Bool, true, false, not, ◌&&◌, ◌||◌, List, [], ◌∷◌, Option, none, some, ◌==◌,
  length, drop, get_elem?, any, ltb, leb, if◌then◌else◌, is_char, is_empty, trim, split,
  strip_prefix,
}
use kubesphere_schedule.Http.{HttpRequest, UrlLib, header_get, query_values, query_get, or_empty}
use kubesphere_schedule.Utils.Net.{get_request_ip}
use kubesphere_schedule.Request.Types.{
  has, special_verbs, special_verbs_no_subresources, namespace_subresources,
  kubernetes_api_prefixes, RequestInfo, GroupResource, RequestInfoFactory, global_scope,
  cluster_scope, workspace_scope, namespace_scope, devops_scope, workspace_selector_prefix,
  ListOptions, Codec,
}

-- resource/resourceName/subresource, with the cases falling through.
unfoldable pub read_resource : RequestInfo → RequestInfo
read_resource info = record info {
  subresource =
      if leb 3 (length info.parts) && not (has special_verbs_no_subresources info.verb)
      then part_or info.parts 2 info.subresource
      else info.subresource;
  name = part_or info.parts 1 info.name;
  resource = part_or info.parts 0 info.resource;
}

-- Sets the parts, resolves the scope and then reads the resource, in the order of the code.
unfoldable pub read_parts : RequestInfoFactory → RequestInfo → List String → RequestInfo
unfolding read_resource
read_parts r info parts =
    let info' = record info { parts = parts } in
    read_resource (record info' { resource_scope = resolve_resource_scope r info' })

-- What `watch` says when the options cannot be decoded.
unfoldable pub watch_of_query : UrlLib → List (String × List String) → Bool
watch_of_query lib query = elim (query_values "watch" query) [
  | [] ↦ false
  | v ∷ vs ↦ not (lib.to_lower v == "false" || lib.to_lower v == "0")
]

unfoldable pub list_options : UrlLib → Codec → List (String × List String) → ListOptions
list_options lib codec query = elim (codec.decode_list_options query) [
  | none ↦ record { watch = watch_of_query lib query; field_selector = none }
  | some opts ↦ opts
]

-- The name that a field selector requires, if it is a valid path segment.
unfoldable pub selected_name : Codec → ListOptions → String → String
selected_name codec opts old = elim opts.field_selector [
  | none ↦ old
  | some exact ↦ elim (exact "metadata.name") [
    | none ↦ old
    | some name ↦ if ltb 0 (length (codec.is_valid_path_segment_name name)) then old else name
  ]
]

-- A `get` with no name is a list or a watch.
unfoldable pub read_list : UrlLib → Codec → List (String × List String) → RequestInfo → RequestInfo
unfolding list_options selected_name
read_list lib codec query info =
    let opts = list_options lib codec query in
    if is_empty info.name && info.verb == "get"
    then record info {
      verb = if opts.watch then "watch" else "list";
      name = selected_name codec opts info.name;
    }
    else info

-- URL forms: /api/v1/watch/namespaces?labelSelector=kubesphere.io/workspace=system-workspace
unfoldable pub read_watch : List (String × List String) → RequestInfo → RequestInfo
read_watch query info =
    let selector = strip_prefix workspace_selector_prefix (query_get "labelSelector" query) in
    if info.verb == "watch"
    then elim selector [
      | none ↦ info
      | some workspace ↦ record info { workspace = workspace; resource_scope = workspace_scope }
    ]
    else info

-- A `delete` with no name is a `deletecollection`.
unfoldable pub read_delete : RequestInfo → RequestInfo
read_delete info =
    if is_empty info.name && info.verb == "delete"
    then record info { verb = "deletecollection" }
    else info

unfoldable pub read_verbs : UrlLib → Codec → List (String × List String) → RequestInfo → RequestInfo
read_verbs lib codec query info = read_delete (read_watch query (read_list lib codec query info))

-- The stages up to the version.
unfoldable pub read_api : RequestInfoFactory → RequestInfo → List String → Flow Parsing
read_api r info parts = do
  (info₁, parts₁) ← read_prefix r info parts
  (info₂, parts₂) ← read_cluster info₁ parts₁
  (info₃, parts₃) ← read_group r info₂ parts₂
  read_version info₃ parts₃

-- The stages from the verb to the namespace.
unfoldable pub read_kind : String → String → RequestInfo → List String → Flow Parsing
read_kind method url info parts = do
  (info₁, parts₁) ← read_verb method url info parts
  (info₂, parts₂) ← read_workspace info₁ parts₁
  read_namespace info₂ parts₂

-- The stages from the parts of the path to the information, without the deferred function.
unfoldable pub parse_parts : UrlLib → RequestInfoFactory → HttpRequest → List String → Flow Parsing
parse_parts lib r req parts = do
  (info, rest) ← read_api r (initial_info lib req) parts
  read_kind req.method (lib.url_string req) info rest

pub data Parsed : Type 0 where
  info_and_error : RequestInfo → Option String → Parsed
  panics : Parsed

-- The end of `NewRequestInfo`, the deferred function included.
unfoldable pub conclude : UrlLib → Codec → RequestInfoFactory → HttpRequest → Flow Parsing → Parsed
conclude lib codec r req (next (info, parts)) =
    info_and_error
      (mark_kubernetes
        (read_verbs lib codec (lib.parse_query req.raw_query) (read_parts r info parts)))
      none
conclude lib codec r req (finish info err) = info_and_error (mark_kubernetes info) err
conclude lib codec r req index_panic = panics

unfoldable pub new_request_info : UrlLib → Codec → RequestInfoFactory → HttpRequest → Parsed
unfolding conclude
new_request_info lib codec r req =
    conclude lib codec r req (parse_parts lib r req (split_path req.path))
