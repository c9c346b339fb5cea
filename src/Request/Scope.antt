-- ===== src/Request/Scope.antt =====
-- The resource scope of `NewRequestInfo`.
use kubesphere_schedule.Request.Stages.{Returns, IsUnread, Each, parse_parts-Each}
use kubesphere_schedule.Http.{HttpRequest, UrlLib}
use kubesphere_schedule.Request.Types.{
  cluster_scope, devops_scope, namespace_scope, workspace_scope, Codec, global_scope,
  RequestInfoFactory, RequestInfo, GroupResource,
}
use kubesphere_schedule.Request.Parse.{
  read_delete, read_watch, read_list, index_panic, finish, next, Parsing, split_path, parse_parts,
  Flow, conclude, info_and_error, new_request_info, read_resource, is_global_scope_resource,
  mark_kubernetes, read_verbs, resolve_resource_scope, read_parts,
}
use kubesphere_schedule.Base.{
  Option, ◌≢◌, ◌≡◌, ◌∷◌, refl, false, eq_iff, arith, [], String, List, All,
}

-- No listed resource has an empty name.
abbrev pub HaveNames : List GroupResource → Type 0
HaveNames = All (λ (g : GroupResource). g.resource ≢ "")

pub is_global-nil :
    (gs : List GroupResource) (group : String)
    → HaveNames gs
    → is_global_scope_resource gs group "" ≡ false
unfolding is_global_scope_resource
is_global-nil [] group h = refl
is_global-nil (g ∷ gs) group (n, h) = ground (arith, eq_iff g.resource "", is_global-nil gs group h)

-- The scope that the code resolves never is "Global" if the resource is not read yet.
resolve-ne-global :
    (r : RequestInfoFactory) (info : RequestInfo)
    → HaveNames r.global_resources
    → info.resource ≡ ""
    → resolve_resource_scope r info ≢ global_scope
unfolding resolve_resource_scope
resolve-ne-global r info h e =
    let g : is_global_scope_resource r.global_resources info.api_group info.resource ≡ false =
      rw e (is_global-nil r.global_resources info.api_group h) in
    λ eq. ground (
      arith,
      eq_iff namespace_scope global_scope,
      eq_iff devops_scope global_scope,
      eq_iff workspace_scope global_scope,
      eq_iff cluster_scope global_scope,
    )

read_parts-scope :
    (r : RequestInfoFactory) (info : RequestInfo) (parts : List String)
    → HaveNames r.global_resources
    → info.resource ≡ ""
    → (read_parts r info parts).resource_scope ≢ global_scope
unfolding read_parts read_resource
read_parts-scope r info parts h e = resolve-ne-global r (record info { parts = parts }) h e

read_verbs-scope :
    (lib : UrlLib) (codec : Codec) (query : List (String × List String)) (info : RequestInfo)
    → info.resource_scope ≢ global_scope
    → (read_verbs lib codec query info).resource_scope ≢ global_scope
unfolding read_verbs read_list read_watch read_delete
read_verbs-scope lib codec query info h = ground (arith, eq_iff workspace_scope global_scope)

mark-scope : (info : RequestInfo) → (mark_kubernetes info).resource_scope ≡ info.resource_scope
unfolding mark_kubernetes
mark-scope info = ground arith

module _ (lib : UrlLib) (codec : Codec) (r : RequestInfoFactory) (req : HttpRequest) where
  conclude-scope :
      (f : Flow Parsing) (info : RequestInfo) (err : Option String)
      → HaveNames r.global_resources
      → Each IsUnread Returns f
      → conclude lib codec r req f ≡ info_and_error info err
      → info.resource_scope ≢ global_scope
  unfolding conclude
  conclude-scope (next (i, parts)) info err names unread e =
      let query = lib.parse_query req.raw_query in
      let read = read_parts r i parts in
      let scoped =
        read_verbs-scope lib codec query read (read_parts-scope r i parts names unread.resource) in
      ground (arith, mark-scope (read_verbs lib codec query read))
  conclude-scope (finish i err') info err names unread e =
      ground (arith, mark-scope i, eq_iff "" global_scope)
  conclude-scope index_panic info err names unread e = cc

-- The resource scope of a request never is "Global", though resources may be listed as global: the
-- scope is resolved before the name of the resource is read. The listed resources have names.
pub new_request_info-ne-global :
    (lib : UrlLib) (codec : Codec) (r : RequestInfoFactory) (req : HttpRequest) (info : RequestInfo)
    (err : Option String)
    → HaveNames r.global_resources
    → new_request_info lib codec r req ≡ info_and_error info err
    → info.resource_scope ≢ global_scope
unfolding new_request_info
new_request_info-ne-global lib codec r req info err names e =
    conclude-scope lib codec r req (parse_parts lib r req (split_path req.path)) info err names
      (parse_parts-Each lib r req (split_path req.path)) e
