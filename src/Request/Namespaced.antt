-- ===== src/Request/Namespaced.antt =====
-- A path of the documented form {prefix}/{group}/{version}/namespaces/{namespace}/{resource}/{name}.
use kubesphere_schedule.Request.Later.{mark-prefix, verb_of_method-ne-watch, read_verbs-kept}
use kubesphere_schedule.Request.Scope.{is_global-nil, HaveNames}
use kubesphere_schedule.Request.Types.{
  Codec, namespace_scope, namespace_subresources, RequestInfoFactory, kubernetes_api_prefixes, has,
  RequestInfo,
}
use kubesphere_schedule.Http.{HttpRequest, UrlLib}
use kubesphere_schedule.Request.Parse.{
  is_global_scope_resource, resolve_resource_scope, read_resource, parse_parts, read_parts,
  info_and_error, split_path, new_request_info, next, read_version, verb_of_method, read_group,
  read_namespace, initial_info, read_cluster, read_workspace, read_verb, read_prefix, read_api,
  read_kind,
}
use kubesphere_schedule.Base.{
  refl, none, is_empty, ◌≢◌, ◌≡◌, ◌∷◌, true, false, eq_iff, arith, [], String, List,
}

module _ (p g v n k name : String) where
  abbrev pub namespaced_path : List String
  namespaced_path = p ∷ g ∷ v ∷ "namespaces" ∷ n ∷ k ∷ name ∷ []

  -- What such a path asks for.
  abbrev pub namespaced_info : UrlLib → HttpRequest → RequestInfo
  namespaced_info lib req = record (initial_info lib req) {
    is_resource_request = true;
    verb = verb_of_method req.method;
    api_prefix = p;
    api_group = g;
    api_version = v;
    namespace = n;
    resource = k;
    name = name;
    parts = k ∷ name ∷ [];
    is_kubernetes_request = has kubernetes_api_prefixes p;
    resource_scope = namespace_scope;
  }

  read_api-namespaced :
      (r : RequestInfoFactory) (info : RequestInfo)
      → has r.api_prefixes p ≡ true
      → has r.groupless_api_prefixes p ≡ false
      → g ≢ "clusters"
      → read_api r info namespaced_path
        ≡ next (
          record info {
            api_prefix = p;
            api_group = g;
            api_version = v;
            is_resource_request = true;
          },
          "namespaces" ∷ n ∷ k ∷ name ∷ [],
        )
  unfolding read_api read_prefix read_cluster read_group read_version
  read_api-namespaced r info h1 h2 h3 = ground (arith, eq_iff g "clusters")

  read_kind-namespaced :
      (method url : String) (info : RequestInfo)
      → has namespace_subresources k ≡ false
      → read_kind method url info ("namespaces" ∷ n ∷ k ∷ name ∷ [])
        ≡ next (record info { verb = verb_of_method method; namespace = n }, k ∷ name ∷ [])
  unfolding read_kind read_verb read_workspace read_namespace
  read_kind-namespaced method url info h = ground arith

  -- What is known when the parts are set.
  abbrev kind_info : UrlLib → HttpRequest → RequestInfo
  kind_info lib req = record (initial_info lib req) {
    api_prefix = p;
    api_group = g;
    api_version = v;
    is_resource_request = true;
    verb = verb_of_method req.method;
    namespace = n;
  }

  abbrev parts_info : UrlLib → HttpRequest → RequestInfo
  parts_info lib req = record (kind_info lib req) {
    parts = k ∷ name ∷ [];
    resource_scope = namespace_scope;
    name = name;
    resource = k;
  }

  parse_parts-namespaced :
      (lib : UrlLib) (r : RequestInfoFactory) (req : HttpRequest)
      → has r.api_prefixes p ≡ true
      → has r.groupless_api_prefixes p ≡ false
      → g ≢ "clusters"
      → has namespace_subresources k ≡ false
      → parse_parts lib r req namespaced_path ≡ next (kind_info lib req, k ∷ name ∷ [])
  unfolding parse_parts
  parse_parts-namespaced lib r req h1 h2 h3 h4 =
      rw (read_api-namespaced r (initial_info lib req) h1 h2 h3)
        (read_kind-namespaced req.method (lib.url_string req) _ h4)

  read_parts-namespaced :
      (r : RequestInfoFactory) (info : RequestInfo)
      → info.resource ≡ ""
      → info.namespace ≢ ""
      → HaveNames r.global_resources
      → read_parts r info (k ∷ name ∷ []) ≡ record info {
        parts = k ∷ name ∷ [];
        resource_scope = namespace_scope;
        name = name;
        resource = k;
      }
  unfolding read_parts read_resource resolve_resource_scope
  read_parts-namespaced r info e hn names =
      let g : is_global_scope_resource r.global_resources info.api_group info.resource ≡ false =
        rw e (is_global-nil r.global_resources info.api_group names) in
      ground (arith, eq_iff info.namespace "")

  -- A path {prefix}/{group}/{version}/namespaces/{namespace}/{resource}/{name} is read as a request
  -- for that object, with the verb of the method, whatever the query. The prefix is an API prefix
  -- with groups, the group is not "clusters", the resource is no subresource of a namespace, the
  -- namespace and the name are not empty, and no listed global resource has an empty name.
  pub new_request_info-namespaced :
      (lib : UrlLib) (codec : Codec) (r : RequestInfoFactory) (req : HttpRequest)
      → split_path req.path ≡ namespaced_path
      → has r.api_prefixes p ≡ true
      → has r.groupless_api_prefixes p ≡ false
      → p ≢ ""
      → g ≢ "clusters"
      → has namespace_subresources k ≡ false
      → n ≢ ""
      → is_empty name ≡ false
      → HaveNames r.global_resources
      → new_request_info lib codec r req ≡ info_and_error (namespaced_info lib req) none
  unfolding new_request_info initial_info
  new_request_info-namespaced lib codec r req hp h1 h2 hp' h3 h4 hn hname names =
      let kept = read_verbs-kept lib codec (lib.parse_query req.raw_query) in
      rw
        (
          hp,
          parse_parts-namespaced lib r req h1 h2 h3 h4,
          read_parts-namespaced r (kind_info lib req) refl hn names,
          kept (parts_info lib req) (verb_of_method-ne-watch req.method) hname,
          mark-prefix (parts_info lib req) hp' refl,
        )
        refl
