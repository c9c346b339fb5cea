-- ===== src/Request/Clusters.antt =====
-- Paths below /{prefix}/clusters/{cluster} of `NewRequestInfo`.
pub mod Commutes
pub mod Keeps
use kubesphere_schedule.Request.Clusters.Keeps.{behind_cluster-Keeps, IsPrefixed}
use kubesphere_schedule.Request.Clusters.Commutes.{
  error_at, behind_cluster-Commutes, Flow_at_cluster, behind_cluster, at_cluster, Parsed_at_cluster,
}
use kubesphere_schedule.Utils.Net.{get_request_ip}
use kubesphere_schedule.Http.{HttpRequest, UrlLib}
use kubesphere_schedule.Request.Stages.{Each-bind, Each}
use kubesphere_schedule.Request.Parse.{
  read_cluster, read_prefix, read_api, initial_info, parse_parts, conclude, split_path,
  new_request_info, read_delete, resolve_resource_scope, read_watch, read_list, read_resource,
  read_parts, read_verbs, mark_kubernetes, read_version, ◌>>=◌, read_group, read_namespace,
  read_kind, read_workspace, read_verb, index_panic, finish, next, panics, info_and_error, Parsing,
  Flow, Parsed,
}
use kubesphere_schedule.Request.Types.{has, Codec, RequestInfoFactory, RequestInfo}
use kubesphere_schedule.Base.{
  ◌∙◌, sym, none, ap, true, ◌≢◌, eq_iff, ◌≡◌, ◌∷◌, refl, arith, [], List, String,
}

module _ (path cluster url : String) where
  read_parts-at_cluster :
      (r : RequestInfoFactory) (info : RequestInfo) (parts : List String)
      → read_parts r (at_cluster path cluster url info) parts
        ≡ at_cluster path cluster url (read_parts r info parts)
  unfolding read_parts read_resource resolve_resource_scope
  read_parts-at_cluster r info parts = refl

  read_verbs-at_cluster :
      (lib : UrlLib) (codec : Codec) (query : List (String × List String)) (info : RequestInfo)
      → read_verbs lib codec query (at_cluster path cluster url info)
        ≡ at_cluster path cluster url (read_verbs lib codec query info)
  unfolding read_verbs read_list read_watch read_delete
  read_verbs-at_cluster lib codec query info = ground arith

  mark-at_cluster :
      (info : RequestInfo)
      → info.api_prefix ≢ ""
      → mark_kubernetes (at_cluster path cluster url info)
        ≡ at_cluster path cluster url (mark_kubernetes info)
  unfolding mark_kubernetes
  mark-at_cluster info h = ground (arith, eq_iff info.api_prefix "")

  api_prefix-kept :
      (lib : UrlLib) (codec : Codec) (r : RequestInfoFactory) (query : List (String × List String))
      (info : RequestInfo) (parts : List String)
      → (read_verbs lib codec query (read_parts r info parts)).api_prefix ≡ info.api_prefix
  unfolding read_verbs read_list read_watch read_delete read_parts read_resource
  api_prefix-kept lib codec r query info parts = ground arith

  module _ (lib : UrlLib) (codec : Codec) (r : RequestInfoFactory) (req : HttpRequest)
      (p : String) where
    conclude-at_cluster :
        (f : Flow Parsing)
        → p ≢ ""
        → Each (IsPrefixed p) (λ i err. IsPrefixed p i) f
        → conclude lib codec r (record req { path = path }) (Flow_at_cluster path cluster url f)
          ≡ Parsed_at_cluster path cluster url (conclude lib codec r req f)
    unfolding conclude
    conclude-at_cluster (next (info, parts)) named e =
        let query = lib.parse_query req.raw_query in
        let same = api_prefix-kept lib codec r query info parts in
        rw
          (
            read_parts-at_cluster r info parts,
            read_verbs-at_cluster lib codec query (read_parts r info parts),
          )
          (ap (λ i. info_and_error i none)
            (mark-at_cluster (read_verbs lib codec query (read_parts r info parts))
              (λ h. named (sym e ∙ (sym same ∙ h)))))
    conclude-at_cluster (finish info err) named e =
        ap (λ i. info_and_error i (error_at path cluster url err))
          (mark-at_cluster info (λ h. named (sym e ∙ h)))
    conclude-at_cluster index_panic named e = refl

bind_assoc :
    (f : Flow Parsing) (g h : RequestInfo → List String → Flow Parsing)
    → (f >>= (λ x. g x.0 x.1) >>= (λ x. h x.0 x.1)) ≡ (f >>= λ x. g x.0 x.1 >>= λ y. h y.0 y.1)
bind_assoc (next a) g h = refl
bind_assoc (finish info err) g h = refl
bind_assoc index_panic g h = refl

-- The information behind the prefix.
prefixed : UrlLib → HttpRequest → String → RequestInfo
prefixed lib req p = record (initial_info lib req) { api_prefix = p }

parse_parts-plain :
    (lib : UrlLib) (r : RequestInfoFactory) (req : HttpRequest) (p q s : String)
    (rest : List String)
    → has r.api_prefixes p ≡ true
    → q ≢ "clusters"
    → parse_parts lib r req (p ∷ q ∷ s ∷ rest)
      ≡ behind_cluster r req.method (lib.url_string req) (prefixed lib req p) (q ∷ s ∷ rest)
unfolding parse_parts read_api read_prefix read_cluster behind_cluster prefixed
parse_parts-plain lib r req p q s rest h n =
    let start = prefixed lib req p in
    ground (
      arith,
      eq_iff q "clusters",
      bind_assoc (read_group r start (q ∷ s ∷ rest)) read_version
          (read_kind req.method (lib.url_string req)),
    )

get_request_ip-path :
    (lib : UrlLib) (req : HttpRequest) (path : String)
    → get_request_ip lib (record req { path = path }) ≡ get_request_ip lib req
unfolding get_request_ip
get_request_ip-path lib req path = refl

parse_parts-clusters :
    (lib : UrlLib) (r : RequestInfoFactory) (req : HttpRequest) (path p c q s : String)
    (rest : List String)
    → has r.api_prefixes p ≡ true
    → parse_parts lib r (record req { path = path }) (p ∷ "clusters" ∷ c ∷ q ∷ s ∷ rest)
      ≡ behind_cluster r req.method
          (lib.url_string (record req { path = path }))
          (at_cluster path c (lib.url_string (record req { path = path })) (prefixed lib req p))
          (q ∷ s ∷ rest)
unfolding parse_parts read_api read_prefix read_cluster behind_cluster prefixed initial_info
parse_parts-clusters lib r req path p c q s rest h =
    let start =
      at_cluster path c (lib.url_string (record req { path = path })) (prefixed lib req p) in
    ground (
      arith,
      get_request_ip-path lib req path,
      bind_assoc (read_group r start (q ∷ s ∷ rest)) read_version
          (read_kind req.method (lib.url_string req)),
    )

-- A path {prefix}/clusters/{cluster}/... is read as the path {prefix}/... without these two parts,
-- with the cluster set: every other part of the information and a panic are the same, and so is that
-- there is an error, whose text ends in the URL of the own request. The prefix is an API prefix and not empty, the part behind it is not "clusters", and at least two
-- parts follow it.
pub new_request_info-clusters :
    (lib : UrlLib) (codec : Codec) (r : RequestInfoFactory) (req : HttpRequest)
    (path p c q s : String) (rest : List String)
    → split_path req.path ≡ p ∷ q ∷ s ∷ rest
    → split_path path ≡ p ∷ "clusters" ∷ c ∷ q ∷ s ∷ rest
    → has r.api_prefixes p ≡ true
    → p ≢ ""
    → q ≢ "clusters"
    → new_request_info lib codec r (record req { path = path })
      ≡ Parsed_at_cluster path c
          (lib.url_string (record req { path = path }))
          (new_request_info lib codec r req)
unfolding new_request_info prefixed
new_request_info-clusters lib codec r req path p c q s rest h1 h2 h3 h4 h5 =
    let start = prefixed lib req p in
    let parts = q ∷ s ∷ rest in
    rw
      (
        h1,
        h2,
        parse_parts-plain lib r req p q s rest h3 h5,
        parse_parts-clusters lib r req path p c q s rest h3,
        behind_cluster-Commutes path c (lib.url_string (record req { path = path })) r req.method
            (lib.url_string req) start parts,
      )
      (conclude-at_cluster path c (lib.url_string (record req { path = path })) lib codec r req p
        (behind_cluster r req.method (lib.url_string req) start parts) h4
        (behind_cluster-Keeps p r req.method (lib.url_string req) start parts refl))
