-- ===== src/Request/Stages.antt =====
-- A predicate on what a stage hands on and on what it returns early, and its rule for a chain.
use kubesphere_schedule.Base.{[], ◌∷◌, false, none, arith, ◌≡◌, String, Option, List}
use kubesphere_schedule.Http.{HttpRequest, UrlLib}
use kubesphere_schedule.Request.Types.{RequestInfoFactory, RequestInfo}
use kubesphere_schedule.Request.Parse.{
  index_panic, finish, next, ◌>>=◌, Parsing, Flow, read_kind, read_api, read_verb, parse_parts,
  read_group, initial_info, read_prefix, read_workspace, read_cluster, read_namespace, read_version,
}

-- `N` holds of the information handed on, `F` of what is returned early.
abbrev pub Each :
    (RequestInfo → Type 0) → (RequestInfo → Option String → Type 0) → Flow Parsing → Type 0
Each N F (next (info, parts)) = N info
Each N F (finish info err) = F info err
Each N F index_panic = Unit

module _ (N M : RequestInfo → Type 0) (F : RequestInfo → Option String → Type 0) where
  pub Each-bind :
      (f : Flow Parsing) (g : RequestInfo → List String → Flow Parsing)
      → Each N F f
      → ((info : RequestInfo) (parts : List String) → N info → Each M F (g info parts))
      → Each M F (f >>= λ x. g x.0 x.1)
  Each-bind (next (info, parts)) g h k = k info parts h
  Each-bind (finish info err) g h k = h
  Each-bind index_panic g h k = tt

-- Nothing of the resource is known before the parts are set.
pub record IsUnread (info : RequestInfo) : Type 0 where
  pub resource : info.resource ≡ ""
  pub name : info.name ≡ ""
  pub scope : info.resource_scope ≡ ""

-- An early return without an error is no resource request.
abbrev pub Returns : RequestInfo → Option String → Type 0
Returns info err = (info.resource_scope ≡ "") × ((err ≡ none) → info.is_resource_request ≡ false)

-- What is handed on before the version is no resource request yet.
pub record IsUnversioned (info : RequestInfo) : Type 0 where
  pub unread : IsUnread info
  pub no_resource : info.is_resource_request ≡ false

read_prefix-Each :
    (r : RequestInfoFactory) (info : RequestInfo) (parts : List String)
    → IsUnversioned info
    → Each IsUnversioned Returns (read_prefix r info parts)
unfolding read_prefix
read_prefix-Each r info [] h = (h.unread.scope, λ e. h.no_resource)
read_prefix-Each r info (p ∷ parts) h = ground arith

read_cluster-Each :
    (info : RequestInfo) (parts : List String)
    → IsUnversioned info
    → Each IsUnversioned Returns (read_cluster info parts)
unfolding read_cluster
read_cluster-Each info [] h = tt
read_cluster-Each info (p ∷ parts) h = ground arith

read_group-Each :
    (r : RequestInfoFactory) (info : RequestInfo) (parts : List String)
    → IsUnversioned info
    → Each IsUnversioned Returns (read_group r info parts)
unfolding read_group
read_group-Each r info parts h = ground arith

read_version-Each :
    (info : RequestInfo) (parts : List String)
    → IsUnversioned info
    → Each IsUnread Returns (read_version info parts)
unfolding read_version
read_version-Each info [] h = tt
read_version-Each info (p ∷ parts) h = ground arith

read_verb-Each :
    (method url : String) (info : RequestInfo) (parts : List String)
    → IsUnread info
    → Each IsUnread Returns (read_verb method url info parts)
unfolding read_verb
read_verb-Each method url info [] h = ground arith
read_verb-Each method url info (p ∷ parts) h = ground arith

read_workspace-Each :
    (info : RequestInfo) (parts : List String)
    → IsUnread info
    → Each IsUnread Returns (read_workspace info parts)
unfolding read_workspace
read_workspace-Each info [] h = tt
read_workspace-Each info (p ∷ parts) h = ground arith

read_namespace-Each :
    (info : RequestInfo) (parts : List String)
    → IsUnread info
    → Each IsUnread Returns (read_namespace info parts)
unfolding read_namespace
read_namespace-Each info [] h = tt
read_namespace-Each info (p ∷ parts) h = ground arith

initial_info-IsUnversioned :
    (lib : UrlLib) (req : HttpRequest) → IsUnversioned (initial_info lib req)
unfolding initial_info
initial_info-IsUnversioned lib req = ground arith

read_api-Each :
    (r : RequestInfoFactory) (info : RequestInfo) (parts : List String)
    → IsUnversioned info
    → Each IsUnread Returns (read_api r info parts)
unfolding read_api
read_api-Each r info parts h =
    Each-bind IsUnversioned IsUnread Returns (read_prefix r info parts)
      (λ i ps. read_cluster i ps >>= λ x. read_group r x.0 x.1 >>= λ y. read_version y.0 y.1)
      (read_prefix-Each r info parts h)
      λ i ps k.
        Each-bind IsUnversioned IsUnread Returns (read_cluster i ps)
          (λ j qs. read_group r j qs >>= λ y. read_version y.0 y.1) (read_cluster-Each i ps k)
          λ j qs l.
            Each-bind IsUnversioned IsUnread Returns (read_group r j qs) read_version
              (read_group-Each r j qs l) read_version-Each

read_kind-Each :
    (method url : String) (info : RequestInfo) (parts : List String)
    → IsUnread info
    → Each IsUnread Returns (read_kind method url info parts)
unfolding read_kind
read_kind-Each method url info parts h =
    Each-bind IsUnread IsUnread Returns (read_verb method url info parts)
      (λ i ps. read_workspace i ps >>= λ x. read_namespace x.0 x.1)
      (read_verb-Each method url info parts h)
      λ i ps k.
        Each-bind IsUnread IsUnread Returns (read_workspace i ps) read_namespace
          (read_workspace-Each i ps k) read_namespace-Each

-- The stages keep the resource unread, and return early without an error only where no resource is
-- asked for.
pub parse_parts-Each :
    (lib : UrlLib) (r : RequestInfoFactory) (req : HttpRequest) (parts : List String)
    → Each IsUnread Returns (parse_parts lib r req parts)
unfolding parse_parts
parse_parts-Each lib r req parts =
    Each-bind IsUnread IsUnread Returns (read_api r (initial_info lib req) parts)
      (read_kind req.method (lib.url_string req))
      (read_api-Each r (initial_info lib req) parts (initial_info-IsUnversioned lib req))
      (read_kind-Each req.method (lib.url_string req))
