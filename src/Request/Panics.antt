-- ===== src/Request/Panics.antt =====
-- When `NewRequestInfo` indexes past the end of the path's parts.
use kubesphere_schedule.Base.{◌≢◌, String, true, List, [], ◌∷◌, ◌≡◌, ◌↔◌, refl, arith, eq_iff}
use kubesphere_schedule.Http.{HttpRequest, UrlLib}
use kubesphere_schedule.Request.Types.{has, RequestInfo, RequestInfoFactory, Codec}
use kubesphere_schedule.Request.Parse.{
  parse_parts, read_version, read_namespace, read_group, read_cluster, read_workspace, read_verb,
  read_prefix, conclude, read_api, read_kind, Flow, next, finish, index_panic, Parsing, split_path,
  panics, new_request_info, initial_info, ◌>>=◌,
}

-- The parts {prefix}/clusters/{cluster}/{version}, of a prefix that has no group.
abbrev pub IsClusterVersion : RequestInfoFactory → List String → Type 0
IsClusterVersion r parts =
    (p : String) × (c : String) × (v : String) × (parts ≡ p ∷ "clusters" ∷ c ∷ v ∷ [])
    × (has r.api_prefixes p ≡ true)
    × (has r.groupless_api_prefixes p ≡ true)

read_kind-ne-panic :
    (method url : String) (info : RequestInfo) (p : String) (parts : List String)
    → read_kind method url info (p ∷ parts) ≡ index_panic
    → ⊥
unfolding read_kind read_verb read_workspace read_namespace
read_kind-ne-panic method url info p [] h = ground arith
read_kind-ne-panic method url info p (q ∷ []) h = ground arith
read_kind-ne-panic method url info p (q ∷ a ∷ []) h = ground arith
read_kind-ne-panic method url info p (q ∷ a ∷ b ∷ parts) h = ground arith

read_kind-nil :
    (method url : String) (info : RequestInfo) → read_kind method url info [] ≡ index_panic
unfolding read_kind read_verb read_workspace read_namespace
read_kind-nil method url info = refl

-- Nothing is left behind the version only on such a path.
read_api-nil :
    (r : RequestInfoFactory) (info info' : RequestInfo) (parts : List String)
    → read_api r info parts ≡ next (info', [])
    → IsClusterVersion r parts
unfolding read_api read_prefix read_cluster read_group read_version
read_api-nil r info info' [] h = ground arith
read_api-nil r info info' (p ∷ []) h = ground arith
read_api-nil r info info' (p ∷ q ∷ []) h = ground arith
read_api-nil r info info' (p ∷ q ∷ c ∷ []) h = ground (arith, eq_iff q "clusters")
read_api-nil r info info' (p ∷ q ∷ c ∷ v ∷ []) h =
    let e : q ≡ "clusters" = ground (arith, eq_iff q "clusters") in
    (p, c, v, cc, ground arith, ground arith)
read_api-nil r info info' (p ∷ q ∷ c ∷ v ∷ w ∷ parts) h = ground arith

read_api-ne-panic :
    (r : RequestInfoFactory) (info : RequestInfo) (parts : List String)
    → read_api r info parts ≡ index_panic
    → ⊥
unfolding read_api read_prefix read_cluster read_group read_version
read_api-ne-panic r info [] h = ground arith
read_api-ne-panic r info (p ∷ []) h = ground arith
read_api-ne-panic r info (p ∷ q ∷ []) h = ground arith
read_api-ne-panic r info (p ∷ q ∷ c ∷ []) h = ground arith
read_api-ne-panic r info (p ∷ q ∷ c ∷ v ∷ parts) h = ground arith

read_api_of_IsClusterVersion :
    (r : RequestInfoFactory) (info : RequestInfo) (p c v : String)
    → has r.api_prefixes p ≡ true
    → has r.groupless_api_prefixes p ≡ true
    → (info' : RequestInfo) × (read_api r info (p ∷ "clusters" ∷ c ∷ v ∷ []) ≡ next (info', []))
unfolding read_api read_prefix read_cluster read_group read_version
read_api_of_IsClusterVersion r info p c v h k = (
  record info { api_prefix = p; cluster = c; is_resource_request = true; api_version = v },
  ground arith,
)

module _ (method url : String) where
  panic_of_rest :
      (f : Flow Parsing)
      → f ≢ index_panic
      → (f >>= λ x. read_kind method url x.0 x.1) ≡ index_panic
      → (info : RequestInfo) × (f ≡ next (info, []))
  panic_of_rest (next (info, [])) n h = (info, refl)
  panic_of_rest (next (info, p ∷ parts)) n h = absurd (read_kind-ne-panic method url info p parts h)
  panic_of_rest (finish info err) n h = cc
  panic_of_rest index_panic n h = absurd (n refl)

module _ (lib : UrlLib) (codec : Codec) (r : RequestInfoFactory) (req : HttpRequest) where
  conclude-panics : (f : Flow Parsing) → conclude lib codec r req f ≡ panics → f ≡ index_panic
  unfolding conclude
  conclude-panics (next (info, parts)) h = cc
  conclude-panics (finish info err) h = cc
  conclude-panics index_panic h = refl

  IsClusterVersion-of_panics :
      new_request_info lib codec r req ≡ panics → IsClusterVersion r (split_path req.path)
  unfolding new_request_info parse_parts
  IsClusterVersion-of_panics h =
      let start = initial_info lib req in
      let parts = split_path req.path in
      let (info, e) =
        panic_of_rest req.method (lib.url_string req) (read_api r start parts)
          (read_api-ne-panic r start parts) (conclude-panics _ h) in
      read_api-nil r start info parts e

  panics_of_IsClusterVersion :
      IsClusterVersion r (split_path req.path) → new_request_info lib codec r req ≡ panics
  unfolding new_request_info parse_parts
  panics_of_IsClusterVersion (p, c, v, e, h, k) =
      let (info, stop) = read_api_of_IsClusterVersion r (initial_info lib req) p c v h k in
      rw (e, stop, read_kind-nil) refl

-- `NewRequestInfo` panics exactly on the paths {prefix}/clusters/{cluster}/{version} whose prefix
-- is an API prefix with no group.
pub new_request_info-panics_iff :
    (lib : UrlLib) (codec : Codec) (r : RequestInfoFactory) (req : HttpRequest)
    → (new_request_info lib codec r req ≡ panics) ↔ IsClusterVersion r (split_path req.path)
new_request_info-panics_iff lib codec r req =
    (IsClusterVersion-of_panics lib codec r req, panics_of_IsClusterVersion lib codec r req)
