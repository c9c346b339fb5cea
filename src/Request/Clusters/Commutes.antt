-- ===== src/Request/Clusters/Commutes.antt =====
-- The stages of `NewRequestInfo` do not read the path and the cluster that are known already.
use kubesphere_schedule.Request.Parse.{
  read_version, ◌>>=◌, read_group, read_namespace, read_kind, read_workspace, read_verb,
  index_panic, finish, next, panics, info_and_error, Parsing, Flow, Parsed,
}
use kubesphere_schedule.Request.Types.{RequestInfoFactory, RequestInfo}
use kubesphere_schedule.Base.{join, Option, some, none, ◌≡◌, ◌∷◌, refl, arith, [], List, String}

module _ (path cluster url : String) where
  -- The same request, at another path and of a cluster.
  abbrev pub at_cluster : RequestInfo → RequestInfo
  at_cluster info = record info { path = path; cluster = cluster }

  -- The one error of the stages holds the text of the request's URL.
  abbrev pub error_at : Option String → Option String
  error_at none = none
  error_at (some e) = some (join "unable to determine kind and namespace from url: " url)

  abbrev pub Flow_at_cluster : Flow Parsing → Flow Parsing
  Flow_at_cluster (next (info, parts)) = next (at_cluster info, parts)
  Flow_at_cluster (finish info err) = finish (at_cluster info) (error_at err)
  Flow_at_cluster index_panic = index_panic

  abbrev pub Parsed_at_cluster : Parsed → Parsed
  Parsed_at_cluster (info_and_error info err) = info_and_error (at_cluster info) (error_at err)
  Parsed_at_cluster panics = panics

  abbrev pub Commutes : (stage stage' : RequestInfo → List String → Flow Parsing) → Type 0
  Commutes stage stage' =
      (info : RequestInfo) (parts : List String)
      → stage' (at_cluster info) parts ≡ Flow_at_cluster (stage info parts)

  bind-Commutes :
      (f : Flow Parsing) (stage stage' : RequestInfo → List String → Flow Parsing)
      → Commutes stage stage'
      → (Flow_at_cluster f >>= λ x. stage' x.0 x.1) ≡ Flow_at_cluster (f >>= λ x. stage x.0 x.1)
  bind-Commutes (next (info, parts)) stage stage' h = h info parts
  bind-Commutes (finish info err) stage stage' h = refl
  bind-Commutes index_panic stage stage' h = refl

  read_group-Commutes : (r : RequestInfoFactory) → Commutes (read_group r) (read_group r)
  unfolding read_group
  read_group-Commutes r info parts = ground arith

  read_version-Commutes : Commutes read_version read_version
  unfolding read_version
  read_version-Commutes info [] = refl
  read_version-Commutes info (p ∷ parts) = refl

  read_verb-Commutes :
      (method old : String) → Commutes (read_verb method old) (read_verb method url)
  unfolding read_verb
  read_verb-Commutes method old info [] = refl
  read_verb-Commutes method old info (p ∷ parts) = ground arith

  read_workspace-Commutes : Commutes read_workspace read_workspace
  unfolding read_workspace
  read_workspace-Commutes info [] = refl
  read_workspace-Commutes info (p ∷ parts) = ground arith

  read_namespace-Commutes : Commutes read_namespace read_namespace
  unfolding read_namespace
  read_namespace-Commutes info [] = refl
  read_namespace-Commutes info (p ∷ parts) = ground arith

  chain-Commutes :
      (first first' then_ then' : RequestInfo → List String → Flow Parsing)
      → Commutes first first'
      → Commutes then_ then'
      → Commutes
          (λ info parts. first info parts >>= λ x. then_ x.0 x.1)
          (λ info parts. first' info parts >>= λ x. then' x.0 x.1)
  chain-Commutes first first' then_ then' h k info parts =
      rw (h info parts) (bind-Commutes (first info parts) then_ then' k)

  read_kind-Commutes :
      (method old : String) → Commutes (read_kind method old) (read_kind method url)
  unfolding read_kind
  read_kind-Commutes method old =
      let rest = λ (i : RequestInfo) (ps : List String).
        read_workspace i ps >>= λ x. read_namespace x.0 x.1 in
      chain-Commutes (read_verb method old) (read_verb method url) rest rest
        (read_verb-Commutes method old)
        (chain-Commutes read_workspace read_workspace read_namespace read_namespace
          read_workspace-Commutes read_namespace-Commutes)

-- The stages behind the cluster.
unfoldable pub behind_cluster :
    RequestInfoFactory → String → String → RequestInfo → List String → Flow Parsing
behind_cluster r method url info parts = do
  (info₁, parts₁) ← read_group r info parts
  (info₂, parts₂) ← read_version info₁ parts₁
  read_kind method url info₂ parts₂

pub behind_cluster-Commutes :
    (path cluster url : String) (r : RequestInfoFactory) (method old : String)
    → Commutes path cluster url (behind_cluster r method old) (behind_cluster r method url)
unfolding behind_cluster
behind_cluster-Commutes path cluster url r method old =
    let rest = λ (u : String) (i : RequestInfo) (ps : List String).
      read_version i ps >>= λ x. read_kind method u x.0 x.1 in
    chain-Commutes path cluster url (read_group r) (read_group r) (rest old) (rest url)
      (read_group-Commutes path cluster url r)
      (chain-Commutes path cluster url read_version read_version (read_kind method old)
        (read_kind method url) (read_version-Commutes path cluster url)
        (read_kind-Commutes path cluster url method old))
