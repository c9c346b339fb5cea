-- ===== src/Request/Clusters/Keeps.antt =====
-- The stages of `NewRequestInfo` keep the prefix that is known already.
use kubesphere_schedule.Request.Clusters.Commutes.{behind_cluster}
use kubesphere_schedule.Request.Stages.{Each-bind, Each}
use kubesphere_schedule.Request.Parse.{
  read_version, ◌>>=◌, read_group, read_namespace, read_kind, read_workspace, read_verb, Parsing,
  Flow,
}
use kubesphere_schedule.Request.Types.{RequestInfoFactory, RequestInfo}
use kubesphere_schedule.Base.{◌≡◌, ◌∷◌, arith, [], List, String}

-- A stage leaves the prefix as it is.
module _ (p : String) where
  abbrev pub IsPrefixed : RequestInfo → Type 0
  IsPrefixed info = info.api_prefix ≡ p

  abbrev pub Keeps : (RequestInfo → List String → Flow Parsing) → Type 0
  Keeps stage =
      (info : RequestInfo) (parts : List String)
      → IsPrefixed info
      → Each IsPrefixed (λ i err. IsPrefixed i) (stage info parts)

  chain-Keeps :
      (first then_ : RequestInfo → List String → Flow Parsing)
      → Keeps first
      → Keeps then_
      → Keeps (λ info parts. first info parts >>= λ x. then_ x.0 x.1)
  chain-Keeps first then_ h k info parts e =
      Each-bind IsPrefixed IsPrefixed (λ i err. IsPrefixed i) (first info parts) then_
        (h info parts e) k

  read_group-Keeps : (r : RequestInfoFactory) → Keeps (read_group r)
  unfolding read_group
  read_group-Keeps r info parts e = ground arith

  read_version-Keeps : Keeps read_version
  unfolding read_version
  read_version-Keeps info [] e = tt
  read_version-Keeps info (q ∷ parts) e = e

  read_verb-Keeps : (method url : String) → Keeps (read_verb method url)
  unfolding read_verb
  read_verb-Keeps method url info [] e = e
  read_verb-Keeps method url info (q ∷ parts) e = ground arith

  read_workspace-Keeps : Keeps read_workspace
  unfolding read_workspace
  read_workspace-Keeps info [] e = tt
  read_workspace-Keeps info (q ∷ parts) e = ground arith

  read_namespace-Keeps : Keeps read_namespace
  unfolding read_namespace
  read_namespace-Keeps info [] e = tt
  read_namespace-Keeps info (q ∷ parts) e = ground arith

  pub behind_cluster-Keeps :
      (r : RequestInfoFactory) (method url : String) → Keeps (behind_cluster r method url)
  unfolding behind_cluster read_kind
  behind_cluster-Keeps r method url =
      chain-Keeps (read_group r) (λ i ps. read_version i ps >>= λ x. read_kind method url x.0 x.1)
        (read_group-Keeps r)
        (chain-Keeps read_version (read_kind method url) read_version-Keeps (
          chain-Keeps (read_verb method url)
            (λ i ps. read_workspace i ps >>= λ x. read_namespace x.0 x.1)
            (read_verb-Keeps method url)
            (chain-Keeps read_workspace read_namespace read_workspace-Keeps read_namespace-Keeps)))
