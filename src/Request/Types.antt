-- ===== src/Request/Types.antt =====
-- pkg/apiserver/request/requestinfo.go: the data of a parsed request, and the sets of words that the
-- parser knows. A `sets.String` is the list of its elements.
use kubesphere_schedule.Base.{String, Bool, List, [], ◌∷◌, Option, any, ◌==◌}

abbrev pub has : List String → String → Bool
has set s = any (λ x. x == s) set

abbrev pub special_verbs : List String
special_verbs = "proxy" ∷ "watch" ∷ []

abbrev pub special_verbs_no_subresources : List String
special_verbs_no_subresources = "proxy" ∷ []

abbrev pub namespace_subresources : List String
namespace_subresources = "status" ∷ "finalize" ∷ []

abbrev pub kubernetes_api_prefixes : List String
kubernetes_api_prefixes = "api" ∷ "apis" ∷ []

-- The fields of `RequestInfo` and of the Kubernetes `RequestInfo` that it embeds.
pub record RequestInfo : Type 0 where
  pub is_resource_request : Bool
  pub path : String
  pub verb : String
  pub api_prefix : String
  pub api_group : String
  pub api_version : String
  pub namespace : String
  pub resource : String
  pub subresource : String
  pub name : String
  pub parts : List String
  pub is_kubernetes_request : Bool
  pub workspace : String
  pub cluster : String
  pub devops : String
  pub resource_scope : String
  pub source_ip : String
  pub user_agent : String

pub record GroupResource : Type 0 where
  pub group : String
  pub resource : String

pub record RequestInfoFactory : Type 0 where
  pub api_prefixes : List String
  pub groupless_api_prefixes : List String
  pub global_resources : List GroupResource

abbrev pub global_scope : String
global_scope = "Global"

abbrev pub cluster_scope : String
cluster_scope = "Cluster"

abbrev pub workspace_scope : String
workspace_scope = "Workspace"

abbrev pub namespace_scope : String
namespace_scope = "Namespace"

abbrev pub devops_scope : String
devops_scope = "DevOps"

-- `constants.WorkspaceLabelKey + "="`
abbrev pub workspace_selector_prefix : String
workspace_selector_prefix = "kubesphere.io/workspace="

-- `metainternalversion.ListOptions` as far as the parser reads it; a field selector is its
-- `RequiresExactMatch`.
pub record ListOptions : Type 0 where
  pub watch : Bool
  pub field_selector : Option (String → Option String)

-- Kubernetes' `ParameterCodec.DecodeParameters` and `path.IsValidPathSegmentName`.
pub record Codec : Type 0 where
  pub decode_list_options : List (String × List String) → Option ListOptions
  pub is_valid_path_segment_name : String → List String
