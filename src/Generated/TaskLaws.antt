-- ===== src/Generated/TaskLaws.antt =====
-- The requests of pkg/client/clientset/versioned/typed/schedule/v1alpha1/analysistask.go as the API
-- server reads them, and their timeouts.
use kubesphere_schedule.Request.Namespaced.{new_request_info-namespaced, namespaced_info}
use kubesphere_schedule.Request.Scope.{HaveNames}
use kubesphere_schedule.Request.Types.{has, RequestInfoFactory, Codec}
use kubesphere_schedule.Request.Parse.{info_and_error, new_request_info, verb_of_method}
use kubesphere_schedule.Base.Words.{wrap-IsInt, mul_int}
use kubesphere_schedule.Request.Parse.{split_path}
use kubesphere_schedule.Http.{UrlLib, HttpRequest}
use kubesphere_schedule.Base.Int.{◌*ℤ◌, pos}
use kubesphere_schedule.Generated.Tasks.{
  delete_request, patch_request, nanoseconds, update_request, get_request, duration_of,
}
use kubesphere_schedule.Schedule.Types.{AnalysisTask}
use kubesphere_schedule.Base.{
  ◌≢◌, ◌∙◌, true, none, eq_iff, arith, ap, ◌≡◌, ◌∷◌, ◌↔◌, ◌^◌, ◌<◌, ◌++◌, ◌*◌, ℕ, some, refl,
  is_empty, if◌then◌else◌, false, [], String, List,
}
use kubesphere_schedule.Generated.Rest.{
  body, timeout, versioned_params, sub_resource, name, resource, namespace, RestRequest, RestVerb,
  RestCall, get, post, put, delete, patch,
}

-- What client-go documents of the HTTP request for a REST request: the verb's method, and the path
-- /apis/{group}/{version} with the namespace if there is one, the resource, the name and the
-- subresources.
abbrev pub method_of : RestVerb → String
method_of get = "GET"
method_of post = "POST"
method_of put = "PUT"
method_of delete = "DELETE"
method_of (patch _) = "PATCH"

abbrev pub namespace_segments : String → List String → List String
namespace_segments n rest = if is_empty n then rest else "namespaces" ∷ n ∷ rest

abbrev pub segments : {O D : Type 0} → List (RestCall O D) → List String
segments [] = []
segments (namespace n ∷ calls) = namespace_segments n (segments calls)
segments (resource r ∷ calls) = r ∷ segments calls
segments (name n ∷ calls) = n ∷ segments calls
segments (sub_resource parts ∷ calls) = parts ++ segments calls
segments (versioned_params _ ∷ calls) = segments calls
segments (timeout _ ∷ calls) = segments calls
segments (body _ ∷ calls) = segments calls

pub record IsSentAs {O D : Type 0} (group version : String) (req : RestRequest O D)
    (sent : HttpRequest) : Type 0 where
  pub method : sent.method ≡ method_of req.verb
  pub path : split_path sent.path ≡ "apis" ∷ group ∷ version ∷ segments req.calls

-- The calls that are about one task.
pub data ObjectCall (O D : Type 0) : Type 0 where
  getting : String → O → ObjectCall O D
  updating : AnalysisTask → O → ObjectCall O D
  patching : String → String → D → O → ObjectCall O D
  deleting : String → O → ObjectCall O D

module _ {O D : Type 0} where
  abbrev pub object_request : String → ObjectCall O D → RestRequest O D
  object_request ns (getting id opts) = get_request D ns id opts
  object_request ns (updating t opts) = update_request D ns t opts
  object_request ns (patching id type content opts) = patch_request D ns id type content opts []
  object_request ns (deleting id opts) = delete_request D ns id opts

  abbrev pub object_id : ObjectCall O D → String
  object_id (getting id _) = id
  object_id (updating t _) = t.metadata.name
  object_id (patching id _ _ _) = id
  object_id (deleting id _) = id

  abbrev pub object_verb : ObjectCall O D → String
  object_verb (getting _ _) = "get"
  object_verb (updating _ _) = "update"
  object_verb (patching _ _ _ _) = "patch"
  object_verb (deleting _ _) = "delete"

  object_request-segments :
      (ns : String) (call : ObjectCall O D)
      → is_empty ns ≡ false
      → segments (object_request ns call).calls
        ≡ "namespaces" ∷ ns ∷ "analysistasks" ∷ object_id call ∷ []
  unfolding get_request update_request patch_request delete_request
  object_request-segments ns (getting _ _) h = rw h
  object_request-segments ns (updating _ _) h = rw h
  object_request-segments ns (patching _ _ _ _) h = rw h
  object_request-segments ns (deleting _ _) h = rw h

  object_request-verb :
      (ns : String) (call : ObjectCall O D)
      → verb_of_method (method_of (object_request ns call).verb) ≡ object_verb call
  unfolding get_request update_request patch_request delete_request verb_of_method
  object_request-verb ns (getting _ _) = refl
  object_request-verb ns (updating _ _) = refl
  object_request-verb ns (patching _ _ _ _) = refl
  object_request-verb ns (deleting _ _) = refl

-- A timeout in seconds is handed on exactly where its nanoseconds fit in 63 bits.
pub duration_of-eq_iff :
    (n : ℕ) → (duration_of (some (pos n)) ≡ pos (n * nanoseconds)) ↔ (n * nanoseconds < 2 ^ 63)
unfolding duration_of mul_int
duration_of-eq_iff n =
    (λ h. ground (arith, wrap-IsInt (pos n *ℤ pos nanoseconds)), λ h. ground arith)

-- The path of a request for one task that client-go sends under "/apis" is read by `NewRequestInfo`
-- as a request for that task: get, update, patch and delete keep their verb, the client's namespace,
-- the resource "analysistasks" and the task's name. The factory takes "apis" as a prefix with groups
-- and no listed global resource has an empty name, the group is not "clusters", the namespace and
-- the name are not empty, and the request is sent as client-go documents.
pub object_request-read :
    {O D : Type 0} (group version ns : String) (call : ObjectCall O D) (lib : UrlLib)
    (codec : Codec) (r : RequestInfoFactory) (sent : HttpRequest)
    → IsSentAs group version (object_request ns call) sent
    → has r.api_prefixes "apis" ≡ true
    → has r.groupless_api_prefixes "apis" ≡ false
    → HaveNames r.global_resources
    → group ≢ "clusters"
    → is_empty ns ≡ false
    → is_empty (object_id call) ≡ false
    → new_request_info lib codec r sent
      ≡ info_and_error
          (record (namespaced_info "apis" group version ns "analysistasks"
            (object_id call)
            lib
            sent) { verb = object_verb call })
          none
object_request-read group version ns call lib codec r sent wire h1 h2 names hg hn hid =
    rw (← object_request-verb ns call) (
      rw (← wire.method) (
        new_request_info-namespaced "apis" group version ns "analysistasks" (object_id call) lib
          codec r sent
          (wire.path
            ∙ ap (λ rest. "apis" ∷ group ∷ version ∷ rest) (object_request-segments ns call hn))
          h1 h2 (ground (arith, eq_iff "apis" "")) hg refl (λ e. ground (arith, ap is_empty e)) hid
          names))
