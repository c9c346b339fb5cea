-- ===== src/Apiserver/PrepareLaws.antt =====
-- What the handler of the server does with a request.
use kubesphere_schedule.Apiserver.Runtime.{new_web_service}
use kubesphere_schedule.Filters.Laws.{
  restore-path, chain-panics_iff, with_kube_api_server-panics_iff,
}
use kubesphere_schedule.Request.Parse.{info_and_error, new_request_info, split_path}
use kubesphere_schedule.Request.Namespaced.{new_request_info-namespaced, namespaced_info}
use kubesphere_schedule.Request.Panics.{IsClusterVersion}
use kubesphere_schedule.Request.Types.{RequestInfo, Codec}
use kubesphere_schedule.Http.{HttpRequest, UrlLib}
use kubesphere_schedule.Apiserver.Routes.{group_version, add_schedule_service, Container}
use kubesphere_schedule.Filters.Chain.{
  KubernetesUrl, Handler, restore, with_kube_api_server, with_request_info, build_handler_chain,
  Context, Responders,
}
use kubesphere_schedule.Apiserver.Prepare.{
  request_info_resolver, prepare_run, RestfulLib, serve_container,
}
use kubesphere_schedule.Base.{
  ◌⊎◌, ◌↔◌, none, Option, List, ◌∙◌, ap, true, ◌≢◌, ◌≡◌, ◌∷◌, ◌++◌, some, refl, panicked, is_empty,
  inr, inl, false, arith, [], String, Bool,
}

-- The root of the service, by segments.
abbrev service_root : List String
service_root = "kapis" ∷ "schedule.kubesphere.io" ∷ "v1" ∷ []

service_root-split : split_path (new_web_service group_version).root_path ≡ service_root
unfolding split_path new_web_service group_version
service_root-split = refl

ne_panicked-serve :
    {R : Type 0} (restful : RestfulLib R) (container : Container) (ctx : Context)
    (req : HttpRequest)
    → serve_container restful container ctx req ≢ panicked
unfolding serve_container
ne_panicked-serve restful container ctx req h = ground arith

with_kube_api_server-passes :
    {R : Type 0} (responders : Responders R) (handler : Handler R) (transport_ok : Bool)
    (kubernetes : Option KubernetesUrl) (info : RequestInfo) (ctx : Context) (req : HttpRequest)
    → info.is_kubernetes_request ≡ false
    → with_kube_api_server responders handler transport_ok kubernetes
        (record ctx { request_info = some info })
        req
      ≡ handler (record ctx { request_info = some info }) req
unfolding with_kube_api_server
with_kube_api_server-passes responders handler true kubernetes info ctx req h = rw (h) refl
with_kube_api_server-passes responders handler false kubernetes info ctx req h = refl

module _ {R : Type 0} (restful : RestfulLib R) (responders : Responders R) (lib : UrlLib)
    (codec : Codec) (openapi : Container → Container) (transport_ok : Bool)
    (kubernetes : Option KubernetesUrl) where
  pub prepare_run-panics_iff :
      (ctx : Context) (req : HttpRequest)
      → (prepare_run restful responders lib codec openapi transport_ok kubernetes ctx req
          ≡ panicked)
        ↔ (IsClusterVersion request_info_resolver (split_path req.path)
            ⊎ ((info : RequestInfo) × (new_request_info lib codec request_info_resolver
                    (restore lib req)
                  ≡ info_and_error info none)
                × (info.is_kubernetes_request ≡ true)
                × (transport_ok ≡ true)
                × (kubernetes ≡ none)))
  unfolding prepare_run
  prepare_run-panics_iff ctx req =
      let behind = serve_container restful (openapi (add_schedule_service []).1) in
      let chain =
        chain-panics_iff responders lib codec request_info_resolver transport_ok kubernetes behind
          ctx req in
      (
        λ h. elim (chain.0 h) [
          | inl path ↦ inl path
          | inr (info, parsed, stops) ↦
              elim ((with_kube_api_server-panics_iff responders behind transport_ok kubernetes info
                  ctx (restore lib req)).0
                stops) [
                  | inl (made, unparsed, kube) ↦ inr (info, parsed, kube, made, unparsed)
                  | inr (passes, stopped) ↦ absurd (ne_panicked-serve restful _ _ _ stopped)
                ]
        ],
        λ h. elim h [
          | inl path ↦ chain.1 (inl path)
          | inr (info, parsed, kube, made, unparsed) ↦ chain.1 (
              inr (
                info,
                parsed,
                (with_kube_api_server-panics_iff responders behind transport_ok kubernetes info ctx
                      (restore lib req)).1
                    (inl (made, unparsed, kube)),
              ))
        ],
      )

  -- The information of a request for a task of a namespace.
  abbrev pub task_info : String → String → HttpRequest → RequestInfo
  task_info namespace name req =
      namespaced_info "kapis" "schedule.kubesphere.io" "v1" namespace "analysis" name lib req

  -- A request for an analysis task of a namespace, on a path below the root of the service with a
  -- namespace and a name that are not empty, reaches the container with the task's namespace,
  -- resource and name as its information, whatever its method and query, and is not sent on to the
  -- API server of Kubernetes.
  pub prepare_run-dispatches :
      (namespace name : String) (ctx : Context) (req : HttpRequest)
      → split_path req.path
        ≡ split_path (new_web_service group_version).root_path
          ++ ("namespaces" ∷ namespace ∷ "analysis" ∷ name ∷ [])
      → namespace ≢ ""
      → is_empty name ≡ false
      → prepare_run restful responders lib codec openapi transport_ok kubernetes ctx req
        ≡ serve_container restful
            (openapi (add_schedule_service []).1)
            (record ctx { request_info = some (task_info namespace name (restore lib req)) })
            (restore lib req)
  unfolding prepare_run build_handler_chain with_request_info request_info_resolver
  prepare_run-dispatches namespace name ctx req path hn hname =
      let parsed =
        new_request_info-namespaced "kapis" "schedule.kubesphere.io" "v1" namespace "analysis" name
          lib codec request_info_resolver (restore lib req) (restore-path-split path) refl refl
          (λ e. cc) (λ e. cc) refl hn hname tt in
      rw (parsed, with_request_info)
        (with_kube_api_server-passes responders
          (serve_container restful (openapi (add_schedule_service []).1)) transport_ok kubernetes
          (task_info namespace name (restore lib req)) ctx (restore lib req) refl)
    where
      restore-path-split :
          split_path req.path
            ≡ split_path (new_web_service group_version).root_path
              ++ ("namespaces" ∷ namespace ∷ "analysis" ∷ name ∷ [])
          → split_path (restore lib req).path
            ≡ service_root ++ ("namespaces" ∷ namespace ∷ "analysis" ∷ name ∷ [])
      restore-path-split h = rw (restore-path lib req) (
          h
          ∙ ap (λ root. root ++ ("namespaces" ∷ namespace ∷ "analysis" ∷ name ∷ []))
              service_root-split)
