-- ===== src/Apiserver/Prepare.antt =====
-- `PrepareRun` of pkg/apiserver/apiserver.go. The container of go-restful chooses a route and calls
-- its handler; that, and the API documentation that it is given, are parameters.
use kubesphere_schedule.Apiserver.Routes.{add_schedule_service, Container}
use kubesphere_schedule.Http.{UrlLib}
use kubesphere_schedule.Filters.Chain.{KubernetesUrl, Handler, build_handler_chain, Responders}
use kubesphere_schedule.Request.Types.{Codec, RequestInfoFactory}
use kubesphere_schedule.Base.{Option, ◌∷◌, returned, panicked, [], Bool}

-- The information that the server reads a request with.
unfoldable pub request_info_resolver : RequestInfoFactory
request_info_resolver = record {
  api_prefixes = "api" ∷ "apis" ∷ "kapis" ∷ "kapi" ∷ [];
  groupless_api_prefixes = "api" ∷ "kapi" ∷ [];
  global_resources = [];
}

-- `dispatch` is what the container does with its services and the handlers behind them; it may
-- panic. `recovered` writes what `logStackOnRecover` does.
pub record RestfulLib (R : Type 0) : Type 0 where
  pub dispatch : Container → Handler R
  pub recovered : R

module _ {R : Type 0} (restful : RestfulLib R) where
  -- A container that recovers from a panic.
  unfoldable pub serve_container : Container → Handler R
  serve_container container ctx req = elim (restful.dispatch container ctx req) [
    | returned r ↦ returned r
    | panicked ↦ returned restful.recovered
  ]

  -- The handler of the server behind `PrepareRun`; `openapi` adds the documentation.
  unfoldable pub prepare_run :
      Responders R
      → UrlLib
      → Codec
      → (openapi : Container → Container) (transport_ok : Bool) (kubernetes : Option KubernetesUrl)
      → Handler R
  unfolding build_handler_chain request_info_resolver add_schedule_service serve_container
  prepare_run responders lib codec openapi transport_ok kubernetes =
      build_handler_chain responders lib codec request_info_resolver transport_ok kubernetes
        (serve_container (openapi (add_schedule_service []).1))
