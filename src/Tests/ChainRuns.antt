-- ===== src/Tests/ChainRuns.antt =====
-- Requests through the handler chain; an answer is a number.
use kubesphere_schedule.Filters.Laws.{chain-proxies}
use kubesphere_schedule.Tests.RequestRuns.{
  web_parsed, web, global_factory, no_options, web_info, plain_lib,
}
use kubesphere_schedule.Http.{query_values, header_get, HttpRequest}
use kubesphere_schedule.Filters.Chain.{
  KubernetesUrl, restore_dry_run, restore_raw_query, restore_authorization, Handler, Responders,
  build_handler_chain, restore, Context,
}
use kubesphere_schedule.Request.Parse.{info_and_error, new_request_info}
use kubesphere_schedule.Base.{some, ◌≡◌, ℕ, true, returned, refl, none}

abbrev numbers : Responders ℕ
numbers = record {
  internal_error = λ message. 500;
  unauthorized = λ message group version. 401;
  proxy = λ host scheme req. 1;
}

abbrev answer_two : Handler ℕ
answer_two ctx req = returned 2

abbrev no_context : Context
no_context = record { request_info = none; user = none }

abbrev pub cluster_url : KubernetesUrl
cluster_url = record { host = "host"; scheme = "https" }

web_restored : restore plain_lib web ≡ web
unfolding restore restore_raw_query restore_dry_run restore_authorization header_get query_values
web_restored = refl

restored_parsed :
    new_request_info plain_lib no_options global_factory (restore plain_lib web)
    ≡ info_and_error web_info none
restored_parsed = rw (web_restored) web_parsed

web_kubernetes : web_info.is_kubernetes_request ≡ true
web_kubernetes = refl

chain-proxies_example :
    (sent : HttpRequest) × (build_handler_chain numbers plain_lib no_options global_factory true
        (some cluster_url)
        answer_two
        no_context
        web
      ≡ returned 1)
    × (header_get "Authorization" sent.header ≡ "")
    × (sent.path ≡ web.path)
    × (sent.method ≡ web.method)
chain-proxies_example =
    chain-proxies numbers plain_lib no_options global_factory true (some cluster_url) answer_two
      no_context web web_info restored_parsed web_kubernetes
