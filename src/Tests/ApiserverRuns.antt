-- ===== src/Tests/ApiserverRuns.antt =====
-- Runs of the API server's process and of the helpers on texts. An answer is a number.
use kubesphere_schedule.Tests.ChainRuns.{cluster_url}
use kubesphere_schedule.Apiserver.Runtime.{new_web_service}
use kubesphere_schedule.Apiserver.PrepareLaws.{
  prepare_run-panics_iff, prepare_run-dispatches, task_info,
}
use kubesphere_schedule.Clients.Kubernetes.{
  make_clients, new_kubernetes_client_with_config, new_kubernetes_client,
}
use kubesphere_schedule.Tests.ProcessRuns.{local_config}
use kubesphere_schedule.Tests.ClientRuns.{counted_informers, local_client, named_clients}
use kubesphere_schedule.Apiserver.Routes.{group_version, add_schedule_service, Container}
use kubesphere_schedule.Base.Results.{ok}
use kubesphere_schedule.Tests.RequestRuns.{no_options, plain_lib, request_of}
use kubesphere_schedule.Request.Parse.{split_path}
use kubesphere_schedule.Http.{HttpRequest}
use kubesphere_schedule.Apiserver.Prepare.{
  serve_container, request_info_resolver, RestfulLib, prepare_run,
}
use kubesphere_schedule.Base.Int.{eqb_ℤ, pos}
use kubesphere_schedule.Apiserver.Context.{
  contents-written, assigned, todo, user_write, written, namespace_write, contents, Write,
}
use kubesphere_schedule.Filters.Chain.{restore, Context, Responders}
use kubesphere_schedule.Process.Options.{ApiserverOptions}
use kubesphere_schedule.Utils.Unique.{keys, VisitsKeys}
use kubesphere_schedule.Apiserver.Create.{
  creates, built, server_address, ServerLib, ApiServer, new_api_server,
}
use kubesphere_schedule.Request.Panics.{IsClusterVersion}
use kubesphere_schedule.Apiserver.Serving.{
  shuts_down, listener_ends, no_serving_step, then_serving_step, ServingSteps, end_serving, Serving,
  ServingSteps-unstopped, begin_serving,
}
use kubesphere_schedule.Base.{
  inl, ◌≡◌, ◌∷◌, ◌++◌, ℕ, true, some, returned, refl, panicked, none, join, is_some, if◌then◌else◌,
  false, [], String, List,
}

abbrev two_answers : RestfulLib ℕ
two_answers = record { dispatch = λ container ctx req. returned 2; recovered = 500 }

abbrev undocumented : Container → Container
undocumented c = c

abbrev replies : Responders ℕ
replies = record {
  internal_error = λ message. 500;
  unauthorized = λ message group version. 401;
  proxy = λ host scheme req. 1;
}

abbrev no_context : Context
no_context = record { request_info = none; user = none }

abbrev one_task_path : HttpRequest
one_task_path = request_of "/kapis/schedule.kubesphere.io/v1/namespaces/web/analysis/daily"

one_task_parts :
    split_path one_task_path.path
    ≡ split_path (new_web_service group_version).root_path
      ++ ("namespaces" ∷ "web" ∷ "analysis" ∷ "daily" ∷ [])
unfolding split_path new_web_service group_version
one_task_parts = refl

prepare_run-dispatches_example :
    prepare_run two_answers replies plain_lib no_options undocumented true
      (some cluster_url)
      no_context
      one_task_path
    ≡ serve_container two_answers
        (undocumented (add_schedule_service []).1)
        (record no_context {
          request_info = some (
              task_info two_answers replies plain_lib no_options undocumented true
                (some cluster_url)
                "web"
                "daily"
                (restore plain_lib one_task_path));
        })
        (restore plain_lib one_task_path)
prepare_run-dispatches_example =
    prepare_run-dispatches two_answers replies plain_lib no_options undocumented true
      (some cluster_url) "web" "daily" no_context one_task_path one_task_parts (λ e. cc) refl

abbrev broken : HttpRequest
broken = request_of "/api/clusters/host/v1"

broken_path : IsClusterVersion request_info_resolver (split_path broken.path)
unfolding request_info_resolver split_path
broken_path = ("api", "host", "v1", refl, refl, refl)

broken_panics :
    prepare_run two_answers replies plain_lib no_options undocumented true
      (some cluster_url)
      no_context
      broken
    ≡ panicked
broken_panics =
    (prepare_run-panics_iff two_answers replies plain_lib no_options undocumented true
        (some cluster_url) no_context broken).1
      (inl broken_path)

-- A Kubernetes request where the configured host is no URL.
abbrev pods : HttpRequest
pods = request_of "/api/v1/pods"

abbrev some_writes : List (Write ℕ ℕ)
some_writes = namespace_write "web" ∷ user_write (some 7) ∷ namespace_write "old" ∷ []

contents-written_example :
    contents (written some_writes todo) ≡ assigned some_writes (contents todo)
contents-written_example = contents-written some_writes todo

-- The listener ends, and then the goroutine shuts the server down.
abbrev ended : Serving
ended = record (end_serving (some "closed") (begin_serving true none)) { shut_down = true }

ended-ServingSteps : ServingSteps (begin_serving true none) ended
unfolding begin_serving end_serving
ended-ServingSteps =
    then_serving_step _ (end_serving (some "closed") (begin_serving true none)) _
      (then_serving_step _ (begin_serving true none) _ (no_serving_step _)
        (listener_ends (some "closed") _ refl))
      (shuts_down _ refl)

ServingSteps-unstopped_example : is_some ended.result ≡ true
ServingSteps-unstopped_example = ServingSteps-unstopped true none ended ended-ServingSteps refl

abbrev secure_options : ApiserverOptions ℕ
secure_options = record {
  config_file = "";
  generic_server_run_options = record {
    bind_address = "0.0.0.0";
    insecure_port = pos 9090;
    secure_port = pos 9443;
    tls_cert_file = "cert";
    tls_private_key = "key";
  };
  config = local_config;
  debug_mode = false;
}

abbrev pairs : ServerLib ℕ String ℕ
pairs = record {
  show_int = λ z. if eqb_ℤ z (pos 9443) then "9443" else "9090";
  load_key_pair = λ cert key. ok (join cert key);
  add_to_scheme = none;
  new_manager = λ config. ok 1;
}

abbrev secure_server : ApiServer ℕ String ℕ String ℕ
secure_server =
    built named_clients counted_informers pairs local_config local_client (":9443", some "certkey")
      1

secure_created :
    new_api_server named_clients counted_informers pairs secure_options ≡ creates secure_server
unfolding new_api_server server_address new_kubernetes_client new_kubernetes_client_with_config
    make_clients
secure_created = refl

keys-VisitsKeys : VisitsKeys keys
keys-VisitsKeys str m = refl
