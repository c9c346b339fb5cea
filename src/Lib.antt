-- ===== src/Lib.antt =====
-- kubesphere-schedule: the API server and the controller that schedule resource analyses.
--
-- The program has two processes. The API server turns a request into its information, hands it
-- through a chain of filters to a handler, and the handler calls the operator of analysis tasks,
-- which talks to the Kubernetes API. The controller watches analysis tasks and deployments and
-- creates Crane analytics through the same operator.
--
-- Base: numbers, lists, texts, maps, and the functions of Go's standard library that the code uses;
--   an `int` has 64 bits and wraps around (Base.Words).
-- Http: the fields of a net/http request; a header maps canonical keys to their first values.
-- Request: pkg/apiserver/request/requestinfo.go. `new_request_info` is `NewRequestInfo`, cut into the
--   stages `read_prefix`, `read_cluster`, ... in the order of its text; an index out of range is the
--   result `panics`.
-- Query: pkg/apiserver/query/types.go, `ParseQueryParameter` and `GetValidPagination`.
-- Resources: pkg/service/resources/v1alpha3/interface.go, `DefaultList` with its filters and orders.
-- Schedule: api/schedule/v1alpha1, pkg/service/schedule (Types, Operator, Config, Crane), the
--   handlers of pkg/kapis (Response, Handlers) with the error answers of api/utils.go (ApiErrors), and
--   pkg/controller/schedule/analysis (Controller). Wire puts the operator on the generated client.
-- Clients: pkg/client/k8s and pkg/client/schedule (options and constructors of the clients), `Override`
--   of pkg/utils/reflectutils/reflect.go, and pkg/informers.
-- Generated: the generated code of pkg/client and api/schedule/v1alpha1. `SharedInformerFactory` with
--   `informer_for`, `start` and `wait_for_cache_sync` is the factory of
--   pkg/client/informers/externalversions (Factory), over whose calls Sessions runs; Informers and
--   Lister are the informer and the lister of analysis tasks, Tasks, Clientset and Fake the clients of
--   pkg/client/clientset/versioned. A method of a client is the request that it hands to client-go
--   (Rest). DeepCopy has the copies of zz_generated.deepcopy.go over a memory of cells (Memory), with
--   the objects as they lie in it (MemTypes).
-- Process: pkg/config, the options of cmd/controller and cmd/apiserver, the controllers' `Run` (Loop)
--   and `run` (Run), and both commands (Command).
-- Apiserver: pkg/apiserver/apiserver.go (Prepare, Sync, Serving; SyncFactory is Sync over the generated
--   factory), `NewAPIServer` (Create),
--   pkg/apiserver/runtime (Runtime), pkg/apiserver/request/context.go (Context), and the routes of
--   pkg/kapis/schedule/v1alpha1/register.go (Routes). `prepare_run` puts the container behind the
--   chain of Filters, which reads requests by Request.
-- Filters: pkg/apiserver/filters and `buildHandlerChain` of pkg/apiserver/apiserver.go. The URL of the
--   configured host is missing where `url.Parse` refuses the host, whose error the code drops.
-- Server: pkg/server/options, and pkg/server/params, whose conditions are read by a loop.
-- Utils: pkg/utils/net, pkg/utils/sliceutil, pkg/utils/stringutils, pkg/utils/idutils and
--   pkg/utils/resourceparse.
-- Tests: the theorems at concrete inputs.
--
-- Stateful code passes its state explicitly: an operation takes the cluster `w` of any type `W` and
-- returns the one after it, through a record of client functions that stand for the generated and
-- third-party clients. The controller's calls are a step relation, `Step`, with `Steps` for runs; so
-- are the loop of the controllers' process with its goroutines, `Turn`, and the end of the server,
-- `ServingStep`. A panic is the value `panicked`, a Go error an `Option`, and `Result` a value or an
-- error; `klog.Fatal` is a result of its own.
--
-- Loops recur on their lists. `RemoveString`, which changes its slice under the index, recurs on fuel:
-- the number of items not yet looked at, which is the length of the slice at the start. The loop of
-- `parseConditions` recurs on fuel too: the length of its text, of which each turn takes a character.
--
-- Not modelled: the registration of flags and of types, the texts that document routes, the fake
-- clientset's object tracker, logging, and the copied library of pkg/utils/reflectutils/deep.go.
-- `sort.Slice`, `URL.Query`, `URL.String`, `url.Parse`, `SplitHostPort`, `ToLower`, the label and
-- options codecs, `os.Stat`, the JSON path library, viper, go-restful, the manager of
-- controller-runtime, the informers' caches, the indexers, the REST client and the deep copies of
-- library types are parameters. A `float32` is a value of any type.
pub mod Base
pub mod Generated
pub mod Http
pub mod Clients
pub mod Process
pub mod Apiserver
pub mod Utils
pub mod Request
pub mod Query
pub mod Resources
pub mod Schedule
pub mod Filters
pub mod Server
pub mod Tests
