-- ===== src/Filters/Chain.antt =====
-- Each filter takes the handler behind it. A response is of any type `R`; those that the libraries
-- write are fields of a record. `none` as a request's information or user is a missing value of the
-- context, and a handler may panic.
use kubesphere_schedule.Request.Parse.{panics, info_and_error, new_request_info}
use kubesphere_schedule.Request.Types.{RequestInfoFactory, Codec, RequestInfo}
use kubesphere_schedule.Http.{
  header_set, header_get, HttpRequest, query_values, or_empty, header_del, UrlLib,
}
use kubesphere_schedule.Base.{
  some, ◌||◌, ◌&&◌, strip_prefix, returned, panicked, not, none, length, leb, join, is_some,
  is_empty, if◌then◌else◌, String, Outcome, Option, List, Bool,
}
use Prim.Native.String.{[], ◌∷◌}

pub record Context : Type 0 where
  pub request_info : Option RequestInfo
  pub user : Option String

abbrev pub Handler : Type 0 → Type 0
Handler R = Context → HttpRequest → Outcome R

-- What `responsewriters` and the upgrade-aware proxy write; the proxy gets the host and the
-- scheme, `unauthorized` the message, the group and the version.
pub record Responders (R : Type 0) : Type 0 where
  pub internal_error : String → R
  pub unauthorized : String → String → String → R
  pub proxy : String → String → HttpRequest → R

-- What is used of a parsed URL.
pub record KubernetesUrl : Type 0 where
  pub host : String
  pub scheme : String

-- `strings.Replace(s, old, new, 1)`.
unfoldable pub replace_first : String → String → String → String
replace_first old new [] = or_empty (strip_prefix old [])
replace_first old new (c ∷ s) =
    let rest = replace_first old new s in
    elim (strip_prefix old (c ∷ s)) [ some behind ↦ join new behind | none ↦ c ∷ rest ]

-- The token that kube-apiserver would strip travels in a header of its own; `Header.Get` reads the
-- canonical key.
unfoldable pub restore_authorization : List (String × String) → List (String × String)
unfolding header_get header_set header_del
restore_authorization header =
    let x_authorization = header_get "X-Kubesphere-Authorization" header in
    if is_empty (header_get "Authorization" header) && not (is_empty x_authorization)
    then header_del "X-Kubesphere-Authorization" (header_set "Authorization" x_authorization header)
    else header

unfoldable pub restore_dry_run : UrlLib → HttpRequest → HttpRequest
unfolding replace_first query_values
restore_dry_run lib req =
    if leb 1 (length (query_values "dryrun" (lib.parse_query req.raw_query)))
    then record req { raw_query = replace_first "dryrun" "dryRun" req.raw_query }
    else req

unfoldable pub restore_raw_query : HttpRequest → HttpRequest
unfolding header_get header_del
restore_raw_query req =
    let raw_query = header_get "X-Kubesphere-Rawquery" req.header in
    if not (is_empty raw_query) && is_empty req.raw_query
    then record req {
      raw_query = raw_query;
      header = header_del "X-Kubesphere-Rawquery" req.header;
    }
    else req

unfoldable pub restore : UrlLib → HttpRequest → HttpRequest
unfolding restore_dry_run restore_raw_query restore_authorization
restore lib req =
    restore_raw_query
      (restore_dry_run lib (record req { header = restore_authorization req.header }))

module _ {R : Type 0} (responders : Responders R) where
  unfoldable pub with_request_info : UrlLib → Codec → RequestInfoFactory → Handler R → Handler R
  unfolding restore
  with_request_info lib codec resolver handler ctx req =
      elim (new_request_info lib codec resolver (restore lib req)) [
        | panics ↦ panicked
        | info_and_error info err ↦ elim err [
          | some e ↦ returned (responders.internal_error (join "failed to create RequestInfo: " e))
          | none ↦ handler (record ctx { request_info = some info }) (restore lib req)
        ]
      ]

  -- `rest.TransportFor` fails or not; `kubernetes` is what `url.Parse` makes of the configured host, nil
  -- where it fails, since the error is dropped: each Kubernetes request then reads nil. Without the
  -- request's information an error is written, and then nil is read.
  unfoldable pub with_kube_api_server :
      Handler R → (transport_ok : Bool) (kubernetes : Option KubernetesUrl) → Handler R
  unfolding header_del
  with_kube_api_server handler transport_ok kubernetes ctx req =
      if not transport_ok then handler ctx req else elim ctx.request_info [
        | none ↦ panicked
        | some info ↦
            if info.is_kubernetes_request
            then elim kubernetes [
              | none ↦ panicked
              | some url ↦ returned (
                  responders.proxy url.host url.scheme
                    (record req { header = header_del "Authorization" req.header }))
            ]
            else handler ctx req
      ]

  -- `buildHandlerChain`.
  unfoldable pub build_handler_chain :
      UrlLib
      → Codec
      → RequestInfoFactory
      → (transport_ok : Bool) (kubernetes : Option KubernetesUrl) → Handler R
      → Handler R
  unfolding with_request_info with_kube_api_server
  build_handler_chain lib codec resolver transport_ok kubernetes handler =
      with_request_info lib codec resolver (with_kube_api_server handler transport_ok kubernetes)

-- What an authenticator says of a request.
pub record Authentication : Type 0 where
  pub user : String
  pub ok : Bool
  pub err : Option String

module _ {R : Type 0} (responders : Responders R) where
  -- `fmt.Sprintf("%s", err)`, also of nil.
  abbrev pub error_text : Option String → String
  error_text none = "%!s(<nil>)"
  error_text (some message) = message

  -- The answer where a request is not authenticated.
  unfoldable pub refuse : Context → Authentication → R
  refuse ctx resp = elim ctx.request_info [
    | none ↦ responders.internal_error "no RequestInfo found in the context"
    | some info ↦
        responders.unauthorized (join "Unauthorized: " (error_text resp.err)) info.api_group
          info.api_version
  ]

  -- The outcome, and the header that the deferred function leaves, which runs behind the handler.
  unfoldable pub with_authentication :
      Handler R
      → Option (HttpRequest → Authentication)
      → (basic_auth : HttpRequest → Bool) → Context
      → HttpRequest
      → Outcome R × List (String × String)
  unfolding refuse header_del
  with_authentication handler none basic_auth ctx req = (handler ctx req, req.header)
  with_authentication handler (some authenticate) basic_auth ctx req =
      let resp = authenticate req in
      (
        if is_some resp.err || not resp.ok
            then returned (refuse ctx resp)
            else handler (record ctx { user = some resp.user }) req,
        if basic_auth req && resp.ok then header_del "Authorization" req.header else req.header,
      )
