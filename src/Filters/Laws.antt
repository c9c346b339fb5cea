-- ===== src/Filters/Laws.antt =====
-- Tokens, Kubernetes requests and panics in the handler chain.
use kubesphere_schedule.Request.Parse.{panics, Parsed, info_and_error, new_request_info, split_path}
use kubesphere_schedule.Request.Panics.{new_request_info-panics_iff, IsClusterVersion}
use kubesphere_schedule.Request.Types.{RequestInfo, RequestInfoFactory, Codec}
use kubesphere_schedule.Filters.Chain.{
  KubernetesUrl, restore_dry_run, restore_raw_query, restore, with_kube_api_server,
  with_request_info, Context, build_handler_chain, Handler, restore_authorization, Responders,
}
use kubesphere_schedule.Http.{HttpRequest, header_set, header_del, UrlLib, header_get}
use kubesphere_schedule.Base.{
  Outcome, ◌↔◌, ◌≢◌, is_empty-eq, inr, inl, Option, ◌⊎◌, ◌≡◌, ◌∷◌, ◌==◌, true, some, returned, refl,
  panicked, none, lookup-insert, lookup, is_empty, if◌then◌else◌, false, eq_refl, eq_iff, arith, [],
  String, List, Bool,
}

header_get-header_del_same :
    (key : String) (header : List (String × String)) → header_get key (header_del key header) ≡ ""
unfolding header_get header_del lookup
header_get-header_del_same key [] = refl
header_get-header_del_same key ((k, v) ∷ header) =
    ground (arith, header_get-header_del_same key header)

header_get-header_del_other :
    (key other : String) (header : List (String × String))
    → (other == key) ≡ false
    → header_get key (header_del other header) ≡ header_get key header
unfolding header_get header_del lookup
header_get-header_del_other key other [] n = refl
header_get-header_del_other key other ((k, v) ∷ header) n = ground (
  arith,
  eq_iff k other,
  eq_iff k key,
  eq_iff other key,
  header_get-header_del_other key other header n,
)

header_get-header_set :
    (key value : String) (header : List (String × String))
    → header_get key (header_set key value header) ≡ value
unfolding header_get header_set
header_get-header_set key value header =
    ground (arith, lookup-insert key key value header, eq_refl key)

-- The header that `WithRequestInfo` restores has the token: the one of the `Authorization`
-- header, or else the one that travelled in the header of KubeSphere.
pub restore_authorization-token :
    (header : List (String × String))
    → header_get "Authorization" (restore_authorization header) ≡ (
        if is_empty (header_get "Authorization" header)
        then header_get "X-Kubesphere-Authorization" header
        else header_get "Authorization" header)
unfolding restore_authorization
restore_authorization-token header =
    let x = header_get "X-Kubesphere-Authorization" header in
    let moved = header_set "Authorization" x header in
    ground (
      arith,
      header_get-header_del_other "Authorization" "X-Kubesphere-Authorization" moved refl,
      header_get-header_set "Authorization" x header,
      is_empty-eq x,
      is_empty-eq (header_get "Authorization" header),
    )

pub restore-path : (lib : UrlLib) (req : HttpRequest) → (restore lib req).path ≡ req.path
unfolding restore restore_raw_query restore_dry_run
restore-path lib req = ground arith

restore-method : (lib : UrlLib) (req : HttpRequest) → (restore lib req).method ≡ req.method
unfolding restore restore_raw_query restore_dry_run
restore-method lib req = ground arith

Parsed-cases :
    (p : Parsed)
    → (p ≡ panics) ⊎ ((info : RequestInfo) × (err : Option String) × (p ≡ info_and_error info err))
Parsed-cases panics = inl refl
Parsed-cases (info_and_error info err) = inr (info, err, refl)

ne_panicked : {R : Type 0} {x : R} → returned x ≢ panicked
ne_panicked h = cc

module _ {R : Type 0} (responders : Responders R) where
  -- `WithKubeAPIServer` panics where nil is read for a Kubernetes request, or the handler behind does.
  pub with_kube_api_server-panics_iff :
      (handler : Handler R) (transport_ok : Bool) (kubernetes : Option KubernetesUrl)
      (info : RequestInfo) (ctx : Context) (req : HttpRequest)
      → let behind = record ctx { request_info = some info } in
        (with_kube_api_server responders handler transport_ok kubernetes behind req ≡ panicked) ↔ (
          ((transport_ok ≡ true) × (kubernetes ≡ none) × (info.is_kubernetes_request ≡ true))
          ⊎ (((transport_ok ≡ false) ⊎ (info.is_kubernetes_request ≡ false))
              × (handler behind req ≡ panicked)))
  unfolding with_kube_api_server
  with_kube_api_server-panics_iff handler transport_ok none info ctx req = ground arith
  with_kube_api_server-panics_iff handler transport_ok (some url) info ctx req = ground arith

  -- A request to the proxy, which needs a URL.
  abbrev pub proxied : Option KubernetesUrl → HttpRequest → Outcome R
  proxied none sent = panicked
  proxied (some url) sent = returned (responders.proxy url.host url.scheme sent)

  with_kube_api_server-proxied :
      (handler : Handler R) (transport_ok : Bool) (kubernetes : Option KubernetesUrl)
      (info : RequestInfo) (ctx : Context) (req : HttpRequest)
      → info.is_kubernetes_request ≡ true
      → let behind = record ctx { request_info = some info } in
        with_kube_api_server responders handler transport_ok kubernetes behind req ≡ (
          if transport_ok
          then proxied kubernetes (record req { header = header_del "Authorization" req.header })
          else handler behind req)
  unfolding with_kube_api_server
  with_kube_api_server-proxied handler false kubernetes info ctx req h = refl
  with_kube_api_server-proxied handler true none info ctx req h = rw h refl
  with_kube_api_server-proxied handler true (some url) info ctx req h = rw h refl

module _ {R : Type 0} (responders : Responders R) (lib : UrlLib) (codec : Codec)
    (resolver : RequestInfoFactory) (transport_ok : Bool) (kubernetes : Option KubernetesUrl)
    (handler : Handler R) where
  -- What the chain does with a request of which the resolver says that it is a Kubernetes request, by
  -- whether a transport can be made and the configured host parsed as a URL: with both it goes to the
  -- proxy, the header that the proxy gets has no `Authorization`, and the handler behind is not
  -- called; with a transport and no URL it panics; without a transport it goes to the handler behind,
  -- with the `Authorization` that has been restored.
  pub chain-proxies :
      (ctx : Context) (req : HttpRequest) (info : RequestInfo)
      → new_request_info lib codec resolver (restore lib req) ≡ info_and_error info none
      → info.is_kubernetes_request ≡ true
      → (sent : HttpRequest) × (build_handler_chain responders lib codec resolver transport_ok
            kubernetes handler ctx req
          ≡ (if transport_ok
              then proxied responders kubernetes sent
              else handler (record ctx { request_info = some info }) (restore lib req)))
        × (header_get "Authorization" sent.header ≡ "")
        × (sent.path ≡ req.path)
        × (sent.method ≡ req.method)
  unfolding build_handler_chain with_request_info
  chain-proxies ctx req info h k =
      let sent = restore lib req in
      (
        record sent { header = header_del "Authorization" sent.header },
        rw (h, with_request_info)
            (with_kube_api_server-proxied responders handler transport_ok kubernetes info ctx sent
              k),
        header_get-header_del_same "Authorization" sent.header,
        restore-path lib req,
        restore-method lib req,
      )

  -- The chain panics exactly where `NewRequestInfo` does at the path, or the filter of the API server
  -- does with the information of the request.
  pub chain-panics_iff :
      (ctx : Context) (req : HttpRequest)
      → (build_handler_chain responders lib codec resolver transport_ok kubernetes handler ctx req
          ≡ panicked)
        ↔ (IsClusterVersion resolver (split_path req.path)
            ⊎ ((info : RequestInfo) × (new_request_info lib codec resolver (restore lib req)
                  ≡ info_and_error info none)
                × (with_kube_api_server responders handler transport_ok kubernetes
                      (record ctx { request_info = some info })
                      (restore lib req)
                    ≡ panicked)))
  unfolding build_handler_chain with_request_info
  chain-panics_iff ctx req =
      let stop =
        rw (restore-path lib req) at
          (new_request_info-panics_iff lib codec resolver (restore lib req)) in
      (
        λ h. elim (Parsed-cases (new_request_info lib codec resolver (restore lib req))) [
          | inl stops ↦ inl (stop.0 stops)
          | inr (info, some e, parsed) ↦ absurd (ne_panicked (rw (parsed, with_request_info) at h))
          | inr (info, none, parsed) ↦ inr (info, parsed, rw (parsed, with_request_info) at h)
        ],
        λ h. elim h [
          | inl path ↦ rw (stop.1 path, with_request_info) refl
          | inr (info, parsed, panics') ↦ rw (parsed, with_request_info) panics'
        ],
      )
