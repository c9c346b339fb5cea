-- ===== src/Request/Later.antt =====
-- The stages of `NewRequestInfo`, pkg/apiserver/request/requestinfo.go, behind the resource of a request
-- with a name.
use kubesphere_schedule.Http.{UrlLib}
use kubesphere_schedule.Request.Types.{Codec, kubernetes_api_prefixes, has, RequestInfo}
use kubesphere_schedule.Request.Parse.{read_delete, read_watch, read_list, read_verbs}
use kubesphere_schedule.Request.Parse.{mark_kubernetes, verb_of_method}
use kubesphere_schedule.Base.{◌≢◌, ◌≡◌, is_empty, false, eq_iff, arith, String, List}

pub read_verbs-kept :
    (lib : UrlLib) (codec : Codec) (query : List (String × List String)) (info : RequestInfo)
    → info.verb ≢ "watch"
    → is_empty info.name ≡ false
    → read_verbs lib codec query info ≡ info
unfolding read_verbs read_list read_watch read_delete
read_verbs-kept lib codec query info h e = ground (arith, eq_iff info.verb "watch")

pub verb_of_method-ne-watch : (method : String) → verb_of_method method ≢ "watch"
unfolding verb_of_method
verb_of_method-ne-watch method = ground (
  arith,
  eq_iff "create" "watch",
  eq_iff "get" "watch",
  eq_iff "update" "watch",
  eq_iff "patch" "watch",
  eq_iff "delete" "watch",
  eq_iff "" "watch",
)

pub mark-prefix :
    (info : RequestInfo)
    → info.api_prefix ≢ ""
    → info.is_kubernetes_request ≡ false
    → mark_kubernetes info
      ≡ record info { is_kubernetes_request = has kubernetes_api_prefixes info.api_prefix }
unfolding mark_kubernetes
mark-prefix info h e = ground (arith, eq_iff info.api_prefix "")
