-- ===== src/Request/Verbs.antt =====
-- The verb of a resource request, as `NewRequestInfo` settles it at its end.
use kubesphere_schedule.Request.Stages.{Returns, IsUnread, parse_parts-Each, Each}
use kubesphere_schedule.Request.Types.{RequestInfoFactory, Codec, RequestInfo}
use kubesphere_schedule.Http.{HttpRequest, UrlLib}
use kubesphere_schedule.Request.Parse.{
  index_panic, finish, read_parts, next, read_delete, read_watch, read_list, split_path, Parsing,
  parse_parts, Flow, conclude, info_and_error, new_request_info, read_verbs, mark_kubernetes,
}
use kubesphere_schedule.Base.{
  eq_iff, ◌⊎◌, ◌≢◌, ◌≡◌, true, none, is_empty, false, arith, String, List,
}

ne_of_is_empty : (s : String) → is_empty s ≡ false → s ≢ ""
ne_of_is_empty s h e = let k : is_empty "" ≡ false = rw e at h in cc

read_list-named :
    (lib : UrlLib) (codec : Codec) (query : List (String × List String)) (info : RequestInfo)
    → (read_list lib codec query info).verb ≡ "get"
    → is_empty (read_list lib codec query info).name ≡ false
unfolding read_list
read_list-named lib codec query info h =
    ground (arith, eq_iff info.verb "get", eq_iff "watch" "get", eq_iff "list" "get")

read_watch-kept :
    (query : List (String × List String)) (info : RequestInfo)
    → ((read_watch query info).verb ≡ info.verb) × ((read_watch query info).name ≡ info.name)
unfolding read_watch
read_watch-kept query info = ground arith

read_delete-named :
    (info : RequestInfo)
    → ((info.verb ≡ "get") → is_empty info.name ≡ false)
    → ((read_delete info).verb ≡ "get") ⊎ ((read_delete info).verb ≡ "delete")
    → is_empty (read_delete info).name ≡ false
unfolding read_delete
read_delete-named info h v = ground (
  arith,
  eq_iff info.verb "delete",
  eq_iff "deletecollection" "get",
  eq_iff "deletecollection" "delete",
)

read_verbs-named :
    (lib : UrlLib) (codec : Codec) (query : List (String × List String)) (info : RequestInfo)
    → ((read_verbs lib codec query info).verb ≡ "get")
      ⊎ ((read_verbs lib codec query info).verb ≡ "delete")
    → is_empty (read_verbs lib codec query info).name ≡ false
unfolding read_verbs
read_verbs-named lib codec query info =
    let listed = read_list lib codec query info in
    let (same_verb, same_name) = read_watch-kept query listed in
    read_delete-named (read_watch query listed)
      λ e. rw same_name (read_list-named lib codec query info (rw same_verb at e))

mark-kept :
    (info : RequestInfo)
    → ((mark_kubernetes info).verb ≡ info.verb)
      × ((mark_kubernetes info).name ≡ info.name)
      × ((mark_kubernetes info).is_resource_request ≡ info.is_resource_request)
unfolding mark_kubernetes
mark-kept info = ground arith

module _ (lib : UrlLib) (codec : Codec) (r : RequestInfoFactory) (req : HttpRequest) where
  conclude-named :
      (f : Flow Parsing) (info : RequestInfo)
      → Each IsUnread Returns f
      → conclude lib codec r req f ≡ info_and_error info none
      → info.is_resource_request ≡ true
      → (info.verb ≡ "get") ⊎ (info.verb ≡ "delete")
      → info.name ≢ ""
  unfolding conclude
  conclude-named (next (i, parts)) info unread e resource verb =
      let done = read_verbs lib codec (lib.parse_query req.raw_query) (read_parts r i parts) in
      let kept = mark-kept done in
      ne_of_is_empty info.name (
        ground (
          arith,
          read_verbs-named lib codec (lib.parse_query req.raw_query) (read_parts r i parts),
        ))
  conclude-named (finish i err) info unread e resource verb = ground (arith, mark-kept i)
  conclude-named index_panic info unread e resource verb = cc

-- A resource request that is parsed without an error and whose verb is "get" or "delete" names an
-- object: with no name the verb is "list", "watch" or "deletecollection".
pub new_request_info-named :
    (lib : UrlLib) (codec : Codec) (r : RequestInfoFactory) (req : HttpRequest) (info : RequestInfo)
    → new_request_info lib codec r req ≡ info_and_error info none
    → info.is_resource_request ≡ true
    → (info.verb ≡ "get") ⊎ (info.verb ≡ "delete")
    → info.name ≢ ""
unfolding new_request_info
new_request_info-named lib codec r req info =
    conclude-named lib codec r req (parse_parts lib r req (split_path req.path)) info
      (parse_parts-Each lib r req (split_path req.path))
