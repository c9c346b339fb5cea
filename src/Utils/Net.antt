-- ===== src/Utils/Net.antt =====
-- pkg/utils/net/net.go.
use kubesphere_schedule.Base.{
  join, ℕ, String, Bool, ◌&&◌, Option, none, some, if◌then◌else◌, is_char, is_empty, is_some, trim,
  strip_last, strip_prefix, ◌||◌,
}
use kubesphere_schedule.Base.Int.{ℤ, pos, ltb_ℤ}
use kubesphere_schedule.Http.{HttpRequest, UrlLib, header_get}

unfoldable pub is_valid_port : ℤ → Bool
is_valid_port port = ltb_ℤ (pos 0) port && ltb_ℤ port (pos 65535)

abbrev pub or_address : Option String → String → String
or_address none address = address
or_address (some host) address = host

unfoldable pub get_request_ip : UrlLib → HttpRequest → String
unfolding header_get trim
get_request_ip lib req =
    let real = trim (is_char b' ') (header_get "X-Real-Ip" req.header) in
    let forwarded = trim (is_char b' ') (header_get "X-Forwarded-For" req.header) in
    if is_empty real
    then if is_empty forwarded
      then or_address (lib.split_host_port req.remote_addr) req.remote_addr
      else forwarded
    else real

abbrev pub trim_last : ℕ → String → String
trim_last n s = or_address (strip_last n s) s

unfoldable pub parse_url : String → String
unfolding strip_last strip_prefix
parse_url address =
    let trimmed = trim_last b'/' address in
    if is_some (strip_prefix "http://" trimmed) || is_some (strip_prefix "https://" trimmed)
    then trimmed
    else join "https://" trimmed
