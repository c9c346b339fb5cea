-- ===== src/Utils/NetLaws.antt =====
-- What `ParseURL` promises.
use kubesphere_schedule.Utils.Net.{trim_last, parse_url}
use kubesphere_schedule.Base.{
  ◌≡◌, ◌||◌, true, strip_prefix, some, refl, join, is_some, arith, String,
}
use Prim.Native.String.{[], ◌∷◌}

strip_prefix-join : (p s : String) → strip_prefix p (join p s) ≡ some s
unfolding strip_prefix
strip_prefix-join [] s = refl
strip_prefix-join (c ∷ p) s = ground (arith, strip_prefix-join p s)

-- The address that `ParseURL` returns always has a scheme, `http` or `https`.
pub parse_url-has_scheme :
    (address : String)
    → (is_some (strip_prefix "http://" (parse_url address))
        || is_some (strip_prefix "https://" (parse_url address)))
      ≡ true
unfolding parse_url
parse_url-has_scheme address = ground (arith, strip_prefix-join "https://" (trim_last b'/' address))
