-- ===== src/Server/Paging.antt =====
-- The bounds of `ParsePaging`.
use kubesphere_schedule.Query.Pages.{int_or-IsInt, mul_int-IsInt}
use kubesphere_schedule.Base.Int.{ℤ, pos}
use kubesphere_schedule.Base.Words.{sub_int, mul_int, IsInt}
use kubesphere_schedule.Server.Params.{
  groups_or_default, atoi_or_default, parse_paging, read_paging,
}
use kubesphere_schedule.Base.{some, none, arith, String, Option}

or_default-IsInt :
    (str : String) (def_val : ℤ) → IsInt def_val → IsInt (atoi_or_default str def_val)
unfolding atoi_or_default
or_default-IsInt str def_val h = int_or-IsInt def_val str h

groups-IsInt :
    (groups : Option (String × String))
    → IsInt (groups_or_default groups).0 × IsInt (groups_or_default groups).1
groups-IsInt none = ((omega arith, omega arith), (omega arith, omega arith))
groups-IsInt (some (limit, page)) = (
  or_default-IsInt limit (pos 10) (omega arith, omega arith),
  or_default-IsInt page (pos 1) (omega arith, omega arith),
)

read_paging-IsInt :
    (find_groups : String → Option (String × String)) (query_parameter : String → String)
    → IsInt (read_paging find_groups query_parameter).0
unfolding read_paging
read_paging-IsInt find_groups query_parameter = ground (
  arith,
  groups-IsInt (find_groups (query_parameter "paging")),
  or_default-IsInt (query_parameter "limit") (pos 10) (omega arith, omega arith),
)

-- The limit and the offset that `ParsePaging` returns fit an `int`, whatever the request holds; they
-- may be negative.
pub parse_paging-IsInt :
    (find_groups : String → Option (String × String)) (query_parameter : String → String)
    → IsInt (parse_paging find_groups query_parameter).0
      × IsInt (parse_paging find_groups query_parameter).1
unfolding parse_paging
parse_paging-IsInt find_groups query_parameter =
    let read = read_paging find_groups query_parameter in
    let offset = mul_int (sub_int read.1 (pos 1)) read.0 in
    let fits = mul_int-IsInt (sub_int read.1 (pos 1)) read.0 in
    ground (
      arith,
      read_paging-IsInt find_groups query_parameter,
      fits,
      or_default-IsInt (query_parameter "start") offset fits,
    )
