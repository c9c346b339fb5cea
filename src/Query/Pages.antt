-- ===== src/Query/Pages.antt =====
-- What a request parses to.
use kubesphere_schedule.Query.Types.{default_limit}
use kubesphere_schedule.Base.Conv.{atoi-empty, atoi-IsInt, atoi}
use kubesphere_schedule.Base.Int.{◌*ℤ◌, ℤ, pos, neg_part}
use kubesphere_schedule.Base.Words.{wrap-IsInt, IsInt, sub_int, mul_int}
use kubesphere_schedule.Query.Parse.{
  int_or, read_limit, read_page, read_start, RestRequest, read_pagination,
}
use kubesphere_schedule.Base.{
  inr, inl, Option-cases, String, ◌≡◌, ◌^◌, ◌<◌, ◌*◌, ℕ, suc, some, arith,
}

mul_int-nat : (a b : ℕ) → a * b < 2 ^ 63 → mul_int (pos a) (pos b) ≡ pos (a * b)
unfolding mul_int
mul_int-nat a b h = ground arith

sub_int-one : (n : ℕ) → suc n < 2 ^ 63 → sub_int (pos (suc n)) (pos 1) ≡ pos n
unfolding sub_int
sub_int-one n h = ground arith

read_limit-nat :
    (request : RestRequest) (limit : ℕ)
    → atoi (request.query_parameter "limit") ≡ some (pos limit)
    → read_limit request ≡ pos limit
unfolding read_limit
read_limit-nat request limit h = ground arith

read_page-nat :
    (request : RestRequest) (page : ℤ)
    → atoi (request.query_parameter "page") ≡ some page
    → read_page request ≡ page
unfolding read_page
read_page-nat request page h = ground (arith, atoi-empty (request.query_parameter "page") page h)

pub int_or-IsInt : (d : ℤ) (s : String) → IsInt d → IsInt (int_or d (atoi s))
int_or-IsInt d s h = elim (Option-cases (atoi s)) [
  | inl failed ↦ rw failed h
  | inr (z, read) ↦ rw read (atoi-IsInt s z read)
]

pub mul_int-IsInt : (a b : ℤ) → IsInt (mul_int a b)
unfolding mul_int
mul_int-IsInt a b = wrap-IsInt (a *ℤ b)

read_limit-IsInt : (request : RestRequest) → IsInt (read_limit request)
unfolding read_limit
read_limit-IsInt request =
    ground (arith, int_or-IsInt default_limit (request.query_parameter "limit") (omega arith))

read_start-IsInt : (request : RestRequest) → IsInt (read_start request)
unfolding read_start
read_start-IsInt request =
    ground (arith, int_or-IsInt (pos 0) (request.query_parameter "start") (omega arith))

-- A request for a page and a limit is read as the window behind the pages before it. The offset fits
-- an `int`.
pub read_pagination-page :
    (request : RestRequest) (page limit : ℕ)
    → atoi (request.query_parameter "limit") ≡ some (pos limit)
    → atoi (request.query_parameter "page") ≡ some (pos (suc page))
    → page * limit < 2 ^ 63
    → read_pagination request ≡ record { limit = pos limit; offset = pos (page * limit) }
unfolding read_pagination
read_pagination-page request page limit hl hp h = ground (
  arith,
  read_limit-nat request limit hl,
  read_page-nat request (pos (suc page)) hp,
  sub_int-one page (atoi-IsInt _ _ hp).0,
  mul_int-nat page limit h,
)

-- No limit or offset that is read is negative, and both fit an `int`, whatever the request.
pub read_pagination-IsInt :
    (request : RestRequest)
    → (neg_part (read_pagination request).limit ≡ 0)
      × (neg_part (read_pagination request).offset ≡ 0)
      × IsInt (read_pagination request).limit
      × IsInt (read_pagination request).offset
unfolding read_pagination
read_pagination-IsInt request = ground (
  arith,
  read_limit-IsInt request,
  read_start-IsInt request,
  mul_int-IsInt (sub_int (read_page request) (pos 1)) (read_limit request),
)
