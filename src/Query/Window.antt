-- ===== src/Query/Window.antt =====
-- The window that `GetValidPagination` computes, in 64-bit integers.
use kubesphere_schedule.Base.Int.{negsuc, ◌≤ℤ◌, pos, pos_part, neg_part, ℤ}
use kubesphere_schedule.Base.Words.{IsInt, add_int}
use kubesphere_schedule.Query.Types.{get_valid_pagination, Pagination}
use kubesphere_schedule.Base.{◌↔◌, ◌-◌, ◌≤◌, ◌≡◌, ◌^◌, ◌<◌, ◌+◌, ℕ, min, arith}

-- A pagination that passes the check and whose end wraps around.
abbrev pub Overflows : Pagination → ℕ → Type 0
Overflows p total =
    (neg_part p.limit ≡ 0)
    × (neg_part p.offset ≡ 0)
    × (pos_part p.offset ≤ total)
    × (2 ^ 63 ≤ pos_part p.offset + pos_part p.limit)

abbrev pub IsWindow : ℤ × ℤ → ℕ → Type 0
IsWindow (s, e) total = (pos 0 ≤ℤ s) × (s ≤ℤ e) × (e ≤ℤ pos total)

pub add_int-nat : (a b : ℕ) → a + b < 2 ^ 63 → add_int (pos a) (pos b) ≡ pos (a + b)
unfolding add_int
add_int-nat a b h = ground arith

-- A sum that does not fit is negative.
add_int-wraps :
    (a b : ℕ)
    → a < 2 ^ 63
    → b < 2 ^ 63
    → 2 ^ 63 ≤ a + b
    → add_int (pos a) (pos b) ≡ negsuc (2 ^ 64 - 1 - (a + b))
unfolding add_int
add_int-wraps a b h k o = ground arith

-- With a natural limit and offset, `GetValidPagination` returns the offset and the lesser of the
-- number of items and the sum of the two. The offset is within the items, and the sum fits an
-- `int`.
pub get_valid_pagination-natural :
    (l o total : ℕ)
    → o + l < 2 ^ 63
    → o ≤ total
    → get_valid_pagination (record { limit = pos l; offset = pos o }) total
      ≡ (pos o, pos (min (o + l) total))
unfolding get_valid_pagination
get_valid_pagination-natural l o total h k = ground (arith, add_int-nat o l)

IsWindow-of_fit :
    (limit offset : ℤ) (total : ℕ)
    → IsInt limit
    → IsInt offset
    → ¬ Overflows (record { limit = limit; offset = offset }) total
    → IsWindow (get_valid_pagination (record { limit = limit; offset = offset }) total) total
unfolding get_valid_pagination
IsWindow-of_fit (negsuc l) offset total hl ho n = ground arith
IsWindow-of_fit (pos l) (negsuc o) total hl ho n = ground arith
IsWindow-of_fit (pos l) (pos o) total hl ho n = ground (arith, add_int-nat o l)

end_of_overflow :
    (limit offset : ℤ) (total : ℕ)
    → IsInt limit
    → IsInt offset
    → Overflows (record { limit = limit; offset = offset }) total
    → get_valid_pagination (record { limit = limit; offset = offset }) total
      ≡ (offset, negsuc (2 ^ 64 - 1 - (pos_part offset + pos_part limit)))
unfolding get_valid_pagination
end_of_overflow (negsuc l) offset total hl ho o = ground arith
end_of_overflow (pos l) (negsuc m) total hl ho o = ground arith
end_of_overflow (pos l) (pos m) total hl ho o = ground (arith, add_int-wraps m l)

-- The end of a window that overflows is negative.
pub get_valid_pagination-overflow :
    (p : Pagination) (total : ℕ)
    → IsInt p.limit
    → IsInt p.offset
    → Overflows p total
    → (n : ℕ) × (get_valid_pagination p total ≡ (p.offset, negsuc n))
get_valid_pagination-overflow p total hl ho h = (
  2 ^ 64 - 1 - (pos_part p.offset + pos_part p.limit),
  end_of_overflow p.limit p.offset total hl ho h,
)

no-IsWindow_of_overflow :
    (limit offset : ℤ) (total : ℕ)
    → IsInt limit
    → IsInt offset
    → Overflows (record { limit = limit; offset = offset }) total
    → ¬ IsWindow (get_valid_pagination (record { limit = limit; offset = offset }) total) total
unfolding get_valid_pagination
no-IsWindow_of_overflow (negsuc l) offset total hl ho o w = ground arith
no-IsWindow_of_overflow (pos l) (negsuc m) total hl ho o w = ground arith
no-IsWindow_of_overflow (pos l) (pos m) total hl ho o w = ground (arith, add_int-wraps m l)

-- `GetValidPagination` returns indices 0 ≤ start ≤ end ≤ total exactly where the sum of a limit and
-- an offset that pass its check fits an `int`.
pub get_valid_pagination-IsWindow_iff :
    (p : Pagination) (total : ℕ)
    → IsInt p.limit
    → IsInt p.offset
    → IsWindow (get_valid_pagination p total) total ↔ (¬ Overflows p total)
get_valid_pagination-IsWindow_iff p total hl ho = (
  λ w o. no-IsWindow_of_overflow p.limit p.offset total hl ho o w,
  IsWindow-of_fit p.limit p.offset total hl ho,
)
