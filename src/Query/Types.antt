-- ===== src/Query/Types.antt =====
-- pkg/apiserver/query/types.go and field.go: the query and its pagination. A map of filters is an
-- association list; a label selector is parsed by the Kubernetes library.
use kubesphere_schedule.Base.{
  ◌||◌, ℕ, some, none, if◌then◌else◌, false, [], String, Option, List, Bool,
}
use kubesphere_schedule.Base.Int.{ℤ, pos, negsuc, ltb_ℤ}
use kubesphere_schedule.Base.Words.{add_int}

abbrev pub default_limit : ℤ
default_limit = pos 10

abbrev pub default_page : ℤ
default_page = pos 1

pub record Pagination : Type 0 where
  pub limit : ℤ
  pub offset : ℤ

pub record Query : Type 0 where
  pub pagination : Option Pagination
  pub sort_by : String
  pub ascending : Bool
  pub filters : List (String × String)
  pub label_selector : String

pub record Filter : Type 0 where
  pub field : String
  pub value : String

unfoldable pub new_pagination : ℤ → ℤ → Pagination
new_pagination limit offset = record {
  limit = if ltb_ℤ limit (pos 0) then default_limit else limit;
  offset = if ltb_ℤ offset (pos 0) then pos 0 else offset;
}

unfoldable pub no_pagination : Pagination
unfolding new_pagination
no_pagination = new_pagination (negsuc 0) (pos 0)

-- The indices of the first item and of the one behind the last, added as `int`s.
unfoldable pub get_valid_pagination : Pagination → ℕ → ℤ × ℤ
get_valid_pagination p total =
    if ltb_ℤ p.limit (pos 0) || ltb_ℤ p.offset (pos 0) || ltb_ℤ (pos total) p.offset
    then (pos 0, pos 0)
    else let end_index = add_int p.offset p.limit in
      (p.offset, if ltb_ℤ (pos total) end_index then pos total else end_index)

unfoldable pub new : Query
new = record {
  pagination = some no_pagination;
  sort_by = "";
  ascending = false;
  filters = [];
  label_selector = "";
}

-- `labels.Parse` and `labels.Everything` stand for the Kubernetes library.
unfoldable pub selector {ℓ} : {S : Type ℓ} → (String → Option S) → S → Query → S
selector parse everything q = elim (parse q.label_selector) [ none ↦ everything | some s ↦ s ]
