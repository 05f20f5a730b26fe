-- ===== src/Pagination.antt =====
-- Pages of a listing: PaginationParams of internal/repository/repository.go, the query parameters as
-- the handlers of internal/handler read them, and a `List…` of a service, which hands its parameters to
-- a repository by value and describes the page by its own.
pub mod Walk
mod Tests
use arc_lms.Prelude.{
  ℕ, zero, suc, ◌+◌, ◌-◌, ◌*◌, ◌/◌, ◌%◌, Bool, true, false, not, ◌&&◌, ltb, leb, if◌then◌else◌,
  Option, none, some, List, [], ◌++◌, take, drop, length, String,
}
use arc_lms.Prelude.Int.{ℤ, pos, negsuc, wrap64}
use arc_lms.Prelude.Texts.{same_text}
use arc_lms.Database.{RepoError, Result, ok, err, repo}

pub record PaginationParams : Type 0 where
  pub page : ℕ
  pub limit : ℕ
  pub sort_order : String
  pub sort_by : String

abbrev pub default_pagination_params : PaginationParams
default_pagination_params = record {
  page = 1;
  limit = 20;
  sort_order = "DESC";
  sort_by = "created_at";
}

-- A number that `strconv.Atoi` reads from the query, kept where it is positive.
abbrev pub positive_or : ℕ → Option ℤ → ℕ
positive_or default (some (pos (suc n))) = suc n
positive_or default _ = default

-- The parameters that a handler builds from `page` and `limit`.
abbrev pub query_params : Option ℤ → Option ℤ → PaginationParams
query_params page limit = record {
  page = positive_or 1 page;
  limit = positive_or 20 limit;
  sort_order = "DESC";
  sort_by = "created_at";
}

abbrev clamp_limit : ℕ → ℕ
clamp_limit n = let m = if leb n 0 then 20 else n in if ltb 100 m then 100 else m

unfoldable pub validate : PaginationParams → PaginationParams
validate p = record p {
  page = if leb p.page 0 then 1 else p.page;
  limit = clamp_limit p.limit;
  sort_order =
      if not (same_text p.sort_order "ASC") && not (same_text p.sort_order "DESC")
      then "DESC"
      else p.sort_order;
}

-- `Offset`, of a page that is at least 1.
unfoldable pub offset : PaginationParams → ℤ
offset p = wrap64 ((p.page - 1) * p.limit)

-- `LIMIT` and `OFFSET` of the rows in their order; PostgreSQL refuses a negative offset.
abbrev pub window {ℓ} : {A : Type ℓ} → ℕ → ℤ → List A → Result (List A)
window limit (pos n) rows = ok (take limit (drop n rows))
window limit (negsuc n) rows = err (repo RepoError.driver_failure)

pub record PaginatedResult : Type 0 where
  pub page : ℕ
  pub limit : ℕ
  pub total : ℕ
  pub total_pages : ℕ
  pub has_next : Bool
  pub has_previous : Bool

-- The number of pages, of a limit that is not 0.
unfoldable pub total_pages_of : ℕ → ℕ → ℕ
total_pages_of total limit =
    let pages = total / limit in if ltb 0 (total % limit) then pages + 1 else pages

unfoldable pub build_paginated_result : ℕ → PaginationParams → PaginatedResult
build_paginated_result total p = record {
  page = p.page;
  limit = p.limit;
  total = total;
  total_pages = total_pages_of total p.limit;
  has_next = ltb p.page (total_pages_of total p.limit);
  has_previous = ltb 1 p.page;
}

module _ {ℓ} {A : Type ℓ} where
  -- The repository's rows and their number: the parameters that it normalises are its own copy.
  unfoldable pub list_rows : List A → PaginationParams → Result (List A)
  list_rows rows p = window (validate p).limit (offset (validate p)) rows

  abbrev describe : ℕ → PaginationParams → Result (List A) → Result (List A × PaginatedResult)
  describe total p (ok page) = ok (page, build_paginated_result total p)
  describe total p (err e) = err e

  -- A page and its description.
  unfoldable pub list_page : List A → PaginationParams → Result (List A × PaginatedResult)
  list_page rows p = describe (length rows) p (list_rows rows p)
