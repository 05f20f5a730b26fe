-- ===== src/Pagination/Tests.antt =====
-- Listings of a few rows, through internal/repository/repository.go.
use arc_lms.Prelude.{ℕ, zero, suc, ◌+◌, true, none, some, List, [], ◌∷◌, take, ◌≡◌, refl, arith}
use arc_lms.Prelude.Int.{negsuc, wrap64}
use arc_lms.Database.{ok}
use arc_lms.Pagination.{
  query_params, validate, offset, total_pages_of, build_paginated_result, list_rows, list_page,
}
use arc_lms.Pagination.Walk.{page_params, read, read_capped}

abbrev letters : List ℕ
letters = 11 ∷ 22 ∷ 33 ∷ 44 ∷ 55 ∷ []

second_page :
    list_page letters (page_params 2 2)
    ≡ ok (
      33 ∷ 44 ∷ [],
      record {
        page = 2;
        limit = 2;
        total = 5;
        total_pages = 3;
        has_next = true;
        has_previous = true;
      },
    )
unfolding list_page list_rows validate offset build_paginated_result total_pages_of wrap64
second_page = refl

-- A negative or unreadable number leaves the default.
defaults :
    query_params (some (negsuc 4)) none
    ≡ record { page = 1; limit = 20; sort_order = "DESC"; sort_by = "created_at" }
defaults = refl

abbrev ascending : ℕ → ℕ → List ℕ
ascending zero n = []
ascending (suc k) n = n ∷ ascending k (n + 1)

read_capped_example : read 9 (ascending 130 1) 200 1 ≡ take 100 (ascending 130 1)
read_capped_example =
    read_capped (ascending 130 1) 200 9 (omega arith) (omega arith) (omega arith) (omega arith)
