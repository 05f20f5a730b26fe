-- ===== src/Pagination/Walk.antt =====
-- What a client reads that starts at page 1 and goes on while `has_next` says so.
use mathlib.Core.List.{append-nil}
use arc_lms.Prelude.{
  ℕ, zero, suc, ◌+◌, ◌-◌, ◌*◌, ◌≤◌, ◌<◌, true, false, ltb, leb, leb→le, Bool-cases, inl, inr,
  if◌then◌else◌, some, List, [], ◌++◌, take, drop, length, take-drop-append, ◌≡◌, refl, arith, ◌∙◌,
}
use arc_lms.Prelude.Int.{pos, wrap64-pos}
use arc_lms.Database.{Result, ok, err}
use arc_lms.Pagination.{
  PaginationParams, PaginatedResult, query_params, validate, offset, total_pages_of,
  build_paginated_result, list_rows, list_page,
}

-- The request for a page of a size.
abbrev pub page_params : ℕ → ℕ → PaginationParams
page_params limit page = query_params (some (pos page)) (some (pos limit))

module _ {ℓ} {A : Type ℓ} where
  abbrev and_then : Result (List A × PaginatedResult) → List A → List A
  and_then (ok (rows, m)) rest = rows ++ (if m.has_next then rest else [])
  and_then (err e) rest = []

  -- The rows that the client has after at most so many pages, from this page on.
  unfoldable pub read : ℕ → List A → ℕ → ℕ → List A
  read zero rows limit page = []
  read (suc f) rows limit page =
      let rest = read f rows limit (page + 1) in
      and_then (list_page rows (page_params limit page)) rest

-- The size that the repository uses.
abbrev pub capped : ℕ → ℕ
capped limit = if ltb 100 limit then 100 else limit

validated_limit :
    (limit page : ℕ) → 1 ≤ limit → (validate (page_params limit page)).limit ≡ capped limit
unfolding validate
validated_limit zero page h = absurd (omega arith)
validated_limit (suc n) page h = ground arith

validated_page : (limit p : ℕ) → (validate (page_params limit (suc p))).page ≡ suc p
unfolding validate
validated_page limit p = ground arith

offset_of :
    (limit p : ℕ)
    → 1 ≤ limit
    → p * capped limit < 9223372036854775808
    → offset (validate (page_params limit (suc p))) ≡ pos (p * capped limit)
unfolding offset
offset_of limit p h b =
    let e : suc p - 1 ≡ p = omega arith in
    rw (validated_page limit p, validated_limit limit (suc p) h, e)
      (wrap64-pos (p * capped limit) b)

list_page_lem {ℓ} :
    {A : Type ℓ} (rows : List A) (limit p : ℕ)
    → 1 ≤ limit
    → p * capped limit < 9223372036854775808
    → list_page rows (page_params limit (suc p))
      ≡ ok (
        take (capped limit) (drop (p * capped limit) rows),
        build_paginated_result (length rows) (page_params limit (suc p)),
      )
unfolding list_page list_rows
list_page_lem rows limit p h b = rw (offset_of limit p h b, validated_limit limit (suc p) h)

has_next_lem :
    (total limit p : ℕ)
    → 1 ≤ limit
    → (build_paginated_result total (page_params limit (suc p))).has_next
      ≡ ltb (suc p) (total_pages_of total limit)
unfolding build_paginated_result
has_next_lem total zero p h = absurd (omega arith)
has_next_lem total (suc n) p h = refl

-- There are enough pages, and the last one is begun.
pages_bounds :
    (total limit : ℕ)
    → 1 ≤ limit
    → (total ≤ total_pages_of total limit * limit)
      × ((total_pages_of total limit - 1) * limit ≤ total)
unfolding total_pages_of
pages_bounds total limit h = grind arith

mul_mono : (a b c : ℕ) → a ≤ b → a * c ≤ b * c
mul_mono a b c h = grind arith

mul_mono_right : (a b c : ℕ) → b ≤ c → a * b ≤ a * c
mul_mono_right a b c h = grind arith

capped_le : (limit : ℕ) → capped limit ≤ limit
capped_le limit = ground arith

ltb-false : (a b : ℕ) → b ≤ a → ltb a b ≡ false
ltb-false a b h = ground arith

ltb-true : (a b : ℕ) → a < b → ltb a b ≡ true
ltb-true a b h = ground arith

module _ {ℓ} {A : Type ℓ} (rows : List A) (limit : ℕ) (h : 1 ≤ limit)
    (small : length rows < 9223372036854775808) where
  -- One round of the client.
  read_round :
      (f p : ℕ)
      → p * limit ≤ length rows
      → read (suc f) rows limit (suc p)
        ≡ take (capped limit) (drop (p * capped limit) rows)
          ++ (if ltb (suc p) (total_pages_of (length rows) limit)
              then read f rows limit (suc p + 1)
              else [])
  unfolding read
  read_round f p b = rw (
    list_page_lem rows limit p h
        (omega (arith, mul_mono_right p (capped limit) limit (capped_le limit))),
    has_next_lem (length rows) limit p h,
  )

  -- The client reads one window, of as many rows as its pages have.
  read_lem :
      (f k p : ℕ)
      → k ≡ total_pages_of (length rows) limit - suc p
      → k < f
      → p * limit ≤ length rows
      → read f rows limit (suc p) ≡ take (suc k * capped limit) (drop (p * capped limit) rows)
  read_lem zero k p e g b = absurd (omega arith)
  read_lem (suc f) zero p e g b =
      let one : 1 * capped limit ≡ capped limit = omega arith in
      rw (
        read_round f p b,
        ltb-false (suc p) (total_pages_of (length rows) limit) (omega arith),
        append-nil,
        one,
      )
  read_lem (suc f) (suc k) p e g b =
      let pages = total_pages_of (length rows) limit in
      let next : suc p + 1 ≡ suc (suc p) = omega arith in
      let start : suc p * capped limit ≡ p * capped limit + capped limit = omega arith in
      let size : suc (suc k) * capped limit ≡ capped limit + suc k * capped limit = omega arith in
      let begun : suc p * limit ≤ length rows = omega (
        arith,
        mul_mono (suc p) (pages - 1) limit (omega arith),
        (pages_bounds (length rows) limit h).1,
      ) in
      rw
        (
          read_round f p b,
          ltb-true (suc p) pages (omega arith),
          next,
          read_lem f k (suc p) (omega arith) (omega arith) begun,
          start,
          size,
        )
        (take-drop-append (p * capped limit) (capped limit) (suc k * capped limit) rows)

  -- The client reads the first rows, as many as so many windows hold.
  read_first :
      (f : ℕ)
      → total_pages_of (length rows) limit ≤ f
      → 1 ≤ f
      → read f rows limit 1
        ≡ take (suc (total_pages_of (length rows) limit - 1) * capped limit) rows
  read_first f g g1 =
      let none_before : zero * capped limit ≡ zero = omega arith in
      rw none_before at (
        read_lem f (total_pages_of (length rows) limit - 1) zero (omega arith) (omega arith)
          (omega arith))

last_page_begun :
    (total limit : ℕ) → 1 ≤ limit → 1 ≤ total → (total_pages_of total limit - 1) * limit < total
unfolding total_pages_of
last_page_begun total limit h k = grind arith

no_pages : (limit : ℕ) → 1 ≤ limit → total_pages_of 0 limit ≡ 0
unfolding total_pages_of
no_pages limit h = grind arith

pages_le_one : (total limit : ℕ) → 1 ≤ limit → total ≤ limit → total_pages_of total limit ≤ 1
pages_le_one zero limit h k = omega (arith, no_pages limit h)
pages_le_one (suc t) limit h k = elim (Bool-cases (leb (total_pages_of (suc t) limit) 1)) [
  | inl e ↦ leb→le _ _ e
  | inr e ↦ absurd (
      omega (
        arith,
        last_page_begun (suc t) limit h (omega arith),
        mul_mono 1 (total_pages_of (suc t) limit - 1) limit (ground arith),
      ))
]

-- A client that asks for pages of more than 100 rows, where all rows fit one of them, is given the first
-- 100 rows and told that there is no next page, however often it would ask.
pub read_capped {ℓ} :
    {A : Type ℓ} (rows : List A) (limit f : ℕ)
    → 100 < limit
    → length rows ≤ limit
    → length rows < 9223372036854775808
    → 1 ≤ f
    → read f rows limit 1 ≡ take 100 rows
read_capped rows limit f h fit small g =
    let pages = total_pages_of (length rows) limit in
    let few = pages_le_one (length rows) limit (omega arith) fit in
    let size : suc (pages - 1) * capped limit ≡ 100 = ground arith in
    read_first rows limit (omega arith) small f (omega arith) g ∙ rw size
