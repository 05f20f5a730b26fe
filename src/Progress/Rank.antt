-- ===== src/Progress/Rank.antt =====
-- The places that ComputeClassPositions of internal/service/progress_service.go gives.
use native.Mathlib.Nat.{le_trans}
use arc_lms.Prelude.{
  ℕ, ◌+◌, ◌≤◌, Bool, false, not, ◌==◌, ==_iff, Bool-cases, Option, some, List, [], ◌∷◌, map, count,
  All, Pairwise, ◌≡◌, refl, sym, ◌∙◌, subst, inl, inr, arith, Uuid, All-imp,
}
use arc_lms.Progress.{
  Progress, Floats, insert_student, students_of, average_of, rank_of, position_from,
}

-- Two lists hold the same elements, as often.
abbrev pub Rearranges {ℓ} : {A : Type ℓ} → List A → List A → Type ℓ
Rearranges {A} xs ys = (p : A → Bool) → count p xs ≡ count p ys

module _ (float : Floats) (irreflexive : (x : float.Float) → float.greater x x ≡ false)
    (ps : List Progress) where
  abbrev avg : Uuid → float.Float
  avg s = average_of float ps s

  -- A student with a greater average than `s`, and one with no smaller average.
  abbrev pub is_above : Uuid → Uuid → Bool
  is_above s t = float.greater (avg t) (avg s)

  abbrev pub is_level : Uuid → Uuid → Bool
  is_level s t = not (float.greater (avg s) (avg t))

  -- What `sort.Slice` ensures: no student comes after one with a smaller average.
  abbrev pub IsRanked : List Uuid → Type 0
  IsRanked order = Pairwise (λ s t. is_above s t ≡ false) order

  abbrev pub position : List Uuid → Uuid → Option ℕ
  position order s = position_from float 1 (map (rank_of float ps) order) s

  from_rank : ℕ → List Uuid → Uuid → Option ℕ
  from_rank n order s = position_from float n (map (rank_of float ps) order) s

  -- A student who is found stands in the list.
  found_in :
      (P : Uuid → Type 0) (n : ℕ) (order : List Uuid) (s : Uuid) {a : ℕ}
      → All P order
      → from_rank n order s ≡ some a
      → P s
  unfolding from_rank position_from
  found_in P n [] s h e = absurd (cc)
  found_in P n (o ∷ os) s {a} h e = elim (Bool-cases (o == s)) [
    | inl q ↦ subst P ((==_iff o s).0 q) h.0
    | inr q ↦ found_in P (n + 1) os s {a = a} h.1 (rw q at e)
  ]

  none_above :
      (s : Uuid) (os : List Uuid) → All (λ t. is_above s t ≡ false) os → count (is_above s) os ≡ 0
  none_above s [] h = refl
  none_above s (o ∷ os) h = rw (h.0) (none_above s os h.1)

  found_bounds :
      (n : ℕ) (order : List Uuid) (s : Uuid) {a : ℕ}
      → IsRanked order
      → from_rank n order s ≡ some a
      → (n + count (is_above s) order ≤ a) × (a + 1 ≤ n + count (is_level s) order)
  unfolding from_rank position_from
  found_bounds n [] s h e = absurd (cc)
  found_bounds n (o ∷ os) s {a} h e = elim (Bool-cases (o == s)) [
    | inl q ↦
        let same = (==_iff o s).0 q in
        let own : is_above s o ≡ false =
          subst (λ x. is_above x o ≡ false) same (irreflexive (avg o)) in
        let own' : float.greater (avg s) (avg o) ≡ false =
          subst (λ x. float.greater (avg x) (avg o) ≡ false) same (irreflexive (avg o)) in
        let no_more = none_above s os (subst (λ x. All (λ t. is_above x t ≡ false) os) same h.0) in
        let here : some n ≡ some a = rw q at e in ground arith
    | inr q ↦
        let rest = found_bounds (n + 1) os s {a = a} h.1 (rw q at e) in
        let after : is_above o s ≡ false =
          found_in (λ t. is_above o t ≡ false) (n + 1) os s {a = a} h.0 (rw q at e) in
        ground arith
  ]

  -- A student in the list is found, and at a place that no one else has.
  found_if_counted :
      (n : ℕ) (order : List Uuid) (s : Uuid)
      → 1 ≤ count (λ t. t == s) order
      → (a : ℕ) × (from_rank n order s ≡ some a)
  unfolding from_rank position_from
  found_if_counted n [] s h = absurd (omega arith)
  found_if_counted n (o ∷ os) s h = elim (Bool-cases (o == s)) [
    | inl q ↦ (n, rw q)
    | inr q ↦ let (a, e) = found_if_counted (n + 1) os s (rw q at h) in (a, rw q e)
  ]

  found_from : (n : ℕ) (order : List Uuid) (s : Uuid) {a : ℕ} → from_rank n order s ≡ some a → n ≤ a
  unfolding from_rank position_from
  found_from n [] s e = absurd (cc)
  found_from n (o ∷ os) s {a} e = elim (Bool-cases (o == s)) [
    | inl q ↦ let here : some n ≡ some a = rw q at e in ground arith
    | inr q ↦ let later = found_from (n + 1) os s {a = a} (rw q at e) in omega arith
  ]

  found_once :
      (n : ℕ) (order : List Uuid) (s t : Uuid) {a : ℕ}
      → from_rank n order s ≡ some a
      → from_rank n order t ≡ some a
      → s ≡ t
  unfolding from_rank position_from
  found_once n [] s t e f = absurd (cc)
  found_once n (o ∷ os) s t {a} e f = elim (Bool-cases (o == s)) [
    | inl q ↦ elim (Bool-cases (o == t)) [
      | inl r ↦ sym ((==_iff o s).0 q) ∙ (==_iff o t).0 r
      | inr r ↦
          let here : some n ≡ some a = rw q at e in
          let later = found_from (n + 1) os t {a = a} (rw r at f) in absurd (ground arith)
    ]
    | inr q ↦ elim (Bool-cases (o == t)) [
      | inl r ↦
          let here : some n ≡ some a = rw r at f in
          let later = found_from (n + 1) os s {a = a} (rw q at e) in absurd (ground arith)
      | inr r ↦ found_once (n + 1) os s t {a = a} (rw q at e) (rw r at f)
    ]
  ]

  counted_insert :
      (s u : Uuid) (us : List Uuid)
      → count (λ t. t == s) us ≤ count (λ t. t == s) (insert_student u us)
  unfolding insert_student
  counted_insert s u [] = omega arith
  counted_insert s u (v ∷ vs) = ground (arith, counted_insert s u vs)

  counted_self : (s : Uuid) (us : List Uuid) → 1 ≤ count (λ t. t == s) (insert_student s us)
  unfolding insert_student
  counted_self s [] = ground (arith, ==_iff s s)
  counted_self s (v ∷ vs) = ground (arith, counted_self s vs)

  students_counted :
      (qs : List Progress) → All (λ p. 1 ≤ count (λ t. t == p.student_id) (students_of qs)) qs
  unfolding students_of
  students_counted [] = tt
  students_counted (p ∷ qs) = (
    counted_self p.student_id (students_of qs),
    All-imp (λ q h. le_trans h (counted_insert q.student_id p.student_id (students_of qs))) qs
        (students_counted qs),
  )

  -- The place of a student in an order: one more than the students above come before, and no more than
  -- the students level with or above come up to it.
  abbrev pub IsPlaced : List Uuid → Uuid → Type 0
  IsPlaced order s =
      (a : ℕ) × (position order s ≡ some a)
      × (count (is_above s) (students_of ps) + 1 ≤ a)
      × (a ≤ count (is_level s) (students_of ps))

  is_placed :
      (order : List Uuid) (s : Uuid)
      → Rearranges order (students_of ps)
      → IsRanked order
      → 1 ≤ count (λ t. t == s) (students_of ps)
      → IsPlaced order s
  unfolding from_rank
  is_placed order s r h c =
      let (a, e) = found_if_counted 1 order s (omega (arith, r (λ t. t == s))) in
      let b = found_bounds 1 order s {a = a} h e in
      (a, e, omega (arith, r (is_above s)), omega (arith, r (is_level s)))

  -- Where the students come in any order that sorting by average allows, each student with a record has a
  -- place that is at least one more than the number of students with a greater average, and at most the
  -- number of students with no smaller one.
  pub class_places :
      (order : List Uuid)
      → Rearranges order (students_of ps)
      → IsRanked order
      → All (λ p. IsPlaced order p.student_id) ps
  class_places order r h =
      All-imp (λ p c. is_placed order p.student_id r h c) ps (students_counted ps)

  -- No two students of an order have the same place.
  pub places_differ :
      (order : List Uuid) (s t : Uuid) (a : ℕ)
      → position order s ≡ some a
      → position order t ≡ some a
      → s ≡ t
  unfolding from_rank
  places_differ order s t a e f = found_once 1 order s t e f
