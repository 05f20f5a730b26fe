-- ===== src/Timetable/Generate/Tutors.antt =====
-- No tutor is double-booked by the generation of internal/service/timetable_service.go.
use arc_lms.Prelude.{
  ℕ, ◌≤◌, ◌≡◌, refl, sym, ◌⊎◌, inl, inr, ◌&&◌, Bool, true, false, List, [], ◌∷◌, ◌++◌, arith, Uuid,
  ◌==◌, length, All, All-append, All-imp, All-trivial, Pairwise, Pairwise-snoc,
}
use arc_lms.Clock.{Time}
use arc_lms.Period.{DayOfWeek, Period, same_day}
use arc_lms.Timetable.Course.{Course, Timetable}
use arc_lms.Timetable.Config.{Config}
use arc_lms.Timetable.Generate.{
  Slot, Schedule, Context, Pass, slot_of, book, load_schedule, has_conflict, new_period,
  schedule_course, sort_by_tutor, context, start, generate_periods,
}
use arc_lms.Timetable.Generate.Rule.{Guard, fill_days-keeps}

-- One range of minutes ends before the other starts.
abbrev pub Apart : Slot → Slot → Type 0
Apart s t = (s.1 ≤ t.0) ⊎ (t.1 ≤ s.0)

-- Two periods of one tutor on one day take ranges of minutes that are apart.
abbrev pub TutorApart : Period → Period → Type 0
TutorApart p q =
    p.tutor_id ≡ q.tutor_id → p.day_of_week ≡ q.day_of_week → Apart (slot_of p) (slot_of q)

TutorApart-symm : (p q : Period) → TutorApart p q → TutorApart q p
TutorApart-symm p q h e f = elim (h (sym e) (sym f)) [ inl l ↦ inr l | inr r ↦ inl r ]

-- A slot stands in a list of slots.
abbrev Has : Slot → List Slot → Type 0
Has s [] = ⊥
Has s (t ∷ l) = (s ≡ t) ⊎ Has s l

Has-append : (s : Slot) (l r : List Slot) → Has s l → Has s (l ++ r)
Has-append s [] r h = absurd h
Has-append s (t ∷ l) r (inl e) = inl e
Has-append s (t ∷ l) r (inr h) = inr (Has-append s l r h)

Has-snoc : (s : Slot) (l : List Slot) → Has s (l ++ s ∷ [])
Has-snoc s [] = inl refl
Has-snoc s (t ∷ l) = inr (Has-snoc s l)

All-Has : (P : Slot → Type 0) (s : Slot) (l : List Slot) → All P l → Has s l → P s
All-Has P s [] a h = absurd h
All-Has P s (t ∷ l) a (inl e) = rw e a.0
All-Has P s (t ∷ l) a (inr h) = All-Has P s l a.1 h

-- A range that meets no conflict is apart from every slot.
has_conflict-Apart : (a b : ℕ) (l : List Slot) → has_conflict a b l ≡ false → All (Apart (a, b)) l
unfolding has_conflict
has_conflict-Apart a b [] h = tt
has_conflict-Apart a b ((c, d) ∷ l) h = ground (arith, has_conflict-Apart a b l)

-- The slot of a period is on its tutor's day.
abbrev IsBooked : Schedule → Period → Type 0
IsBooked s p = Has (slot_of p) (s p.tutor_id p.day_of_week)

Has-book :
    (t tutor : Uuid) (e d : DayOfWeek) (r s : Slot) (sch : Schedule)
    → Has s (sch t e)
    → Has s (book tutor d r sch t e)
Has-book t tutor e d r s sch h = elim (both (t == tutor) (same_day e d)) [
  | inl yes_both ↦ rw yes_both (Has-append s (sch t e) (r ∷ []) h)
  | inr other ↦ rw other h
]
  where
    both : (a b : Bool) → ((a && b) ≡ true) ⊎ ((a && b) ≡ false)
    both a b = ground arith

IsBooked-book :
    (p : Period) (sch : Schedule) → IsBooked (book p.tutor_id p.day_of_week (slot_of p) sch) p
IsBooked-book p sch =
    let e : ((p.tutor_id == p.tutor_id) && same_day p.day_of_week p.day_of_week) ≡ true =
      ground arith in
    rw e (Has-snoc (slot_of p) (sch p.tutor_id p.day_of_week))

IsBooked-grows :
    (p q : Period) (sch : Schedule)
    → IsBooked sch q
    → IsBooked (book p.tutor_id p.day_of_week (slot_of p) sch) q
IsBooked-grows p q sch h =
    Has-book q.tutor_id p.tutor_id q.day_of_week p.day_of_week (slot_of p) (slot_of q) sch h

All-grows :
    (p : Period) (sch : Schedule) (ps : List Period)
    → All (IsBooked sch) ps
    → All (IsBooked (book p.tutor_id p.day_of_week (slot_of p) sch)) ps
All-grows p sch ps h = All-imp (λ q. IsBooked-grows p q sch) ps h

load_schedule-grows :
    (ps : List Period) (q : Period) (sch : Schedule)
    → IsBooked sch q
    → IsBooked (load_schedule ps sch) q
unfolding load_schedule
load_schedule-grows [] q sch h = h
load_schedule-grows (p ∷ ps) q sch h =
    load_schedule-grows ps q (book p.tutor_id p.day_of_week (slot_of p) sch)
      (IsBooked-grows p q sch h)

-- Every loaded period is booked.
load_schedule-IsBooked :
    (ps : List Period) (sch : Schedule) → All (IsBooked (load_schedule ps sch)) ps
unfolding load_schedule
load_schedule-IsBooked [] sch = tt
load_schedule-IsBooked (p ∷ ps) sch =
    let sch' : Schedule = book p.tutor_id p.day_of_week (slot_of p) sch in
    (load_schedule-grows ps p sch' (IsBooked-book p sch), load_schedule-IsBooked ps sch')

-- A period in a range that meets no conflict is apart from the booked periods of its tutor.
booked_apart :
    (p : Period) (sch : Schedule) (ps : List Period)
    → has_conflict (slot_of p).0 (slot_of p).1 (sch p.tutor_id p.day_of_week) ≡ false
    → All (IsBooked sch) ps
    → All (TutorApart p) ps
booked_apart p sch ps free h = All-imp one ps h
  where
    one : (q : Period) → IsBooked sch q → TutorApart p q
    one q b e f =
        All-Has (Apart (slot_of p)) (slot_of q) (sch p.tutor_id p.day_of_week)
          (has_conflict-Apart (slot_of p).0 (slot_of p).1 (sch p.tutor_id p.day_of_week) free)
          (rw (e, f) b)

module _ (existing : List Period) where
  -- All periods so far are booked, and each new one is apart from those before it.
  abbrev IsFree : Pass → Type 0
  IsFree p =
      All (IsBooked p.tutor_schedule) existing
      × All (IsBooked p.tutor_schedule) p.periods
      × All (λ q. All (TutorApart q) existing) p.periods
      × Pairwise TutorApart p.periods

  schedule_course-IsFree :
      (x : Context) (d : DayOfWeek) (c : Course) (p : Pass)
      → Guard x d c p
      → IsFree p
      → IsFree (schedule_course x d c p)
  schedule_course-IsFree x d c p g (old, new, apart, pairs) =
      let n : Period = new_period x d c p in
      (
        All-grows n p.tutor_schedule existing old,
        All-append (IsBooked (schedule_course x d c p).tutor_schedule) p.periods (n ∷ [])
            (All-grows n p.tutor_schedule p.periods new) (IsBooked-book n p.tutor_schedule, tt),
        All-append (λ q. All (TutorApart q) existing) p.periods (n ∷ []) apart
            (booked_apart n p.tutor_schedule existing g.free old, tt),
        Pairwise-snoc TutorApart p.periods n pairs (
            All-imp (TutorApart-symm n) p.periods
              (booked_apart n p.tutor_schedule p.periods g.free new)),
      )

-- A generated period never clashes, by the minute of the day, with an existing period of its tutor
-- that was loaded, and no two generated periods of one tutor clash.
pub tutor_never_double_booked :
    (t : Timetable) (courses : List Course) (c : Config) (existing : List Period) (now : Time)
    (fresh : ℕ → Uuid)
    → let periods = generate_periods t courses c existing now fresh in
      All (λ p. All (TutorApart p) existing) periods × Pairwise TutorApart periods
unfolding generate_periods
tutor_never_double_booked t courses c existing now fresh =
    let (_, _, apart, pairs) =
      fill_days-keeps (context t c (length courses) now fresh) (λ _. Unit) (λ _. Unit)
        (IsFree existing)
        (λ d e p _ _ g.
          schedule_course-IsFree existing (context t c (length courses) now fresh) d e p g)
        (λ p n h. h) (λ p b h. h) (sort_by_tutor courses) c.instructional_days (start existing)
        (All-trivial (sort_by_tutor courses)) (All-trivial c.instructional_days)
        (load_schedule-IsBooked existing (λ _ _. []), tt, tt, tt) in
    (apart, pairs)
