-- ===== src/Timetable/Details.antt =====
-- `enrichPeriods` of internal/service/timetable_service.go: the course, the tutor and the class of each
-- period for the answer, each read once.
use arc_lms.Prelude.{
  ◌==◌, ◌≡◌, refl, ◌∙◌, ap, if◌then◌else◌, List, [], ◌∷◌, map, Option, none, some, String, Uuid,
}
use arc_lms.Database.{Conn, Db, Result, pure, query, failing, ◌>>=◌}
use arc_lms.Database.Ensures.{Ensures, Ensures-bind, Ensures-imp, Ensures-pure, after_query}
use arc_lms.Database.Leaves.{Leaves, Leaves-bind, Leaves-imp, Leaves-pure}
use arc_lms.Database.Leaves.Tx.{past_query}
use arc_lms.Period.{Period}
use arc_lms.Timetable.Course.{Course}
use arc_lms.Timetable.Tables.{Tables, Class, TutorSummary, get_class, get_course, get_tutor}

pub record PeriodWithDetails : Type 0 where
  pub period : Period
  pub course : Course
  pub tutor : TutorSummary
  pub class : Class

abbrev pub Cache : Type 0 → Type 0
Cache A = List (Uuid × A)

abbrev pub look_up : {A : Type 0} → Uuid → Cache A → Option A
look_up k [] = none
look_up k ((l, a) ∷ rest) = let below = look_up k rest in if k == l then some a else below

-- From the cache, or fetched into it.
unfoldable pub from_cache :
    {A : Type 0}
    → Option A
    → String
    → (Uuid → Tables → Result A)
    → Uuid
    → Cache A
    → Db Tables (A × Cache A)
from_cache (some a) s f k cache = pure (a, cache)
from_cache none s f k cache = do a ← failing s (query (f k)); pure (a, (k, a) ∷ cache)

abbrev pub fetch :
    {A : Type 0} → String → (Uuid → Tables → Result A) → Uuid → Cache A → Db Tables (A × Cache A)
fetch s f k cache = from_cache (look_up k cache) s f k cache

unfoldable pub enrich_periods :
    Cache Course
    → Cache TutorSummary
    → Cache Class
    → List Period
    → Db Tables (List PeriodWithDetails)
enrich_periods cs ts ks [] = pure []
enrich_periods cs ts ks (p ∷ ps) = do
  (course, cs') ← fetch "failed to get course" get_course p.course_id cs
  (tutor, ts') ← fetch "failed to get tutor" get_tutor p.tutor_id ts
  (class, ks') ← fetch "failed to get class" get_class p.class_id ks
  rest ← enrich_periods cs' ts' ks' ps
  pure (record { period = p; course = course; tutor = tutor; class = class } ∷ rest)

abbrev pub periods_of_details : List PeriodWithDetails → List Period
periods_of_details ds = map (λ d. d.period) ds

from_cache-same :
    {A : Type 0} (o : Option A) (s : String) (f : Uuid → Tables → Result A) (k : Uuid)
    (cache : Cache A) (c : Conn Tables)
    → Ensures (from_cache o s f k cache) c (λ _ c'. c'.db ≡ c.db)
unfolding from_cache
from_cache-same (some a) s f k cache c = Ensures-pure _ refl
from_cache-same none s f k cache c = after_query s (f k) (λ a q. Ensures-pure _ refl)

-- The details are those of the periods, in their order, and the tables stay.
pub enrich_periods-same :
    (cs : Cache Course) (ts : Cache TutorSummary) (ks : Cache Class) (ps : List Period)
    (c : Conn Tables)
    → Ensures
        (enrich_periods cs ts ks ps)
        c
        (λ ds c'. (c'.db ≡ c.db) × (periods_of_details ds ≡ ps))
unfolding enrich_periods
enrich_periods-same cs ts ks [] c = Ensures-pure [] (refl, refl)
enrich_periods-same cs ts ks (p ∷ ps) c = Ensures-bind (
    Ensures-imp
      (λ x c1 e1. Ensures-bind (
        Ensures-imp
          (λ y c2 e2. Ensures-bind (
            Ensures-imp
              (λ z c3 e3. Ensures-bind (
                Ensures-imp
                  (λ ds c4 e4. Ensures-pure _ (e4.0 ∙ e3 ∙ e2 ∙ e1, ap (λ qs. p ∷ qs) e4.1))
                  (enrich_periods-same x.1 y.1 z.1 ps c3)))
              (from_cache-same (look_up p.class_id ks) _ _ _ ks c2)))
          (from_cache-same (look_up p.tutor_id ts) _ _ _ ts c1)))
      (from_cache-same (look_up p.course_id cs) _ _ _ cs c))

module _ (P : Tables → Type 0) where
  from_cache-kept :
      {A : Type 0} (o : Option A) (s : String) (f : Uuid → Tables → Result A) (k : Uuid)
      (cache : Cache A) (c : Conn Tables)
      → P c.db
      → Leaves (from_cache o s f k cache) c (λ c'. P c'.db) (λ _ c'. P c'.db)
  unfolding from_cache
  from_cache-kept (some a) s f k cache c h = Leaves-pure _ h
  from_cache-kept none s f k cache c h = past_query s (f k) h (λ a q. Leaves-pure _ h)

  pub enrich_periods-kept :
      (cs : Cache Course) (ts : Cache TutorSummary) (ks : Cache Class) (ps : List Period)
      (c : Conn Tables)
      → P c.db
      → Leaves (enrich_periods cs ts ks ps) c (λ c'. P c'.db) (λ _ c'. P c'.db)
  unfolding enrich_periods
  enrich_periods-kept cs ts ks [] c h = Leaves-pure [] h
  enrich_periods-kept cs ts ks (p ∷ ps) c h = Leaves-bind (
      Leaves-imp
        (λ x c1 h1. Leaves-bind (
          Leaves-imp
            (λ y c2 h2. Leaves-bind (
              Leaves-imp
                (λ z c3 h3. Leaves-bind (
                  Leaves-imp (λ ds c4 h4. Leaves-pure _ h4)
                    (enrich_periods-kept x.1 y.1 z.1 ps c3 h3)))
                (from_cache-kept (look_up p.class_id ks) _ _ _ ks c2 h2)))
            (from_cache-kept (look_up p.tutor_id ts) _ _ _ ts c1 h1)))
        (from_cache-kept (look_up p.course_id cs) _ _ _ cs c h))
