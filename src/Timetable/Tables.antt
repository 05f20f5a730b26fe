-- ===== src/Timetable/Tables.antt =====
-- The statements of internal/repository/postgres/timetable.go, and those of class.go, term.go,
-- tenant.go, course.go, period.go and swap_request.go that the timetable handlers make, with the
-- constraints of migrations 000007 and 000017. Of a user, a class and a tenant the columns that the
-- handlers read are kept.
use arc_lms.Prelude.{
  ℕ, ◌-◌, ◌%◌, Bool, false, ◌&&◌, ◌||◌, not, none, some, update_where, ltb, leb, ◌==◌,
  if◌then◌else◌, List, [], ◌∷◌, ◌++◌, length, take, select, find, String, Option, Uuid,
}
use arc_lms.Prelude.Int.{ℤ, pos, negsuc}
use arc_lms.Clock.{Time, day}
use arc_lms.Audit.{AuditLog}
use arc_lms.Database.{found, Result, ok, err, repo, RepoError, Db, query, ◌>>=◌}
use arc_lms.Term.{Term}
use arc_lms.Period.{Period}
use arc_lms.Swap.Request.{SwapRequest, SwapRequestStatus, is_pending}
use arc_lms.Swap.Tables.{double_booked}
use arc_lms.Timetable.Course.{
  Course, Timetable, is_draft, is_published, is_archived, publish, archive,
}

pub record Class : Type 0 where
  pub id : Uuid
  pub tenant_id : Uuid

pub record TenantConfiguration : Type 0 where
  pub period_duration : ℤ
  pub daily_period_limit : ℤ
  pub max_periods_per_week : List (String × ℤ)

pub record Tenant : Type 0 where
  pub id : Uuid
  pub configuration : TenantConfiguration

pub record TutorSummary : Type 0 where
  pub id : Uuid
  pub first_name : String
  pub last_name : String
  pub email : String
  pub profile_photo : Option String

pub record Tables : Type 0 where
  pub users : List TutorSummary
  pub classes : List Class
  pub terms : List Term
  pub tenants : List Tenant
  pub courses : List Course
  pub timetables : List Timetable
  pub periods : List Period
  pub swap_requests : List SwapRequest
  pub audit_logs : List AuditLog

abbrev pub get_class : Uuid → Tables → Result Class
get_class k s = found (find (λ r. r.id == k) s.classes)

abbrev pub get_term : Uuid → Tables → Result Term
get_term k s = found (find (λ r. r.id == k) s.terms)

abbrev pub get_tenant : Uuid → Tables → Result Tenant
get_tenant k s = found (find (λ r. r.id == k) s.tenants)

abbrev pub get_course : Uuid → Tables → Result Course
get_course k s = found (find (λ r. r.id == k) s.courses)

-- `GetByID` of user.go, with the columns that a summary shows.
abbrev pub get_tutor : Uuid → Tables → Result TutorSummary
get_tutor k s = found (find (λ r. r.id == k) s.users)

abbrev pub get_timetable : Uuid → Tables → Result Timetable
get_timetable k s = found (find (λ r. r.id == k) s.timetables)

abbrev pub courses_of : Uuid → Tables → List Course
courses_of class_id s = select (λ c. c.class_id == class_id) s.courses

abbrev insert_desc : Course → List Course → List Course
insert_desc c [] = c ∷ []
insert_desc c (d ∷ ds) =
    let rest = insert_desc c ds in if ltb c.id d.id then d ∷ rest else c ∷ d ∷ ds

-- `ORDER BY id DESC`
abbrev sort_desc : List Course → List Course
sort_desc [] = []
sort_desc (c ∷ cs) = insert_desc c (sort_desc cs)

-- The first page of the courses of a class: their number is read and dropped by the caller.
unfoldable pub list_by_class : Uuid → ℕ → Db Tables (List Course)
list_by_class class_id limit = do
  total ← query (λ s. ok (length (courses_of class_id s)))
  query (λ s. ok (take limit (sort_desc (courses_of class_id s))))

-- `class_id = $1 AND term_id = $2`
abbrev pub is_for : Uuid → Uuid → Timetable → Bool
is_for class_id term_id t = t.class_id == class_id && t.term_id == term_id

abbrev newer : Timetable → Option Timetable → Option Timetable
newer t none = some t
newer t (some u) = if ltb t.generation_version u.generation_version then some u else some t

-- `ORDER BY generation_version DESC LIMIT 1`, which may give any of several rows of one version.
unfoldable pub latest : List Timetable → Option Timetable
latest [] = none
latest (t ∷ ts) = newer t (latest ts)

-- `GetPublishedTimetable`
abbrev pub get_published : Uuid → Uuid → Tables → Result Timetable
get_published class_id term_id s =
    found (latest (select (λ t. is_for class_id term_id t && is_published t) s.timetables))

-- A timetable of the class and the term that is not archived.
abbrev pub is_active_for : Uuid → Uuid → Timetable → Bool
is_active_for class_id term_id t = is_for class_id term_id t && not (is_archived t)

-- `GetByClassAndTerm`
abbrev pub get_active : Uuid → Uuid → Tables → Result Timetable
get_active class_id term_id s =
    found (latest (select (is_active_for class_id term_id) s.timetables))

-- The update of the rows, where the search found one of them.
abbrev pub update_rows :
    Option Timetable → (Timetable → Bool) → (Timetable → Timetable) → Tables → Result Tables
update_rows none p f s = err (repo RepoError.not_found)
update_rows (some t) p f s = ok (record s { timetables = update_where p f s.timetables })

-- `UPDATE timetables SET … WHERE …`, which asks whether any row was affected.
abbrev pub update_timetables : (Timetable → Bool) → (Timetable → Timetable) → Tables → Result Tables
update_timetables p f s = update_rows (find p s.timetables) p f s

abbrev pub is_draft_of : Uuid → Timetable → Bool
is_draft_of k t = t.id == k && is_draft t

unfoldable pub publish_row : Uuid → Uuid → Time → Tables → Result Tables
publish_row k by now s = update_timetables (is_draft_of k) (publish now by) s

unfoldable pub archive_row : Uuid → Time → Tables → Result Tables
archive_row k now s = update_timetables (λ t. t.id == k) (archive now) s

-- The check on `generation_version`, and the key.
abbrev insert_unless : Option Timetable → Timetable → Tables → Result Tables
insert_unless (some row) t s = err (repo RepoError.duplicate_key)
insert_unless none t s =
    if leb 1 t.generation_version
    then ok (record s { timetables = s.timetables ++ t ∷ [] })
    else err (repo RepoError.check_violation)

unfoldable pub insert_timetable : Timetable → Tables → Result Tables
insert_timetable t s = insert_unless (find (λ u. u.id == t.id) s.timetables) t s

-- Whether a row with the key is a period of the timetable.
abbrev pub is_period_of : Uuid → List Period → Uuid → Bool
is_period_of k [] id = false
is_period_of k (p ∷ ps) id = (p.timetable_id == k && p.id == id) || is_period_of k ps id

-- A swap request for a period of the timetable.
abbrev pub asks_for : Uuid → List Period → SwapRequest → Bool
asks_for k ps r = is_period_of k ps r.requesting_period_id || is_period_of k ps r.target_period_id

-- `DeleteByTimetable`, whose deletes `ON DELETE CASCADE` carries on to the swap requests.
unfoldable pub delete_periods : Uuid → Tables → Result Tables
delete_periods k s = ok (record s {
  periods = select (λ p. not (p.timetable_id == k)) s.periods;
  swap_requests = select (λ r. not (asks_for k s.periods r)) s.swap_requests;
})

abbrev pub cancel_row : Time → SwapRequest → SwapRequest
cancel_row now r = record r { status = SwapRequestStatus.cancelled; updated_at = now }

-- `CancelPendingByTimetable`
unfoldable pub cancel_pending : Uuid → Time → Tables → Result Tables
cancel_pending k now s = ok (record s {
  swap_requests =
      update_where (λ r. is_pending r && asks_for k s.periods r) (cancel_row now) s.swap_requests;
})

abbrev pub is_active_id : Uuid → List Timetable → Bool
is_active_id k [] = false
is_active_id k (t ∷ ts) = (t.id == k && not (is_archived t)) || is_active_id k ts

abbrev pub member : Uuid → List Uuid → Bool
member k [] = false
member k (l ∷ ls) = k == l || member k ls

-- `ListAllActivePeriodsByTutors`, in the order of the table: the caller only collects the slots.
unfoldable pub active_periods : List Uuid → Uuid → Tables → Result (List Period)
active_periods tutor_ids tenant_id s = ok (
    select
      (λ p.
        member p.tutor_id tutor_ids
        && p.tenant_id == tenant_id
        && is_active_id p.timetable_id s.timetables)
      s.periods)

-- A `TIME`: how far into its day an instant is.
abbrev pub time_of_day : Time → ℕ
time_of_day (pos n) = n % day
time_of_day (negsuc n) = day - 1 - n % day

-- The checks on a row of `periods`.
abbrev pub period_allowed : Period → Bool
period_allowed p =
    leb 1 p.period_number
    && leb p.period_number 15
    && ltb (time_of_day p.start_time) (time_of_day p.end_time)

abbrev insert_period_unless : Option Period → Period → Tables → Result Tables
insert_period_unless (some row) p s = err (repo RepoError.duplicate_key)
insert_period_unless none p s =
    if not (period_allowed p)
    then err (repo RepoError.check_violation)
    else if double_booked p s.periods
    then err (repo RepoError.exclusion_violation)
    else ok (record s { periods = s.periods ++ p ∷ [] })

-- `Create` of period.go. The keys it refers to are those of rows that were just read.
unfoldable pub insert_period : Period → Tables → Result Tables
insert_period p s = insert_period_unless (find (λ q. q.id == p.id) s.periods) p s

abbrev pub insert_audit_log : AuditLog → Tables → Result Tables
insert_audit_log a s = ok (record s { audit_logs = s.audit_logs ++ a ∷ [] })
