-- ===== src/Timetable/Service.antt =====
-- `GenerateTimetable` and `PublishTimetable` of internal/service/timetable_service.go, with the calls
-- of the repositories in their order. A request's start time and its days are given as parsed.
use arc_lms.Prelude.{
  ℕ, suc, ◌+◌, not, Bool, true, false, ◌&&◌, ◌==◌, if◌then◌else◌, List, [], ◌∷◌, map, select,
  Option, none, some, String, Uuid,
}
use arc_lms.Prelude.Int.{ℤ, pos}
use arc_lms.Clock.{Time}
use arc_lms.Audit.{Actor, AuditAction, audit_log}
use arc_lms.Database.{
  Db, Result, ok, err, message, execute, tx_execute, tx_query, begin, commit, pure, throw, query,
  failing, attempt, refuse_if, ◌>>=◌, ◌>>◌,
}
use arc_lms.Period.{Period, DayOfWeek}
use arc_lms.Timetable.Course.{Course, Timetable, TimetableStatus, course_is_active, is_draft}
use arc_lms.Timetable.Config.{Config, default_config}
use arc_lms.Timetable.Generate.{generate_periods}
use arc_lms.Timetable.Details.{PeriodWithDetails, enrich_periods}
use arc_lms.Timetable.Tables.{
  Tables, TenantConfiguration, get_class, get_term, get_tenant, get_timetable, get_published,
  get_active, list_by_class, publish_row, archive_row, insert_timetable, delete_periods,
  cancel_pending, active_periods, insert_period, insert_audit_log,
}

-- `TimetableConfigRequest`: no start time where the text is empty or no layout reads it, and for each
-- name of a day the day that it names.
pub record ConfigRequest : Type 0 where
  pub periods_per_day : ℤ
  pub period_duration_minutes : ℤ
  pub break_duration_minutes : ℤ
  pub start_time : Option Time
  pub days : List (Option DayOfWeek)

pub record GenerateRequest : Type 0 where
  pub class_id : Uuid
  pub term_id : Uuid
  pub config : Option ConfigRequest
  pub notes : Option String

-- `if n > 0 { … = n }`
abbrev pub override : ℕ → ℤ → ℕ
override old (pos (suc n)) = suc n
override old _ = old

abbrev pub value_or {ℓ} : {A : Type ℓ} → A → Option A → A
value_or a none = a
value_or a (some b) = b

abbrev pub list_or {ℓ} : {A : Type ℓ} → List A → List A → List A
list_or old [] = old
list_or old (x ∷ xs) = x ∷ xs

abbrev pub tenant_config : TenantConfiguration → Config → Config
tenant_config t c = record c {
  period_duration = override c.period_duration t.period_duration;
  daily_period_limit = override c.daily_period_limit t.daily_period_limit;
  max_periods_per_week = list_or c.max_periods_per_week t.max_periods_per_week;
}

abbrev pub parse_step : Option DayOfWeek → Result (List DayOfWeek) → Result (List DayOfWeek)
parse_step none r = err (message "invalid day")
parse_step (some d) (ok ds) = ok (d ∷ ds)
parse_step (some d) (err e) = err e

-- `parseDays`
abbrev pub parse_days : List (Option DayOfWeek) → Result (List DayOfWeek)
parse_days [] = ok []
parse_days (o ∷ os) = parse_step o (parse_days os)

abbrev pub request_days : Config → ConfigRequest → Result (List DayOfWeek) → Result Config
request_days c r (err e) = err e
request_days c r (ok ds) = ok (record c {
  daily_period_limit = override c.daily_period_limit r.periods_per_day;
  period_duration = override c.period_duration r.period_duration_minutes;
  break_duration = override c.break_duration r.break_duration_minutes;
  start_time = value_or c.start_time r.start_time;
  instructional_days = list_or c.instructional_days ds;
})

-- The request's own settings, over the tenant's.
abbrev pub request_config : Option ConfigRequest → Config → Result Config
request_config none c = ok c
request_config (some r) c = request_days c r (parse_days r.days)

unfoldable pub build_config : TenantConfiguration → Option ConfigRequest → Result Config
build_config t req = request_config req (tenant_config t default_config)

abbrev pub checked : {A : Type 0} → Result A → Db Tables A
checked (ok a) = pure a
checked (err e) = throw e

abbrev pub is_taught : Uuid → Course → Bool
is_taught term_id c = c.term_id == term_id && course_is_active c.status

abbrev pub is_empty {ℓ} : {A : Type ℓ} → List A → Bool
is_empty [] = true
is_empty (x ∷ xs) = false

-- An existing timetable loses its periods and is archived; its swap requests are cancelled.
unfoldable pub retire : Option Timetable → Time → Time → Db Tables Unit
retire none archived_at now = pure tt
retire (some t) archived_at now = do
  failing "failed to delete existing periods" (tx_execute (delete_periods t.id))
  failing "failed to archive existing timetable" (tx_execute (archive_row t.id archived_at))
  failing "failed to cancel pending swap requests" (tx_execute (cancel_pending t.id now))

abbrev pub next_version : Option Timetable → ℕ
next_version none = 1
next_version (some t) = t.generation_version + 1

abbrev pub new_timetable : Uuid → Uuid → GenerateRequest → Uuid → ℕ → Time → Timetable
new_timetable id tenant_id req actor_id version now = record {
  id = id;
  tenant_id = tenant_id;
  class_id = req.class_id;
  term_id = req.term_id;
  status = TimetableStatus.draft;
  generated_at = now;
  generated_by = actor_id;
  published_at = none;
  published_by = none;
  generation_version = version;
  notes = req.notes;
  created_at = now;
  updated_at = now;
  archived_at = none;
}

-- `CreateBatch`
unfoldable pub create_batch : List Period → Db Tables Unit
create_batch [] = pure tt
create_batch (p ∷ ps) = do tx_execute (insert_period p); create_batch ps

unfoldable pub log_timetable : AuditAction → Actor → Timetable → Db Tables (Option Unit)
log_timetable action actor t =
    attempt (execute (insert_audit_log (audit_log action actor (some t.tenant_id) t.id)))

-- What `uuid.New` and `time.Now` give during the generation, in the order of their use.
pub record Fresh : Type 0 where
  pub archived_at : Time
  pub cancelled_at : Time
  pub timetable_id : Uuid
  pub created_at : Time
  pub periods_at : Time
  pub period_ids : ℕ → Uuid

-- Inside the transaction, over the timetable that was found.
unfoldable pub generate_over :
    Option Timetable
    → Uuid
    → GenerateRequest
    → List Course
    → Config
    → Actor
    → Fresh
    → Db Tables (Timetable × List Period)
generate_over existing tenant_id req courses config actor fresh = do
  retire existing fresh.archived_at fresh.cancelled_at
  let t =
      new_timetable fresh.timetable_id tenant_id req actor.id (next_version existing)
        fresh.created_at
  failing "failed to create timetable" (tx_execute (insert_timetable t))
  booked ← attempt (tx_query (active_periods (map (λ c. c.assigned_tutor_id) courses) tenant_id))
  let ps = generate_periods t courses config (value_or [] booked) fresh.periods_at fresh.period_ids
  failing "failed to create periods" (create_batch ps)
  failing "failed to commit transaction" commit
  pure (t, ps)

-- The existing timetable is read outside of the transaction, and an error of that read is taken for
-- none.
-- The handler up to the entry of the audit log, which follows the commit.
unfoldable pub generate_and_log :
    Uuid → GenerateRequest → Actor → Fresh → Db Tables (Timetable × List Period)
generate_and_log tenant_id req actor fresh = do
  class ← failing "failed to get class" (query (get_class req.class_id))
  refuse_if (not (class.tenant_id == tenant_id)) "class does not belong to tenant"
  term ← failing "failed to get term" (query (get_term req.term_id))
  refuse_if (not (term.tenant_id == tenant_id)) "term does not belong to tenant"
  tenant ← failing "failed to get tenant" (query (get_tenant tenant_id))
  listed ← failing "failed to list courses" (list_by_class req.class_id 100)
  let courses = select (is_taught req.term_id) listed
  refuse_if (is_empty courses) "no active courses found for this class and term"
  config ←
      failing "invalid days configuration" (checked (build_config tenant.configuration req.config))
  failing "failed to begin transaction" begin
  existing ← attempt (query (get_active req.class_id req.term_id))
  (t, ps) ← generate_over existing tenant_id req courses config actor fresh
  log_timetable AuditAction.timetable_generated actor t
  pure (t, ps)

unfoldable pub generate_timetable :
    Uuid → GenerateRequest → Actor → Fresh → Db Tables (Timetable × List PeriodWithDetails)
generate_timetable tenant_id req actor fresh = do
  (t, ps) ← generate_and_log tenant_id req actor fresh
  details ← failing "failed to enrich periods" (enrich_periods [] [] [] ps)
  pure (t, details)

-- The transaction that archives one timetable and publishes another.
unfoldable pub replace_published : Uuid → Uuid → Uuid → Time → Time → Db Tables Unit
replace_published old id by archived_at now = do
  failing "failed to begin transaction" begin
  failing "failed to archive existing timetable" (tx_execute (archive_row old archived_at))
  failing "failed to publish timetable" (tx_execute (publish_row id by now))
  failing "failed to commit transaction" commit

abbrev pub publish_alone : Uuid → Uuid → Time → Db Tables Unit
publish_alone id by now = failing "failed to publish timetable" (execute (publish_row id by now))

unfoldable pub publish_over : Option Timetable → Uuid → Uuid → Time → Time → Db Tables Unit
publish_over none id by archived_at now = publish_alone id by now
publish_over (some t) id by archived_at now =
    if t.id == id then publish_alone id by now else replace_published t.id id by archived_at now

-- An error of the second read is taken for no published timetable.
unfoldable pub publish_timetable : Uuid → Actor → Time → Time → Db Tables Timetable
publish_timetable id actor archived_at now = do
  t ← failing "failed to get timetable" (query (get_timetable id))
  refuse_if (not (is_draft t)) "timetable is not in draft status"
  existing ← attempt (query (get_published t.class_id t.term_id))
  publish_over existing id actor.id archived_at now
  t' ← failing "failed to refresh timetable" (query (get_timetable id))
  log_timetable AuditAction.timetable_published actor t'
  pure t'
