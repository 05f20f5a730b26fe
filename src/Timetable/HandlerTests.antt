-- ===== src/Timetable/HandlerTests.antt =====
-- A school with one class, one term and one course through the timetable handlers of
-- internal/service/timetable_service.go.
use arc_lms.Audit.{Actor, Role}
use arc_lms.Prelude.{ℕ, ◌+◌, ◌≡◌, refl, false, ◌==◌, none, some, List, [], ◌∷◌, map, Uuid}
use arc_lms.Prelude.Int.{pos, negsuc, wrap64, ◌+ℤ◌}
use arc_lms.Clock.{minutes, minute_of_day}
use arc_lms.Database.{
  Conn, execute, tx_execute, tx_query, begin, commit, pure, throw, query, failing, attempt,
  refuse_if, ◌>>=◌,
}
use arc_lms.Period.{DayOfWeek, Period}
use arc_lms.Term.{Term, TermOrdinal, TermStatus}
use arc_lms.Swap.Tables.{double_booked}
use arc_lms.Timetable.Course.{Course, CourseStatus, Timetable, TimetableStatus}
use arc_lms.Timetable.Config.{default_config}
use arc_lms.Timetable.Generate.{
  share, load_schedule, has_conflict, offset, calculate_period_time, period_end_time, offer_course,
  offer_courses, fill_round, fill_day, fill_days, insert_by_tutor, sort_by_tutor, generate_periods,
}
use arc_lms.Timetable.Details.{PeriodWithDetails, from_cache, enrich_periods}
use arc_lms.Timetable.Tables.{
  TutorSummary, Tables, list_by_class, latest, publish_row, archive_row, insert_timetable,
  delete_periods, cancel_pending, active_periods, insert_period,
}
use arc_lms.Timetable.Service.{
  GenerateRequest, Fresh, build_config, retire, create_batch, log_timetable, new_timetable,
  generate_over, generate_and_log, generate_timetable, publish_over, replace_published,
  publish_timetable,
}
use arc_lms.Database.Requests.{Request, run_all}
use arc_lms.Timetable.History.{Call, run_requests, run_requests-OneActive, run_requests-Forward}
use arc_lms.Timetable.Active.{OneActive}
use arc_lms.Timetable.Forward.{Forward}

abbrev term : Term
term = record {
  id = 4;
  tenant_id = 2;
  session_id = 6;
  ordinal = TermOrdinal.first;
  start_date = pos 0;
  end_date = pos 100;
  status = TermStatus.active;
  holidays = [];
  non_instructional_days = [];
  description = none;
  created_at = pos 0;
  updated_at = pos 0;
  activated_at = none;
  completed_at = none;
}

abbrev mathematics : Course
mathematics = record {
  id = 11;
  tenant_id = 2;
  session_id = 6;
  class_id = 3;
  term_id = 4;
  name = "Mathematics";
  subject_code = "MTH";
  description = none;
  assigned_tutor_id = 22;
  status = CourseStatus.active;
  max_periods_per_week = none;
  created_at = pos 0;
  updated_at = pos 0;
}

abbrev tutor : TutorSummary
tutor = record {
  id = 22;
  first_name = "Ngozi";
  last_name = "Eze";
  email = "eze@school.test";
  profile_photo = none;
}

abbrev school : Tables
school = record {
  users = tutor ∷ [];
  classes = record { id = 3; tenant_id = 2 } ∷ [];
  terms = term ∷ [];
  tenants =
      record {
        id = 2;
        configuration = record {
          period_duration = pos 45;
          daily_period_limit = pos 8;
          max_periods_per_week = [];
        };
      }
      ∷ [];
  courses = mathematics ∷ [];
  timetables = [];
  periods = [];
  swap_requests = [];
  audit_logs = [];
}

abbrev admin : Actor
admin = record { id = 5; role = Role.admin; ip_address = "::1" }

-- One period on Mondays.
abbrev request : GenerateRequest
request = record {
  class_id = 3;
  term_id = 4;
  config = some (record {
    periods_per_day = pos 1;
    period_duration_minutes = negsuc 0;
    break_duration_minutes = pos 0;
    start_time = none;
    days = some DayOfWeek.monday ∷ [];
  });
  notes = none;
}

abbrev fresh : Uuid → Uuid → Fresh
fresh id period = record {
  archived_at = pos 7;
  cancelled_at = pos 7;
  timetable_id = id;
  created_at = pos 7;
  periods_at = pos 7;
  period_ids = λ k. k + period;
}

abbrev by_admin : Call → Request Call
by_admin k = record { actor = admin; call = k; faults = λ n. false }

abbrev week : List (Request Call)
week =
    by_admin (Call.generate 2 request (fresh 31 100))
    ∷ by_admin (Call.publish 31 (pos 8) (pos 8))
    ∷ by_admin (Call.generate 2 request (fresh 32 200))
    ∷ by_admin (Call.publish 32 (pos 9) (pos 9))
    ∷ []

abbrev summary : Timetable → Uuid × TimetableStatus × ℕ
summary t = (t.id, t.status, t.generation_version)

-- The first timetable is archived with its period deleted, the second published.
timetables-run_requests :
    map summary (run_requests week school).timetables
    ≡ (31, TimetableStatus.archived, 1) ∷ (32, TimetableStatus.published, 2) ∷ []
unfolding run_all generate_timetable generate_and_log enrich_periods from_cache publish_timetable
    generate_over publish_over replace_published retire create_batch log_timetable build_config
    default_config list_by_class latest publish_row archive_row insert_timetable delete_periods
    cancel_pending active_periods insert_period double_booked execute tx_execute tx_query begin
    commit pure throw query failing attempt refuse_if ◌>>=◌ generate_periods fill_days fill_day
    fill_round offer_courses offer_course has_conflict insert_by_tutor sort_by_tutor load_schedule
    share calculate_period_time period_end_time offset minutes minute_of_day wrap64 ◌+ℤ◌
timetables-run_requests = refl

-- The read of the existing timetable is lost in the second generation: two drafts are left.
abbrev lost_read : List (Request Call)
lost_read =
    by_admin (Call.generate 2 request (fresh 31 100))
    ∷ record (by_admin (Call.generate 2 request (fresh 32 200))) { faults = λ n. n == 6 }
    ∷ []

run_requests-OneActive_example : OneActive (run_requests week school).timetables
run_requests-OneActive_example =
    run_requests-OneActive week school (refl, (refl, (refl, (refl, tt)))) tt

run_requests-Forward_example :
    Forward
      (run_requests week school).timetables
      (run_requests lost_read (run_requests week school)).timetables
run_requests-Forward_example = run_requests-Forward lost_read (run_requests week school)

abbrev connection : Conn Tables
connection = record { db = school; tx = school; aborted = false; faults = λ n. false; calls = 0 }

abbrev monday_period : Period
monday_period = record {
  id = 100;
  tenant_id = 2;
  timetable_id = 31;
  course_id = 11;
  tutor_id = 22;
  class_id = 3;
  day_of_week = DayOfWeek.monday;
  start_time = pos 28800000000000;
  end_time = pos 31500000000000;
  period_number = 1;
  notes = none;
  created_at = pos 7;
  updated_at = pos 7;
}

abbrev detailed : PeriodWithDetails
detailed = record {
  period = monday_period;
  course = mathematics;
  tutor = tutor;
  class = record { id = 3; tenant_id = 2 };
}

abbrev first_draft : Timetable
first_draft = new_timetable 31 2 request 5 1 (pos 7)
