-- ===== src/Term/Tests.antt =====
-- A term of internal/domain/term.go and some of its days.
use arc_lms.Prelude.{true, false, none, [], ◌∷◌, ◌≡◌, ◌↔◌, refl}
use arc_lms.Prelude.Int.{pos, ◌≤ℤ◌}
use arc_lms.Clock.{Time}
use arc_lms.Term.{
  Term, TermOrdinal, TermStatus, Holiday, weekday, is_holiday, is_non_instructional,
  is_instructional_day,
}
use arc_lms.Audit.{Actor, Role}
use arc_lms.Database.{
  Conn, Error, err, ok, execute, attempt, pure, failing, query, refuse_if, ◌>>=◌,
}
use arc_lms.Term.Tables.{is_taken, update_term_row, Tables, Session, SessionStatus}
use arc_lms.Term.Completion.{statuses, completed_term_is_not_stored}
use arc_lms.Term.Service.{complete, complete_term, log_term, CreateTermRequest, create_term}
use arc_lms.Term.Creation.{create_term_always_fails}
use arc_lms.Term.Instruction.{IsWorkday, IsFreeOfHolidays, IsUnlisted, is_instructional_day_iff}

-- Monday, September 15, 2025, at midnight and at nine o'clock.
abbrev monday : Time
monday = pos 63925113600000000000

abbrev monday_morning : Time
monday_morning = pos 63925146000000000000

abbrev saturday : Time
saturday = pos 63925545600000000000

abbrev independence_day : Holiday
independence_day = record {
  date = pos 63926496000000000000;
  name = "Independence Day";
  description = none;
  is_public = true;
}

-- September 8 to December 12, 2025, without November 3.
abbrev first_term : Term
first_term = record {
  id = 1;
  tenant_id = 2;
  session_id = 3;
  ordinal = TermOrdinal.first;
  start_date = pos 63924508800000000000;
  end_date = pos 63932716800000000000;
  status = TermStatus.active;
  holidays = independence_day ∷ [];
  non_instructional_days = pos 63929347200000000000 ∷ [];
  description = none;
  created_at = pos 63924508800000000000;
  updated_at = pos 63924508800000000000;
  activated_at = none;
  completed_at = none;
}

weekdays : (weekday monday ≡ 1) × (weekday monday_morning ≡ 1) × (weekday saturday ≡ 6)
unfolding weekday
weekdays = (refl, refl, refl)

some_days :
    (is_instructional_day first_term monday_morning ≡ true)
    × (is_instructional_day first_term saturday ≡ false)
    × (is_instructional_day first_term (pos 63926496000000000001) ≡ false)
    × (is_instructional_day first_term (pos 63929347200000000000) ≡ false)
    × (is_instructional_day first_term (pos 63932716800000000001) ≡ false)
unfolding is_instructional_day is_holiday is_non_instructional weekday
some_days = (refl, refl, refl, refl, refl)

is_instructional_day_iff_example : (is_instructional_day first_term monday_morning ≡ true) ↔ (
    (first_term.start_date ≤ℤ monday_morning)
    × (monday_morning ≤ℤ first_term.end_date)
    × IsWorkday monday_morning
    × IsFreeOfHolidays first_term.holidays monday_morning
    × IsUnlisted first_term.non_instructional_days monday_morning)
is_instructional_day_iff_example = is_instructional_day_iff first_term monday_morning

abbrev session : Session
session = record {
  id = 3;
  tenant_id = 2;
  label = "2025/2026";
  start_year = 2025;
  end_year = 2026;
  status = SessionStatus.active;
  description = none;
  created_at = pos 0;
  updated_at = pos 0;
  archived_at = none;
}

-- A session without terms, on a connection that fails no statement.
abbrev connection : Conn Tables
connection = record {
  db = record { sessions = session ∷ []; terms = []; audit_logs = [] };
  tx = record { sessions = []; terms = []; audit_logs = [] };
  aborted = false;
  faults = λ n. false;
  calls = 0;
}

abbrev request : CreateTermRequest
request = record {
  ordinal = TermOrdinal.first;
  start_date = first_term.start_date;
  end_date = first_term.end_date;
  holidays = [];
  non_instructional_days = [];
  description = none;
}

abbrev admin : Actor
admin = record { id = 9; role = Role.admin; ip_address = "10.0.0.1" }

create_term_always_fails_example :
    (e : Error) × ((create_term 1 3 request admin monday monday connection).0 ≡ err e)
    × ((create_term 1 3 request admin monday monday connection).1.db ≡ connection.db)
create_term_always_fails_example =
    create_term_always_fails 1 3 request admin monday monday connection

-- The first term stored beside its session.
abbrev with_term : Conn Tables
with_term = record connection {
  db = record { sessions = session ∷ []; terms = first_term ∷ []; audit_logs = [] };
}

abbrev completed_term : Term
completed_term = complete monday first_term

succeeds : (complete_term 1 admin monday with_term).0 ≡ ok completed_term
unfolding complete_term ◌>>=◌ failing query refuse_if execute attempt pure log_term update_term_row
    is_taken
succeeds = refl

completed_term_is_not_stored_example :
    (completed_term.status ≡ TermStatus.completed)
    × (statuses (complete_term 1 admin monday with_term).1.db.terms ≡ TermStatus.active ∷ [])
completed_term_is_not_stored_example =
    completed_term_is_not_stored 1 admin monday with_term {t = completed_term} succeeds
