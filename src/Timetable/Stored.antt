-- ===== src/Timetable/Stored.antt =====
-- What a successful `GenerateTimetable` of internal/service/timetable_service.go leaves stored.
mod Rows
pub mod Batch
use arc_lms.Audit.{Actor, AuditAction, AuditLog}
use arc_lms.Prelude.{
  sym, ◌⊎◌, inl, inr, ◌==◌, ◌&&◌, ◌||◌, not, if◌then◌else◌, List, ◌∷◌, ◌++◌, Option, some, Uuid,
  select, update_where,
}
use mathlib.Core.List.{append-nil, append_assoc}
use arc_lms.Clock.{Time}
use arc_lms.Database.{Conn, Db, pure, ◌>>=◌}
use arc_lms.Database.Ensures.{Ensures, Ensures-attempt, Ensures-commit, Ensures-tx_execute}
use arc_lms.Database.Ensures.Reads.{Ensures-attempt_tx_query}
use arc_lms.Period.{Period}
use arc_lms.Swap.Request.{SwapRequest, is_pending}
use arc_lms.Timetable.Course.{Course, Timetable, TimetableStatus, archive}
use arc_lms.Timetable.Config.{Config}
use arc_lms.Timetable.Tables.{
  Tables, latest, is_active_for, archive_row, delete_periods, cancel_pending, insert_timetable,
  insert_period, is_period_of, asks_for, cancel_row, update_rows, insert_audit_log,
}
use arc_lms.Timetable.Details.{PeriodWithDetails, periods_of_details}
use arc_lms.Timetable.Stored.Rows.{
  other_periods, other_requests, set_periods, add_periods, add_timetable, without,
  insert_timetable-whole, retire-without, create_batch-append,
}
use arc_lms.Timetable.Regenerate.{retired}
use arc_lms.Timetable.Service.{
  GenerateRequest, Fresh, create_batch, retire, generate_over, next_version, new_timetable,
  log_timetable,
}
use arc_lms.Timetable.Stored.Batch.{Outcome}

abbrev after :
    Uuid
    → GenerateRequest
    → Actor
    → Fresh
    → List Course
    → Config
    → Option Timetable
    → Db Tables (Timetable × List Period)
after tenant_id req actor fresh courses config o =
    generate_over o tenant_id req courses config actor fresh >>= λ x.
    log_timetable AuditAction.timetable_generated actor x.0 >>= λ _. pure (x.0, x.1)

-- The details are for the periods that are stored.
abbrev pub Answered :
    Uuid
    → GenerateRequest
    → Actor
    → Fresh
    → Tables
    → Option Timetable
    → Timetable × List PeriodWithDetails
    → Conn Tables
    → Type 0
Answered tenant_id req actor fresh s o x c =
    Outcome tenant_id req actor fresh s o (x.0, periods_of_details x.1) c
