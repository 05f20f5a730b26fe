-- ===== src/Swap/Tests.antt =====
-- A Monday of one class on which two tutors swap their lessons, through the swap handlers of
-- internal/service/timetable_service.go.
use arc_lms.Audit.{Actor, Role}
use arc_lms.Prelude.{ℕ, ◌==◌, ◌≡◌, refl, false, none, some, List, [], ◌∷◌, arith, Uuid}
use arc_lms.Prelude.Int.{pos}
use arc_lms.Clock.{minute_of_day}
use arc_lms.Period.{DayOfWeek, Period}
use arc_lms.Database.{
  Conn, RepoError, repo, wrapped, execute, tx_execute, begin, commit, pure, query, failing, attempt,
  refuse_if, ◌>>=◌,
}
use arc_lms.Database.Runs.{Runs}
use arc_lms.Swap.Request.{SwapRequest, SwapRequestStatus}
use arc_lms.Swap.Request
use arc_lms.Swap.Tables.{Tables, assign_period, double_booked, update_swap_request}
use arc_lms.Swap.Service.{
  log_action, swap_periods, swap_and_store, approve_swap_request, reject_swap_request,
  escalate_swap_request, admin_override_swap_request,
}
use arc_lms.Swap.Calls.{Call, run_call, run_calls}
use arc_lms.Swap.Rows.{lookup}
use arc_lms.Swap.Atomic.{failed_call_changes_nothing}
use arc_lms.Swap.Protocol.{Follows, Reaches, call_permitted, history-Reaches}
use arc_lms.Swap.Unique.{OnePending, history_unique}
use arc_lms.Swap.Exchange.{Exchanged, approve_exchanges}

-- The lesson of a course by a tutor in the n-th forty minutes after eight.
abbrev lesson : Uuid → Uuid → Uuid → ℕ → Period
lesson id course_id tutor_id start_minute = record {
  id = id;
  tenant_id = 2;
  timetable_id = 3;
  course_id = course_id;
  tutor_id = tutor_id;
  class_id = 4;
  day_of_week = DayOfWeek.monday;
  start_time = pos start_minute;
  end_time = pos 0;
  period_number = 1;
  notes = none;
  created_at = pos 0;
  updated_at = pos 0;
}

abbrev maths : Period
maths = record (lesson 10 31 21 0) {
  start_time = pos 28800000000000;
  end_time = pos 31200000000000;
}

abbrev music : Period
music = record (lesson 11 32 22 0) {
  start_time = pos 31200000000000;
  end_time = pos 33600000000000;
}

abbrev asked : SwapRequest
asked = record {
  id = 50;
  tenant_id = 2;
  requesting_period_id = 10;
  target_period_id = 11;
  requesting_tutor_id = 21;
  target_tutor_id = 22;
  status = SwapRequestStatus.pending;
  reason = none;
  rejection_reason = none;
  escalation_reason = none;
  admin_override_reason = none;
  admin_override_by = none;
  created_at = pos 5;
  updated_at = pos 5;
  responded_at = none;
  escalated_at = none;
}

abbrev school : Tables
school = record { periods = maths ∷ music ∷ []; swap_requests = asked ∷ []; audit_logs = [] }

abbrev tutor : Uuid → Actor
tutor id = record { id = id; role = Role.tutor; ip_address = "10.0.0.1" }

abbrev online : Conn Tables
online = record { db = school; tx = school; aborted = false; faults = λ _. false; calls = 0 }

-- The connection breaks at the sixth statement, in the middle of the transaction.
abbrev breaking : Conn Tables
breaking = record online { faults = λ n. n == 5 }

failed_call_changes_nothing_example :
    (run_call (tutor 22) (Call.approve 50 (pos 7) (pos 8)) breaking).1.db ≡ school
unfolding approve_swap_request swap_and_store swap_periods failing query tx_execute begin commit
    refuse_if ◌>>=◌ assign_period double_booked minute_of_day
failed_call_changes_nothing_example =
    failed_call_changes_nothing (tutor 22) (Call.approve 50 (pos 7) (pos 8)) breaking
      (wrapped "failed to swap periods" (repo RepoError.driver_failure)) refl

call_permitted_example :
    (r' : SwapRequest) × (lookup 50
        (run_call (tutor 22) (Call.reject 50 "no" (pos 8)) online).1.db.swap_requests
      ≡ some r')
    × Follows (tutor 22) asked r'
call_permitted_example =
    call_permitted (tutor 22) (Call.reject 50 "no" (pos 8)) online 50 asked refl

abbrev story : List (Actor × Call)
story =
    (tutor 22, Call.reject 50 "no" (pos 8))
    ∷ (tutor 21, Call.escalate 50 "please" (pos 9))
    ∷ (record (tutor 1) { role = Role.admin }, Call.admin_override 50 "fair" (pos 10) (pos 10))
    ∷ []

history-Reaches_example :
    (r' : SwapRequest) × (lookup 50 (run_calls story online).db.swap_requests ≡ some r')
    × Reaches SwapRequestStatus.pending r'.status
history-Reaches_example = history-Reaches story online 50 asked refl

history_unique_example : OnePending (run_calls story online).db.swap_requests
history_unique_example = history_unique story online (tt, tt)

approve_exchanges_example :
    Runs (approve_swap_request 50 (tutor 22) (pos 7) (pos 8)) online (λ r' c'.
      (r' ≡ Request.approve (pos 8) asked)
      × Exchanged asked maths music (pos 7) school.periods c'.db.periods)
unfolding double_booked minute_of_day
approve_exchanges_example =
    approve_exchanges (tutor 22) 50 asked maths music (pos 7) (pos 8) online (λ _. refl) refl refl
      refl
      (record {
        requesting = refl;
        target = refl;
        distinct = omega arith;
        first_free = refl;
        second_free = refl;
      })

-- The story ends in an approval.
ends_approved :
    lookup 50 (run_calls story online).db.swap_requests
    ≡ some (
        Request.admin_override 1 "fair"
          (pos 10)
          (Request.escalate "please" (pos 9) (Request.reject "no" (pos 8) asked)))
unfolding run_calls reject_swap_request escalate_swap_request admin_override_swap_request
    swap_and_store swap_periods failing query tx_execute execute begin commit pure attempt
    log_action refuse_if ◌>>=◌ assign_period update_swap_request double_booked minute_of_day
ends_approved = refl
