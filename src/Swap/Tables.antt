-- ===== src/Swap/Tables.antt =====
-- The statements of internal/repository/postgres/swap_request.go, of `Get` and `SwapPeriods` in
-- period.go and of `Create` in audit.go, with the constraints that migrations 000007 and 000017 put
-- on the tables.
use arc_lms.Prelude.{
  ℕ, Bool, false, ◌&&◌, ◌||◌, not, ltb, ◌==◌, if◌then◌else◌, Option, none, some, List, [], ◌∷◌,
  ◌++◌, find, update_where, Uuid,
}
use arc_lms.Clock.{Time, minute_of_day}
use arc_lms.Period.{Period, same_day}
use arc_lms.Audit.{AuditLog}
use arc_lms.Database.{found, found, RepoError, Result, ok, err, repo}
use arc_lms.Swap.Request.{SwapRequest, is_pending}

pub record Tables : Type 0 where
  pub periods : List Period
  pub swap_requests : List SwapRequest
  pub audit_logs : List AuditLog

abbrev pub get_period : Uuid → Tables → Result Period
get_period k s = found (find (λ p. p.id == k) s.periods)

abbrev pub get_swap_request : Uuid → Tables → Result SwapRequest
get_swap_request k s = found (find (λ r. r.id == k) s.swap_requests)

-- The `&&` of two `int4range` values from the minutes of two periods; an empty range overlaps none.
abbrev pub ranges_overlap : ℕ → ℕ → ℕ → ℕ → Bool
ranges_overlap a b c d = ltb a b && ltb c d && ltb a d && ltb c b

-- exclude_periods_tutor_double_booking
abbrev pub excludes : Period → Period → Bool
excludes p q =
    p.tenant_id == q.tenant_id
    && p.tutor_id == q.tutor_id
    && same_day p.day_of_week q.day_of_week
    && ranges_overlap (minute_of_day p.start_time) (minute_of_day p.end_time)
        (minute_of_day q.start_time) (minute_of_day q.end_time)

-- Whether another row excludes this one.
unfoldable pub double_booked : Period → List Period → Bool
double_booked p [] = false
double_booked p (q ∷ qs) = (not (q.id == p.id) && excludes p q) || double_booked p qs

abbrev pub assign : Uuid → Uuid → Time → Period → Period
assign tutor_id course_id now p = record p {
  tutor_id = tutor_id;
  course_id = course_id;
  updated_at = now;
}

-- `UPDATE periods SET tutor_id = $2, course_id = $3, updated_at = $4 WHERE id = $1`, which is no
-- error where no row has the key.
abbrev pub assign_row : Uuid → (Period → Period) → Tables → Option Period → Result Tables
assign_row k f s none = ok s
assign_row k f s (some p) =
    if double_booked (f p) s.periods
    then err (repo RepoError.exclusion_violation)
    else ok (record s { periods = update_where (λ q. q.id == k) f s.periods })

unfoldable pub assign_period : Uuid → Uuid → Uuid → Time → Tables → Result Tables
assign_period k tutor_id course_id now s =
    assign_row k (assign tutor_id course_id now) s (find (λ q. q.id == k) s.periods)

-- The columns that `Update` of swap_request.go writes.
abbrev pub write_columns : SwapRequest → SwapRequest → SwapRequest
write_columns r row = record row {
  status = r.status;
  rejection_reason = r.rejection_reason;
  escalation_reason = r.escalation_reason;
  admin_override_reason = r.admin_override_reason;
  admin_override_by = r.admin_override_by;
  responded_at = r.responded_at;
  escalated_at = r.escalated_at;
  updated_at = r.updated_at;
}

abbrev pub update_row : SwapRequest → Tables → Option SwapRequest → Result Tables
update_row r s none = err (repo RepoError.not_found)
update_row r s (some row) = ok (record s {
  swap_requests = update_where (λ q. q.id == r.id) (write_columns r) s.swap_requests;
})

unfoldable pub update_swap_request : SwapRequest → Tables → Result Tables
update_swap_request r s = update_row r s (find (λ q. q.id == r.id) s.swap_requests)

abbrev pub insert_unless : Option SwapRequest → SwapRequest → Tables → Result Tables
insert_unless (some row) r s = err (repo RepoError.duplicate_key)
insert_unless none r s =
    if (r.requesting_period_id == r.target_period_id)
      || (r.requesting_tutor_id == r.target_tutor_id)
    then err (repo RepoError.check_violation)
    else ok (record s { swap_requests = s.swap_requests ++ r ∷ [] })

-- `Create` of swap_request.go. The keys it refers to are those of rows that were just read.
unfoldable pub insert_swap_request : SwapRequest → Tables → Result Tables
insert_swap_request r s = insert_unless (find (λ q. q.id == r.id) s.swap_requests) r s

-- Whether a request is for two periods, in either order.
abbrev pub is_between : Uuid → Uuid → SwapRequest → Bool
is_between k l r =
    (r.requesting_period_id == k && r.target_period_id == l)
    || (r.requesting_period_id == l && r.target_period_id == k)

abbrev pub pending_between : Uuid → Uuid → List SwapRequest → Bool
pending_between k l [] = false
pending_between k l (r ∷ rs) = (is_pending r && is_between k l r) || pending_between k l rs

unfoldable pub has_pending_request : Uuid → Uuid → Tables → Result Bool
has_pending_request k l s = ok (pending_between k l s.swap_requests)

abbrev pub insert_audit_log : AuditLog → Tables → Result Tables
insert_audit_log a s = ok (record s { audit_logs = s.audit_logs ++ a ∷ [] })
