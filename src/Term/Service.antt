-- ===== src/Term/Service.antt =====
-- `CreateTerm` and `CompleteTerm` of internal/service/term_service.go.
use arc_lms.Prelude.{
  not, Bool, true, false, ◌&&◌, ◌||◌, leb, if◌then◌else◌, List, [], ◌∷◌, length, Option, none, some,
  String, Uuid,
}
use arc_lms.Prelude.Int.{ltb_ℤ}
use arc_lms.Clock.{Time, before, after}
use arc_lms.Audit.{Actor, AuditAction, audit_log}
use arc_lms.Database.{Db, execute, pure, query, failing, attempt, refuse_if, ◌>>=◌, ◌>>◌}
use arc_lms.Term.{Term, TermOrdinal, TermStatus, Holiday}
use arc_lms.Term.Tables.{
  Tables, Session, get_session, get_term, update_term_row, same_ordinal, list_by_session,
  create_outside_tx, insert_audit_log,
}

pub record CreateTermRequest : Type 0 where
  pub ordinal : TermOrdinal
  pub start_date : Time
  pub end_date : Time
  pub holidays : List Holiday
  pub non_instructional_days : List Time
  pub description : Option String

abbrev pub dates_overlap : Time → Time → Time → Time → Bool
dates_overlap start1 end1 start2 end2 = before start1 end2 && after end1 start2

unfoldable pub ordinal_taken : TermOrdinal → List Term → Bool
ordinal_taken o [] = false
ordinal_taken o (t ∷ ts) = same_ordinal t.ordinal o || ordinal_taken o ts

unfoldable pub overlaps_any : Time → Time → List Term → Bool
overlaps_any start end [] = false
overlaps_any start end (t ∷ ts) =
    dates_overlap start end t.start_date t.end_date || overlaps_any start end ts

-- The end is before the start, or equal to it.
abbrev pub ends_too_early : Time → Time → Bool
ends_too_early start end = if ltb_ℤ start end then false else true

-- The term that `CreateTerm` makes, under the key that `uuid.New` gives; the two readings of the clock
-- are apart.
abbrev pub new_term : Uuid → Session → Uuid → CreateTermRequest → Time → Time → Term
new_term id session session_id req created_at updated_at = record {
  id = id;
  tenant_id = session.tenant_id;
  session_id = session_id;
  ordinal = req.ordinal;
  start_date = req.start_date;
  end_date = req.end_date;
  status = TermStatus.draft;
  holidays = req.holidays;
  non_instructional_days = req.non_instructional_days;
  description = req.description;
  created_at = created_at;
  updated_at = updated_at;
  activated_at = none;
  completed_at = none;
}

unfoldable pub log_term : AuditAction → Actor → Uuid → Uuid → Db Tables (Option Unit)
log_term action actor tenant_id id =
    attempt (execute (insert_audit_log (audit_log action actor (some tenant_id) id)))

unfoldable pub create_term : Uuid → Uuid → CreateTermRequest → Actor → Time → Time → Db Tables Term
create_term id session_id req actor created_at updated_at = do
  session ← failing "failed to get session" (query (get_session session_id))
  refuse_if (ends_too_early req.start_date req.end_date) "end date must be after start date"
  existing ← failing "failed to check existing terms" (list_by_session session_id 100)
  refuse_if (ordinal_taken req.ordinal existing) "a term with this ordinal already exists"
  refuse_if (overlaps_any req.start_date req.end_date existing)
      "term dates overlap with existing term (BR-002)"
  refuse_if (leb 3 (length existing)) "session already has 3 terms (BR-001)"
  failing "failed to create term"
      (create_outside_tx (new_term id session session_id req created_at updated_at))
  log_term AuditAction.term_created actor session.tenant_id id
  pure (new_term id session session_id req created_at updated_at)

abbrev is_active_status : TermStatus → Bool
is_active_status TermStatus.active = true
is_active_status _ = false

-- `Complete`
abbrev pub complete : Time → Term → Term
complete now t = record t {
  status = TermStatus.completed;
  completed_at = some now;
  updated_at = now;
}

abbrev pub is_active : Term → Bool
is_active t = is_active_status t.status

unfoldable pub complete_term : Uuid → Actor → Time → Db Tables Term
complete_term id actor now = do
  t ← failing "failed to get term" (query (get_term id))
  refuse_if (not (is_active t)) "only active terms can be completed"
  failing "failed to complete term" (execute (update_term_row (complete now t)))
  log_term AuditAction.term_completed actor t.tenant_id t.id
  pure (complete now t)
