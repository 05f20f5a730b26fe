-- ===== src/Term/Handlers.antt =====
-- `UpdateTerm`, `DeleteTerm` and `ActivateTerm` of internal/service/term_service.go.
use arc_lms.Prelude.{
  Bool, true, false, ◌||◌, ◌&&◌, not, ◌==◌, ◌≡◌, List, [], ◌∷◌, Option, none, some, String, Uuid,
}
use arc_lms.Clock.{Time}
use arc_lms.Audit.{Actor, AuditAction}
use arc_lms.Database.{
  Conn, Db, Result, ok, err, repo, RepoError, execute, attempt, pure, query, failing, refuse_if,
  ◌>>=◌, ◌>>◌,
}
use arc_lms.Term.{Term, TermStatus, Holiday}
use arc_lms.Term.Tables.{
  Tables, get_term, get_active_term, update_term_row, delete_term_row, list_by_session,
}
use arc_lms.Term.Service.{is_active, ends_too_early, dates_overlap, log_term}

pub record UpdateTermRequest : Type 0 where
  pub start_date : Option Time
  pub end_date : Option Time
  pub holidays : Option (List Holiday)
  pub non_instructional_days : Option (List Time)
  pub description : Option String

abbrev is_completed_status : TermStatus → Bool
is_completed_status TermStatus.completed = true
is_completed_status _ = false

abbrev pub is_completed : Term → Bool
is_completed t = is_completed_status t.status

-- `if req.X != nil { term.X = *req.X }`
abbrev pub given_or {ℓ} : {A : Type ℓ} → A → Option A → A
given_or old none = old
given_or old (some a) = a

abbrev given_description : Option String → Option String → Option String
given_description old none = old
given_description old (some a) = some a

abbrev pub apply_update : UpdateTermRequest → Time → Term → Term
apply_update req now t = record t {
  start_date = given_or t.start_date req.start_date;
  end_date = given_or t.end_date req.end_date;
  holidays = given_or t.holidays req.holidays;
  non_instructional_days = given_or t.non_instructional_days req.non_instructional_days;
  description = given_description t.description req.description;
  updated_at = now;
}

-- Whether the dates overlap those of another term.
abbrev pub overlaps_other : Term → List Term → Bool
overlaps_other t [] = false
overlaps_other t (u ∷ us) =
    (not (u.id == t.id) && dates_overlap t.start_date t.end_date u.start_date u.end_date)
    || overlaps_other t us

unfoldable pub update_term : Uuid → UpdateTermRequest → Actor → Time → Db Tables Term
update_term id req actor now = do
  t ← failing "failed to get term" (query (get_term id))
  refuse_if (is_active t || is_completed t) "cannot update an active or completed term"
  let t' = apply_update req now t
  refuse_if (ends_too_early t'.start_date t'.end_date) "end date must be after start date"
  existing ← failing "failed to check existing terms" (list_by_session t'.session_id 100)
  refuse_if (overlaps_other t' existing) "term dates overlap with existing term (BR-002)"
  failing "failed to update term" (execute (update_term_row t'))
  log_term AuditAction.term_updated actor t'.tenant_id t'.id
  pure t'

unfoldable pub delete_term : Uuid → Actor → Db Tables Unit
delete_term id actor = do
  t ← failing "failed to get term" (query (get_term id))
  refuse_if (is_active t || is_completed t) "cannot delete an active or completed term"
  failing "failed to delete term" (execute (delete_term_row id))
  log_term AuditAction.term_updated actor t.tenant_id t.id
  pure tt

-- `Activate`
abbrev pub activate : Time → Term → Term
activate now t = record t { status = TermStatus.active; activated_at = some now; updated_at = now }

-- `err != nil && err != repository.ErrNotFound`
abbrev pub or_none {ℓ} : {A : Type ℓ} → Result A → Result (Option A)
or_none (ok a) = ok (some a)
or_none (err (repo RepoError.not_found)) = ok none
or_none (err e) = err e

abbrev pub is_other : Uuid → Option Term → Bool
is_other k none = false
is_other k (some t) = not (t.id == k)

-- What a term's activation asks of billing: the count of the students and `GenerateTermInvoice`, which
-- leave the terms alone.
pub record Invoicing : Type 0 where
  pub bill : Term → Actor → Db Tables Unit
  pub keeps :
      (t : Term) (actor : Actor) (c : Conn Tables) → (bill t actor c).1.db.terms ≡ c.db.terms

-- An error of billing is printed and dropped.
unfoldable pub activate_term : Invoicing → Uuid → Actor → Time → Db Tables Term
activate_term invoicing id actor now = do
  t ← failing "failed to get term" (query (get_term id))
  active ←
      failing "failed to check active term" (query (λ s. or_none (get_active_term t.session_id s)))
  refuse_if (is_other t.id active) "another term is already active for this session"
  let t' = activate now t
  failing "failed to activate term" (execute (update_term_row t'))
  attempt (invoicing.bill t' actor)
  log_term AuditAction.term_activated actor t'.tenant_id t'.id
  pure t'
