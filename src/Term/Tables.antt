-- ===== src/Term/Tables.antt =====
-- The statements of internal/repository/postgres/term.go on the terms of a session, and of `Get` in
-- session.go.
use arc_lms.Prelude.{
  ℕ, Bool, true, false, ◌&&◌, ◌||◌, not, none, some, update_where, ltb, ◌==◌, if◌then◌else◌, List,
  [], ◌∷◌, ◌++◌, length, take, select, find, String, Option, Uuid,
}
use arc_lms.Clock.{Time}
use arc_lms.Audit.{AuditLog}
use arc_lms.Prelude.Int.{ltb_ℤ}
use arc_lms.Database.{found, Result, ok, err, repo, RepoError, Db, message, query, throw, ◌>>=◌}
use arc_lms.Term.{Term, TermOrdinal, TermStatus}

pub data SessionStatus : Type 0 where
  active archived draft : SessionStatus

pub record Session : Type 0 where
  pub id : Uuid
  pub tenant_id : Uuid
  pub label : String
  pub start_year : ℕ
  pub end_year : ℕ
  pub status : SessionStatus
  pub description : Option String
  pub created_at : Time
  pub updated_at : Time
  pub archived_at : Option Time

pub record Tables : Type 0 where
  pub sessions : List Session
  pub terms : List Term
  pub audit_logs : List AuditLog

abbrev pub get_session : Uuid → Tables → Result Session
get_session k s = found (find (λ r. r.id == k) s.sessions)

abbrev pub terms_of : Uuid → Tables → List Term
terms_of session_id s = select (λ t. t.session_id == session_id) s.terms

abbrev pub insert_desc : Term → List Term → List Term
insert_desc t [] = t ∷ []
insert_desc t (u ∷ us) =
    let rest = insert_desc t us in if ltb t.id u.id then u ∷ rest else t ∷ u ∷ us

-- `ORDER BY id DESC`
abbrev pub sort_desc : List Term → List Term
sort_desc [] = []
sort_desc (t ∷ ts) = insert_desc t (sort_desc ts)

-- The first page of the terms of a session: the number of terms is read and dropped by the callers.
unfoldable pub list_by_session : Uuid → ℕ → Db Tables (List Term)
list_by_session session_id limit = do
  total ← query (λ s. ok (length (terms_of session_id s)))
  query (λ s. ok (take limit (sort_desc (terms_of session_id s))))

-- `Create` where it is handed no transaction.
unfoldable pub create_outside_tx : Term → Db Tables Unit
create_outside_tx t = throw (message "create term must be called within a transaction")

abbrev pub same_ordinal : TermOrdinal → TermOrdinal → Bool
same_ordinal TermOrdinal.first TermOrdinal.first = true
same_ordinal TermOrdinal.second TermOrdinal.second = true
same_ordinal TermOrdinal.third TermOrdinal.third = true
same_ordinal _ _ = false

abbrev pub get_term : Uuid → Tables → Result Term
get_term k s = found (find (λ t. t.id == k) s.terms)

-- chk_terms_date_order and uq_terms_session_ordinal: what a row must satisfy beside the others.
unfoldable pub is_taken : Term → List Term → Bool
is_taken t [] = false
is_taken t (u ∷ us) =
    (not (u.id == t.id) && u.session_id == t.session_id && same_ordinal u.ordinal t.ordinal)
    || is_taken t us

abbrev pub violation : Term → List Term → Option RepoError
violation t ts =
    if ltb_ℤ t.start_date t.end_date
    then if is_taken t ts then some RepoError.duplicate_key else none
    else some RepoError.check_violation

-- The columns of the `UPDATE`, from a term onto the stored row.
abbrev pub write_columns : Term → Term → Term
write_columns t row = record row {
  ordinal = t.ordinal;
  start_date = t.start_date;
  end_date = t.end_date;
  holidays = t.holidays;
  non_instructional_days = t.non_instructional_days;
  description = t.description;
  updated_at = t.updated_at;
}

abbrev pub store_term : Option RepoError → Term → Tables → Result Tables
store_term (some e) t s = err (repo e)
store_term none t s =
    ok (record s { terms = update_where (λ u. u.id == t.id) (write_columns t) s.terms })

abbrev pub update_row : Option Term → Term → Tables → Result Tables
update_row none t s = err (repo RepoError.not_found)
update_row (some row) t s = store_term (violation (write_columns t row) s.terms) t s

-- `Update` where it is handed no transaction: the date range of the term is left as it was.
unfoldable pub update_term_row : Term → Tables → Result Tables
update_term_row t s = update_row (find (λ u. u.id == t.id) s.terms) t s

abbrev is_active_status : TermStatus → Bool
is_active_status TermStatus.active = true
is_active_status _ = false

-- `GetActiveTerm`
abbrev pub get_active_term : Uuid → Tables → Result Term
get_active_term session_id s =
    found (find (λ t. t.session_id == session_id && is_active_status t.status) s.terms)

abbrev pub delete_found : Option Term → Uuid → Tables → Result Tables
delete_found none k s = err (repo RepoError.not_found)
delete_found (some t) k s = ok (record s { terms = select (λ u. not (u.id == k)) s.terms })

-- `Delete`, of the row itself.
unfoldable pub delete_term_row : Uuid → Tables → Result Tables
delete_term_row k s = delete_found (find (λ t. t.id == k) s.terms) k s

abbrev pub insert_audit_log : AuditLog → Tables → Result Tables
insert_audit_log a s = ok (record s { audit_logs = s.audit_logs ++ a ∷ [] })
