-- ===== src/Enrollment/Tables.antt =====
-- The statements of internal/repository/postgres/enrollment.go, and those of user.go, class.go,
-- session.go and term.go that the enrollment handlers make, with the constraints of migration 000002
-- on the users. Of a user and of a class the columns that the handlers read or set are kept.
use arc_lms.Prelude.{
  Bool, true, false, ◌&&◌, ◌||◌, ◌==◌, Option, none, some, List, [], ◌∷◌, ◌++◌, find, update_where,
  String, Uuid,
}
use arc_lms.Prelude.Texts.{same_text}
use arc_lms.Clock.{Time}
use arc_lms.Audit.{AuditLog, Role}
use arc_lms.Database.{Db, found, message, Result, ok, err, repo, RepoError, throw}
use arc_lms.Term.{Term}
use arc_lms.Term.Tables.{Session, SessionStatus}
use arc_lms.Term.Service.{is_active}
use arc_lms.Enrollment.{Enrollment}

pub data UserStatus : Type 0 where
  active inactive deactivated pending : UserStatus

pub record User : Type 0 where
  pub id : Uuid
  pub tenant_id : Option Uuid
  pub role : Role
  pub email : String
  pub first_name : String
  pub last_name : String
  pub middle_name : Option String
  pub phone : Option String
  pub status : UserStatus
  pub created_at : Time
  pub updated_at : Time

pub record Class : Type 0 where
  pub id : Uuid
  pub tenant_id : Uuid
  pub session_id : Uuid

pub record Tables : Type 0 where
  pub users : List User
  pub classes : List Class
  pub sessions : List Session
  pub terms : List Term
  pub enrollments : List Enrollment
  pub audit_logs : List AuditLog

-- `GetByID` and `GetByEmail`
abbrev pub get_user : Uuid → Tables → Result User
get_user k s = found (find (λ u. u.id == k) s.users)

abbrev pub get_user_by_email : String → Tables → Result User
get_user_by_email email s = found (find (λ u. same_text u.email email) s.users)

abbrev pub get_class : Uuid → Tables → Result Class
get_class k s = found (find (λ r. r.id == k) s.classes)

abbrev pub get_session : Uuid → Tables → Result Session
get_session k s = found (find (λ r. r.id == k) s.sessions)

abbrev is_active_session : SessionStatus → Bool
is_active_session SessionStatus.active = true
is_active_session _ = false

abbrev pub get_active_session : Uuid → Tables → Result Session
get_active_session tenant_id s =
    found (find (λ r. r.tenant_id == tenant_id && is_active_session r.status) s.sessions)

abbrev pub get_active_term : Uuid → Tables → Result Term
get_active_term session_id s = found (find (λ t. t.session_id == session_id && is_active t) s.terms)

abbrev pub get_enrollment : Uuid → Tables → Result Enrollment
get_enrollment k s = found (find (λ e. e.id == k) s.enrollments)

-- The key, and the one user of an email address.
abbrev insert_user_unless : Option User → User → Tables → Result Tables
insert_user_unless (some row) u s = err (repo RepoError.duplicate_key)
insert_user_unless none u s = ok (record s { users = s.users ++ u ∷ [] })

unfoldable pub insert_user : User → Tables → Result Tables
insert_user u s =
    insert_user_unless (find (λ v. (v.id == u.id) || same_text v.email u.email) s.users) u s

-- `Enroll` where it is handed no transaction.
unfoldable pub enroll_outside_tx : Enrollment → Db Tables Unit
enroll_outside_tx e = throw (message "enroll must be called within a transaction")

-- The columns that `Update` writes, from an enrollment onto the stored row.
abbrev pub write_columns : Enrollment → Enrollment → Enrollment
write_columns e row = record row { status = e.status; notes = e.notes; updated_at = e.updated_at }

abbrev pub update_found : Option Enrollment → Enrollment → Tables → Result Tables
update_found none e s = err (repo RepoError.not_found)
update_found (some row) e s =
    ok (record s { enrollments = update_where (λ r. r.id == e.id) (write_columns e) s.enrollments })

unfoldable pub update_enrollment : Enrollment → Tables → Result Tables
update_enrollment e s = update_found (find (λ r. r.id == e.id) s.enrollments) e s

abbrev pub insert_audit_log : AuditLog → Tables → Result Tables
insert_audit_log a s = ok (record s { audit_logs = s.audit_logs ++ a ∷ [] })
