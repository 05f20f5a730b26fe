-- ===== src/Enrollment/Failing.antt =====
-- How `EnrollStudent` and `CreateAndEnrollStudent` of internal/service/enrollment_service.go end.
use arc_lms.Prelude.{
  ◌+◌, ◌≡◌, refl, ◌∙◌, ◌⊎◌, inl, inr, arith, [], ◌∷◌, ◌++◌, Option, none, some, String, Uuid,
}
use arc_lms.Clock.{Time}
use arc_lms.Audit.{Actor, AuditAction, AuditLog}
use arc_lms.Database.{Conn, Db, Error, ok, err, throw, failing, ◌>>=◌}
use arc_lms.Database.Leaves.{
  Leaves, Leaves-bind, Leaves-failing, Leaves-attempt, Leaves-execute, Leaves-err,
}
use arc_lms.Database.Leaves.Tx.{Leaves-attempt_query, past_query, past_refuse_if}
use arc_lms.Enrollment.{Enrollment}
use arc_lms.Enrollment.Tables.{Tables, User, insert_user, enroll_outside_tx, insert_audit_log}
use arc_lms.Enrollment.Service.{
  EnrollStudentRequest, CreateAndEnrollStudentRequest, new_student, log_enrollment, enroll_student,
  create_and_enroll_student, after_email,
}

never_stored :
    {B : Type 0} (s : String) (e : Enrollment) (g : Unit → Db Tables B) {c : Conn Tables}
    {P : Conn Tables → Type 0} {Q : B → Conn Tables → Type 0}
    → P c
    → Leaves (failing s (enroll_outside_tx e) >>= g) c P Q
unfolding enroll_outside_tx throw
never_stored s e g p = Leaves-bind (Leaves-failing s (record { at = p }))

pub enroll_student-Leaves :
    (tenant_id : Uuid) (req : EnrollStudentRequest) (actor : Actor) (now : Time) (c : Conn Tables)
    → Leaves (enroll_student tenant_id req actor now) c (λ c'. c'.db ≡ c.db) (λ _ _. ⊥)
unfolding enroll_student
enroll_student-Leaves tenant_id req actor now c = past_query _ _ refl (λ student q1.
    past_refuse_if _ _ refl (λ g1. past_refuse_if _ _ refl (λ g2. past_query _ _ refl (λ class q2.
      past_refuse_if _ _ refl (λ g3.
        past_query _ _ refl
          (λ session q3. past_refuse_if _ _ refl (λ g4. never_stored _ _ _ refl)))))))

-- The tables are as before, or have one more user beside audit entries.
abbrev pub Left : User → Tables → Tables → Type 0
Left u s s' =
    (s'.enrollments ≡ s.enrollments) × ((s'.users ≡ s.users) ⊎ (s'.users ≡ s.users ++ u ∷ []))

insert_user-Left : (u : User) (s s' : Tables) → insert_user u s ≡ ok s' → Left u s s'
unfolding insert_user
insert_user-Left u s s' h = (ground arith, inr (ground arith))

Left-same :
    (u : User) (s s1 s2 : Tables)
    → Left u s s1
    → s2.users ≡ s1.users
    → s2.enrollments ≡ s1.enrollments
    → Left u s s2
Left-same u s s1 s2 (e, inl k) h l = (l ∙ e, inl (h ∙ k))
Left-same u s s1 s2 (e, inr k) h l = (l ∙ e, inr (h ∙ k))

insert_audit_log-ok :
    (a : AuditLog) (s s' : Tables)
    → insert_audit_log a s ≡ ok s'
    → (s'.users ≡ s.users) × (s'.enrollments ≡ s.enrollments)
insert_audit_log-ok a s s' h = (cc, cc)

-- What follows an entry of the audit log, which is added or is not.
pub past_log :
    {B : Type 0} (a : AuditAction) (actor : Actor) (t k : Uuid) {g : Option Unit → Db Tables B}
    {c : Conn Tables} {P : Conn Tables → Type 0} {Q : B → Conn Tables → Type 0}
    → ((o : Option Unit) (c' : Conn Tables)
        → c'.db.users ≡ c.db.users
        → c'.db.enrollments ≡ c.db.enrollments
        → Leaves (g o) c' P Q)
    → Leaves (log_enrollment a actor t k >>= g) c P Q
unfolding log_enrollment
past_log a actor t k {c = c} h = Leaves-bind (
    Leaves-attempt (
      Leaves-execute _ (h none _ refl refl)
        (λ s w. let (u, e) = insert_audit_log-ok _ c.db s w in h (some tt) _ u e)))

pub create_and_enroll-Leaves :
    (tenant_id : Uuid) (req : CreateAndEnrollStudentRequest) (actor : Actor) (student_id id : Uuid)
    (now : Time) (c : Conn Tables)
    → Leaves
        (create_and_enroll_student tenant_id req actor student_id id now)
        c
        (λ c'. Left (new_student student_id tenant_id req now) c.db c'.db)
        (λ _ _. ⊥)
unfolding create_and_enroll_student after_email
create_and_enroll-Leaves tenant_id req actor student_id id now c =
    let u = new_student student_id tenant_id req now in
    let same : Left u c.db c.db = (refl, inl refl) in
    let go : (o : Option User)
        → Leaves (after_email o tenant_id req actor student_id id now)
            (record c { calls = c.calls + 1 }) (λ c'. Left u c.db c'.db) (λ _ _. ⊥) =
      λ o. past_refuse_if _ _ same (λ g1. past_query _ _ same (λ class q2.
        past_refuse_if _ _ same (λ g3. past_query _ _ same (λ session q4.
          past_query _ _ same (λ term q5. Leaves-bind (
            Leaves-failing _ (
              Leaves-execute _ same (λ s w. past_log _ actor tenant_id student_id (λ l c2 k e.
                never_stored _ _ _
                  (Left-same u c.db s c2.db (insert_user-Left u c.db s w) k e)))))))))) in
    Leaves-bind (Leaves-attempt_query _ (λ f. go none) (λ f. go _))

-- An action that returns an error, with what it leaves.
abbrev pub Fails : {A : Type 0} → Db Tables A → Conn Tables → (Tables → Type 0) → Type 0
Fails m c P = (e : Error) × ((m c).0 ≡ err e) × P (m c).1.db

-- Whatever the tables hold and whichever statements fail, no student is enrolled: EnrollStudent
-- returns an error and leaves every table as it was, and CreateAndEnrollStudent returns an error and
-- leaves the enrollments as they were, and the users as they were or with the new student added.
pub no_student_is_enrolled :
    (tenant_id : Uuid) (req : EnrollStudentRequest) (req' : CreateAndEnrollStudentRequest)
    (actor : Actor) (student_id id : Uuid) (now : Time) (c : Conn Tables)
    → Fails (enroll_student tenant_id req actor now) c (λ s. s ≡ c.db)
      × Fails
          (create_and_enroll_student tenant_id req' actor student_id id now)
          c
          (Left (new_student student_id tenant_id req' now) c.db)
no_student_is_enrolled tenant_id req req' actor student_id id now c = (
  Leaves-err _ c (λ c'. c'.db ≡ c.db) (enroll_student-Leaves tenant_id req actor now c),
  Leaves-err _ c (λ c'. Left (new_student student_id tenant_id req' now) c.db c'.db)
      (create_and_enroll-Leaves tenant_id req' actor student_id id now c),
)
