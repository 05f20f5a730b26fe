-- ===== src/Term/Creation.antt =====
-- How `CreateTerm` of internal/service/term_service.go ends.
use arc_lms.Audit.{Actor, AuditAction}
use arc_lms.Prelude.{ℕ, List, ◌≡◌, Uuid, inl, inr}
use arc_lms.Clock.{Time}
use arc_lms.Database.{Conn, Error, Result-cases, err, throw, failing}
use arc_lms.Database.Ensures.{
  Ensures, Ensures-bind, Ensures-failing, Ensures-ok, Ensures-query, after_query, after_refuse_if,
}
use arc_lms.Database.Keeps.{
  KeepsDb, IsAtomic, Succeeds, keeps_rules, IsAtomic-failing, IsAtomic-bind, IsAtomic-then,
  IsAtomic-of_KeepsDb, Succeeds-bind, Succeeds-attempt, Succeeds-pure,
}
use arc_lms.Term.{Term}
use arc_lms.Term.Tables.{Tables, list_by_session, create_outside_tx}
use arc_lms.Term.Service.{CreateTermRequest, log_term, create_term}

KeepsDb-list_by_session : (k : Uuid) (n : ℕ) → KeepsDb (list_by_session k n)
unfolding list_by_session
KeepsDb-list_by_session k n = search keeps_rules depth 8

KeepsDb-create_outside_tx : (t : Term) → KeepsDb (create_outside_tx t)
unfolding create_outside_tx
KeepsDb-create_outside_tx t = search keeps_rules depth 8

Succeeds-log_term : (a : AuditAction) (actor : Actor) (t k : Uuid) → Succeeds (log_term a actor t k)
unfolding log_term
Succeeds-log_term a actor t k = search Succeeds-attempt

create_term-IsAtomic :
    (id k : Uuid) (req : CreateTermRequest) (actor : Actor) (now later : Time)
    → IsAtomic (create_term id k req actor now later)
unfolding create_term
create_term-IsAtomic id k req actor now later =
    search
      (
        keeps_rules, KeepsDb-list_by_session, KeepsDb-create_outside_tx, IsAtomic-of_KeepsDb,
        IsAtomic-bind, IsAtomic-then, IsAtomic-failing, Succeeds-log_term, Succeeds-bind,
        Succeeds-pure,
      )
      depth 30

after_list :
    (k : Uuid) (n : ℕ) {c : Conn Tables} {Q : List Term → Conn Tables → Type 0}
    → ((ts : List Term) (c' : Conn Tables) → Q ts c')
    → Ensures (list_by_session k n) c Q
unfolding list_by_session
after_list k n h = Ensures-bind (Ensures-query _ (λ total q. Ensures-query _ (λ ts q'. h ts _)))

never_stored :
    (t : Term) {c : Conn Tables} {Q : Unit → Conn Tables → Type 0}
    → Ensures (failing "failed to create term" (create_outside_tx t)) c Q
unfolding create_outside_tx throw
never_stored t = Ensures-failing "failed to create term" (record { at = tt })

never_ok :
    (id k : Uuid) (req : CreateTermRequest) (actor : Actor) (now later : Time) (c : Conn Tables)
    → Ensures (create_term id k req actor now later) c (λ t c'. ⊥)
unfolding create_term
never_ok id k req actor now later c = after_query _ _ (λ session q. after_refuse_if _ _ (λ q1.
    Ensures-bind (
      Ensures-failing _ (
        after_list k 100 (λ ts c'. after_refuse_if _ _ (λ q2.
          after_refuse_if _ _
            (λ q3. after_refuse_if _ _ (λ q4. Ensures-bind (never_stored _)))))))))

-- Whatever the tables hold and whichever statements fail, `CreateTerm` returns an error and leaves every
-- table as it was: it hands the repository no transaction, which that asks for.
pub create_term_always_fails :
    (id session_id : Uuid) (req : CreateTermRequest) (actor : Actor) (now later : Time)
    (c : Conn Tables)
    → (e : Error) × ((create_term id session_id req actor now later c).0 ≡ err e)
      × ((create_term id session_id req actor now later c).1.db ≡ c.db)
create_term_always_fails id k req actor now later c =
    let m = create_term id k req actor now later in
    elim (Result-cases (m c).0) [
      | inl (t, q) ↦ absurd (Ensures-ok m c (λ t c'. ⊥) (never_ok id k req actor now later c) q)
      | inr (e, q) ↦ (e, q, (create_term-IsAtomic id k req actor now later).at c q)
    ]
