-- ===== src/Term/History.antt =====
-- Requests to internal/service/term_service.go, one after the other.
use arc_lms.Prelude.{List, subst, sym, Uuid}
use arc_lms.Clock.{Time}
use arc_lms.Audit.{Actor}
use arc_lms.Database.{Conn}
use arc_lms.Database.Requests.{Request, connect, run_all, run_all-related}
use arc_lms.Term.Tables.{Tables}
use arc_lms.Term.Service.{CreateTermRequest, create_term, complete_term}
use arc_lms.Term.Creation.{create_term_always_fails}
use arc_lms.Term.Handlers.{UpdateTermRequest, Invoicing, update_term, delete_term, activate_term}
use arc_lms.Term.Statuses.{
  AllWere, AllWere-refl, AllWere-trans, update_term-Kept, delete_term-Kept, complete_term-Kept,
  activate_term-Kept,
}

-- A call, with what `uuid.New` and `time.Now` give during it.
pub data Call : Type 0 where
  create : Uuid → Uuid → CreateTermRequest → Time → Time → Call
  update : Uuid → UpdateTermRequest → Time → Call
  delete : Uuid → Call
  activate complete : Uuid → Time → Call

-- The tables after a call, whether it succeeds or fails.
abbrev pub run_call : Invoicing → Actor → Call → Conn Tables → Tables
run_call i actor (Call.create id k req t u) c = (create_term id k req actor t u c).1.db
run_call i actor (Call.update id req now) c = (update_term id req actor now c).1.db
run_call i actor (Call.delete id) c = (delete_term id actor c).1.db
run_call i actor (Call.activate id now) c = (activate_term i id actor now c).1.db
run_call i actor (Call.complete id now) c = (complete_term id actor now c).1.db

abbrev pub run_requests : Invoicing → List (Request Call) → Tables → Tables
run_requests i = run_all (run_call i)

call-AllWere :
    (i : Invoicing) (actor : Actor) (k : Call) (c : Conn Tables)
    → AllWere c.db.terms (run_call i actor k c).terms
call-AllWere i actor (Call.create id k req t u) c =
    let (e, q, same) = create_term_always_fails id k req actor t u c in
    subst (λ s. AllWere c.db.terms s.terms) (sym same) (AllWere-refl c.db.terms)
call-AllWere i actor (Call.update id req now) c = update_term-Kept id req actor now c
call-AllWere i actor (Call.delete id) c = delete_term-Kept id actor c
call-AllWere i actor (Call.activate id now) c = activate_term-Kept i id actor now c
call-AllWere i actor (Call.complete id now) c = complete_term-Kept id actor now c

-- Whatever billing does that leaves the terms alone, after any requests, each failed or not, every
-- stored term was stored before them with the same status: no term is added, activated or completed.
pub run_requests-AllWere :
    (i : Invoicing) (rs : List (Request Call)) (s : Tables)
    → AllWere s.terms (run_requests i rs s).terms
run_requests-AllWere i =
    run_all-related (run_call i) (λ s t. AllWere s.terms t.terms) (λ s. AllWere-refl s.terms)
      (λ s t u. AllWere-trans _ _ _) (λ actor k faults s. call-AllWere i actor k (connect faults s))
