-- ===== src/Term/HistoryTests.antt =====
-- A draft term through the handlers of internal/service/term_service.go.
use arc_lms.Prelude.{◌≡◌, refl, false, none, some, List, [], ◌∷◌, map, Uuid}
use arc_lms.Prelude.Int.{pos}
use arc_lms.Clock.{Time}
use arc_lms.Audit.{Actor, Role}
use arc_lms.Database.{Conn, ok, execute, attempt, pure, query, failing, refuse_if, ◌>>=◌}
use arc_lms.Term.{Term, TermOrdinal, TermStatus}
use arc_lms.Term.Tables.{Tables, is_taken, list_by_session, update_term_row, delete_term_row}
use arc_lms.Term.Service.{log_term}
use arc_lms.Term.Handlers.{Invoicing, activate, update_term, delete_term, activate_term}
use arc_lms.Term.Statuses.{AllWere}
use arc_lms.Database.Requests.{Request, run_all}
use arc_lms.Term.History.{Call, run_requests, run_requests-AllWere}

abbrev draft_term : Term
draft_term = record {
  id = 1;
  tenant_id = 2;
  session_id = 3;
  ordinal = TermOrdinal.first;
  start_date = pos 100;
  end_date = pos 200;
  status = TermStatus.draft;
  holidays = [];
  non_instructional_days = [];
  description = none;
  created_at = pos 0;
  updated_at = pos 0;
  activated_at = none;
  completed_at = none;
}

abbrev second_term : Term
second_term = record draft_term {
  id = 4;
  ordinal = TermOrdinal.second;
  start_date = pos 200;
  end_date = pos 300;
}

abbrev calendar : Tables
calendar = record { sessions = []; terms = draft_term ∷ second_term ∷ []; audit_logs = [] }

abbrev connection : Conn Tables
connection = record {
  db = calendar;
  tx = calendar;
  aborted = false;
  faults = λ n. false;
  calls = 0;
}

abbrev admin : Actor
admin = record { id = 9; role = Role.admin; ip_address = "10.0.0.1" }

-- A service without billing.
abbrev no_billing : Invoicing
unfolding pure
no_billing = record { bill = λ t actor. pure tt; keeps = λ t actor c. refl }

abbrev by_admin : Call → Request Call
by_admin k = record { actor = admin; call = k; faults = λ n. false }

abbrev year : List (Request Call)
year =
    by_admin (Call.activate 1 (pos 110))
    ∷ by_admin (
        Call.update 4
          (record {
            start_date = some (pos 210);
            end_date = none;
            holidays = none;
            non_instructional_days = none;
            description = some "after the break";
          })
          (pos 120))
    ∷ by_admin (Call.delete 1)
    ∷ []

-- The answer says that the term is active; the row is a draft, and can be deleted.
activate_term-ok :
    (activate_term no_billing 1 admin (pos 110) connection).0 ≡ ok (activate (pos 110) draft_term)
unfolding activate_term log_term update_term_row is_taken execute attempt pure query failing
    refuse_if ◌>>=◌
activate_term-ok = refl

abbrev summary : Term → Uuid × TermStatus × Time
summary t = (t.id, t.status, t.start_date)

terms-run_requests :
    map summary (run_requests no_billing year calendar).terms ≡ (4, TermStatus.draft, pos 210) ∷ []
unfolding run_all activate_term update_term delete_term log_term list_by_session update_term_row
    delete_term_row is_taken execute attempt pure query failing refuse_if ◌>>=◌
terms-run_requests = refl

run_requests-AllWere_example : AllWere calendar.terms (run_requests no_billing year calendar).terms
run_requests-AllWere_example = run_requests-AllWere no_billing year calendar
