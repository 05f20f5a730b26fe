-- ===== src/Billing/Calls.antt =====
-- The calls that change invoices, in internal/service/billing_service.go and the statement of its
-- background job, as one type; and what each may do to an invoice.
use arc_lms.Prelude.{ℕ, false, ◌||◌, ◌≡◌, List, [], ◌∷◌, String, Uuid}
use arc_lms.Clock.{Time}
use arc_lms.Audit.{Actor}
use arc_lms.Database.{Conn, Db, execute, failing, pure, ◌>>=◌}
use arc_lms.Billing.Types.{Invoice, PaymentMethod, is_paid, is_voided, mark_as_paid, dispute, void}
use arc_lms.Billing.Service.{
  Fresh, generate_term_invoice, mark_invoice_as_paid, dispute_invoice, void_invoice,
  apply_billing_adjustment,
}
use arc_lms.Billing.Tables.{Tables, BillingAdjustment, mark_overdue_invoices}

pub data Call : Type 0 where
  generate : Fresh → Uuid → Uuid → Uuid → ℕ → Call
  pay : Uuid → PaymentMethod → String → Time → Call
  dispute_call void_call : Uuid → String → Time → Call
  adjust : BillingAdjustment → Time → Call
  sweep : Time → Call

-- The call, and nothing as its result.
unfoldable pub run_call : Actor → Call → Db Tables Unit
run_call actor (Call.generate f tenant_id term_id session_id n) =
    generate_term_invoice f tenant_id term_id session_id n actor >>= λ _. pure tt
run_call actor (Call.pay k method reference now) =
    mark_invoice_as_paid k method reference actor now >>= λ _. pure tt
run_call actor (Call.dispute_call k why now) = dispute_invoice k why actor now >>= λ _. pure tt
run_call actor (Call.void_call k why now) = void_invoice k why actor now >>= λ _. pure tt
run_call actor (Call.adjust a now) = apply_billing_adjustment a actor now >>= λ _. pure tt
run_call actor (Call.sweep now) =
    failing "failed to mark overdue invoices" (execute (mark_overdue_invoices now))

unfoldable pub run_calls : List (Actor × Call) → Conn Tables → Conn Tables
run_calls [] c = c
run_calls ((actor, k) ∷ ks) c = run_calls ks (run_call actor k c).1

-- What a call may make of an invoice.
pub data Moves (i : Invoice) : Invoice → Type 0 where
  pays :
      (method : PaymentMethod) (reference : String) (now : Time)
      → is_paid i.status ≡ false
      → is_voided i.status ≡ false
      → Moves i (mark_as_paid method reference now i)
  disputes :
      (why : String) (now : Time)
      → (is_paid i.status || is_voided i.status) ≡ false
      → Moves i (dispute why now i)
  voids : (why : String) (now : Time) → is_paid i.status ≡ false → Moves i (void why now i)
