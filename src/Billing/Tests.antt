-- ===== src/Billing/Tests.antt =====
-- A school's invoice, through internal/service/billing_service.go.
use arc_lms.Prelude.{◌≡◌, refl, false, none, some, List, [], ◌∷◌, Uuid, All, ◌==◌}
use arc_lms.Prelude.Int.{pos, ◌+ℤ◌, ◌-ℤ◌}
use arc_lms.Audit.{Actor, Role}
use arc_lms.Database.{Conn}
use arc_lms.Billing.Types.{Invoice, InvoiceStatus, PaymentMethod, mark_as_paid}
use arc_lms.Billing.Tables.{Tables, AdjustmentType}
use arc_lms.Billing.Calls.{Call, run_calls}
use arc_lms.Billing.Ledger.{Balanced, lookup, history-Balanced}
use arc_lms.Billing.Paid.{paid_is_final}

abbrev invoice : Uuid → InvoiceStatus → Invoice
invoice id status = record {
  id = id;
  tenant_id = 2;
  subscription_id = 3;
  term_id = 4;
  invoice_number = record { year = 2025; n = 1 };
  status = status;
  subtotal_amount = pos 5000000;
  tax_amount = pos 0;
  discount_amount = pos 0;
  total_amount = pos 5000000;
  student_count = 100;
  due_date = pos 10;
  issued_date = pos 0;
  paid_at = none;
  payment_method = none;
  payment_reference = none;
  billing_email = "office@school.ng";
  created_at = pos 0;
  updated_at = pos 0;
  disputed_at = none;
  dispute_reason = none;
  voided_at = none;
  void_reason = none;
}

abbrev settled : Invoice
settled = mark_as_paid PaymentMethod.card "ref-1" (pos 7) (invoice 40 InvoiceStatus.pending)

-- The third statement fails.
abbrev online : Conn Tables
online = record {
  db = record {
    tenants = record { id = 2; invoice_grace_period = 0; billing_email = "office@school.ng" } ∷ [];
    subscriptions = [];
    invoices =
        settled
        ∷ record (invoice 41 InvoiceStatus.pending) {
          invoice_number = record { year = 2025; n = 2 };
        }
        ∷ [];
    adjustments = [];
    audit_logs = [];
  };
  tx = record {
    tenants = [];
    subscriptions = [];
    invoices = [];
    adjustments = [];
    audit_logs = [];
  };
  aborted = false;
  faults = λ n. n == 2;
  calls = 0;
}

abbrev root : Actor
root = record { id = 1; role = Role.super_admin; ip_address = "10.0.0.1" }

abbrev story : List (Actor × Call)
story =
    (root, Call.void_call 40 "entered twice" (pos 20))
    ∷ (
      root,
      Call.adjust
          (record {
            id = 60;
            tenant_id = 2;
            invoice_id = some 41;
            type = AdjustmentType.discount;
            amount = pos 1000000;
            reason = "sibling discount";
            applied_by = 1;
            created_at = pos 21;
          })
          (pos 21),
    )
    ∷ (root, Call.sweep (pos 22))
    ∷ (root, Call.pay 40 PaymentMethod.manual "ref-2" (pos 23))
    ∷ []

history-Balanced_example : All Balanced (run_calls story online).db.invoices
unfolding ◌+ℤ◌ ◌-ℤ◌
history-Balanced_example =
    history-Balanced story online (record { balance = refl }, (record { balance = refl }, tt))

paid_is_final_example : lookup 40 (run_calls story online).db.invoices ≡ some settled
paid_is_final_example = paid_is_final story online 40 settled refl refl
