-- ===== src/Billing/Tables.antt =====
-- The statements of internal/repository/postgres/invoice.go and subscription.go on invoices and
-- subscriptions, with the constraints of migration 000014.
use arc_lms.Prelude.{
  ℕ, ◌+◌, max, Bool, ◌&&◌, ◌||◌, ◌==◌, if◌then◌else◌, Option, none, some, List, [], ◌∷◌, ◌++◌, find,
  update_where, String, Uuid,
}
use arc_lms.Prelude.Int.{ℤ, pos, ◌+ℤ◌, ◌-ℤ◌, ltb_ℤ}
use arc_lms.Clock.{Time, before}
use arc_lms.Audit.{AuditLog}
use arc_lms.Database.{found, found, RepoError, Result, ok, err, repo}
use arc_lms.Billing.Types.{
  Invoice, InvoiceNumber, InvoiceStatus, Subscription, is_pending, is_overdue,
}

-- The columns of a tenant that billing reads.
pub record Tenant : Type 0 where
  pub id : Uuid
  pub invoice_grace_period : ℕ
  pub billing_email : String

pub data AdjustmentType : Type 0 where
  credit discount charge refund : AdjustmentType

pub record BillingAdjustment : Type 0 where
  pub id : Uuid
  pub tenant_id : Uuid
  pub invoice_id : Option Uuid
  pub type : AdjustmentType
  pub amount : ℤ
  pub reason : String
  pub applied_by : Uuid
  pub created_at : Time

pub record Tables : Type 0 where
  pub tenants : List Tenant
  pub subscriptions : List Subscription
  pub invoices : List Invoice
  pub adjustments : List BillingAdjustment
  pub audit_logs : List AuditLog

abbrev pub get_tenant : Uuid → Tables → Result Tenant
get_tenant k s = found (find (λ t. t.id == k) s.tenants)

abbrev pub get_subscription : Uuid → Tables → Result Subscription
get_subscription k s = found (find (λ r. r.id == k) s.subscriptions)

abbrev pub get_by_tenant_and_session : Uuid → Uuid → Tables → Result Subscription
get_by_tenant_and_session tenant_id session_id s =
    found (find (λ r. r.tenant_id == tenant_id && r.session_id == session_id) s.subscriptions)

abbrev pub get_invoice : Uuid → Tables → Result Invoice
get_invoice k s = found (find (λ i. i.id == k) s.invoices)

-- The primary key, and one subscription for each tenant and session.
abbrev pub insert_subscription_unless : Option Subscription → Subscription → Tables → Result Tables
insert_subscription_unless (some row) r s = err (repo RepoError.duplicate_key)
insert_subscription_unless none r s = ok (record s { subscriptions = s.subscriptions ++ r ∷ [] })

unfoldable pub insert_subscription : Subscription → Tables → Result Tables
insert_subscription r s =
    insert_subscription_unless
      (find (λ q. (q.id == r.id) || (q.tenant_id == r.tenant_id && q.session_id == r.session_id))
        s.subscriptions)
      r s

abbrev pub write_subscription : Subscription → Subscription → Subscription
write_subscription r row = record row {
  status = r.status;
  end_date = r.end_date;
  cancelled_at = r.cancelled_at;
  cancellation_reason = r.cancellation_reason;
  updated_at = r.updated_at;
}

abbrev pub update_subscription_row : Option Subscription → Subscription → Tables → Result Tables
update_subscription_row none r s = err (repo RepoError.not_found)
update_subscription_row (some row) r s = ok (record s {
  subscriptions = update_where (λ q. q.id == r.id) (write_subscription r) s.subscriptions;
})

unfoldable pub update_subscription : Subscription → Tables → Result Tables
update_subscription r s = update_subscription_row (find (λ q. q.id == r.id) s.subscriptions) r s

-- `GetNextInvoiceNumber`: one more than the largest number of the tenant's invoices of the year.
abbrev pub largest_number : Uuid → ℕ → List Invoice → ℕ
largest_number tenant_id year [] = 0
largest_number tenant_id year (i ∷ is) =
    let rest = largest_number tenant_id year is in
    if i.tenant_id == tenant_id && i.invoice_number.year == year
    then max i.invoice_number.n rest
    else rest

unfoldable pub get_next_invoice_number : Uuid → ℕ → Tables → Result ℕ
get_next_invoice_number tenant_id year s = ok (largest_number tenant_id year s.invoices + 1)

abbrev pub same_number : InvoiceNumber → InvoiceNumber → Bool
same_number a b = a.year == b.year && a.n == b.n

-- `Create`: the primary key, and the number, which is unique over all tenants
abbrev pub insert_unless : Option Invoice → Invoice → Tables → Result Tables
insert_unless (some row) i s = err (repo RepoError.duplicate_key)
insert_unless none i s =
    if ltb_ℤ i.subtotal_amount (pos 0) || ltb_ℤ i.total_amount (pos 0)
    then err (repo RepoError.check_violation)
    else ok (record s { invoices = s.invoices ++ i ∷ [] })

unfoldable pub insert_invoice : Invoice → Tables → Result Tables
insert_invoice i s =
    insert_unless
      (find (λ j. (j.id == i.id) || same_number j.invoice_number i.invoice_number) s.invoices) i s

abbrev pub write_columns : Invoice → Invoice → Invoice
write_columns i row = record row {
  status = i.status;
  paid_at = i.paid_at;
  payment_method = i.payment_method;
  payment_reference = i.payment_reference;
  disputed_at = i.disputed_at;
  dispute_reason = i.dispute_reason;
  voided_at = i.voided_at;
  void_reason = i.void_reason;
  updated_at = i.updated_at;
}

abbrev pub update_row : Option Invoice → Invoice → Tables → Result Tables
update_row none i s = err (repo RepoError.not_found)
update_row (some row) i s =
    ok (record s { invoices = update_where (λ j. j.id == i.id) (write_columns i) s.invoices })

unfoldable pub update_invoice : Invoice → Tables → Result Tables
update_invoice i s = update_row (find (λ j. j.id == i.id) s.invoices) i s

-- `ApplyAdjustmentToInvoice`
abbrev pub adjusted : ℤ → Time → Invoice → Invoice
adjusted amount now i = record i {
  discount_amount = i.discount_amount +ℤ amount;
  total_amount = (i.subtotal_amount +ℤ i.tax_amount) -ℤ (i.discount_amount +ℤ amount);
  updated_at = now;
}

abbrev pub adjust_row : Uuid → ℤ → Time → Tables → Option Invoice → Result Tables
adjust_row k amount now s none = err (repo RepoError.not_found)
adjust_row k amount now s (some i) =
    if ltb_ℤ (adjusted amount now i).discount_amount (pos 0)
      || ltb_ℤ (adjusted amount now i).total_amount (pos 0)
    then err (repo RepoError.check_violation)
    else ok (record s {
      invoices =
          update_where (λ j. j.id == k && (is_pending j.status || is_overdue j.status))
            (adjusted amount now) s.invoices;
    })

unfoldable pub apply_adjustment_to_invoice : Uuid → ℤ → Time → Tables → Result Tables
apply_adjustment_to_invoice k amount now s =
    adjust_row k amount now s
      (find (λ j. j.id == k && (is_pending j.status || is_overdue j.status)) s.invoices)

abbrev pub mark_overdue : Time → Invoice → Invoice
mark_overdue now i = record i { status = InvoiceStatus.overdue; updated_at = now }

-- `MarkOverdueInvoices`
unfoldable pub mark_overdue_invoices : Time → Tables → Result Tables
mark_overdue_invoices now s = ok (record s {
  invoices =
      update_where (λ i. is_pending i.status && before i.due_date now) (mark_overdue now)
        s.invoices;
})

abbrev pub insert_audit_log : AuditLog → Tables → Result Tables
insert_audit_log a s = ok (record s { audit_logs = s.audit_logs ++ a ∷ [] })
