-- ===== src/Billing/Service.antt =====
-- The handlers of internal/service/billing_service.go that change an invoice, of a service that was
-- built with all its repositories.
use arc_lms.Prelude.{
  ℕ, ◌*◌, ◌||◌, ◌==◌, if◌then◌else◌, Option, none, some, [], ◌∷◌, ◌++◌, String, Uuid,
}
use arc_lms.Prelude.Int.{ℤ, pos, wrap64}
use arc_lms.Clock.{Time, add, day}
use arc_lms.Audit.{Actor, AuditAction, audit_log}
use arc_lms.Database.{
  Result, ok, Db, execute, query, failing, attempt, refuse_if, pure, ◌>>=◌, ◌>>◌,
}
use arc_lms.Billing.Types.{
  Invoice, InvoiceNumber, InvoiceStatus, PaymentMethod, Subscription, SubscriptionStatus, is_paid,
  is_voided, subscription_is_overdue, reactivate, mark_as_paid, dispute, void,
}
use arc_lms.Billing.Tables.{
  Tenant, AdjustmentType, BillingAdjustment, Tables, get_tenant, get_subscription,
  get_by_tenant_and_session, get_invoice, insert_subscription, update_subscription,
  get_next_invoice_number, insert_invoice, update_invoice, apply_adjustment_to_invoice,
  insert_audit_log,
}

-- `auditService.LogAction`, whose error the handlers drop.
unfoldable pub log_action : AuditAction → Actor → Uuid → Uuid → Db Tables (Option Unit)
log_action action actor tenant_id k =
    attempt (execute (insert_audit_log (audit_log action actor (some tenant_id) k)))

abbrev pub price_per_student : ℕ
price_per_student = 50000

abbrev pub default_grace_period : ℕ
default_grace_period = 14

abbrev pub new_subscription : Uuid → Uuid → Uuid → Time → Subscription
new_subscription id tenant_id session_id now = record {
  id = id;
  tenant_id = tenant_id;
  session_id = session_id;
  status = SubscriptionStatus.active;
  price_per_student_per_term = price_per_student;
  start_date = now;
  end_date = none;
  cancelled_at = none;
  cancellation_reason = none;
  created_at = now;
  updated_at = now;
}

abbrev pub existing_or_new : Option Subscription → Subscription → Db Tables Subscription
existing_or_new (some r) new = pure r
existing_or_new none new =
    failing "failed to create subscription" (execute (insert_subscription new)) >> pure new

unfoldable pub get_or_create_subscription : Uuid → Uuid → Uuid → Time → Db Tables Subscription
get_or_create_subscription id tenant_id session_id now = do
  r ← attempt (query (get_by_tenant_and_session tenant_id session_id))
  existing_or_new r (new_subscription id tenant_id session_id now)

-- What `uuid.New` and the clock give during one call; `year` and `unix` are the calendar year and
-- the Unix second of `now`.
pub record Fresh : Type 0 where
  pub subscription_id : Uuid
  pub invoice_id : Uuid
  pub now : Time
  pub year : ℕ
  pub fallback : ℕ

abbrev pub number_or : Option ℕ → Fresh → InvoiceNumber
number_or (some n) f = record { year = f.year; n = n }
number_or none f = record { year = f.year; n = f.fallback }

abbrev pub grace_days : ℕ → ℕ
grace_days g = if g == 0 then default_grace_period else g

abbrev pub new_invoice : Fresh → Tenant → Subscription → Uuid → ℕ → InvoiceNumber → Invoice
new_invoice f tenant r term_id student_count number = record {
  id = f.invoice_id;
  tenant_id = tenant.id;
  subscription_id = r.id;
  term_id = term_id;
  invoice_number = number;
  status = InvoiceStatus.pending;
  subtotal_amount = wrap64 (student_count * price_per_student);
  tax_amount = pos 0;
  discount_amount = pos 0;
  total_amount = wrap64 (student_count * price_per_student);
  student_count = student_count;
  due_date = add f.now (wrap64 (grace_days tenant.invoice_grace_period * day));
  issued_date = f.now;
  paid_at = none;
  payment_method = none;
  payment_reference = none;
  billing_email = tenant.billing_email;
  created_at = f.now;
  updated_at = f.now;
  disputed_at = none;
  dispute_reason = none;
  voided_at = none;
  void_reason = none;
}

unfoldable pub generate_term_invoice : Fresh → Uuid → Uuid → Uuid → ℕ → Actor → Db Tables Invoice
generate_term_invoice f tenant_id term_id session_id student_count actor = do
  tenant ← failing "failed to get tenant" (query (get_tenant tenant_id))
  r ←
      failing "failed to get subscription"
        (get_or_create_subscription f.subscription_id tenant_id session_id f.now)
  n ← attempt (query (get_next_invoice_number tenant_id f.year))
  failing "failed to create invoice"
      (execute (insert_invoice (new_invoice f tenant r term_id student_count (number_or n f))))
  log_action AuditAction.invoice_generated actor tenant_id f.invoice_id
  pure (new_invoice f tenant r term_id student_count (number_or n f))

abbrev pub reactivate_if_overdue : Option Subscription → Time → Db Tables (Option Unit)
reactivate_if_overdue none now = pure none
reactivate_if_overdue (some r) now =
    if subscription_is_overdue r.status
    then attempt (execute (update_subscription (reactivate now r)))
    else pure none

unfoldable pub mark_invoice_as_paid :
    Uuid → PaymentMethod → String → Actor → Time → Db Tables Invoice
mark_invoice_as_paid k method reference actor now = do
  i ← failing "failed to get invoice" (query (get_invoice k))
  refuse_if (is_paid i.status) "invoice is already paid"
  refuse_if (is_voided i.status) "cannot mark a voided invoice as paid"
  failing "failed to update invoice"
      (execute (update_invoice (mark_as_paid method reference now i)))
  r ← attempt (query (get_subscription i.subscription_id))
  reactivate_if_overdue r now
  log_action AuditAction.invoice_paid actor i.tenant_id i.id
  pure (mark_as_paid method reference now i)

unfoldable pub dispute_invoice : Uuid → String → Actor → Time → Db Tables Invoice
dispute_invoice k why actor now = do
  i ← failing "failed to get invoice" (query (get_invoice k))
  refuse_if (is_paid i.status || is_voided i.status) "cannot dispute a paid or voided invoice"
  failing "failed to update invoice" (execute (update_invoice (dispute why now i)))
  log_action AuditAction.invoice_generated actor i.tenant_id i.id
  pure (dispute why now i)

unfoldable pub void_invoice : Uuid → String → Actor → Time → Db Tables Invoice
void_invoice k why actor now = do
  i ← failing "failed to get invoice" (query (get_invoice k))
  refuse_if (is_paid i.status) "cannot void a paid invoice"
  failing "failed to update invoice" (execute (update_invoice (void why now i)))
  log_action AuditAction.invoice_generated actor i.tenant_id i.id
  pure (void why now i)

abbrev pub insert_adjustment : BillingAdjustment → Tables → Result Tables
insert_adjustment a s = ok (record s { adjustments = s.adjustments ++ a ∷ [] })

-- Credits and discounts for an invoice are applied to it.
abbrev pub apply_to : Option Uuid → AdjustmentType → ℤ → Time → Db Tables (Option Unit)
apply_to (some k) AdjustmentType.credit amount now =
    attempt (execute (apply_adjustment_to_invoice k amount now))
apply_to (some k) AdjustmentType.discount amount now =
    attempt (execute (apply_adjustment_to_invoice k amount now))
apply_to _ _ amount now = pure none

unfoldable pub apply_billing_adjustment :
    BillingAdjustment → Actor → Time → Db Tables BillingAdjustment
apply_billing_adjustment a actor now = do
  failing "failed to create billing adjustment" (execute (insert_adjustment a))
  apply_to a.invoice_id a.type a.amount now
  log_action AuditAction.billing_adjustment_applied actor a.tenant_id a.id
  pure a
