-- ===== src/Billing/Types.antt =====
-- internal/domain/billing.go. Currency, which is always NGN, the line items, of which there is one that
-- repeats the amounts, and the notes and the PDF of an invoice are left out.
use arc_lms.Prelude.{ℕ, Bool, true, false, Option, some, String, Uuid}
use arc_lms.Prelude.Int.{ℤ}
use arc_lms.Clock.{Time}

pub data SubscriptionStatus : Type 0 where
  active payment_overdue suspended cancelled : SubscriptionStatus

pub data InvoiceStatus : Type 0 where
  pending paid overdue disputed voided : InvoiceStatus

pub data PaymentMethod : Type 0 where
  bank_transfer card ussd manual : PaymentMethod

pub record Subscription : Type 0 where
  pub id : Uuid
  pub tenant_id : Uuid
  pub session_id : Uuid
  pub status : SubscriptionStatus
  pub price_per_student_per_term : ℕ
  pub start_date : Time
  pub end_date : Option Time
  pub cancelled_at : Option Time
  pub cancellation_reason : Option String
  pub created_at : Time
  pub updated_at : Time

-- The number "INV-<year>-<n>".
pub record InvoiceNumber : Type 0 where
  pub year : ℕ
  pub n : ℕ

pub record Invoice : Type 0 where
  pub id : Uuid
  pub tenant_id : Uuid
  pub subscription_id : Uuid
  pub term_id : Uuid
  pub invoice_number : InvoiceNumber
  pub status : InvoiceStatus
  pub subtotal_amount : ℤ
  pub tax_amount : ℤ
  pub discount_amount : ℤ
  pub total_amount : ℤ
  pub student_count : ℕ
  pub due_date : Time
  pub issued_date : Time
  pub paid_at : Option Time
  pub payment_method : Option PaymentMethod
  pub payment_reference : Option String
  pub billing_email : String
  pub created_at : Time
  pub updated_at : Time
  pub disputed_at : Option Time
  pub dispute_reason : Option String
  pub voided_at : Option Time
  pub void_reason : Option String

abbrev pub subscription_is_overdue : SubscriptionStatus → Bool
subscription_is_overdue SubscriptionStatus.payment_overdue = true
subscription_is_overdue _ = false

-- `Subscription.Reactivate`
abbrev pub reactivate : Time → Subscription → Subscription
reactivate now s = record s { status = SubscriptionStatus.active; updated_at = now }

abbrev pub is_paid : InvoiceStatus → Bool
is_paid InvoiceStatus.paid = true
is_paid _ = false

abbrev pub is_voided : InvoiceStatus → Bool
is_voided InvoiceStatus.voided = true
is_voided _ = false

abbrev pub is_pending : InvoiceStatus → Bool
is_pending InvoiceStatus.pending = true
is_pending _ = false

abbrev pub is_overdue : InvoiceStatus → Bool
is_overdue InvoiceStatus.overdue = true
is_overdue _ = false

-- `MarkAsPaid`, `Dispute` and `Void`
abbrev pub mark_as_paid : PaymentMethod → String → Time → Invoice → Invoice
mark_as_paid method reference now i = record i {
  status = InvoiceStatus.paid;
  payment_method = some method;
  payment_reference = some reference;
  paid_at = some now;
  updated_at = now;
}

abbrev pub dispute : String → Time → Invoice → Invoice
dispute why now i = record i {
  status = InvoiceStatus.disputed;
  dispute_reason = some why;
  disputed_at = some now;
  updated_at = now;
}

abbrev pub void : String → Time → Invoice → Invoice
void why now i = record i {
  status = InvoiceStatus.voided;
  void_reason = some why;
  voided_at = some now;
  updated_at = now;
}
