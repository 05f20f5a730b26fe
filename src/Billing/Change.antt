-- ===== src/Billing/Change.antt =====
-- What the statements of internal/service/billing_service.go make of the stored invoices.
use arc_lms.Prelude.{
  Bool, true, false, ◌&&◌, ◌||◌, ◌==◌, ◌≡◌, Option, none, some, List, find, Uuid, sym, subst, arith,
  Option-cases, if◌then◌else◌,
}
use arc_lms.Prelude.Int.{ℤ, pos}
use arc_lms.Clock.{Time}
use arc_lms.Audit.{Actor, AuditAction, AuditLog}
use arc_lms.Database.{Conn, Db, ok, execute, attempt, pure, ◌>>=◌}
use arc_lms.Database.Leaves.{Leaves, Leaves-pure, Leaves-attempt, Leaves-execute, Leaves-bind}
use arc_lms.Billing.Types.{
  Invoice, InvoiceStatus, Subscription, subscription_is_overdue, reactivate,
}
use arc_lms.Billing.Service.{reactivate_if_overdue, log_action}
use arc_lms.Billing.Tables.{
  Tables, get_invoice, insert_invoice, update_invoice, apply_adjustment_to_invoice,
  mark_overdue_invoices, insert_subscription, update_subscription, insert_audit_log,
}
use arc_lms.Billing.Calls.{Moves}

-- What a statement makes of the stored invoices; `s1` are the tables right before it.
pub data Change (rs rs' : List Invoice) : Type 0 where
  unchanged : rs' ≡ rs → Change rs rs'
  added :
      (i : Invoice) (s1 s2 : Tables)
      → i.status ≡ InvoiceStatus.pending
      → i.tax_amount ≡ pos 0
      → i.discount_amount ≡ pos 0
      → i.total_amount ≡ i.subtotal_amount
      → s1.invoices ≡ rs
      → insert_invoice i s1 ≡ ok s2
      → rs' ≡ s2.invoices
      → Change rs rs'
  rewritten :
      (k : Uuid) (i i' : Invoice) (s1 s2 : Tables)
      → get_invoice k s1 ≡ ok i
      → i'.id ≡ i.id
      → Moves i i'
      → s1.invoices ≡ rs
      → update_invoice i' s1 ≡ ok s2
      → rs' ≡ s2.invoices
      → Change rs rs'
  adjusted_by :
      (k : Uuid) (amount : ℤ) (now : Time) (s1 s2 : Tables)
      → s1.invoices ≡ rs
      → apply_adjustment_to_invoice k amount now s1 ≡ ok s2
      → rs' ≡ s2.invoices
      → Change rs rs'
  swept :
      (now : Time) (s1 s2 : Tables)
      → s1.invoices ≡ rs
      → mark_overdue_invoices now s1 ≡ ok s2
      → rs' ≡ s2.invoices
      → Change rs rs'

audit_invoices :
    (a : AuditLog) (s s' : Tables) → insert_audit_log a s ≡ ok s' → s'.invoices ≡ s.invoices
audit_invoices a s s' h = cc

subscription_invoices :
    (r : Subscription) (s s' : Tables) → update_subscription r s ≡ ok s' → s'.invoices ≡ s.invoices
unfolding update_subscription
subscription_invoices r s s' h =
    ground (arith, Option-cases (find (λ q. q.id == r.id) s.subscriptions))

pub new_subscription_invoices :
    (r : Subscription) (s s' : Tables) → insert_subscription r s ≡ ok s' → s'.invoices ≡ s.invoices
unfolding insert_subscription
new_subscription_invoices r s s' h = ground (
  arith,
  Option-cases (
      find (λ q. (q.id == r.id) || (q.tenant_id == r.tenant_id && q.session_id == r.session_id))
        s.subscriptions),
)

-- The entry of the audit log and the result, after the invoices are as they will be.
pub log_leaves :
    {A : Type 0} (a : AuditAction) (actor : Actor) (t k : Uuid) (x : A) {c : Conn Tables}
    (P : List Invoice → Type 0)
    → P c.db.invoices
    → Leaves
        (log_action a actor t k >>= λ _. pure x)
        c
        (λ c'. P c'.db.invoices)
        (λ _ c'. P c'.db.invoices)
unfolding log_action
log_leaves a actor t k x {c} P p = Leaves-bind (
    Leaves-attempt (
      Leaves-execute _ (Leaves-pure _ p)
        (λ s h. Leaves-pure _ (subst P (sym (audit_invoices _ c.db s h)) p))))

pub reactivate_leaves :
    {A : Type 0} (o : Option Subscription) (now : Time) (m : Db Tables A) {c : Conn Tables}
    (P : List Invoice → Type 0)
    → ((c' : Conn Tables)
        → P c'.db.invoices
        → Leaves m c' (λ c'. P c'.db.invoices) (λ _ c'. P c'.db.invoices))
    → P c.db.invoices
    → Leaves
        (reactivate_if_overdue o now >>= λ _. m)
        c
        (λ c'. P c'.db.invoices)
        (λ _ c'. P c'.db.invoices)
reactivate_leaves none now m P k p = Leaves-bind (Leaves-pure _ (k _ p))
reactivate_leaves (some r) now m {c} P k p = by_status (subscription_is_overdue r.status)
  where
    by_status :
        (b : Bool)
        → Leaves
            ((if b then attempt (execute (update_subscription (reactivate now r))) else pure none)
              >>= λ _. m)
            c
            (λ c'. P c'.db.invoices)
            (λ _ c'. P c'.db.invoices)
    by_status true = Leaves-bind (
        Leaves-attempt (
          Leaves-execute _ (k _ p)
            (λ s h. k _ (subst P (sym (subscription_invoices _ c.db s h)) p))))
    by_status false = Leaves-bind (Leaves-pure _ (k _ p))

abbrev pub Ends : {A : Type 0} → Db Tables A → Conn Tables → Type 0
Ends m c =
    Leaves m c (λ c'. Change c.db.invoices c'.db.invoices)
      (λ _ c'. Change c.db.invoices c'.db.invoices)
