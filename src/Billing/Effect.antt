-- ===== src/Billing/Effect.antt =====
-- What each call of internal/service/billing_service.go makes of the stored invoices, however it ends.
use arc_lms.Prelude.{ℕ, false, ◌≡◌, refl, Option, none, some, List, String, Uuid, ◌∙◌}
use arc_lms.Clock.{Time}
use arc_lms.Audit.{Actor, AuditAction}
use arc_lms.Database.{Conn, Db, ok, execute, query, failing, attempt, pure, ◌>>=◌}
use arc_lms.Database.Leaves.{
  Leaves, Leaves-same, Leaves-imp, Leaves-failing, Leaves-pure, Leaves-query, Leaves-attempt,
  Leaves-execute, Leaves-refuse_if, Leaves-bind,
}
use arc_lms.Billing.Types.{
  Invoice, PaymentMethod, Subscription, is_paid, is_voided, mark_as_paid, dispute, void,
}
use arc_lms.Billing.Service.{
  Fresh, new_subscription, insert_adjustment, existing_or_new, get_or_create_subscription,
  reactivate_if_overdue, log_action, apply_to, generate_term_invoice, mark_invoice_as_paid,
  dispute_invoice, void_invoice, apply_billing_adjustment, new_invoice, number_or,
}
use arc_lms.Billing.Tables.{
  Tables, BillingAdjustment, AdjustmentType, get_invoice, insert_invoice, update_invoice,
  mark_overdue_invoices, Tenant, get_next_invoice_number,
}
use arc_lms.Billing.Calls.{Call, run_call, Moves}
use arc_lms.Billing.Change.{Change, Ends, log_leaves, reactivate_leaves, new_subscription_invoices}

pay-Ends :
    (k : Uuid) (method : PaymentMethod) (reference : String) (actor : Actor) (now : Time)
    (c : Conn Tables)
    → Ends (mark_invoice_as_paid k method reference actor now) c
unfolding mark_invoice_as_paid
pay-Ends k method reference actor now c = Leaves-bind (
    Leaves-failing _ (
      Leaves-query _ same (λ i h. Leaves-bind (
        Leaves-refuse_if _ _ same (λ g1. Leaves-bind (
          Leaves-refuse_if _ _ same (λ g2. Leaves-bind (
            Leaves-failing _ (
              Leaves-execute _ same (λ s w. Leaves-bind (
                Leaves-attempt (
                  Leaves-query _ (rest i s none (paid i s h g1 g2 w))
                    (λ r e. rest i s (some r) (paid i s h g1 g2 w))))))))))))))
  where
    same : Change c.db.invoices c.db.invoices
    same = Change.unchanged refl

    paid :
        (i : Invoice) (s : Tables)
        → get_invoice k c.db ≡ ok i
        → is_paid i.status ≡ false
        → is_voided i.status ≡ false
        → update_invoice (mark_as_paid method reference now i) c.db ≡ ok s
        → Change c.db.invoices s.invoices
    paid i s h g1 g2 w =
        Change.rewritten k i (mark_as_paid method reference now i) c.db s h refl
          (Moves.pays method reference now g1 g2) refl w refl

    rest :
        (i : Invoice) (s : Tables) (o : Option Subscription) {c' : Conn Tables}
        → Change c.db.invoices c'.db.invoices
        → Leaves
            (reactivate_if_overdue o now >>= λ _.
              log_action AuditAction.invoice_paid actor i.tenant_id i.id >>= λ _.
              pure (mark_as_paid method reference now i))
            c'
            (λ c'. Change c.db.invoices c'.db.invoices)
            (λ _ c'. Change c.db.invoices c'.db.invoices)
    rest i s o p =
        reactivate_leaves o now _ (Change c.db.invoices)
          (λ c' p'. log_leaves _ actor _ _ _ (Change c.db.invoices) p') p

dispute-Ends :
    (k : Uuid) (why : String) (actor : Actor) (now : Time) (c : Conn Tables)
    → Ends (dispute_invoice k why actor now) c
unfolding dispute_invoice
dispute-Ends k why actor now c = Leaves-bind (
    Leaves-failing _ (
      Leaves-query _ (Change.unchanged refl) (λ i h. Leaves-bind (
        Leaves-refuse_if _ _ (Change.unchanged refl) (λ g. Leaves-bind (
          Leaves-failing _ (
            Leaves-execute _ (Change.unchanged refl) (λ s w.
              log_leaves _ actor _ _ _ (Change c.db.invoices) (
                Change.rewritten k i (dispute why now i) c.db s h refl (Moves.disputes why now g)
                  refl w refl)))))))))

void-Ends :
    (k : Uuid) (why : String) (actor : Actor) (now : Time) (c : Conn Tables)
    → Ends (void_invoice k why actor now) c
unfolding void_invoice
void-Ends k why actor now c = Leaves-bind (
    Leaves-failing _ (
      Leaves-query _ (Change.unchanged refl) (λ i h. Leaves-bind (
        Leaves-refuse_if _ _ (Change.unchanged refl) (λ g. Leaves-bind (
          Leaves-failing _ (
            Leaves-execute _ (Change.unchanged refl) (λ s w.
              log_leaves _ actor _ _ _ (Change c.db.invoices) (
                Change.rewritten k i (void why now i) c.db s h refl (Moves.voids why now g) refl w
                  refl)))))))))

-- What remains once an adjustment is recorded.
adjust_leaves :
    (a : BillingAdjustment) (o : Option Uuid) (t : AdjustmentType) (actor : Actor) (now : Time)
    (rs : List Invoice) (c : Conn Tables)
    → c.db.invoices ≡ rs
    → Leaves
        (apply_to o t a.amount now >>= λ _.
          log_action AuditAction.billing_adjustment_applied actor a.tenant_id a.id >>= λ _. pure a)
        c
        (λ c'. Change rs c'.db.invoices)
        (λ _ c'. Change rs c'.db.invoices)
adjust_leaves a (some k) AdjustmentType.credit actor now rs c e = Leaves-bind (
    Leaves-attempt (
      Leaves-execute _ (log_leaves _ actor _ _ _ (Change rs) (Change.unchanged e)) (λ s w.
        log_leaves _ actor _ _ _ (Change rs) (Change.adjusted_by k a.amount now c.db s e w refl))))
adjust_leaves a (some k) AdjustmentType.discount actor now rs c e = Leaves-bind (
    Leaves-attempt (
      Leaves-execute _ (log_leaves _ actor _ _ _ (Change rs) (Change.unchanged e)) (λ s w.
        log_leaves _ actor _ _ _ (Change rs) (Change.adjusted_by k a.amount now c.db s e w refl))))
adjust_leaves a (some k) AdjustmentType.charge actor now rs c e =
    Leaves-bind (Leaves-pure _ (log_leaves _ actor _ _ _ (Change rs) (Change.unchanged e)))
adjust_leaves a (some k) AdjustmentType.refund actor now rs c e =
    Leaves-bind (Leaves-pure _ (log_leaves _ actor _ _ _ (Change rs) (Change.unchanged e)))
adjust_leaves a none t actor now rs c e =
    Leaves-bind (Leaves-pure _ (log_leaves _ actor _ _ _ (Change rs) (Change.unchanged e)))

adjustment_invoices :
    (a : BillingAdjustment) (s s' : Tables)
    → insert_adjustment a s ≡ ok s'
    → s'.invoices ≡ s.invoices
adjustment_invoices a s s' h = cc

adjust-Ends :
    (a : BillingAdjustment) (actor : Actor) (now : Time) (c : Conn Tables)
    → Ends (apply_billing_adjustment a actor now) c
unfolding apply_billing_adjustment
adjust-Ends a actor now c = Leaves-bind (
    Leaves-failing _ (
      Leaves-execute _ (Change.unchanged refl) (λ s w.
        adjust_leaves a a.invoice_id a.type actor now c.db.invoices _
          (adjustment_invoices a c.db s w))))

-- The subscription is found or made, and the invoices are as they were.
subscription_leaves :
    (o : Option Subscription) (r : Subscription) (rs : List Invoice) (c : Conn Tables)
    → c.db.invoices ≡ rs
    → Leaves (existing_or_new o r) c (λ c'. Change rs c'.db.invoices) (λ _ c'. c'.db.invoices ≡ rs)
subscription_leaves (some q) r rs c e = Leaves-pure _ e
subscription_leaves none r rs c e = Leaves-bind (
    Leaves-failing _ (
      Leaves-execute _ (Change.unchanged e)
        (λ s w. Leaves-pure _ (new_subscription_invoices r c.db s w ∙ e))))

-- The number, the invoice and the entry of the audit log.
invoice_leaves :
    (f : Fresh) (t : Tenant) (r : Subscription) (tenant_id term_id : Uuid) (n : ℕ) (actor : Actor)
    (rs : List Invoice) (c : Conn Tables)
    → c.db.invoices ≡ rs
    → Leaves
        (attempt (query (get_next_invoice_number tenant_id f.year)) >>= λ m.
          failing "failed to create invoice"
            (execute (insert_invoice (new_invoice f t r term_id n (number_or m f))))
          >>= λ _. log_action AuditAction.invoice_generated actor tenant_id f.invoice_id >>= λ _.
              pure (new_invoice f t r term_id n (number_or m f)))
        c
        (λ c'. Change rs c'.db.invoices)
        (λ _ c'. Change rs c'.db.invoices)
invoice_leaves f t r tenant_id term_id n actor rs c e =
    Leaves-bind (Leaves-attempt (Leaves-query _ (create none) (λ m g. create (some m))))
  where
    create :
        (m : Option ℕ) {k : ℕ}
        → Leaves
            (failing "failed to create invoice"
                (execute (insert_invoice (new_invoice f t r term_id n (number_or m f))))
              >>= λ _.
                  log_action AuditAction.invoice_generated actor tenant_id f.invoice_id >>= λ _.
                  pure (new_invoice f t r term_id n (number_or m f)))
            (record c { calls = k })
            (λ c'. Change rs c'.db.invoices)
            (λ _ c'. Change rs c'.db.invoices)
    create m = Leaves-bind (
        Leaves-failing _ (
          Leaves-execute _ (Change.unchanged e) (λ s w. log_leaves _ actor _ _ _ (Change rs) (
            Change.added (new_invoice f t r term_id n (number_or m f)) c.db s refl refl refl refl e
              w refl))))

generate-Ends :
    (f : Fresh) (tenant_id term_id session_id : Uuid) (n : ℕ) (actor : Actor) (c : Conn Tables)
    → Ends (generate_term_invoice f tenant_id term_id session_id n actor) c
unfolding generate_term_invoice get_or_create_subscription
generate-Ends f tenant_id term_id session_id n actor c = Leaves-bind (
    Leaves-failing _ (
      Leaves-query _ (Change.unchanged refl) (λ t h. Leaves-bind (
        Leaves-failing _ (
          Leaves-bind (
            Leaves-attempt (
              Leaves-query _
                (Leaves-imp
                  (λ r c' e. invoice_leaves f t r tenant_id term_id n actor c.db.invoices c' e)
                  (subscription_leaves none
                    (new_subscription f.subscription_id tenant_id session_id f.now) c.db.invoices _
                    refl))
                (λ q g.
                  Leaves-imp
                    (λ r c' e. invoice_leaves f t r tenant_id term_id n actor c.db.invoices c' e)
                    (subscription_leaves (some q)
                      (new_subscription f.subscription_id tenant_id session_id f.now) c.db.invoices
                      _ refl)))))))))

sweep-Ends :
    (now : Time) (c : Conn Tables)
    → Ends (failing "failed to mark overdue invoices" (execute (mark_overdue_invoices now))) c
sweep-Ends now c =
    Leaves-failing _
      (Leaves-execute _ (Change.unchanged refl) (λ s w. Change.swept now c.db s refl w refl))

without_result :
    {A : Type 0} (m : Db Tables A) (c : Conn Tables) → Ends m c → Ends (m >>= λ _. pure tt) c
without_result m c h = Leaves-bind (Leaves-imp (λ a c' e. Leaves-pure tt e) h)

run_call-Ends : (actor : Actor) (k : Call) (c : Conn Tables) → Ends (run_call actor k) c
unfolding run_call
run_call-Ends actor (Call.generate f tenant_id term_id session_id n) c =
    without_result _ c (generate-Ends f tenant_id term_id session_id n actor c)
run_call-Ends actor (Call.pay k method reference now) c =
    without_result _ c (pay-Ends k method reference actor now c)
run_call-Ends actor (Call.dispute_call k why now) c =
    without_result _ c (dispute-Ends k why actor now c)
run_call-Ends actor (Call.void_call k why now) c = without_result _ c (void-Ends k why actor now c)
run_call-Ends actor (Call.adjust a now) c = without_result _ c (adjust-Ends a actor now c)
run_call-Ends actor (Call.sweep now) c = sweep-Ends now c

pub run_call-Change :
    (actor : Actor) (k : Call) (c : Conn Tables)
    → Change c.db.invoices (run_call actor k c).1.db.invoices
run_call-Change actor k c =
    Leaves-same (run_call actor k) c (λ c'. Change c.db.invoices c'.db.invoices)
      (run_call-Ends actor k c)
