-- ===== src/Billing/Ledger.antt =====
-- What any calls on internal/service/billing_service.go keep of the stored invoices.
use arc_lms.Prelude.{
  Bool, true, false, ◌&&◌, ◌||◌, ◌==◌, ◌≡◌, refl, sym, ◌∙◌, subst, Option, List, [], ◌∷◌, ◌++◌,
  find, update_where, All, All-append, Option-cases, Uuid, arith, if◌then◌else◌,
}
use arc_lms.Prelude.Int.{ℤ, pos, negsuc, ◌+ℤ◌, ◌-ℤ◌}
use arc_lms.Clock.{Time, before}
use arc_lms.Audit.{Actor}
use arc_lms.Database.{Conn, ok}
use arc_lms.Billing.Types.{Invoice, is_pending, is_overdue}
use arc_lms.Billing.Tables.{
  Tables, insert_invoice, update_invoice, write_columns, adjusted, mark_overdue,
  apply_adjustment_to_invoice, mark_overdue_invoices, same_number,
}
use arc_lms.Billing.Calls.{Call, run_call, run_calls}
use arc_lms.Billing.Change.{Change}
use arc_lms.Billing.Effect.{run_call-Change}

abbrev pub lookup : Uuid → List Invoice → Option Invoice
lookup x rs = find (λ i. i.id == x) rs

-- The statements on the rows.
module _ (s s' : Tables) where
  pub insert_rows : (i : Invoice) → insert_invoice i s ≡ ok s' → s'.invoices ≡ s.invoices ++ i ∷ []
  unfolding insert_invoice
  insert_rows i h = ground (
    arith,
    Option-cases
        (find (λ j. (j.id == i.id) || same_number j.invoice_number i.invoice_number) s.invoices),
  )

  pub update_rows :
      (i : Invoice)
      → update_invoice i s ≡ ok s'
      → s'.invoices ≡ update_where (λ j. j.id == i.id) (write_columns i) s.invoices
  unfolding update_invoice
  update_rows i h = ground (arith, Option-cases (find (λ j. j.id == i.id) s.invoices))

  pub adjust_rows :
      (k : Uuid) (amount : ℤ) (now : Time)
      → apply_adjustment_to_invoice k amount now s ≡ ok s'
      → s'.invoices
        ≡ update_where
            (λ j. j.id == k && (is_pending j.status || is_overdue j.status))
            (adjusted amount now)
            s.invoices
  unfolding apply_adjustment_to_invoice
  adjust_rows k amount now h = ground (
    arith,
    Option-cases (find (λ j. j.id == k && (is_pending j.status || is_overdue j.status)) s.invoices),
  )

  pub sweep_rows :
      (now : Time)
      → mark_overdue_invoices now s ≡ ok s'
      → s'.invoices
        ≡ update_where
            (λ i. is_pending i.status && before i.due_date now)
            (mark_overdue now)
            s.invoices
  unfolding mark_overdue_invoices
  sweep_rows now h = cc

-- The total is what the other amounts make it.
pub record Balanced (i : Invoice) : Type 0 where
  pub balance : i.total_amount ≡ (i.subtotal_amount +ℤ i.tax_amount) -ℤ i.discount_amount

nothing_off : (a : ℤ) → (a +ℤ pos 0) -ℤ pos 0 ≡ a
unfolding ◌+ℤ◌ ◌-ℤ◌
nothing_off (pos n) = ground arith
nothing_off (negsuc n) = ground arith

-- An update of rows that keeps each row's property.
kept_All :
    (P : Invoice → Type 0) (q : Invoice → Bool) (f : Invoice → Invoice) (xs : List Invoice)
    → ((i : Invoice) → P i → P (f i))
    → All P xs
    → All P (update_where q f xs)
kept_All P q f [] k h = tt
kept_All P q f (x ∷ xs) k h = (by_test (q x), kept_All P q f xs k h.1)
  where
    by_test : (b : Bool) → P (if b then f x else x)
    by_test true = k x h.0
    by_test false = h.0

Change-Balanced : (rs rs' : List Invoice) → Change rs rs' → All Balanced rs → All Balanced rs'
Change-Balanced rs rs' (Change.unchanged e) h = subst (All Balanced) (sym e) h
Change-Balanced rs rs' (Change.added i s1 s2 p t d a b w e) h =
    subst (All Balanced) (sym (e ∙ insert_rows s1 s2 i w)) (
      All-append Balanced s1.invoices _ (subst (All Balanced) (sym b) h)
        (record { balance = a ∙ sym (nothing_off i.subtotal_amount) ∙ rw (t, d) refl }, tt))
Change-Balanced rs rs' (Change.rewritten k i i' s1 s2 g n m b w e) h =
    subst (All Balanced) (sym (e ∙ update_rows s1 s2 i' w)) (
      kept_All Balanced _ (write_columns i') s1.invoices (λ j v. record { balance = v.balance })
        (subst (All Balanced) (sym b) h))
Change-Balanced rs rs' (Change.adjusted_by k amount now s1 s2 b w e) h =
    subst (All Balanced) (sym (e ∙ adjust_rows s1 s2 k amount now w)) (
      kept_All Balanced _ (adjusted amount now) s1.invoices (λ j v. record { balance = refl })
        (subst (All Balanced) (sym b) h))
Change-Balanced rs rs' (Change.swept now s1 s2 b w e) h =
    subst (All Balanced) (sym (e ∙ sweep_rows s1 s2 now w)) (
      kept_All Balanced _ (mark_overdue now) s1.invoices (λ j v. record { balance = v.balance })
        (subst (All Balanced) (sym b) h))

-- Any calls that generate, pay, dispute, void, adjust or sweep invoices, each failed or not, keep of
-- every stored invoice that its total is the subtotal and the tax less the discount.
pub history-Balanced :
    (ks : List (Actor × Call)) (c : Conn Tables)
    → All Balanced c.db.invoices
    → All Balanced (run_calls ks c).db.invoices
unfolding run_calls
history-Balanced [] c h = h
history-Balanced ((actor, k) ∷ ks) c h =
    history-Balanced ks (run_call actor k c).1
      (Change-Balanced c.db.invoices _ (run_call-Change actor k c) h)
