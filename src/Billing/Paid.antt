-- ===== src/Billing/Paid.antt =====
-- That a payment is final, in internal/service/billing_service.go.
use arc_lms.Prelude.{
  Bool, true, false, ◌&&◌, ◌||◌, ◌==◌, ==_iff, ◌≡◌, refl, ap, ◌∙◌, subst, inl, inr, some, List, [],
  ◌∷◌, find_lem, find-append, find-update_where, update_where, Bool-cases, Uuid, arith,
  if◌then◌else◌,
}
use arc_lms.Clock.{before}
use arc_lms.Audit.{Actor}
use arc_lms.Database.{found, found_lem, found, found_lem, Conn, ok}
use arc_lms.Billing.Types.{Invoice, InvoiceStatus, is_paid, is_pending, is_overdue}
use arc_lms.Billing.Tables.{Tables, write_columns, adjusted, mark_overdue}
use arc_lms.Billing.Calls.{Call, run_call, run_calls, Moves}
use arc_lms.Billing.Change.{Change}
use arc_lms.Billing.Effect.{run_call-Change}
use arc_lms.Billing.Ledger.{lookup, insert_rows, update_rows, adjust_rows, sweep_rows}

-- An update passes over the row that is looked up.
passes_over :
    (x : Uuid) (rs : List Invoice) (i : Invoice) (q : Invoice → Bool) (f : Invoice → Invoice)
    → ((j : Invoice) → (f j).id ≡ j.id)
    → lookup x rs ≡ some i
    → q i ≡ false
    → lookup x (update_where q f rs) ≡ some i
passes_over x rs i q f k h e =
    find-update_where (λ j. j.id == x) q f rs (λ j. ap (λ z. z == x) (k j)) h
    ∙ ap some (skip (q i) e)
  where
    skip : (b : Bool) → b ≡ false → (if b then f i else i) ≡ i
    skip b e = rw e refl

same_row :
    (x k : Uuid) (rs : List Invoice) (i j : Invoice)
    → lookup x rs ≡ some i
    → lookup k rs ≡ some j
    → (i.id == j.id) ≡ true
    → i ≡ j
same_row x k rs i j h g e =
    agree ((==_iff i.id x).0 (find_lem (λ q. q.id == x) rs h))
      ((==_iff j.id k).0 (find_lem (λ q. q.id == k) rs g)) ((==_iff i.id j.id).0 e)
  where
    agree : i.id ≡ x → j.id ≡ k → i.id ≡ j.id → i ≡ j
    agree p q r = cc

-- Nothing moves a paid invoice.
unpaid : (j j' : Invoice) → Moves j j' → is_paid j.status ≡ false
unpaid j j' (Moves.pays method reference now g1 g2) = g1
unpaid j j' (Moves.disputes why now g) = ground arith
unpaid j j' (Moves.voids why now g) = g

other_row :
    (x k : Uuid) (rs : List Invoice) (i j j' : Invoice)
    → lookup x rs ≡ some i
    → i.status ≡ InvoiceStatus.paid
    → found (lookup k rs) ≡ ok j
    → j'.id ≡ j.id
    → Moves j j'
    → (i.id == j'.id) ≡ false
other_row x k rs i j j' h p g n m = elim (Bool-cases (i.id == j'.id)) [
  | inl e ↦
      absurd (clash (same_row x k rs i j h (found_lem _ j g) (subst (λ z. (i.id == z) ≡ true) n e)))
  | inr e ↦ e
]
  where
    clash : i ≡ j → ⊥
    clash e = clash_at (ap (λ z. z.status) e)
      where
        clash_at : i.status ≡ j.status → ⊥
        clash_at q = cc (p, q, unpaid j j' m)

not_open :
    (s : InvoiceStatus) (b : Bool)
    → s ≡ InvoiceStatus.paid
    → (b && (is_pending s || is_overdue s)) ≡ false
not_open s true e = rw e refl
not_open s false e = refl

not_due : (s : InvoiceStatus) (b : Bool) → s ≡ InvoiceStatus.paid → (is_pending s && b) ≡ false
not_due s b e = rw e refl

Change-keeps :
    (x : Uuid) (i : Invoice) (rs rs' : List Invoice)
    → Change rs rs'
    → lookup x rs ≡ some i
    → i.status ≡ InvoiceStatus.paid
    → lookup x rs' ≡ some i
Change-keeps x i rs rs' (Change.unchanged e) h p = ap (lookup x) e ∙ h
Change-keeps x i rs rs' (Change.added j s1 s2 q t d a b w e) h p =
    ap (lookup x) (e ∙ insert_rows s1 s2 j w)
    ∙ find-append (λ z. z.id == x) s1.invoices _ (ap (lookup x) b ∙ h)
Change-keeps x i rs rs' (Change.rewritten k j j' s1 s2 g n m b w e) h p =
    ap (lookup x) (e ∙ update_rows s1 s2 j' w)
    ∙ passes_over x s1.invoices i _ (write_columns j') (λ z. refl) (ap (lookup x) b ∙ h)
        (other_row x k s1.invoices i j j' (ap (lookup x) b ∙ h) p g n m)
Change-keeps x i rs rs' (Change.adjusted_by k amount now s1 s2 b w e) h p =
    ap (lookup x) (e ∙ adjust_rows s1 s2 k amount now w)
    ∙ passes_over x s1.invoices i _ (adjusted amount now) (λ z. refl) (ap (lookup x) b ∙ h)
        (not_open i.status (i.id == k) p)
Change-keeps x i rs rs' (Change.swept now s1 s2 b w e) h p =
    ap (lookup x) (e ∙ sweep_rows s1 s2 now w)
    ∙ passes_over x s1.invoices i _ (mark_overdue now) (λ z. refl) (ap (lookup x) b ∙ h)
        (not_due i.status (before i.due_date now) p)

-- A paid invoice is stored unchanged, with its amounts and its payment, after any calls that generate,
-- pay, dispute, void, adjust or sweep invoices, each failed or not.
pub paid_is_final :
    (ks : List (Actor × Call)) (c : Conn Tables) (x : Uuid) (i : Invoice)
    → lookup x c.db.invoices ≡ some i
    → i.status ≡ InvoiceStatus.paid
    → lookup x (run_calls ks c).db.invoices ≡ some i
unfolding run_calls
paid_is_final [] c x i h p = h
paid_is_final ((actor, k) ∷ ks) c x i h p =
    paid_is_final ks (run_call actor k c).1 x i
      (Change-keeps x i c.db.invoices _ (run_call-Change actor k c) h p) p
