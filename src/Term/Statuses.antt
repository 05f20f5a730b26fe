-- ===== src/Term/Statuses.antt =====
-- What the calls of internal/service/term_service.go can make of the status of a stored term.
use arc_lms.Prelude.{
  ◌==◌, ◌≡◌, refl, sym, ◌∙◌, subst, ◌⊎◌, inl, inr, Bool, true, false, not, if◌then◌else◌, List, [],
  ◌∷◌, Option, none, some, find, select, update_where, All, All-imp, Uuid,
}
use arc_lms.Clock.{Time}
use arc_lms.Audit.{Actor, AuditAction, AuditLog}
use arc_lms.Database.{Conn, RepoError, ok, err, Result, attempt, pure, ◌>>=◌}
use arc_lms.Database.Leaves.{
  Leaves, Leaves-bind, Leaves-failing, Leaves-attempt, Leaves-execute, Leaves-pure, Leaves-query,
  Leaves-same, Leaves-imp, LeavesOf,
}
use arc_lms.Database.Leaves.Tx.{past_query, past_refuse_if}
use arc_lms.Term.{Term}
use arc_lms.Term.Tables.{
  Tables, write_columns, violation, store_term, update_row, update_term_row, delete_found,
  delete_term_row, insert_audit_log, list_by_session,
}
use arc_lms.Term.Service.{log_term, complete_term}
use arc_lms.Term.Handlers.{UpdateTermRequest, Invoicing, update_term, delete_term, activate_term}

-- A stored term had this key and this status.
abbrev pub Was : Term → List Term → Type 0
Was u [] = ⊥
Was u (t ∷ ts) = ((u.id ≡ t.id) × (u.status ≡ t.status)) ⊎ Was u ts

-- Every term of the second list was in the first.
abbrev pub AllWere : List Term → List Term → Type 0
AllWere ts us = All (λ u. Was u ts) us

Was-cons : (t u : Term) (ts : List Term) → Was u ts → Was u (t ∷ ts)
Was-cons t u ts h = inr h

pub AllWere-refl : (ts : List Term) → AllWere ts ts
AllWere-refl [] = tt
AllWere-refl (t ∷ ts) = (inl (refl, refl), All-imp (λ u. Was-cons t u ts) ts (AllWere-refl ts))

Was-trans : (ts us : List Term) (v : Term) → AllWere ts us → Was v us → Was v ts
Was-trans ts [] v h k = elim k [ ]
Was-trans ts (u ∷ us) v h (inl (e, q)) = moved ts h.0
  where
    moved : (xs : List Term) → Was u xs → Was v xs
    moved [] w = w
    moved (x ∷ xs) (inl (a, b)) = inl (e ∙ a, q ∙ b)
    moved (x ∷ xs) (inr w) = inr (moved xs w)
Was-trans ts (u ∷ us) v h (inr k) = Was-trans ts us v h.1 k

pub AllWere-trans : (ts us vs : List Term) → AllWere ts us → AllWere us vs → AllWere ts vs
AllWere-trans ts us vs h k = All-imp (λ v. Was-trans ts us v h) vs k

AllWere-update_where :
    (p : Term → Bool) (t : Term) (ts : List Term) → AllWere ts (update_where p (write_columns t) ts)
AllWere-update_where p t [] = tt
AllWere-update_where p t (x ∷ xs) =
    (inl (same (p x)), All-imp (λ u. Was-cons x u xs) _ (AllWere-update_where p t xs))
  where
    same :
        (b : Bool)
        → ((if b then write_columns t x else x).id ≡ x.id)
          × ((if b then write_columns t x else x).status ≡ x.status)
    same true = (refl, refl)
    same false = (refl, refl)

AllWere-select : (p : Term → Bool) (ts : List Term) → AllWere ts (select p ts)
AllWere-select p [] = tt
AllWere-select p (t ∷ ts) =
    kept (p t) (All-imp (λ u. Was-cons t u ts) (select p ts) (AllWere-select p ts))
  where
    kept :
        (b : Bool)
        → AllWere (t ∷ ts) (select p ts)
        → AllWere (t ∷ ts) (if b then t ∷ select p ts else select p ts)
    kept true rest = (inl (refl, refl), rest)
    kept false rest = rest

store_term-AllWere :
    (o : Option RepoError) (t : Term) (s s' : Tables)
    → store_term o t s ≡ ok s'
    → AllWere s.terms s'.terms
store_term-AllWere (some e) t s s' h = absurd (cc)
store_term-AllWere none t s s' h =
    subst (AllWere s.terms) (same h) (AllWere-update_where (λ u. u.id == t.id) t s.terms)
  where
    same :
        store_term none t s ≡ ok s'
        → update_where (λ u. u.id == t.id) (write_columns t) s.terms ≡ s'.terms
    same e = cc

update_row-AllWere :
    (o : Option Term) (t : Term) (s s' : Tables)
    → update_row o t s ≡ ok s'
    → AllWere s.terms s'.terms
update_row-AllWere none t s s' h = absurd (cc)
update_row-AllWere (some row) t s s' h =
    store_term-AllWere (violation (write_columns t row) s.terms) t s s' h

update_term_row-AllWere :
    (t : Term) (s s' : Tables) → update_term_row t s ≡ ok s' → AllWere s.terms s'.terms
unfolding update_term_row
update_term_row-AllWere t s s' h = update_row-AllWere (find (λ u. u.id == t.id) s.terms) t s s' h

delete_found-AllWere :
    (o : Option Term) (k : Uuid) (s s' : Tables)
    → delete_found o k s ≡ ok s'
    → AllWere s.terms s'.terms
delete_found-AllWere none k s s' h = absurd (cc)
delete_found-AllWere (some t) k s s' h =
    subst (AllWere s.terms) (same h) (AllWere-select (λ u. not (u.id == k)) s.terms)
  where
    same : delete_found (some t) k s ≡ ok s' → select (λ u. not (u.id == k)) s.terms ≡ s'.terms
    same e = cc

delete_term_row-AllWere :
    (k : Uuid) (s s' : Tables) → delete_term_row k s ≡ ok s' → AllWere s.terms s'.terms
unfolding delete_term_row
delete_term_row-AllWere k s s' h = delete_found-AllWere (find (λ t. t.id == k) s.terms) k s s' h

-- The terms are some of those of the list, with their statuses.
abbrev Kept : List Term → Conn Tables → Type 0
Kept ts c = AllWere ts c.db.terms

insert_audit_log-terms :
    (a : AuditLog) (s s' : Tables) → insert_audit_log a s ≡ ok s' → s.terms ≡ s'.terms
insert_audit_log-terms a s s' h = cc

Leaves-log :
    {B : Type 0} (a : AuditAction) (actor : Actor) (t k : Uuid) (b : B) (ts : List Term)
    (c : Conn Tables)
    → Kept ts c
    → Leaves (log_term a actor t k >>= λ _. pure b) c (Kept ts) (λ _ c'. Kept ts c')
unfolding log_term
Leaves-log a actor t k b ts c h = Leaves-bind (
    Leaves-attempt (
      Leaves-execute _ (Leaves-pure b h)
        (λ s w. Leaves-pure b (subst (AllWere ts) (insert_audit_log-terms _ c.db s w) h))))

pub update_term-Kept :
    (id : Uuid) (req : UpdateTermRequest) (actor : Actor) (now : Time) (c : Conn Tables)
    → AllWere c.db.terms (update_term id req actor now c).1.db.terms
unfolding update_term list_by_session
update_term-Kept id req actor now c =
    let same = AllWere-refl c.db.terms in
    Leaves-same _ c (Kept c.db.terms) (
      past_query _ _ same (λ t q. past_refuse_if _ _ same (λ g. past_refuse_if _ _ same (λ g1.
        Leaves-bind (
          Leaves-failing _ (
            Leaves-bind (
              Leaves-query _ same (λ n w. Leaves-query _ same (λ us w1.
                past_refuse_if _ _ same (λ g2. Leaves-bind (
                  Leaves-failing _ (
                    Leaves-execute _ same (λ s w2.
                      Leaves-log _ actor _ _ _ _ _
                        (update_term_row-AllWere _ c.db s w2))))))))))))))

pub delete_term-Kept :
    (id : Uuid) (actor : Actor) (c : Conn Tables)
    → AllWere c.db.terms (delete_term id actor c).1.db.terms
unfolding delete_term
delete_term-Kept id actor c =
    let same = AllWere-refl c.db.terms in
    Leaves-same _ c (Kept c.db.terms) (
      past_query _ _ same (λ t q. past_refuse_if _ _ same (λ g. Leaves-bind (
        Leaves-failing _ (
          Leaves-execute _ same
            (λ s w. Leaves-log _ actor _ _ _ _ _ (delete_term_row-AllWere id c.db s w)))))))

pub complete_term-Kept :
    (id : Uuid) (actor : Actor) (now : Time) (c : Conn Tables)
    → AllWere c.db.terms (complete_term id actor now c).1.db.terms
unfolding complete_term
complete_term-Kept id actor now c =
    let same = AllWere-refl c.db.terms in
    Leaves-same _ c (Kept c.db.terms) (
      past_query _ _ same (λ t q. past_refuse_if _ _ same (λ g. Leaves-bind (
        Leaves-failing _ (
          Leaves-execute _ same
            (λ s w. Leaves-log _ actor _ _ _ _ _ (update_term_row-AllWere _ c.db s w)))))))

Leaves-bill :
    (i : Invoicing) (t : Term) (actor : Actor) (ts : List Term) (c : Conn Tables)
    → Kept ts c
    → Leaves (attempt (i.bill t actor)) c (Kept ts) (λ _ c'. Kept ts c')
Leaves-bill i t actor ts c h =
    Leaves-attempt (record {
      at = either (i.bill t actor c).0 _ (subst (AllWere ts) (sym (i.keeps t actor c)) h);
    })
  where
    either :
        (r : Result Unit) (c' : Conn Tables)
        → Kept ts c'
        → LeavesOf r c' (Kept ts) (λ _ c''. Kept ts c'')
    either (ok u) c' k = k
    either (err e) c' k = k

pub activate_term-Kept :
    (i : Invoicing) (id : Uuid) (actor : Actor) (now : Time) (c : Conn Tables)
    → AllWere c.db.terms (activate_term i id actor now c).1.db.terms
unfolding activate_term
activate_term-Kept i id actor now c =
    let same = AllWere-refl c.db.terms in
    Leaves-same _ c (Kept c.db.terms) (
      past_query _ _ same (λ t q. past_query _ _ same (λ active q1. past_refuse_if _ _ same (λ g.
        Leaves-bind (
          Leaves-failing _ (
            Leaves-execute _ same (λ s w. Leaves-bind (
              Leaves-imp (λ u c' h. Leaves-log _ actor _ _ _ _ _ h)
                (Leaves-bill i _ actor _ _ (update_term_row-AllWere _ c.db s w))))))))))
