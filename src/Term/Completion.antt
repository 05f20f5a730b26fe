-- ===== src/Term/Completion.antt =====
-- What `CompleteTerm` of internal/service/term_service.go stores.
use arc_lms.Audit.{Actor}
use arc_lms.Prelude.{
  ◌==◌, ◌≡◌, refl, arith, Bool, List, [], ◌∷◌, map, Option, none, some, find, update_where, Uuid,
}
use arc_lms.Clock.{Time}
use arc_lms.Database.{Conn, ok, RepoError}
use arc_lms.Database.Ensures.{
  Ensures, Ensures-bind, Ensures-attempt, Ensures-pure, Ensures-ok, after_query, after_execute,
  after_refuse_if,
}
use arc_lms.Term.{Term, TermStatus}
use arc_lms.Term.Tables.{Tables, write_columns, violation, store_term, update_row, update_term_row}
use arc_lms.Term.Service.{log_term, complete, complete_term}

abbrev pub statuses : List Term → List TermStatus
statuses ts = map (λ t. t.status) ts

statuses-update_where :
    (p : Term → Bool) (t : Term) (ts : List Term)
    → statuses (update_where p (write_columns t) ts) ≡ statuses ts
statuses-update_where p t [] = refl
statuses-update_where p t (u ∷ us) = let ih = statuses-update_where p t us in ground arith

statuses-store_term :
    (o : Option RepoError) (t : Term) (s s' : Tables)
    → store_term o t s ≡ ok s'
    → statuses s'.terms ≡ statuses s.terms
statuses-store_term (some e) t s s' h = cc
statuses-store_term none t s s' h =
    let same = statuses-update_where (λ u. u.id == t.id) t s.terms in cc

statuses-update_row :
    (o : Option Term) (t : Term) (s s' : Tables)
    → update_row o t s ≡ ok s'
    → statuses s'.terms ≡ statuses s.terms
statuses-update_row none t s s' h = cc
statuses-update_row (some row) t s s' h =
    statuses-store_term (violation (write_columns t row) s.terms) t s s' h

statuses-update_term_row :
    (t : Term) (s s' : Tables) → update_term_row t s ≡ ok s' → statuses s'.terms ≡ statuses s.terms
unfolding update_term_row
statuses-update_term_row t s s' h = statuses-update_row (find (λ u. u.id == t.id) s.terms) t s s' h

-- A term with this status, and stored terms with these statuses.
abbrev Outcome : List TermStatus → Term → Conn Tables → Type 0
Outcome us t c = (t.status ≡ TermStatus.completed) × (statuses c.db.terms ≡ us)

completes :
    (id : Uuid) (actor : Actor) (now : Time) (c : Conn Tables)
    → Ensures (complete_term id actor now) c (Outcome (statuses c.db.terms))
unfolding complete_term log_term
completes id actor now c = after_query _ _ (λ t q. after_refuse_if _ _ (λ g.
    after_execute _ _ (λ s w.
      let same = statuses-update_term_row (complete now t) c.db s w in
      Ensures-bind (
        Ensures-attempt _ (Ensures-pure _ (refl, same))
          (λ s' w'. Ensures-pure _ (refl, ground arith))))))

-- Where `CompleteTerm` succeeds, it returns a completed term, and the statuses of the stored terms are
-- the ones that they had.
pub completed_term_is_not_stored :
    (id : Uuid) (actor : Actor) (now : Time) (c : Conn Tables) {t : Term}
    → (complete_term id actor now c).0 ≡ ok t
    → (t.status ≡ TermStatus.completed)
      × (statuses (complete_term id actor now c).1.db.terms ≡ statuses c.db.terms)
completed_term_is_not_stored id actor now c h =
    Ensures-ok (complete_term id actor now) c (Outcome (statuses c.db.terms))
      (completes id actor now c) h
