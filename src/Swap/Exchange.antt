-- ===== src/Swap/Exchange.antt =====
-- What approving a swap request does to the two periods: ApproveSwapRequest and
-- AdminOverrideSwapRequest in internal/service/timetable_service.go, and SwapPeriods in
-- internal/repository/postgres/period.go.
use arc_lms.Audit.{Actor}
use arc_lms.Prelude.{
  Uuid, Bool, true, false, List, ◌≡◌, ◌≢◌, refl, sym, ap, ◌∙◌, ==_iff, find-update_where,
  find-update_other, Bool-cases, subst, inl, inr, arith, ◌==◌, find, find_lem, update_where, Option,
  some, if◌then◌else◌,
}
use arc_lms.Clock.{Time}
use arc_lms.Period.{Period}
use arc_lms.Database.{found, found, Conn, ok}
use arc_lms.Database.Runs.{
  Quiet, Runs, Runs-imp, Runs-bind, Runs-failing, Runs-begin, Runs-tx_execute, Runs-commit,
  Runs-attempt, Runs-execute, Runs-pure, then_query, then_refuse_if,
}
use arc_lms.Swap.Request.{SwapRequest, SwapRequestStatus}
use arc_lms.Swap.Request
use arc_lms.Swap.Tables.{
  Tables, assign, assign_period, double_booked, update_swap_request, write_columns,
}
use arc_lms.Swap.Service.{approve_swap_request, swap_and_store, swap_periods, log_action}
use arc_lms.Swap.Rows.{lookup, key_of}

abbrev pub period_at : Uuid → List Period → Option Period
period_at k ps = find (λ p. p.id == k) ps

-- The periods after the statement for the one with the key.
abbrev pub assigned : Uuid → Period → Time → List Period → List Period
assigned k q t ps = update_where (λ p. p.id == k) (assign q.tutor_id q.course_id t) ps

-- The periods after both statements.
abbrev pub exchanged : SwapRequest → Period → Period → Time → List Period → List Period
exchanged r p q t ps = assigned r.target_period_id p t (assigned r.requesting_period_id q t ps)

-- The request's periods, and that neither tutor teaches another class at the time they take over.
pub record Exchangeable (s : Tables) (r : SwapRequest) (p q : Period) (t : Time) : Type 0 where
  pub requesting : period_at r.requesting_period_id s.periods ≡ some p
  pub target : period_at r.target_period_id s.periods ≡ some q
  pub distinct : r.requesting_period_id ≢ r.target_period_id
  pub first_free : double_booked (assign q.tutor_id q.course_id t p) s.periods ≡ false
  pub second_free :
      double_booked
        (assign p.tutor_id p.course_id t q)
        (assigned r.requesting_period_id q t s.periods)
      ≡ false

assign_period-at :
    (k : Uuid) (q p : Period) (t : Time) (s : Tables)
    → period_at k s.periods ≡ some p
    → double_booked (assign q.tutor_id q.course_id t p) s.periods ≡ false
    → assign_period k q.tutor_id q.course_id t s
      ≡ ok (record s { periods = assigned k q t s.periods })
unfolding assign_period
assign_period-at k q p t s h d = rw (h, d) refl

skips : {A : Type 0} (k l : Uuid) (x y : A) → k ≢ l → (if k == l then x else y) ≡ y
skips k l x y n = elim (Bool-cases (k == l)) [
  | inl e ↦ absurd (n ((==_iff k l).0 e))
  | inr e ↦ rw e refl
]

module _ (s : Tables) (r : SwapRequest) (p q : Period) (t : Time) where
  -- The second period is found as it was, after the first is written.
  target_kept :
      Exchangeable s r p q t
      → period_at r.target_period_id (assigned r.requesting_period_id q t s.periods) ≡ some q
  target_kept e =
      find-update_where (λ x. x.id == r.target_period_id) _ _ s.periods (λ b. refl) e.target
      ∙ ap some (skips q.id r.requesting_period_id _ q other)
    where
      other : q.id ≢ r.requesting_period_id
      other h = e.distinct (
          sym h
          ∙ (==_iff q.id r.target_period_id).0
              (find_lem (λ x. x.id == r.target_period_id) s.periods e.target))

  update_request-at :
      (r' : SwapRequest)
      → lookup r'.id s.swap_requests ≡ some r
      → (ps : List Period)
      → update_swap_request r' (record s { periods = ps })
        ≡ ok (record s {
          periods = ps;
          swap_requests = update_where (λ x. x.id == r'.id) (write_columns r') s.swap_requests;
        })
  unfolding update_swap_request
  update_request-at r' h ps = rw h refl

-- On a connection that fails no statement, the transaction commits the exchange.
swap_and_store_runs :
    (r r' : SwapRequest) (p q : Period) (t : Time) (c : Conn Tables)
    → Quiet c
    → lookup r'.id c.db.swap_requests ≡ some r
    → Exchangeable c.db r p q t
    → Runs
        (swap_and_store r r' t)
        c
        (λ _ c'. Quiet c' × (c'.db.periods ≡ exchanged r p q t c.db.periods))
unfolding swap_and_store swap_periods
swap_and_store_runs r r' p q t c h l e = Runs-bind (
    Runs-failing _ (
      Runs-begin h (
        Runs-bind (
          Runs-failing _ (
            then_query _ _ _ h (ap found e.requesting) (
              then_query _ _ _ h (ap found e.target) (
                Runs-bind (
                  Runs-tx_execute _ h refl
                    (assign_period-at r.requesting_period_id q p t c.db e.requesting e.first_free)
                    (Runs-tx_execute _ h refl
                      (assign_period-at r.target_period_id p q t _ (target_kept c.db r p q t e)
                        e.second_free)
                      (Runs-bind (
                        Runs-failing _ (
                          Runs-tx_execute _ h refl (update_request-at c.db r p q t r' l _)
                            (Runs-failing _ (Runs-commit h refl (h, refl)))))))))))))))

-- Two periods have each other's tutor and course, all others are the same.
pub record Exchanged (r : SwapRequest) (p q : Period) (t : Time) (ps ps' : List Period)
    : Type 0 where
  pub requesting : period_at r.requesting_period_id ps' ≡ some (assign q.tutor_id q.course_id t p)
  pub target : period_at r.target_period_id ps' ≡ some (assign p.tutor_id p.course_id t q)
  pub others :
      (x : Uuid)
      → x ≢ r.requesting_period_id
      → x ≢ r.target_period_id
      → period_at x ps' ≡ period_at x ps

apart : (x k l : Uuid) → k ≢ l → (x == k) ≡ true → (x == l) ≡ false
apart x k l n h = ground arith

takes : {A : Type 0} (b : Bool) (x y : A) → b ≡ true → (if b then x else y) ≡ x
takes b x y h = rw h refl

exchanged_lem :
    (s : Tables) (r : SwapRequest) (p q : Period) (t : Time)
    → Exchangeable s r p q t
    → Exchanged r p q t s.periods (exchanged r p q t s.periods)
exchanged_lem s r p q t e = record {
  requesting =
      find-update_other (λ x. x.id == r.requesting_period_id) _ _ _ (λ b. refl)
        (λ b. apart b.id r.target_period_id r.requesting_period_id (λ h. e.distinct (sym h)))
      ∙ find-update_where (λ x. x.id == r.requesting_period_id) _ _ s.periods (λ b. refl)
          e.requesting
      ∙ ap some
          (takes _ _ _ (find_lem (λ x. x.id == r.requesting_period_id) s.periods e.requesting));
  target =
      find-update_where (λ x. x.id == r.target_period_id) _ _ _ (λ b. refl)
        (target_kept s r p q t e)
      ∙ ap some (takes _ _ _ (find_lem (λ x. x.id == r.target_period_id) s.periods e.target));
  others = λ x n m.
      find-update_other (λ y. y.id == x) _ _ _ (λ b. refl)
        (λ b. apart b.id r.target_period_id x (λ h. m (sym h)))
      ∙ find-update_other (λ y. y.id == x) _ _ s.periods (λ b. refl)
          (λ b. apart b.id r.requesting_period_id x (λ h. n (sym h)));
}

-- On a connection that fails no statement, the target tutor's approval of a pending request succeeds,
-- where its two periods exist, differ, and neither tutor teaches elsewhere at the time they take over;
-- afterwards the requesting period has the other's tutor and course, the target period has this one's,
-- and every other period is as it was.
pub approve_exchanges :
    (actor : Actor) (k : Uuid) (r : SwapRequest) (p q : Period) (t now : Time) (c : Conn Tables)
    → Quiet c
    → lookup k c.db.swap_requests ≡ some r
    → r.target_tutor_id ≡ actor.id
    → r.status ≡ SwapRequestStatus.pending
    → Exchangeable c.db r p q t
    → Runs
        (approve_swap_request k actor t now)
        c
        (λ r' c'. (r' ≡ Request.approve now r) × Exchanged r p q t c.db.periods c'.db.periods)
unfolding approve_swap_request log_action
approve_exchanges actor k r p q t now c h l g w e = then_query _ _ _ h (ap found l) (
    then_refuse_if _ _ (rw ((==_iff r.target_tutor_id actor.id).1 g) refl) (
      then_refuse_if _ _ (rw w refl) (
        Runs-bind (
          Runs-imp _ _
            (λ u c' d. Runs-bind (
              Runs-attempt (
                Runs-execute _ d.0 refl (
                  Runs-pure _ (
                    refl,
                    subst (Exchanged r p q t c.db.periods) (sym d.1) (exchanged_lem c.db r p q t e),
                  )))))
            (swap_and_store_runs r (Request.approve now r) p q t _ h
              (key_of k r r c.db.swap_requests (ap found l) refl) e)))))
