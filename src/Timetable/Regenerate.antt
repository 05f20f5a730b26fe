-- ===== src/Timetable/Regenerate.antt =====
-- What `GenerateTimetable` of internal/service/timetable_service.go does to the rows of `timetables`,
-- however it ends.
use arc_lms.Audit.{Actor, AuditAction}
use arc_lms.Prelude.{
  ℕ, ◌≡◌, refl, sym, subst, ap, ◌∙◌, Bool, true, false, ◌==◌, ◌+◌, List, [], ◌∷◌, ◌++◌, Option,
  none, some, Uuid, select, update_where, arith, String,
}
use arc_lms.Clock.{Time}
use arc_lms.Database.{
  Conn, Db, Result, ok, err, found, without_error, pure, throw, query, attempt, failing, ◌>>=◌,
}
use arc_lms.Database.Leaves.{
  Leaves, Leaves-imp, Leaves-failing, Leaves-pure, Leaves-bind, Leaves-query,
}
use arc_lms.Database.Leaves.Tx.{
  Leaves-commit, Leaves-begin, Leaves-attempt_query, Leaves-attempt_tx_query, Leaves-tx_execute,
  past_query, past_refuse_if, past_tx_execute,
}
use arc_lms.Period.{Period}
use arc_lms.Timetable.Course.{Course, Timetable, archive}
use arc_lms.Timetable.Config.{Config}
use arc_lms.Timetable.Tables.{Tables, latest, is_active_for, get_active, list_by_class}
use arc_lms.Timetable.Service.{
  GenerateRequest, Fresh, log_timetable, create_batch, retire, generate_over, generate_and_log,
  generate_timetable, next_version, new_timetable, checked,
}
use arc_lms.Timetable.Details.{enrich_periods-kept}
use arc_lms.Timetable.Effect.{
  Effect, Rows, Yields, Leaves-log, archive_row-ok, insert_timetable-ok, delete_periods-ok,
  cancel_pending-ok, insert_period-ok,
}

abbrev pub retired : Option Timetable → Time → List Timetable → List Timetable
retired none now ts = ts
retired (some t) now ts = update_where (λ x. x.id == t.id) (archive now) ts

-- The committed rows satisfy R, and those of the transaction are ts.
abbrev Within : (List Timetable → Type 0) → List Timetable → Conn Tables → Type 0
Within R ts c = R c.db.timetables × (c.tx.timetables ≡ ts)

module _ (R : List Timetable → Type 0) where
  Leaves-retire :
      (o : Option Timetable) (archived_at now : Time) (c : Conn Tables)
      → R c.db.timetables
      → Leaves
          (retire o archived_at now)
          c
          (Rows R)
          (λ _ c'. Within R (retired o archived_at c.tx.timetables) c')
  unfolding retire
  Leaves-retire none archived_at now c h = Leaves-pure tt (h, refl)
  Leaves-retire (some t) archived_at now c h = past_tx_execute _ _ h (λ s1 w1.
      past_tx_execute _ _ h (λ s2 w2. Leaves-failing _ (
        Leaves-tx_execute _ h (λ s3 w3. (
          h,
          cancel_pending-ok t.id now s2 s3 w3
              ∙ archive_row-ok t.id archived_at s1 s2 w2
              ∙ ap (update_where (λ x. x.id == t.id) (archive archived_at))
                  (delete_periods-ok t.id c.tx s1 w1),
        )))))

  Leaves-create_batch :
      (ps : List Period) (c : Conn Tables) (ts : List Timetable)
      → Within R ts c
      → Leaves (create_batch ps) c (Rows R) (λ _ c'. Within R ts c')
  unfolding create_batch
  Leaves-create_batch [] c ts h = Leaves-pure tt h
  Leaves-create_batch (p ∷ ps) c ts h = Leaves-bind (
      Leaves-tx_execute _ h.0
        (λ s w. Leaves-create_batch ps _ ts (h.0, insert_period-ok p c.tx s w ∙ h.1)))

  -- The rest of the transaction, where what it leaves satisfies R.
  Leaves-generate_over :
      (o : Option Timetable) (tenant_id : Uuid) (req : GenerateRequest) (courses : List Course)
      (config : Config) (actor : Actor) (fresh : Fresh) (c : Conn Tables)
      → R c.db.timetables
      → R (
          retired o fresh.archived_at c.tx.timetables
          ++ new_timetable fresh.timetable_id tenant_id req actor.id
              (next_version o)
              fresh.created_at
            ∷ [])
      → Leaves
          (generate_over o tenant_id req courses config actor fresh)
          c
          (Rows R)
          (λ _ c'. Rows R c')
  unfolding generate_over
  Leaves-generate_over o tenant_id req courses config actor fresh c h k =
      let t =
        new_timetable fresh.timetable_id tenant_id req actor.id (next_version o) fresh.created_at in
      Leaves-bind (
        Leaves-imp
          (λ u c1 r. past_tx_execute _ _ r.0 (λ s w. Leaves-bind (
            Leaves-attempt_tx_query _ (λ booked b. Leaves-bind (
              Leaves-failing _ (
                Leaves-imp
                  (λ v c2 e.
                    Leaves-bind
                      (Leaves-failing _ (Leaves-commit e.0 (Leaves-pure _ (subst R (sym e.1) k)))))
                  (Leaves-create_batch _ _ _
                    (r.0, insert_timetable-ok _ c1.tx s w ∙ ap (λ ts. ts ++ t ∷ []) r.1))))))))
          (Leaves-retire o fresh.archived_at fresh.cancelled_at c h))

-- What a read that found no row, or a row, says of the rows.
read-generated :
    (failed : Bool) (o : Option Timetable) (ts : List Timetable) (tenant_id : Uuid)
    (req : GenerateRequest) (actor : Actor) (fresh : Fresh)
    → ((failed ≡ false) → latest (select (is_active_for req.class_id req.term_id) ts) ≡ o)
    → (failed ≡ true → o ≡ none)
    → Effect failed ts (
        retired o fresh.archived_at ts
        ++ new_timetable fresh.timetable_id tenant_id req actor.id (next_version o) fresh.created_at
          ∷ [])
read-generated failed none ts tenant_id req actor fresh q f = Effect.generated _ refl q
read-generated true (some u) ts tenant_id req actor fresh q f = let e = f refl in absurd (cc)
read-generated false (some u) ts tenant_id req actor fresh q f =
    Effect.regenerated _ u fresh.archived_at refl (q refl) refl

pub without_error-found : {A : Type 0} (o : Option A) → without_error (found o) ≡ o
without_error-found none = refl
without_error-found (some a) = refl

Leaves-checked :
    {A B : Type 0} (r : Result A) (s : String) {g : A → Db Tables B} {c : Conn Tables}
    {P : Conn Tables → Type 0} {Q : B → Conn Tables → Type 0}
    → P c
    → ((a : A) → Leaves (g a) c P Q)
    → Leaves (failing s (checked r) >>= g) c P Q
unfolding throw
Leaves-checked (ok a) s p k = Leaves-bind (Leaves-failing s (Leaves-pure a (k a)))
Leaves-checked (err e) s p k = Leaves-bind (Leaves-failing s (record { at = p }))

Leaves-list_by_class :
    (k : Uuid) (n : ℕ) {c : Conn Tables} {P : Conn Tables → Type 0}
    {Q : List Course → Conn Tables → Type 0}
    → P (record c { calls = c.calls + 1 })
    → P (record c { calls = c.calls + 1 + 1 })
    → ((cs : List Course) → Q cs (record c { calls = c.calls + 1 + 1 }))
    → Leaves (list_by_class k n) c P Q
unfolding list_by_class
Leaves-list_by_class k n p p' q =
    Leaves-bind (Leaves-query _ p (λ total w. Leaves-query _ p' (λ cs w'. q cs)))

-- The handler from the read of the existing timetable on, in a transaction that has changed nothing.
Leaves-existing :
    (tenant_id : Uuid) (req : GenerateRequest) (courses : List Course) (config : Config)
    (actor : Actor) (fresh : Fresh) (c : Conn Tables) (failed : Bool)
    → c.tx.timetables ≡ c.db.timetables
    → c.faults c.calls ≡ failed
    → Yields {A = Timetable × List Period}
        (attempt (query (get_active req.class_id req.term_id)) >>= λ existing.
          generate_over existing tenant_id req courses config actor fresh >>= λ x.
          log_timetable AuditAction.timetable_generated actor x.0 >>= λ _. pure (x.0, x.1))
        c
        failed
        c.db.timetables
Leaves-existing tenant_id req courses config actor fresh c failed same e = Leaves-bind (
    Leaves-attempt_query _ (λ f. rest none (λ g. absurd (cc)) (λ g. refl))
      (λ f. rest _ (λ g. sym (without_error-found _)) (λ g. absurd (cc))))
  where
    rest :
        (o : Option Timetable)
        → (failed ≡ false
            → latest (select (is_active_for req.class_id req.term_id) c.db.timetables) ≡ o)
        → (failed ≡ true → o ≡ none)
        → Yields {A = Timetable × List Period}
            (generate_over o tenant_id req courses config actor fresh >>= λ x.
              log_timetable AuditAction.timetable_generated actor x.0 >>= λ _. pure (x.0, x.1))
            (record c { calls = c.calls + 1 })
            failed
            c.db.timetables
    rest o q n = Leaves-bind (
        Leaves-imp (λ x c1 h. Leaves-log (Effect failed c.db.timetables) _ actor x.0 _ c1 h)
          (Leaves-generate_over (Effect failed c.db.timetables) o tenant_id req courses config actor
            fresh _ Effect.unchanged
            (subst
              (λ ts. Effect failed c.db.timetables (
                retired o fresh.archived_at ts
                ++ new_timetable fresh.timetable_id tenant_id req actor.id (next_version o)
                    fresh.created_at
                  ∷ []))
              (sym same) (read-generated failed o c.db.timetables tenant_id req actor fresh q n))))

Leaves-generate_and_log :
    (tenant_id : Uuid) (req : GenerateRequest) (actor : Actor) (fresh : Fresh) (c : Conn Tables)
    → Yields (generate_and_log tenant_id req actor fresh) c (c.faults (c.calls + 6)) c.db.timetables
unfolding generate_and_log
Leaves-generate_and_log tenant_id req actor fresh c = past_query _ _ Effect.unchanged (λ class q1.
    past_refuse_if _ _ Effect.unchanged (λ g1. past_query _ _ Effect.unchanged (λ term q2.
      past_refuse_if _ _ Effect.unchanged (λ g2. past_query _ _ Effect.unchanged (λ tenant q3.
        Leaves-bind (
          Leaves-failing _ (
            Leaves-list_by_class _ _ Effect.unchanged Effect.unchanged (λ listed.
              past_refuse_if _ _ Effect.unchanged (λ g3.
                Leaves-checked _ _ Effect.unchanged (λ config. Leaves-bind (
                  Leaves-failing _ (
                    Leaves-begin Effect.unchanged (
                      Leaves-existing tenant_id req _ config actor fresh _ _ refl
                        (ap c.faults (omega arith)))))))))))))))

pub Leaves-generate_timetable :
    (tenant_id : Uuid) (req : GenerateRequest) (actor : Actor) (fresh : Fresh) (c : Conn Tables)
    → Yields
        (generate_timetable tenant_id req actor fresh)
        c
        (c.faults (c.calls + 6))
        c.db.timetables
unfolding generate_timetable
Leaves-generate_timetable tenant_id req actor fresh c = Leaves-bind (
    Leaves-imp
      (λ x c1 h. Leaves-bind (
        Leaves-failing _ (
          Leaves-imp (λ ds c2 h2. Leaves-pure _ h2)
            (enrich_periods-kept (λ s. Effect (c.faults (c.calls + 6)) c.db.timetables s.timetables)
              [] [] [] x.1 c1 h))))
      (Leaves-generate_and_log tenant_id req actor fresh c))
