-- ===== src/Timetable/Effect.antt =====
-- What each timetable handler of internal/service/timetable_service.go does to the rows of
-- `timetables`, however it ends.
use arc_lms.Audit.{Actor, AuditAction, AuditLog}
use arc_lms.Prelude.{
  ◌≡◌, sym, subst, ap, ◌∙◌, Bool, false, ◌==◌, ◌+◌, List, [], ◌∷◌, ◌++◌, Option, none, some, Uuid,
  select, update_where, arith,
}
use arc_lms.Clock.{Time}
use arc_lms.Database.{Conn, Db, ok, pure, query, failing, ◌>>=◌}
use arc_lms.Database.Leaves.{
  Leaves, Leaves-if, Leaves-imp, Leaves-failing, Leaves-pure, Leaves-attempt, Leaves-execute,
  Leaves-bind,
}
use arc_lms.Database.Leaves.Tx.{
  Leaves-commit, Leaves-begin, Leaves-attempt_query, past_query, past_refuse_if, past_tx_execute,
}
use arc_lms.Period.{Period}
use arc_lms.Timetable.Course.{Timetable, TimetableStatus, publish, archive}
use arc_lms.Timetable.Tables.{
  Tables, get_timetable, latest, is_active_for, is_draft_of, update_rows, publish_row, archive_row,
  insert_timetable, delete_periods, cancel_pending, insert_period, insert_audit_log,
}
use arc_lms.Timetable.Service.{
  log_timetable, publish_alone, publish_over, replace_published, publish_timetable,
}

-- `failed` is whether the driver failed the read of the existing timetable.
pub data Effect (failed : Bool) (ts : List Timetable) : List Timetable → Type 0 where
  unchanged : Effect failed ts ts
  published :
      (k by : Uuid) (now : Time)
      → Effect failed ts (update_where (is_draft_of k) (publish now by) ts)
  replaced :
      (k l by : Uuid) (archived_at now : Time)
      → Effect failed ts (
          update_where
            (is_draft_of k)
            (publish now by)
            (update_where (λ t. t.id == l) (archive archived_at) ts))
  generated :
      (t : Timetable)
      → t.status ≡ TimetableStatus.draft
      → (failed ≡ false → latest (select (is_active_for t.class_id t.term_id) ts) ≡ none)
      → Effect failed ts (ts ++ t ∷ [])
  regenerated :
      (t u : Timetable) (now : Time)
      → t.status ≡ TimetableStatus.draft
      → latest (select (is_active_for t.class_id t.term_id) ts) ≡ some u
      → t.generation_version ≡ u.generation_version + 1
      → Effect failed ts (update_where (λ x. x.id == u.id) (archive now) ts ++ t ∷ [])

update_rows-ok :
    (o : Option Timetable) (p : Timetable → Bool) (f : Timetable → Timetable) (s s' : Tables)
    → update_rows o p f s ≡ ok s'
    → s'.timetables ≡ update_where p f s.timetables
update_rows-ok none p f s s' h = cc
update_rows-ok (some t) p f s s' h = cc

publish_row-ok :
    (k by : Uuid) (now : Time) (s s' : Tables)
    → publish_row k by now s ≡ ok s'
    → s'.timetables ≡ update_where (is_draft_of k) (publish now by) s.timetables
unfolding publish_row
publish_row-ok k by now s s' h = update_rows-ok _ (is_draft_of k) (publish now by) s s' h

pub archive_row-ok :
    (k : Uuid) (now : Time) (s s' : Tables)
    → archive_row k now s ≡ ok s'
    → s'.timetables ≡ update_where (λ t. t.id == k) (archive now) s.timetables
unfolding archive_row
archive_row-ok k now s s' h = update_rows-ok _ (λ t. t.id == k) (archive now) s s' h

pub insert_timetable-ok :
    (t : Timetable) (s s' : Tables)
    → insert_timetable t s ≡ ok s'
    → s'.timetables ≡ s.timetables ++ t ∷ []
unfolding insert_timetable
insert_timetable-ok t s s' h = ground arith

pub delete_periods-ok :
    (k : Uuid) (s s' : Tables) → delete_periods k s ≡ ok s' → s'.timetables ≡ s.timetables
unfolding delete_periods
delete_periods-ok k s s' h = cc

pub cancel_pending-ok :
    (k : Uuid) (now : Time) (s s' : Tables)
    → cancel_pending k now s ≡ ok s'
    → s'.timetables ≡ s.timetables
unfolding cancel_pending
cancel_pending-ok k now s s' h = cc

pub insert_period-ok :
    (p : Period) (s s' : Tables) → insert_period p s ≡ ok s' → s'.timetables ≡ s.timetables
unfolding insert_period
insert_period-ok p s s' h = ground arith

insert_audit_log-ok :
    (a : AuditLog) (s s' : Tables) → insert_audit_log a s ≡ ok s' → s.timetables ≡ s'.timetables
insert_audit_log-ok a s s' h = cc

-- The committed timetables satisfy R.
abbrev pub Rows : (List Timetable → Type 0) → Conn Tables → Type 0
Rows R c = R c.db.timetables

module _ (R : List Timetable → Type 0) where
  pub Leaves-log :
      {A : Type 0} (a : AuditAction) (actor : Actor) (t : Timetable) (x : A) (c : Conn Tables)
      → Rows R c
      → Leaves (log_timetable a actor t >>= λ _. pure x) c (Rows R) (λ _ c'. Rows R c')
  unfolding log_timetable
  Leaves-log a actor t x c h = Leaves-bind (
      Leaves-attempt (
        Leaves-execute _ (Leaves-pure x h)
          (λ s w. Leaves-pure x (subst R (insert_audit_log-ok _ c.db s w) h))))

-- The rows after one action are an effect on those before it.
abbrev pub Yields : {A : Type 0} → Db Tables A → Conn Tables → Bool → List Timetable → Type 0
Yields m c b ts = Leaves m c (Rows (Effect b ts)) (λ _ c'. Rows (Effect b ts) c')

Leaves-publish_alone :
    (id by : Uuid) (now : Time) (c : Conn Tables) (b : Bool)
    → Yields (publish_alone id by now) c b c.db.timetables
Leaves-publish_alone id by now c b = Leaves-failing _ (
    Leaves-execute _ Effect.unchanged (λ s w.
      subst (Effect b c.db.timetables) (sym (publish_row-ok id by now c.db s w))
        (Effect.published id by now)))

Leaves-replace_published :
    (k id by : Uuid) (archived_at now : Time) (c : Conn Tables) (b : Bool)
    → Yields (replace_published k id by archived_at now) c b c.db.timetables
unfolding replace_published
Leaves-replace_published k id by archived_at now c b = Leaves-bind (
    Leaves-failing _ (
      Leaves-begin Effect.unchanged (
        past_tx_execute _ _ Effect.unchanged (λ s1 w1.
          past_tx_execute _ _ Effect.unchanged (λ s2 w2. Leaves-failing _ (
            Leaves-commit Effect.unchanged (
              subst (Effect b c.db.timetables)
                (sym (
                  publish_row-ok id by now s1 s2 w2
                  ∙ ap (update_where (is_draft_of id) (publish now by))
                      (archive_row-ok k archived_at c.db s1 w1)))
                (Effect.replaced id k by archived_at now))))))))

Leaves-publish_over :
    (o : Option Timetable) (id by : Uuid) (archived_at now : Time) (c : Conn Tables) (b : Bool)
    → Yields (publish_over o id by archived_at now) c b c.db.timetables
unfolding publish_over
Leaves-publish_over none id by archived_at now c b = Leaves-publish_alone id by now c b
Leaves-publish_over (some t) id by archived_at now c b =
    Leaves-if (t.id == id) (Leaves-publish_alone id by now c b)
      (Leaves-replace_published t.id id by archived_at now c b)

-- The end of a publication.
Leaves-refresh :
    (o : Option Timetable) (id : Uuid) (actor : Actor) (archived_at now : Time) (c : Conn Tables)
    (b : Bool)
    → Yields
        (publish_over o id actor.id archived_at now >>= λ _.
          failing "failed to refresh timetable" (query (get_timetable id)) >>= λ t.
          log_timetable AuditAction.timetable_published actor t >>= λ _. pure t)
        c
        b
        c.db.timetables
Leaves-refresh o id actor archived_at now c b = Leaves-bind (
    Leaves-imp
      (λ u c' h. past_query _ _ h (λ t q. Leaves-log (Effect b c.db.timetables) _ actor t t _ h))
      (Leaves-publish_over o id actor.id archived_at now c b))

pub Leaves-publish_timetable :
    (id : Uuid) (actor : Actor) (archived_at now : Time) (c : Conn Tables) (b : Bool)
    → Yields (publish_timetable id actor archived_at now) c b c.db.timetables
unfolding publish_timetable
Leaves-publish_timetable id actor archived_at now c b = past_query _ _ Effect.unchanged (λ t q.
    past_refuse_if _ _ Effect.unchanged (λ g. Leaves-bind (
      Leaves-attempt_query _ (λ f. Leaves-refresh none id actor archived_at now _ b)
        (λ f. Leaves-refresh _ id actor archived_at now _ b))))
