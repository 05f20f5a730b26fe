-- ===== src/Timetable/Stored/Batch.antt =====
-- What `GenerateTimetable` of internal/service/timetable_service.go stores beside the audit log.
use arc_lms.Audit.{Actor, AuditAction, AuditLog}
use arc_lms.Prelude.{
  ◌≡◌, refl, sym, ap, ◌∙◌, Bool, true, false, List, [], ◌∷◌, ◌++◌, Option, none, Uuid, select,
}
use arc_lms.Clock.{Time}
use arc_lms.Database.{Conn, ok, pure, ◌>>=◌}
use arc_lms.Database.Ensures.{
  Ensures, Ensures-imp, Ensures-bind, Ensures-failing, Ensures-pure, Ensures-attempt,
  Ensures-commit, Ensures-tx_execute,
}
use arc_lms.Database.Ensures.Reads.{Ensures-attempt_tx_query}
use arc_lms.Period.{Period}
use arc_lms.Timetable.Course.{Course, Timetable}
use arc_lms.Timetable.Config.{Config}
use arc_lms.Timetable.Tables.{Tables, latest, is_active_for, insert_audit_log}
use arc_lms.Timetable.Details.{PeriodWithDetails, periods_of_details}
use arc_lms.Timetable.Stored.Rows.{
  other_periods, other_requests, add_periods, add_timetable, without, insert_timetable-whole,
  retire-without, create_batch-append,
}
use arc_lms.Timetable.Regenerate.{retired}
use arc_lms.Timetable.Service.{
  GenerateRequest, Fresh, generate_over, next_version, new_timetable, log_timetable,
}

-- What is stored over the tables, apart from the audit log.
abbrev pub stored : Option Timetable → Time → Timetable → List Period → Tables → Tables
stored o archived_at t ps s = record s {
  timetables = retired o archived_at s.timetables ++ t ∷ [];
  periods = other_periods o s.periods ++ ps;
  swap_requests = other_requests o s.periods s.swap_requests;
}

-- The existing timetable, as the handler sees it.
abbrev pub existing_of : Bool → GenerateRequest → Tables → Option Timetable
existing_of true req s = none
existing_of false req s = latest (select (is_active_for req.class_id req.term_id) s.timetables)

module _ (tenant_id : Uuid) (req : GenerateRequest) (actor : Actor) (fresh : Fresh) (s : Tables)
    (o : Option Timetable) where
  abbrev made : Timetable
  made = new_timetable fresh.timetable_id tenant_id req actor.id (next_version o) fresh.created_at

  abbrev relog : Tables → Tables
  relog y = record y { audit_logs = s.audit_logs }

  -- The committed tables, beside the audit log, and the result.
  abbrev pub Outcome : Timetable × List Period → Conn Tables → Type 0
  Outcome x c = (x.0 ≡ made) × (relog c.db ≡ stored o fresh.archived_at made x.1 s)

  relog-insert : (a : AuditLog) (y y' : Tables) → insert_audit_log a y ≡ ok y' → relog y' ≡ relog y
  relog-insert a y y' h = ap relog (inj (sym h))
    where
      inj : ok y' ≡ insert_audit_log a y → y' ≡ record y { audit_logs = y.audit_logs ++ a ∷ [] }
      inj e = cc

  in_order :
      (ps : List Period) (y1 y2 y3 : Tables)
      → y1 ≡ without o fresh.archived_at s
      → y2 ≡ add_timetable made y1
      → y3 ≡ add_periods ps y2
      → relog y3 ≡ stored o fresh.archived_at made ps s
  in_order ps y1 y2 y3 e1 e2 e3 =
      ap relog (e3 ∙ ap (add_periods ps) (e2 ∙ ap (add_timetable made) e1))

  pub generate_over-Outcome :
      (courses : List Course) (config : Config) (c : Conn Tables)
      → c.tx ≡ s
      → Ensures (generate_over o tenant_id req courses config actor fresh) c Outcome
  unfolding generate_over
  generate_over-Outcome courses config c q = Ensures-bind (
      Ensures-imp
        (λ u c1 e1. Ensures-bind (
          Ensures-failing _ (
            Ensures-tx_execute _ (λ s2 w2. Ensures-bind (
              Ensures-attempt_tx_query _ (λ booked b. Ensures-bind (
                Ensures-failing _ (
                  Ensures-imp
                    (λ v c3 e3. Ensures-bind (
                      Ensures-failing _ (
                        Ensures-commit (
                          Ensures-pure _ (
                            refl,
                            in_order _ c1.tx s2 c3.tx (e1 ∙ ap (without o fresh.archived_at) q)
                                (insert_timetable-whole made c1.tx s2 w2) e3,
                          )))))
                    (create_batch-append _ _)))))))))
        (retire-without o fresh.archived_at fresh.cancelled_at c))

  pub log-Outcome :
      (x : Timetable × List Period) (c : Conn Tables)
      → Outcome x c
      → Ensures (log_timetable AuditAction.timetable_generated actor x.0 >>= λ _. pure x) c Outcome
  unfolding log_timetable
  log-Outcome x c h = Ensures-bind (
      Ensures-attempt _ (Ensures-pure _ h)
        (λ s' w. Ensures-pure _ (h.0, relog-insert _ c.db s' w ∙ h.1)))

  pub outcome_of :
      (x : Timetable × List Period) (c1 c2 : Conn Tables) (ds : List PeriodWithDetails)
      → Outcome x c1
      → c2.db ≡ c1.db
      → periods_of_details ds ≡ x.1
      → Outcome (x.0, periods_of_details ds) c2
  outcome_of x c1 c2 ds h e q =
      (h.0, ap relog e ∙ h.1 ∙ ap (λ ps. stored o fresh.archived_at made ps s) (sym q))
