-- ===== src/Timetable/History.antt =====
-- Requests to the timetable handlers of internal/service/timetable_service.go, one after the other.
use arc_lms.Audit.{Actor}
use arc_lms.Prelude.{ℕ, ◌≡◌, Bool, false, List, Uuid, All}
use arc_lms.Clock.{Time}
use arc_lms.Database.{Conn}
use arc_lms.Database.Requests.{Request, connect, run_all, run_all-related, run_all-kept}
use arc_lms.Database.Leaves.{Leaves-same}
use arc_lms.Timetable.Tables.{Tables}
use arc_lms.Timetable.Service.{GenerateRequest, Fresh, generate_timetable, publish_timetable}
use arc_lms.Timetable.Effect.{Effect, Rows, Leaves-publish_timetable}
use arc_lms.Timetable.Regenerate.{Leaves-generate_timetable}
use arc_lms.Timetable.Active.{OneActive, Effect-OneActive}
use arc_lms.Timetable.Forward.{Forward, Forward-refl, Forward-trans, Effect-Forward}

-- A call, with what `uuid.New` and `time.Now` give during it.
pub data Call : Type 0 where
  generate : Uuid → GenerateRequest → Fresh → Call
  publish : Uuid → Time → Time → Call

-- The tables after a call, whether it succeeds or fails.
abbrev pub run_call : Actor → Call → Conn Tables → Tables
run_call actor (Call.generate tenant_id req fresh) c =
    (generate_timetable tenant_id req actor fresh c).1.db
run_call actor (Call.publish id archived_at now) c =
    (publish_timetable id actor archived_at now c).1.db

abbrev pub run_requests : List (Request Call) → Tables → Tables
run_requests = run_all run_call

-- Whether the driver fails the read of the existing timetable: the seventh statement of a generation.
abbrev fails_read : Call → (ℕ → Bool) → Bool
fails_read (Call.generate tenant_id req fresh) faults = faults 6
fails_read (Call.publish id archived_at now) faults = false

abbrev pub ReadsExisting : Request Call → Type 0
ReadsExisting r = fails_read r.call r.faults ≡ false

call-Effect :
    (actor : Actor) (k : Call) (faults : ℕ → Bool) (s : Tables)
    → Effect (fails_read k faults) s.timetables (run_call actor k (connect faults s)).timetables
call-Effect actor (Call.generate tenant_id req fresh) faults s =
    Leaves-same _ _ (Rows (Effect (faults 6) s.timetables))
      (Leaves-generate_timetable tenant_id req actor fresh (connect faults s))
call-Effect actor (Call.publish id archived_at now) faults s =
    Leaves-same _ _ (Rows (Effect false s.timetables))
      (Leaves-publish_timetable id actor archived_at now (connect faults s) false)

-- If no generation's read of the existing timetable is failed by the driver, then however else the
-- requests end, at most one timetable of a class and a term is not archived after them, where that
-- held before.
pub run_requests-OneActive :
    (rs : List (Request Call)) (s : Tables)
    → All ReadsExisting rs
    → OneActive s.timetables
    → OneActive (run_requests rs s).timetables
run_requests-OneActive =
    run_all-kept run_call (λ s. OneActive s.timetables) ReadsExisting
      (λ r s w h. Effect-OneActive w (call-Effect r.actor r.call r.faults s) h)

-- Whichever statements fail, requests to generate and to publish lose no timetable and change no
-- class, term, tenant or version of one, and its status only moves on, from draft to published to
-- archived.
pub run_requests-Forward :
    (rs : List (Request Call)) (s : Tables) → Forward s.timetables (run_requests rs s).timetables
run_requests-Forward =
    run_all-related run_call (λ s t. Forward s.timetables t.timetables)
      (λ s. Forward-refl s.timetables) (λ s t u. Forward-trans _ _ _)
      (λ actor k faults s. Effect-Forward (call-Effect actor k faults s))
