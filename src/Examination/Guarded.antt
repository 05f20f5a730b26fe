-- ===== src/Examination/Guarded.antt =====
-- Who can change a stored submission, and when, in internal/service/examination_service.go.
use arc_lms.Prelude.{◌≡◌, ◌⊎◌, Uuid}
use arc_lms.Database.{found_lem, found_lem}
use arc_lms.Examination.Types.{ExaminationSubmission}
use arc_lms.Examination.Service.{Tables}
use arc_lms.Examination.Calls.{Moves}

abbrev pub Guarded : Uuid → Tables → ExaminationSubmission → ExaminationSubmission → Type 0
Guarded user t s s' = (s' ≡ s) ⊎ Moves user t s s'
