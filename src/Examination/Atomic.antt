-- ===== src/Examination/Atomic.antt =====
-- A call on an attempt in internal/service/examination_service.go that fails has changed nothing.
use arc_lms.Prelude.{Bool, true, false, Option, none, some, String, Uuid, if◌then◌else◌}
use arc_lms.Clock.{Time}
use arc_lms.Database.{pure}
use arc_lms.Database.Keeps.{
  KeepsDb, IsAtomic, keeps_rules, IsAtomic-execute, IsAtomic-failing, IsAtomic-bind, IsAtomic-then,
  IsAtomic-of_KeepsDb, Succeeds-pure,
}
use arc_lms.Examination.Types.{Examination, ExaminationSubmission}
use arc_lms.Examination.Grading.{Marked}
use arc_lms.Examination.Service.{
  SaveAnswerRequest, store, start_new, start_after, start_examination, close_or_save, save_answer,
  record_integrity_event, submit_examination, accept_grades, grade_submission,
}
use arc_lms.Examination.Calls.{Call, run_call}

ruleset atomic_rules =
    (keeps_rules, IsAtomic-bind, IsAtomic-then, IsAtomic-execute, IsAtomic-failing, Succeeds-pure)

store-IsAtomic : (why : String) (s : ExaminationSubmission) → IsAtomic (store why s)
unfolding store
store-IsAtomic why s = search atomic_rules depth 8

start_new-IsAtomic : (s : ExaminationSubmission) → IsAtomic (start_new s)
start_new-IsAtomic s = search atomic_rules depth 8

start_either :
    (b : Bool) (old s : ExaminationSubmission) → IsAtomic (if b then pure old else start_new s)
start_either true old s = IsAtomic-of_KeepsDb _ (search keeps_rules)
start_either false old s = start_new-IsAtomic s

start_after-IsAtomic :
    (o : Option ExaminationSubmission) (s : ExaminationSubmission) → IsAtomic (start_after o s)
start_after-IsAtomic none s = start_new-IsAtomic s
start_after-IsAtomic (some old) s = search (atomic_rules, start_either) depth 8

close_or_save-IsAtomic :
    (b : Bool) (e : Examination) (s : ExaminationSubmission) (req : SaveAnswerRequest)
    (now closed_at : Time)
    → IsAtomic (close_or_save b e s req now closed_at)
close_or_save-IsAtomic true e s req now closed_at = store-IsAtomic _ _
close_or_save-IsAtomic false e s req now closed_at = store-IsAtomic _ _

KeepsDb-accept_grades : (o : Option Marked) → KeepsDb (accept_grades o)
KeepsDb-accept_grades none = search keeps_rules
KeepsDb-accept_grades (some m) = search keeps_rules

pub call-IsAtomic : (user : Uuid) (k : Call) → IsAtomic (run_call user k)
unfolding start_examination save_answer record_integrity_event submit_examination grade_submission
call-IsAtomic user (Call.start id exam_id ip now) =
    search (atomic_rules, start_after-IsAtomic) depth 20
call-IsAtomic user (Call.save k req now closed_at) =
    search (atomic_rules, close_or_save-IsAtomic) depth 20
call-IsAtomic user (Call.report k event_type why seen now) =
    search (atomic_rules, store-IsAtomic) depth 20
call-IsAtomic user (Call.submit k now) = search (atomic_rules, store-IsAtomic) depth 20
call-IsAtomic user (Call.grade k gs feedback now) =
    search (atomic_rules, store-IsAtomic, KeepsDb-accept_grades) depth 20
