-- ===== src/Examination/Effect.antt =====
-- What each successful call on an attempt in internal/service/examination_service.go stores.
use arc_lms.Prelude.{
  Bool, true, false, not, ◌==◌, ◌≡◌, refl, Option, none, some, List, [], String, Uuid, arith,
  if◌then◌else◌,
}
use arc_lms.Clock.{Time}
use arc_lms.Database.{Conn, ok, pure, throw}
use arc_lms.Database.Ensures.{
  Ensures, Ensures-bind, Ensures-pure, after_query, after_execute, after_refuse_if,
}
use arc_lms.Database.Ensures.Reads.{Ensures-attempt_query}
use arc_lms.Examination.Types.{
  Examination, ExaminationSubmission, SubmissionStatus, is_in_progress, status_is_submitted,
}
use arc_lms.Examination.Grading.{Marked, GradeAnswerRequest, submit_and_grade, finish_grading}
use arc_lms.Examination.Service.{
  Tables, SaveAnswerRequest, get_submission, insert_submission, update_submission, store,
  new_submission, start_new, start_after, start_examination, time_is_up, close_or_save, save_answer,
  record_integrity_event, text_or_empty, submit_examination, accept_grades, grade_submission,
}
use arc_lms.Examination.Calls.{Call, run_call, Moves}

-- What a call makes of the stored submissions.
pub data Change (user : Uuid) (t t' : Tables) : Type 0 where
  unchanged : t'.submissions ≡ t.submissions → Change user t t'
  added :
      (s : ExaminationSubmission)
      → s.status ≡ SubmissionStatus.in_progress
      → s.answers ≡ []
      → s.score ≡ none
      → insert_submission s t ≡ ok t'
      → Change user t t'
  rewritten :
      (k : Uuid) (s s' : ExaminationSubmission)
      → get_submission k t ≡ ok s
      → s'.id ≡ s.id
      → Moves user t s s'
      → update_submission s' t ≡ ok t'
      → Change user t t'

same_of : (k l : Uuid) → not (k == l) ≡ false → k ≡ l
same_of k l h = ground arith

progress_of :
    (t : SubmissionStatus) → not (is_in_progress t) ≡ false → t ≡ SubmissionStatus.in_progress
progress_of SubmissionStatus.in_progress h = refl
progress_of _ h = cc

submitted_of :
    (t : SubmissionStatus) → not (status_is_submitted t) ≡ false → t ≡ SubmissionStatus.submitted
submitted_of SubmissionStatus.submitted h = refl
submitted_of _ h = cc

store-Change :
    (user k : Uuid) (why : String) (s s' : ExaminationSubmission) (c : Conn Tables)
    → get_submission k c.db ≡ ok s
    → s'.id ≡ s.id
    → Moves user c.db s s'
    → Ensures (store why s') c (λ _ c'. Change user c.db c'.db)
unfolding store
store-Change user k why s s' c h e m =
    after_execute _ _ (λ t w. Ensures-pure _ (Change.rewritten k s s' h e m w))

close_or_save-Change :
    (user k : Uuid) (b : Bool) (e : Examination) (s : ExaminationSubmission)
    (req : SaveAnswerRequest) (now closed_at : Time) (c : Conn Tables)
    → get_submission k c.db ≡ ok s
    → s.student_id ≡ user
    → s.status ≡ SubmissionStatus.in_progress
    → Ensures (close_or_save b e s req now closed_at) c (λ _ c'. Change user c.db c'.db)
unfolding submit_and_grade
close_or_save-Change user k true e s req now closed_at c h o g =
    store-Change user k _ s _ c h refl (Moves.submits true closed_at e o g)
close_or_save-Change user k false e s req now closed_at c h o g =
    store-Change user k _ s _ c h refl (Moves.answers req now o g)

save-Change :
    (user k : Uuid) (req : SaveAnswerRequest) (now closed_at : Time) (c : Conn Tables)
    → Ensures (save_answer k req user now closed_at) c (λ _ c'. Change user c.db c'.db)
unfolding save_answer
save-Change user k req now closed_at c = after_query _ _ (λ s h. after_refuse_if _ _ (λ g1.
    after_refuse_if _ _ (λ g2. after_query _ _ (λ e he.
      close_or_save-Change user k (time_is_up e s now) e s req now closed_at _ h (same_of _ _ g1)
        (progress_of s.status g2)))))

report-Change :
    (user k : Uuid) (event_type : String) (why : Option String) (seen now : Time) (c : Conn Tables)
    → Ensures
        (record_integrity_event k event_type why user seen now)
        c
        (λ _ c'. Change user c.db c'.db)
unfolding record_integrity_event
report-Change user k event_type why seen now c = after_query _ _ (λ s h. after_refuse_if _ _ (λ g1.
    after_refuse_if _ _ (λ g2. store-Change user k _ s _ _ h refl (
      Moves.reports event_type (text_or_empty why) seen now (same_of _ _ g1)
        (progress_of s.status g2)))))

submit-Change :
    (user k : Uuid) (now : Time) (c : Conn Tables)
    → Ensures (submit_examination k user now) c (λ _ c'. Change user c.db c'.db)
unfolding submit_examination submit_and_grade
submit-Change user k now c = after_query _ _ (λ s h. after_refuse_if _ _ (λ g1.
    after_refuse_if _ _ (λ g2. after_query _ _ (λ e he.
      store-Change user k _ s _ _ h refl
        (Moves.submits false now e (same_of _ _ g1) (progress_of s.status g2))))))

Ensures-accept_grades :
    (o : Option Marked) (c : Conn Tables) (Q : Marked → Conn Tables → Type 0)
    → ((m : Marked) → o ≡ some m → Q m c)
    → Ensures (accept_grades o) c Q
unfolding throw pure
Ensures-accept_grades none c Q k = record { at = tt }
Ensures-accept_grades (some m) c Q k = record { at = k m refl }

grade-Change :
    (user k : Uuid) (gs : List GradeAnswerRequest) (feedback : Option String) (now : Time)
    (c : Conn Tables)
    → Ensures (grade_submission k gs feedback user now) c (λ _ c'. Change user c.db c'.db)
unfolding grade_submission
grade-Change user k gs feedback now c = after_query _ _ (λ s h. after_refuse_if _ _ (λ g1.
    after_query _ _ (λ e he. Ensures-bind (
      Ensures-accept_grades _ _ _ (λ m hm.
        store-Change user k _ s (finish_grading feedback user now m s) _ h refl
          (Moves.grades e gs m feedback now (submitted_of s.status g1) hm))))))

start_new-Change :
    (user : Uuid) (s : ExaminationSubmission) (c : Conn Tables)
    → s.status ≡ SubmissionStatus.in_progress
    → s.answers ≡ []
    → s.score ≡ none
    → Ensures (start_new s) c (λ _ c'. Change user c.db c'.db)
start_new-Change user s c p a n = after_execute _ _ (λ t w. Ensures-pure _ (Change.added s p a n w))

start_after-Change :
    (user : Uuid) (o : Option ExaminationSubmission) (s : ExaminationSubmission) (c : Conn Tables)
    → s.status ≡ SubmissionStatus.in_progress
    → s.answers ≡ []
    → s.score ≡ none
    → Ensures (start_after o s) c (λ _ c'. Change user c.db c'.db)
start_after-Change user none s c p a n = start_new-Change user s c p a n
start_after-Change user (some old) s c p a n =
    after_refuse_if _ _ (λ g. either (is_in_progress old.status))
  where
    either :
        (b : Bool)
        → Ensures (if b then pure old else start_new s) c (λ _ c'. Change user c.db c'.db)
    either true = Ensures-pure _ (Change.unchanged refl)
    either false = start_new-Change user s c p a n

start-Change :
    (user id exam_id : Uuid) (ip : String) (now : Time) (c : Conn Tables)
    → Ensures (start_examination id exam_id user ip now) c (λ _ c'. Change user c.db c'.db)
unfolding start_examination
start-Change user id exam_id ip now c = after_query _ _ (λ e he. after_refuse_if _ _ (λ g1.
    after_refuse_if _ _ (λ g2. after_refuse_if _ _ (λ g3. Ensures-bind (
      Ensures-attempt_query _
        (λ o. start_after-Change user o (new_submission id user ip now e) _ refl refl refl))))))

pub call-Change :
    (user : Uuid) (k : Call) (c : Conn Tables)
    → Ensures (run_call user k) c (λ _ c'. Change user c.db c'.db)
call-Change user (Call.start id exam_id ip now) c = start-Change user id exam_id ip now c
call-Change user (Call.save k req now closed_at) c = save-Change user k req now closed_at c
call-Change user (Call.report k event_type why seen now) c =
    report-Change user k event_type why seen now c
call-Change user (Call.submit k now) c = submit-Change user k now c
call-Change user (Call.grade k gs feedback now) c = grade-Change user k gs feedback now c
