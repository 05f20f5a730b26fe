-- ===== src/Examination/History.antt =====
-- Any calls on internal/service/examination_service.go, one after the other, each failed or not.
use arc_lms.Prelude.{
  ◌==◌, ◌≡◌, sym, ap, subst, inl, inr, Option, none, List, [], ◌∷◌, ◌++◌, find, update_where,
  Option-cases, All, All-append, All-update_where, All-find, ◌&&◌, ◌||◌, Uuid, arith,
}
use arc_lms.Database.{Result-cases, found_lem, Result-cases, found_lem, Conn, ok}
use arc_lms.Database.Ensures.{Ensures-ok}
use arc_lms.Examination.Types.{ExaminationSubmission, SubmissionStatus}
use arc_lms.Examination.Score.{OneAnswerEach, Unmarked}
use arc_lms.Examination.Service.{
  Tables, insert_submission, update_submission, write_columns, put_answer, is_attempt,
}
use arc_lms.Examination.Calls.{Call, run_call, run_calls, Moves}
use arc_lms.Examination.Effect.{Change, call-Change}
use arc_lms.Examination.Atomic.{call-IsAtomic}
use arc_lms.Examination.Sound.{
  Sound, ScoreFits, put_answer-OneAnswerEach, put_answer-Unmarked, submit_and_grade-Sound,
  finish_grading-Sound,
}

abbrev pub lookup : Uuid → List ExaminationSubmission → Option ExaminationSubmission
lookup x rs = find (λ r. r.id == x) rs

-- However a call ends.
pub run_call-Change :
    (user : Uuid) (k : Call) (c : Conn Tables) → Change user c.db (run_call user k c).1.db
run_call-Change user k c = elim (Result-cases (run_call user k c).0) [
  | inl (a, h) ↦ Ensures-ok _ c _ (call-Change user k c) h
  | inr (e, h) ↦ Change.unchanged (ap (λ t. t.submissions) ((call-IsAtomic user k).at c h))
]

Moves-Sound :
    (user : Uuid) (t : Tables) (s s' : ExaminationSubmission)
    → Moves user t s s'
    → Sound s
    → Sound s'
Moves-Sound user t s s' (Moves.answers req now o p) h =
    let u = subst (λ z. ScoreFits z s.answers s.score) p h.score_fits in
    record {
      one_each = put_answer-OneAnswerEach req now s.answers h.one_each;
      score_fits =
          subst (λ z. ScoreFits z (put_answer req now s.answers) s.score) (sym p)
            (put_answer-Unmarked req now s.answers u.0, u.1);
    }
Moves-Sound user t s s' (Moves.reports event_type why seen now o p) h = record {
  one_each = h.one_each;
  score_fits = h.score_fits;
}
Moves-Sound user t s s' (Moves.submits auto now e o p) h =
    submit_and_grade-Sound auto now e s h.one_each
      (subst (λ z. ScoreFits z s.answers s.score) p h.score_fits).0
Moves-Sound user t s s' (Moves.grades e gs m feedback now p g) h =
    finish_grading-Sound e.questions gs feedback user now m s h.one_each g

module _ (t t' : Tables) where
  pub insert_rows :
      (s : ExaminationSubmission)
      → insert_submission s t ≡ ok t'
      → t'.submissions ≡ t.submissions ++ s ∷ []
  unfolding insert_submission
  insert_rows s h = ground (
    arith,
    Option-cases (
        find
          (λ r.
            (r.id == s.id)
            || (r.tenant_id == s.tenant_id && is_attempt s.student_id s.examination_id r))
          t.submissions),
  )

  pub update_rows :
      (s : ExaminationSubmission)
      → update_submission s t ≡ ok t'
      → t'.submissions ≡ update_where (λ r. r.id == s.id) (write_columns s) t.submissions
  unfolding update_submission
  update_rows s h = ground (arith, Option-cases (find (λ r. r.id == s.id) t.submissions))

empty-Sound :
    (s : ExaminationSubmission)
    → s.status ≡ SubmissionStatus.in_progress
    → s.answers ≡ []
    → s.score ≡ none
    → Sound s
empty-Sound s p a n = record {
  one_each = subst OneAnswerEach (sym a) tt;
  score_fits = subst (λ z. ScoreFits z s.answers s.score) (sym p) (subst Unmarked (sym a) tt, n);
}

-- The row that the statement writes is as sound as what is written.
write-Sound : (s row : ExaminationSubmission) → Sound s → Sound (write_columns s row)
write-Sound s row h = record { one_each = h.one_each; score_fits = h.score_fits }

Change-Sound :
    (user : Uuid) (t t' : Tables)
    → Change user t t'
    → All Sound t.submissions
    → All Sound t'.submissions
Change-Sound user t t' (Change.unchanged e) h = subst (All Sound) (sym e) h
Change-Sound user t t' (Change.added s p a n w) h =
    subst (All Sound) (sym (insert_rows t t' s w))
      (All-append Sound t.submissions _ h (empty-Sound s p a n, tt))
Change-Sound user t t' (Change.rewritten k s s' g e m w) h =
    let f = found_lem (lookup k t.submissions) s g in
    let v = All-find Sound (λ r. r.id == k) t.submissions s h f in
    subst (All Sound) (sym (update_rows t t' s' w)) (
      All-update_where Sound _ (write_columns s') t.submissions
        (λ row. write-Sound s' row (Moves-Sound user t s s' m v)) h)

-- Any history of calls, each failed or not, keeps of all stored submissions that no two answers are
-- for the same question, that an attempt in progress has no marks and no score, and that the score of
-- a submitted or graded one is the sum of its answers' marks.
pub history-Sound :
    (ks : List (Uuid × Call)) (c : Conn Tables)
    → All Sound c.db.submissions
    → All Sound (run_calls ks c).db.submissions
unfolding run_calls
history-Sound [] c h = h
history-Sound ((user, k) ∷ ks) c h =
    history-Sound ks (run_call user k c).1 (Change-Sound user c.db _ (run_call-Change user k c) h)
