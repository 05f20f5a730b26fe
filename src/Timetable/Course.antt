-- ===== src/Timetable/Course.antt =====
-- internal/domain/course.go and internal/domain/timetable.go: the course that is scheduled, and the
-- timetable that its periods belong to. A course's contents, materials and tutor summary, which no
-- scheduling step reads, are left out.
use arc_lms.Prelude.{ℕ, Bool, true, false, Option, some, String, Uuid}
use arc_lms.Prelude.Int.{ℤ}
use arc_lms.Clock.{Time}

pub data CourseStatus : Type 0 where
  active inactive draft : CourseStatus

pub record Course : Type 0 where
  pub id : Uuid
  pub tenant_id : Uuid
  pub session_id : Uuid
  pub class_id : Uuid
  pub term_id : Uuid
  pub name : String
  pub subject_code : String
  pub description : Option String
  pub assigned_tutor_id : Uuid
  pub status : CourseStatus
  pub max_periods_per_week : Option ℤ
  pub created_at : Time
  pub updated_at : Time

-- `Course.IsActive`
abbrev pub course_is_active : CourseStatus → Bool
course_is_active CourseStatus.active = true
course_is_active _ = false

pub data TimetableStatus : Type 0 where
  draft published archived : TimetableStatus

pub record Timetable : Type 0 where
  pub id : Uuid
  pub tenant_id : Uuid
  pub class_id : Uuid
  pub term_id : Uuid
  pub status : TimetableStatus
  pub generated_at : Time
  pub generated_by : Uuid
  pub published_at : Option Time
  pub published_by : Option Uuid
  pub generation_version : ℕ
  pub notes : Option String
  pub created_at : Time
  pub updated_at : Time
  pub archived_at : Option Time

abbrev pub status_is_draft : TimetableStatus → Bool
status_is_draft TimetableStatus.draft = true
status_is_draft _ = false

abbrev pub status_is_published : TimetableStatus → Bool
status_is_published TimetableStatus.published = true
status_is_published _ = false

abbrev pub status_is_archived : TimetableStatus → Bool
status_is_archived TimetableStatus.archived = true
status_is_archived _ = false

-- `Timetable.IsDraft`, `IsPublished`, `IsArchived`
abbrev pub is_draft : Timetable → Bool
is_draft t = status_is_draft t.status

abbrev pub is_published : Timetable → Bool
is_published t = status_is_published t.status

abbrev pub is_archived : Timetable → Bool
is_archived t = status_is_archived t.status

-- `Timetable.Publish` and `Timetable.Archive`, at the instant that `time.Now` gives.
abbrev pub publish : Time → Uuid → Timetable → Timetable
publish now by t = record t {
  status = TimetableStatus.published;
  published_at = some now;
  published_by = some by;
  updated_at = now;
}

abbrev pub archive : Time → Timetable → Timetable
archive now t = record t {
  status = TimetableStatus.archived;
  archived_at = some now;
  updated_at = now;
}
