-- ===== src/Examination.antt =====
-- Examinations: internal/domain/examination.go and internal/service/examination_service.go.
pub mod Types
pub mod Grading
pub mod MultipleAnswer
pub mod Score
pub mod Manual
pub mod ByPerson
pub mod Service
pub mod Calls
mod Effect
mod Atomic
pub mod Sound
pub mod History
pub mod Guarded
mod Tests
