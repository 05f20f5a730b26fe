-- ===== src/Timetable.antt =====
-- internal/service/timetable_service.go with the types of internal/domain that it schedules: the
-- generation of a class's weekly timetable. The children prove what it guarantees.
mod Course
mod Config
pub mod Generate
pub mod Tables
pub mod Details
pub mod Service
pub mod Effect
pub mod Regenerate
pub mod Active
pub mod Forward
pub mod History
pub mod Stored
mod Tests
mod HandlerTests
pub use Course.*
pub use Config.*
