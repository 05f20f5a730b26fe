-- ===== src/Swap.antt =====
-- Period swap requests: internal/domain/period.go, internal/repository/postgres/swap_request.go,
-- SwapPeriods of internal/repository/postgres/period.go, and the handlers of
-- internal/service/timetable_service.go.
pub mod Request
pub mod Tables
pub mod Service
pub mod Calls
mod Effect
mod Rows
pub mod Atomic
pub mod Protocol
pub mod Exchange
pub mod Unique
mod Tests
