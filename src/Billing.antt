-- ===== src/Billing.antt =====
-- Invoices: internal/domain/billing.go, internal/repository/postgres/invoice.go and subscription.go,
-- and internal/service/billing_service.go.
pub mod Types
pub mod Tables
pub mod Service
pub mod Calls
mod Change
mod Effect
pub mod Ledger
pub mod Paid
mod Tests
