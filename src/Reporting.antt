-- ===== src/Reporting.antt =====
-- The reports: app/reporting.
pub mod Builder
pub mod Exports
pub mod Report
pub mod Network
pub mod Pipeline
mod Tests
