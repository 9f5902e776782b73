-- ===== src/Api.antt =====
-- The routes of app/api, without what FastAPI does around them.
pub mod Access
pub mod Accounts
pub mod Admin
pub mod Exports
pub mod Pages
pub mod Progress
mod Tests
