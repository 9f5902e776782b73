-- ===== src/Auth.antt =====
-- The accounts: app/auth and the parts of it that the routes use.
pub mod Sessions
pub mod ApiKeys
pub mod Http
mod Tests
