-- ===== src/Core.antt =====
-- The configuration of the backend: app/core/config.py.
pub mod Settings
mod Tests
