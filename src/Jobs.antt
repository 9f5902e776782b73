-- ===== src/Jobs.antt =====
-- The job pipeline: app/db/repositories.py, app/jobs/orchestrator.py, app/jobs/worker.py,
-- app/jobs/service.py and app/jobs/video_id.py.
pub mod Repository
pub mod Orchestrator
pub mod Handlers
pub mod Worker
mod HandlerTests
mod Tests
