-- ===== src/Collectors.antt =====
-- The collection of a video's contents: app/collectors.
pub mod Comments
pub mod Youtube
pub mod Transcript
pub mod Collect
mod Tests
