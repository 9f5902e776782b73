-- ===== src/Analysis.antt =====
-- The analysis of comments and transcripts: app/analysis.
pub mod Models
pub mod ResultStore
pub mod Retry
pub mod Validator
pub mod Executor
pub mod Classification
pub mod Retriever
pub mod Reply
pub mod Classifier
pub mod Sequential
pub mod Services
mod RunTests
mod Tests
