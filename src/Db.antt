-- ===== src/Db.antt =====
-- The rows of app/db/models.py, one record for each table, and the database that the services
-- share. A UUID is a number, a time is a number of microseconds, and a nullable column an `Option`.
pub mod Accounts
pub mod JobRows
pub mod Content
pub mod Results
pub mod Database
