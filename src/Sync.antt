-- ===== src/Sync.antt =====
-- src/sync/service.py, and the removal records that it shares with src/spaces/service.py.
pub mod Removals
pub mod Recorded
pub mod Entry
pub mod Upsert
pub mod Push
pub mod Page
pub mod Pull
pub mod Account
mod Tests
mod PullTests
