-- ===== src/Status.antt =====
-- status-service/src: the pages of submissions, and the statuses of those that are being judged.
mod Tests
pub mod Repository
pub mod Live
pub mod Service
