-- ===== src/Leaderboard.antt =====
-- leaderboard-service/src: the live and the frozen contest standings.
mod Tests
pub mod Types
pub mod Scoring
pub mod Live
pub mod Consumer
pub mod Freeze
pub mod Recalculate
pub mod FreezeTask
pub mod Board
pub mod Controller
