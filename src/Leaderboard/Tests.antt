-- ===== src/Leaderboard/Tests.antt =====
-- Runs of the leaderboard's model on concrete contests.
mod Data
mod Scoring
mod Live
mod Freeze
mod Board
mod Consumer
mod Controller
