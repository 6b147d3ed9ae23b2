-- ===== src/Api.antt =====
-- main-api/src: the public service, in front of the leaderboard, status and polygon services.
mod Tests
mod AuthTests
pub mod Http
pub mod Repositories
pub mod LeaderboardController
pub mod ProblemController
pub mod StatusController
pub mod AuthService
pub mod AuthController
pub mod Middleware
pub mod ContestController
pub mod ImageController
