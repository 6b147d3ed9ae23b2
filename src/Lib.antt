-- ===== src/Lib.antt =====
-- A judge for programming contests: its leaderboard, its submission status, its public service and
-- its import of Polygon packages, modelled from the TypeScript of four services.
--
-- Parts. The execution engine sends verdicts to a queue and progress to a channel. The leaderboard
-- service (leaderboard-service/src) consumes the verdicts, keeps each user's submissions in a Redis
-- hash and each user's score in a sorted set, and, once a contest is over, computes the standings
-- again from PostgreSQL and freezes them there. The status service (status-service/src) pages
-- through the submissions and keeps the progress of running ones in a hash. The public service
-- (main-api/src) checks who asks, and forwards to the others. The polygon service
-- (polygon-service/src) downloads a problem that is to be imported, reads it, and stores it in S3
-- and in the table of the problems.
--
-- Files.
--   Common: names of the libraries, Boolean tests, integers, lists, sorting, paging, trim,
--     parseInt, and the decimal form of a number.
--   Redis: the commands that the services use, as an interface with the documented laws, a
--     parameter of what uses them; Redis/Memory meets it with tables in memory.
--   Database: the tables of docker/postgres/init.sql as lists of rows. A query is modelled where it
--     stands; ORDER BY is a stable sort.
--   Leaderboard/Types: the shared types. Leaderboard/Scoring: computeUserScores
--     (`compute_user_scores`, its inner loop `problem_tally`, its outer loop `totals`).
--     Leaderboard/Live: processLiveVerdict (`process_live_verdict`), the Lua script of
--     config/_lua.ts (`update_user_state`), and its runs for the messages in order (`process_all`).
--     Leaderboard/Consumer: the queue's consumer as a step relation (`Step`) over the broker's
--     messages and Redis, and the reviver of the messages. Leaderboard/Freeze: the aggregation and
--     the standings of executeContestHardFreeze; Leaderboard/Freeze/Transaction: the function
--     itself, each of its calls a step that may fail, over the committed and the uncommitted
--     database and Redis (`execute_contest_hard_freeze`). Leaderboard/FreezeTask:
--     checkForFinishedContests. Leaderboard/Recalculate: recalculateLiveUserScore.
--     Leaderboard/Board: getUserLeaderboardRow, getLeaderboardPage and the two functions that it
--     reads a page with. Leaderboard/Controller: the handlers of http/controller.ts.
--   Status/Repository: status.repository.ts and problem.repository.ts. Status/Live: the callback of
--     Subscribe (`on_message`). Status/Service: the pages and the handlers.
--   Api/Http: proxyFetch, firstValue and the replies. Api/Repositories: the queries of main-api.
--     Api/LeaderboardController, Api/ProblemController and Api/StatusController: the handlers of
--     the controllers of these names. Api/Middleware: authenticate and what handles exceptions.
--     Api/ContestController and Api/ImageController: the controllers of these names.
--     Api/AuthService: auth.service.ts and user.repository.ts, with bcrypt and jsonwebtoken as
--     parameters. Api/AuthController: auth.controller.ts, with the refresh tokens that it keeps in
--     Redis, and the route for a new access token (`refresh_token_route`).
--   Polygon/Xml: polygon-xml.service.ts after the XML parser. Polygon/TestCases:
--     polygon-tests.service.ts, over the entries of the directory with the tests. Polygon/Problems:
--     problems.repository.ts. Polygon/Disk: the files, the bucket and the table that an import
--     changes, and its calls in sequence. Polygon/Service: polygon.service.ts. Polygon/Statement
--     and Polygon/Archive: the services of these names. Polygon/Import: importProblem
--     (`import_problem`) and uploadToS3. Polygon/Controller: the handlers of http/controller.ts.
--   Each component's Tests module runs its theorems on concrete data.
--
-- Choices. Every loop is a recursion on the list that it walks or on the rounds that the source
-- counts. Only the digits of a number n are made on fuel, n + 1 rounds of which each divides by
-- ten. A number of the source is an integer or a natural number without bound: the scores and times
-- stay far below 2^53. Objects that serve as maps are association lists in the order of insertion.
-- The Lua script is one step, as Redis runs it. The consumer has one connection to Redis, so scores
-- are written in the order in which the scripts reply. The seconds between two timestamps, `fetch`,
-- the answers of the database to main-api, JSON.stringify, path.join and path.basename are
-- parameters; so are the answers of Polygon, the unpacking and packing of archives, cheerio, the
-- XML parser, the commands that an import executes and S3. A file is found by its whole path, and
-- what a directory lists is kept beside the files.
--
-- Not modelled: the expiry of tokens; addStatusFromRedis, which passes the numbers that identify
-- submissions to a client that takes texts, and whose result reaches no page; routes, configuration
-- and timers; the submission service and the execution engine, which are written in Go.
pub mod Common
pub mod Redis
pub mod Database
pub mod Leaderboard
pub mod Status
pub mod Api
pub mod Polygon
