-- ===== src/Leaderboard/Recalculate.antt =====
-- `recalculateLiveUserScore` of leaderboard-service/src/services/leaderboard.service.ts: a user's
-- metadata is dropped, and the user's rated submissions are processed again.
pub mod Agreement
use judge_self.Common.{String, Bool, ◌&&◌, Option, none, some, List, [], ◌∷◌, ◌==◌, keep, map}
use judge_self.Common.Int.{ℤ}
use judge_self.Common.Sort.{sort}
use judge_self.Database.{Database, SubmissionRow, ContestRow, contest_by_id}
use judge_self.Redis.{Redis}
use judge_self.Leaderboard.Types.{UserContestMetadata, QueueMessage}
use judge_self.Leaderboard.Live.{process_all}
use judge_self.Leaderboard.Live.Keys.{get_contest_metadata_key}
use judge_self.Leaderboard.Freeze.{RatedRow, select_rows, is_rated_in}

abbrev pub is_rated_of : Database → String → String → SubmissionRow → Bool
is_rated_of db contest_id user_id s = is_rated_in db contest_id s && s.user_id == user_id

-- The argument that the loop passes to `processLiveVerdict`.
abbrev pub message_of : String → String → RatedRow → QueueMessage
message_of contest_id user_id sub = record {
  submission_id = sub.id;
  contest_id = contest_id;
  user_id = user_id;
  problem_id = sub.problem_id;
  status = sub.status;
  relative_submitted_at = sub.submitted_at;
}

module _ (seconds_between : ℤ → ℤ → ℤ) where
  unfoldable pub user_rated_rows : Database → String → String → List RatedRow
  user_rated_rows db contest_id user_id =
      select_rows seconds_between (is_rated_of db contest_id user_id) db.submissions
        (contest_by_id db contest_id)

module _ {S : Type 0} (redis : Redis UserContestMetadata S) (seconds_between : ℤ → ℤ → ℤ) where
  unfoldable pub recalculate_live_user_score : Database → S → String → String → S
  recalculate_live_user_score db s contest_id user_id =
      process_all redis (redis.hdel s (get_contest_metadata_key contest_id) user_id) (
        map (message_of contest_id user_id) (user_rated_rows seconds_between db contest_id user_id))
