-- ===== src/Leaderboard/FreezeTask.antt =====
-- leaderboard-service/src/tasks/freeze.task.ts: the periodic check that freezes the contests which
-- have ended, except those with submissions that wait for a verdict.
pub mod Untouched
use judge_self.Common.{
  ℕ, String, Bool, true, false, not, ◌&&◌, List, [], ◌∷◌, ◌==◌, keep, count_if, ltb, if◌then◌else◌,
}
use judge_self.Common.Int.{ℤ, ltb_ℤ}
use judge_self.Database.{Database, SubmissionRow, ContestRow, is_in_contest}
use judge_self.Redis.{Redis}
use judge_self.Leaderboard.Types.{UserContestMetadata}
use judge_self.Leaderboard.Freeze.Transaction.{Stage, World, Action, execute_contest_hard_freeze}

abbrev pub is_pending_in : Database → String → SubmissionRow → Bool
is_pending_in db contest_id s = is_in_contest db contest_id s && s.status == "QUEUE"

unfoldable pub has_pending_submissions : Database → String → Bool
has_pending_submissions db contest_id =
    ltb 0 (count_if (is_pending_in db contest_id) db.submissions)

-- WHERE leaderboard_frozen = false AND end_time < NOW()
abbrev pub is_finished : ℤ → ContestRow → Bool
is_finished now c = not c.leaderboard_frozen && ltb_ℤ c.end_time now

-- Which calls fail may differ from contest to contest.
module _ {S : Type 0} (redis : Redis UserContestMetadata S) (seconds_between : ℤ → ℤ → ℤ)
    (fails : String → Stage → Bool) where
  abbrev pub proceed_with : Bool × World S → (World S → Bool × World S) → Bool × World S
  proceed_with (true, w) k = k w
  proceed_with (false, w) k = (false, w)

  -- The body of the loop: `continue`, or a freeze that may throw.
  unfoldable pub freeze_if_settled : ContestRow → Action S
  freeze_if_settled contest w =
      if has_pending_submissions w.committed contest.id
      then (true, w)
      else execute_contest_hard_freeze redis seconds_between (fails contest.id) contest.id w

  -- The loop, which an exception leaves.
  unfoldable pub freeze_finished : List ContestRow → Action S
  freeze_finished [] w = (true, w)
  freeze_finished (contest ∷ rest) w =
      proceed_with (freeze_if_settled contest w) (freeze_finished rest)

  unfoldable pub check_for_finished_contests : ℤ → Action S
  check_for_finished_contests now w =
      freeze_finished (keep (is_finished now) w.committed.contests) w
