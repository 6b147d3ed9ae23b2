-- ===== src/Leaderboard/Tests/Freeze.antt =====
-- Runs of the freeze and of its periodic check.
use judge_self.Common.{◌≡◌, refl, inr, [], ◌==◌, any, keep, count_if, if◌then◌else◌}
use judge_self.Common.Int.{pos}
use judge_self.Common.Assoc.{lookup}
use judge_self.Leaderboard.Freeze.{standings, aggregate}
use judge_self.Leaderboard.Freeze.Aggregate.{is_row_of}
use judge_self.Leaderboard.Freeze.Entries.{IsEntryOf, aggregate-IsEntryOf}
use judge_self.Leaderboard.Freeze.Standings.{
  IsDescending, standings-IsDescending, count_if-standings,
}
use judge_self.Leaderboard.Freeze.Transaction.{execute_contest_hard_freeze}
use judge_self.Leaderboard.Freeze.Atomicity.{Visible, execute_contest_hard_freeze-Visible}
use judge_self.Leaderboard.FreezeTask.{check_for_finished_contests, has_pending_submissions}
use judge_self.Leaderboard.FreezeTask.Untouched.{
  IsUntouched, check_for_finished_contests-IsUntouched,
}
use judge_self.Leaderboard.Tests.Data.{
  store_of_metadata, database, waiting, rows, seconds, world_of, nothing_fails, unlink_fails,
}

aggregate-IsEntryOf_example :
    IsEntryOf (keep (is_row_of "ann") rows) (lookup "ann" (aggregate rows []))
aggregate-IsEntryOf_example = aggregate-IsEntryOf "ann" rows

standings-IsDescending_example : IsDescending (standings rows)
standings-IsDescending_example = standings-IsDescending rows

count_if-standings_example :
    count_if (λ e. e.user_id == "bob") (standings rows)
    ≡ (if any (is_row_of "bob") rows then 1 else 0)
count_if-standings_example = count_if-standings "bob" rows

execute_contest_hard_freeze-Visible_example :
    Visible store_of_metadata seconds unlink_fails "c1"
      (world_of database)
      (execute_contest_hard_freeze store_of_metadata seconds unlink_fails "c1" (world_of database))
execute_contest_hard_freeze-Visible_example =
    execute_contest_hard_freeze-Visible store_of_metadata seconds unlink_fails "c1"
      (world_of database)

check_for_finished_contests-IsUntouched_example :
    IsUntouched "c1" waiting
      (check_for_finished_contests store_of_metadata seconds
        (λ id. nothing_fails)
        (pos 9000)
        (world_of waiting)).1.committed
unfolding has_pending_submissions
check_for_finished_contests-IsUntouched_example =
    check_for_finished_contests-IsUntouched store_of_metadata seconds (λ id. nothing_fails) "c1"
      (pos 9000) (world_of waiting) (inr (inr refl), tt)
