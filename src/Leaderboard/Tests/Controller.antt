-- ===== src/Leaderboard/Tests/Controller.antt =====
-- A recalculation of a contest and a page of its leaderboard.
use judge_self.Common.{◌≡◌, refl, Bool, true, false}
use judge_self.Redis.Memory.{Memory}
use judge_self.Leaderboard.Types.{UserContestMetadata}
use judge_self.Common.Number.{parse_int}
use judge_self.Leaderboard.Freeze.Transaction.{World, execute_contest_hard_freeze}
use judge_self.Leaderboard.Freeze.Completion.{execute_contest_hard_freeze-returns}
use judge_self.Leaderboard.Controller.{
  single, undefined, first_value, reply, leaderboard, freeze_reply, get_leaderboard,
  force_recalculate_contest,
}
use judge_self.Leaderboard.Controller.Frozen.{
  page_of_standings, force_recalculate_contest-get_leaderboard,
}
use judge_self.Leaderboard.Tests.Data.{
  store_of_metadata, database, contest, seconds, nothing_fails, world_of,
}

abbrev WorldOfMemory : Type 0
WorldOfMemory = World (Memory UserContestMetadata)

answered :
    (p : Bool × WorldOfMemory)
    → p.0 ≡ true
    → (freeze_reply store_of_metadata seconds nothing_fails p).1.status ≡ 200
answered (true, w) h = refl
answered (false, w) h = cc

-- No call fails, so the recalculation succeeds.
success_c1 :
    (force_recalculate_contest store_of_metadata seconds nothing_fails
      (world_of database)
      (single "c1")).1.status
    ≡ 200
unfolding force_recalculate_contest first_value
success_c1 =
    answered
      (execute_contest_hard_freeze store_of_metadata seconds nothing_fails "c1" (world_of database))
      (execute_contest_hard_freeze-returns nothing_fails (λ stage. refl) store_of_metadata seconds
        "c1" (world_of database))

force_recalculate_contest-get_leaderboard_example :
    get_leaderboard store_of_metadata seconds nothing_fails
      (force_recalculate_contest store_of_metadata seconds nothing_fails
        (world_of database)
        (single "c1")).0
      (single "c1")
      undefined
    ≡ reply 200
        (leaderboard (page_of_standings store_of_metadata seconds nothing_fails "c1" database 0))
unfolding first_value parse_int
force_recalculate_contest-get_leaderboard_example =
    force_recalculate_contest-get_leaderboard store_of_metadata seconds nothing_fails
      (world_of database) (single "c1") undefined 0 contest success_c1 refl refl
