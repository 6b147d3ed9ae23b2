-- ===== src/Leaderboard/Freeze.antt =====
-- leaderboard-service/src/services/freeze.service.ts: the final standings of a contest, computed
-- from the submissions in the database, and the transaction that stores them.
pub mod Aggregate
pub mod Entries
pub mod Standings
pub mod Transaction
pub mod Atomicity
pub mod Completion
use judge_self.Common.{
  ℕ, suc, ◌+◌, String, Bool, true, false, ◌&&◌, not, Option, none, some, List, [], ◌∷◌, ◌++◌, ◌==◌,
  keep, map, if◌then◌else◌,
}
use judge_self.Common.Int.{ℤ, pos, ◌-ℤ◌}
use judge_self.Common.Assoc.{Assoc, lookup, assign}
use judge_self.Common.Sort.{sort}
use judge_self.Database.{
  Database, SubmissionRow, ContestRow, ResultRow, is_in_contest, contest_by_id,
}
use judge_self.Redis.{Redis}
use judge_self.Leaderboard.Types.{ProblemState, UserContestMetadata, UserScore, empty_metadata}
use judge_self.Leaderboard.Scoring.{compute_user_scores}
use judge_self.Leaderboard.Live.{track, stored_or_empty}
use judge_self.Leaderboard.Live.Keys.{get_contest_leaderboard_key, get_contest_metadata_key}

-- A row of the query, `SubmissionRow` of the service.
pub record RatedRow : Type 0 where
  pub id : String
  pub user_id : String
  pub problem_id : String
  pub status : String
  pub submitted_at : ℤ

abbrev pub by_created_at : SubmissionRow → SubmissionRow → ℤ
by_created_at a b = a.created_at -ℤ b.created_at

abbrev pub is_rated_in : Database → String → SubmissionRow → Bool
is_rated_in db contest_id s = is_in_contest db contest_id s && s.type == "RATED"

-- The rest of the metadata loop's body, for the entry of the row's user.
unfoldable pub push_row : UserContestMetadata → RatedRow → UserContestMetadata
push_row meta row = record {
  problems =
      assign row.problem_id
        (track row.problem_id meta.problems
          ++ record {
            submission_id = row.id;
            relative_submitted_at = row.submitted_at;
            status = row.status;
          }
            ∷ [])
        meta.problems;
  processed_submissions = meta.processed_submissions ++ row.id ∷ [];
}

-- The loop that builds `aggregateState`.
unfoldable pub aggregate : List RatedRow → Assoc UserContestMetadata → Assoc UserContestMetadata
unfolding push_row
aggregate [] state = state
aggregate (row ∷ rows) state =
    aggregate rows
      (assign row.user_id (push_row (stored_or_empty (lookup row.user_id state)) row) state)

pub record Standing : Type 0 where
  pub user_id : String
  pub result : UserScore

unfoldable pub standing_of : String × UserContestMetadata → Standing
standing_of (user_id, meta) = record { user_id = user_id; result = compute_user_scores meta }

-- The comparison of the sort: `b.score - a.score`.
unfoldable pub by_score : Standing → Standing → ℤ
by_score a b = b.result.score -ℤ a.result.score

unfoldable pub standings : List RatedRow → List Standing
standings rows = sort by_score (map standing_of (aggregate rows []))

abbrev pub result_row : String → ℕ → Standing → ResultRow
result_row contest_id i entry = record {
  contest_id = contest_id;
  user_id = entry.user_id;
  rank = i + 1;
  score = entry.result.score;
  problems_solved = entry.result.solved;
  penalty = entry.result.penalty;
  problem_details = entry.result.details;
}

-- The rows that the loop of INSERTs writes, from the value `i` of its counter on.
unfoldable pub result_rows : String → ℕ → List Standing → List ResultRow
result_rows contest_id i [] = []
result_rows contest_id i (entry ∷ rest) =
    result_row contest_id i entry ∷ result_rows contest_id (suc i) rest

abbrev pub mark_frozen : String → ContestRow → ContestRow
mark_frozen contest_id c = if c.id == contest_id then record c { leaderboard_frozen = true } else c

-- What the transaction writes.
unfoldable pub frozen_database : String → List RatedRow → Database → Database
frozen_database contest_id rows db = record db {
  contest_results =
      keep (λ r. not (r.contest_id == contest_id)) db.contest_results
      ++ result_rows contest_id 0 (standings rows);
  contests = map (mark_frozen contest_id) db.contests;
}

-- EXTRACT(EPOCH FROM (created_at - start_time))::INTEGER, an argument of what follows.
module _ (seconds_between : ℤ → ℤ → ℤ) where
  abbrev pub rated_row : ContestRow → SubmissionRow → RatedRow
  rated_row contest s = record {
    id = s.id;
    user_id = s.user_id;
    problem_id = s.problem_id;
    status = s.status;
    submitted_at = seconds_between s.created_at contest.start_time;
  }

  -- The submissions that a query selects, by time. Without the contest there is no problem of it.
  unfoldable pub select_rows :
      (SubmissionRow → Bool) → List SubmissionRow → Option ContestRow → List RatedRow
  select_rows p submissions none = []
  select_rows p submissions (some contest) =
      map (rated_row contest) (sort by_created_at (keep p submissions))

  -- The rows of the first query.
  unfoldable pub rated_rows : Database → String → List RatedRow
  rated_rows db contest_id =
      select_rows (is_rated_in db contest_id) db.submissions (contest_by_id db contest_id)
