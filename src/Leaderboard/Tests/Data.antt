-- ===== src/Leaderboard/Tests/Data.antt =====
-- A contest with two problems and two users.
use judge_self.Common.{ℕ, String, Bool, true, false, none, some, List, [], ◌∷◌}
use judge_self.Common.Int.{ℤ, pos, ◌-ℤ◌}
use judge_self.Database.{Database, ProblemRow, SubmissionRow, ContestRow}
use judge_self.Redis.{Redis}
use judge_self.Redis.Memory.{Memory, memory, no_data}
use judge_self.Leaderboard.Types.{ProblemState, UserContestMetadata, QueueMessage}
use judge_self.Leaderboard.Freeze.{RatedRow}
use judge_self.Leaderboard.Freeze.Transaction.{Stage, World}

abbrev pub store_of_metadata : Redis UserContestMetadata (Memory UserContestMetadata)
store_of_metadata = memory UserContestMetadata

abbrev pub empty_store : Memory UserContestMetadata
empty_store = no_data

abbrev pub state : String → ℕ → String → ProblemState
state id time status = record {
  submission_id = id;
  relative_submitted_at = pos time;
  status = status;
}

abbrev pub verdict : String → String → String → ℕ → String → QueueMessage
verdict id user problem time status = record {
  submission_id = id;
  contest_id = "c1";
  user_id = user;
  problem_id = problem;
  status = status;
  relative_submitted_at = pos time;
}

-- A wrong attempt, and an accepted one that is delivered twice; another user solves a problem.
abbrev pub wrong_a : QueueMessage
wrong_a = verdict "s1" "ann" "a" 60 "WA"

abbrev pub accepted_a : QueueMessage
accepted_a = verdict "s2" "ann" "a" 120 "AC"

abbrev pub accepted_b : QueueMessage
accepted_b = verdict "s3" "bob" "b" 300 "AC"

abbrev pub deliveries : List QueueMessage
deliveries = wrong_a ∷ accepted_a ∷ accepted_b ∷ accepted_a ∷ []

abbrev pub tries : List ProblemState
tries = state "s2" 120 "AC" ∷ state "s1" 60 "WA" ∷ state "s4" 90 "CE" ∷ state "s5" 200 "WA" ∷ []

abbrev pub ann : UserContestMetadata
ann = record {
  problems = ("a", tries) ∷ ("b", state "s6" 30 "TLE" ∷ []) ∷ [];
  processed_submissions = "s1" ∷ "s2" ∷ "s4" ∷ "s5" ∷ "s6" ∷ [];
}

abbrev pub bob : UserContestMetadata
bob = record { problems = ("b", state "s3" 300 "AC" ∷ []) ∷ []; processed_submissions = "s3" ∷ [] }

abbrev pub problem : String → ProblemRow
problem id = record { id = id; contest_id = "c1"; problem_index = some id }

abbrev pub submission : String → String → String → ℕ → String → SubmissionRow
submission id user problem_id created_at status = record {
  id = id;
  problem_id = problem_id;
  user_id = user;
  type = "RATED";
  status = status;
  time = some 15;
  memory = none;
  results = none;
  created_at = pos created_at;
}

abbrev pub contest : ContestRow
contest = record {
  id = "c1";
  name = "Round 1";
  owner_id = "eve";
  start_time = pos 1000;
  end_time = pos 5000;
  leaderboard_frozen = false;
}

abbrev pub database_with : List SubmissionRow → Database
database_with submissions = record {
  problems = problem "a" ∷ problem "b" ∷ [];
  submissions = submissions;
  contests = contest ∷ [];
  contest_results = [];
}

abbrev pub database : Database
database = database_with (
    submission "s1" "ann" "a" 1060 "WA"
    ∷ submission "s2" "ann" "a" 1120 "AC"
    ∷ submission "s3" "bob" "b" 1300 "AC"
    ∷ [])

abbrev pub waiting : Database
waiting =
    database_with
      (submission "s1" "ann" "a" 1060 "WA" ∷ submission "s2" "bob" "a" 1120 "QUEUE" ∷ [])

abbrev pub row : String → String → String → ℕ → String → RatedRow
row id user problem_id time status = record {
  id = id;
  user_id = user;
  problem_id = problem_id;
  status = status;
  submitted_at = pos time;
}

abbrev pub rows : List RatedRow
rows = row "s1" "ann" "a" 60 "WA" ∷ row "s2" "ann" "a" 120 "AC" ∷ row "s3" "bob" "b" 300 "AC" ∷ []

abbrev pub seconds : ℤ → ℤ → ℤ
seconds a b = a -ℤ b

abbrev pub world_of : Database → World (Memory UserContestMetadata)
world_of db = record { committed = db; working = db; store = no_data }

abbrev pub nothing_fails : Stage → Bool
nothing_fails stage = false

abbrev pub unlink_fails : Stage → Bool
unlink_fails Stage.unlink = true
unlink_fails _ = false
