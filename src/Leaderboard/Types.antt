-- ===== src/Leaderboard/Types.antt =====
-- The data that the leaderboard service's files share: services/redis.service.ts,
-- tasks/rabbitmq.task.ts, services/scoring.service.ts, services/leaderboard.service.ts and
-- config/env.ts. A status stays a text: the type that the source declares for it lists six, and the
-- column that it is read from holds others too ('QUEUE').
use judge_self.Common.{ℕ, String, Bool, List}
use judge_self.Common.Int.{ℤ}
use judge_self.Common.Assoc.{Assoc}

-- One submission of a user to a problem, `ProblemProblemState`.
pub record ProblemState : Type 0 where
  pub submission_id : String
  pub relative_submitted_at : ℤ
  pub status : String

pub record UserContestMetadata : Type 0 where
  pub problems : Assoc (List ProblemState)
  pub processed_submissions : List String

abbrev pub empty_metadata : UserContestMetadata
empty_metadata = record { problems = List.[]; processed_submissions = List.[] }

-- A verdict of the execution engine, as the queue delivers it.
pub record QueueMessage : Type 0 where
  pub submission_id : String
  pub contest_id : String
  pub user_id : String
  pub problem_id : String
  pub status : String
  pub relative_submitted_at : ℤ

pub record ProblemDetail : Type 0 where
  pub solved : Bool
  pub wrong_attempts_before_ac : ℕ
  pub score_time : ℤ
  pub submissions : List ProblemState

pub record UserScore : Type 0 where
  pub score : ℤ
  pub solved : ℕ
  pub penalty : ℤ
  pub details : Assoc ProblemDetail

-- `env.penaltyOffset`
abbrev pub penalty_offset : ℕ
penalty_offset = 10000000
