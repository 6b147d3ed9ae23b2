-- ===== src/Database.antt =====
-- The PostgreSQL tables of docker/postgres/init.sql, with the columns that the services read and
-- write. Identifiers and texts are texts, a timestamp is an integer that the queries only compare.
-- A query of the source is modelled where it stands, over these lists; ORDER BY is a sort that
-- keeps the order of the table for rows that compare equal, which SQL leaves open.
use judge_self.Common.{ℕ, String, Bool, false, Option, none, some, List, ◌==◌, find_first}
use judge_self.Common.Int.{ℤ}
use judge_self.Common.Assoc.{Assoc}
use judge_self.Leaderboard.Types.{ProblemDetail}

pub record ProblemRow : Type 0 where
  pub id : String
  pub contest_id : String
  -- null for a problem that is deleted
  pub problem_index : Option String

pub record SubmissionRow : Type 0 where
  pub id : String
  pub problem_id : String
  pub user_id : String
  -- "PRACTICE" or "RATED"
  pub type : String
  pub status : String
  pub time : Option ℕ
  pub memory : Option ℕ
  pub results : Option String
  pub created_at : ℤ

pub record ContestRow : Type 0 where
  pub id : String
  pub name : String
  pub owner_id : String
  pub start_time : ℤ
  pub end_time : ℤ
  pub leaderboard_frozen : Bool

pub record ResultRow : Type 0 where
  pub contest_id : String
  pub user_id : String
  pub rank : ℕ
  pub score : ℤ
  pub problems_solved : ℕ
  pub penalty : ℤ
  pub problem_details : Assoc ProblemDetail

pub record Database : Type 0 where
  pub problems : List ProblemRow
  pub submissions : List SubmissionRow
  pub contests : List ContestRow
  pub contest_results : List ResultRow

-- `JOIN problems p ON s.problem_id = p.id`: the key of `problems` is unique.
abbrev pub problem_of : Database → SubmissionRow → Option ProblemRow
problem_of db s = find_first (λ p. p.id == s.problem_id) db.problems

-- `p.contest_id = $1`, of a submission's problem
abbrev pub has_contest : String → Option ProblemRow → Bool
has_contest contest_id none = false
has_contest contest_id (some p) = p.contest_id == contest_id

abbrev pub is_in_contest : Database → String → SubmissionRow → Bool
is_in_contest db contest_id s = has_contest contest_id (problem_of db s)

abbrev pub contest_by_id : Database → String → Option ContestRow
contest_by_id db contest_id = find_first (λ c. c.id == contest_id) db.contests
