-- ===== src/Api/Repositories.antt =====
-- main-api/src/repositories: the queries, over what the database answers to them. That a query fails is
-- an answer too: the ones for a contest cast its identifier to `uuid`.
use judge_self.Common.{ℕ, String, Bool, true, false, Option, none, some, List, [], ◌∷◌}
use judge_self.Common.Int.{ℤ}

-- Rows, or an error.
pub data Answer (A : Type 0) : Type 0 where
  rows : List A → Answer A
  failed : Answer A

-- What a repository's function returns, or an exception.
pub data Found (A : Type 0) : Type 0 where
  value : A → Found A
  thrown : Found A

-- The columns that the queries for problems select.
pub record ProblemRecord : Type 0 where
  pub id : String
  pub contest_id : String
  pub problem_index : Option String
  pub name : String
  pub statement : String
  pub input_statement : String
  pub output_statement : String
  pub examples : String
  pub notes : String
  pub images_key : List String
  pub tags : List String
  pub memory_limit : ℕ
  pub time_limit : ℕ
  pub test_count : ℕ
  pub input_type : String
  pub output_type : String
  pub author_name : String

-- A row of the table.
pub record ContestRow : Type 0 where
  pub id : String
  pub name : String
  pub start_time : ℤ
  pub end_time : ℤ
  pub owner_id : String

-- `problems` is `none` where the source leaves it undefined.
pub record ContestData : Type 0 where
  pub id : String
  pub name : String
  pub start_time : ℤ
  pub end_time : ℤ
  pub owner_id : String
  pub problems : Option (List ProblemRecord)

-- `results` is the text of the JSON value in that column.
pub record SubmissionData : Type 0 where
  pub id : String
  pub problem_id : String
  pub user_id : String
  pub type : String
  pub code : String
  pub language : String
  pub status : String
  pub time : Option ℕ
  pub memory : Option ℕ
  pub results : Option String
  pub relative_submission_time : Option ℤ
  pub created_at : ℤ
  pub contest_id : String
  pub contest_owner_id : String
  pub contest_start_time : ℤ
  pub contest_end_time : ℤ

-- The answers of the database to the queries of contest.repository.ts, problems.repository.ts and
-- submission.repository.ts.
pub record Queries : Type 0 where
  pub contests_with_id : String → Answer ContestRow
  pub problems_of_contest : String → Answer ProblemRecord
  pub problems_with_index : String → String → Answer ProblemRecord
  pub problems_with_id : String → Answer ProblemRecord
  pub submissions_with_id : String → Answer SubmissionData

-- `rows[0] ?? null`
abbrev pub first_row : {A : Type 0} → Answer A → Found (Option A)
first_row (rows []) = value none
first_row (rows (r ∷ rest)) = value (some r)
first_row failed = thrown

abbrev pub all_rows : {A : Type 0} → Answer A → Found (List A)
all_rows (rows rs) = value rs
all_rows failed = thrown

abbrev pub to_contest : ContestRow → Option (List ProblemRecord) → ContestData
to_contest c ps = record {
  id = c.id;
  name = c.name;
  start_time = c.start_time;
  end_time = c.end_time;
  owner_id = c.owner_id;
  problems = ps;
}

abbrev pub with_problems : ContestRow → Found (List ProblemRecord) → Found (Option ContestData)
with_problems c (value ps) = value (some (to_contest c (some ps)))
with_problems c thrown = thrown

module _ (q : Queries) where
  unfoldable pub get_problems_data_by_contest_id : String → Found (List ProblemRecord)
  get_problems_data_by_contest_id contest_id = all_rows (q.problems_of_contest contest_id)

  unfoldable pub get_problem_by_id : String → Found (Option ProblemRecord)
  get_problem_by_id problem_id = first_row (q.problems_with_id problem_id)

  unfoldable pub get_problem_by_contest_id_and_index :
      String → String → Found (Option ProblemRecord)
  get_problem_by_contest_id_and_index contest_id index =
      first_row (q.problems_with_index contest_id index)

  abbrev contest_data : String → Bool → Found (Option ContestRow) → Found (Option ContestData)
  contest_data id include thrown = thrown
  contest_data id include (value none) = value none
  contest_data id true (value (some c)) = with_problems c (all_rows (q.problems_of_contest id))
  contest_data id false (value (some c)) = value (some (to_contest c none))

  unfoldable pub get_contest_by_id : String → Bool → Found (Option ContestData)
  get_contest_by_id id include_problem_data =
      contest_data id include_problem_data (first_row (q.contests_with_id id))

  unfoldable pub get_submission_by_id : String → Found (Option SubmissionData)
  get_submission_by_id submission_id = first_row (q.submissions_with_id submission_id)
