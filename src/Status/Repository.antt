-- ===== src/Status/Repository.antt =====
-- status-service/src/repository/status.repository.ts and problem.repository.ts: the queries for a page
-- of submissions and for their number. An optional argument that is an empty text counts as missing.
pub mod Pages
use judge_self.Common.{
  ℕ, suc, ◌+◌, ◌*◌, ◌-◌, String, Bool, true, false, ◌&&◌, Option, none, some, List, [], ◌∷◌, ◌==◌,
  eqb, keep, map, take, drop, count_if, find_first, length, if◌then◌else◌,
}
use judge_self.Common.Int.{ℤ, pos, negsuc, ◌-ℤ◌}
use judge_self.Common.Sort.{sort}
use judge_self.Database.{Database, SubmissionRow, ProblemRow, problem_of, has_contest}

-- `SubmissionRow` of the service
pub record Submission : Type 0 where
  pub submission_id : String
  pub user_id : String
  pub problem_id : String
  pub contest_id : String
  pub problem_index : Option String
  pub status : String
  pub time : ℕ
  pub memory : ℕ
  pub created_at : ℤ

-- A value, or an exception.
pub data Fetched (A : Type 0) : Type 0 where
  fetched : A → Fetched A
  thrown : Fetched A

abbrev pub given : Option String → Option String
given none = none
given (some s) = if s == "" then none else some s

-- `x = $n` where the condition is part of the query
abbrev pub agrees : Option String → String → Bool
agrees none x = true
agrees (some y) x = x == y

abbrev pub or_zero : Option ℕ → ℕ
or_zero none = 0
or_zero (some n) = n

pub record Joined : Type 0 where
  pub submission : SubmissionRow
  pub problem : ProblemRow

-- FROM submissions s JOIN problems p ON s.problem_id = p.id
abbrev pub add_joined : SubmissionRow → Option ProblemRow → List Joined → List Joined
add_joined s none rest = rest
add_joined s (some p) rest = record { submission = s; problem = p } ∷ rest

unfoldable pub join : Database → List SubmissionRow → List Joined
join db [] = []
join db (s ∷ rest) = add_joined s (problem_of db s) (join db rest)

abbrev pub by_latest : Joined → Joined → ℤ
by_latest a b = b.submission.created_at -ℤ a.submission.created_at

abbrev pub to_submission : Joined → Submission
to_submission j = record {
  submission_id = j.submission.id;
  user_id = j.submission.user_id;
  problem_id = j.submission.problem_id;
  contest_id = j.problem.contest_id;
  problem_index = j.problem.problem_index;
  status = j.submission.status;
  time = or_zero j.submission.time;
  memory = or_zero j.submission.memory;
  created_at = j.submission.created_at;
}

-- OFFSET of `(page - 1) * limit`, which the database refuses below 0. A limit of 0 counts as missing.
abbrev pub cut {ℓ} : {A : Type ℓ} → ℤ → ℕ → List A → Option (List A)
cut (pos (suc k)) limit rows = some (take limit (drop (k * limit) rows))
cut _ limit rows = none

abbrev pub limited : {A : Type 0} → ℤ → Option ℕ → List A → Fetched (List A)
limited page none rows = fetched rows
limited page (some limit) rows =
    if eqb limit 0
    then fetched rows
    else elim (cut page limit rows) [ none ↦ thrown | some found ↦ fetched found ]

-- The conditions of WHERE, for the arguments that count.
abbrev pub is_selected : Option String → Option String → Joined → Bool
is_selected contest_id user_id j =
    agrees contest_id j.problem.contest_id && agrees user_id j.submission.user_id

-- All rows of the query, before LIMIT and OFFSET.
unfoldable pub all_submissions : Database → Option String → Option String → List Submission
all_submissions db contest_id user_id = map to_submission (
    sort by_latest (keep (is_selected (given contest_id) (given user_id)) (join db db.submissions)))

unfoldable pub get_submissions_from_db :
    Database → Option String → Option String → ℤ → Option ℕ → Fetched (List Submission)
get_submissions_from_db db contest_id user_id page limit =
    limited page limit (all_submissions db contest_id user_id)

-- Without a contest the count does not join.
abbrev pub count_selected : Database → Option String → Option String → ℕ
count_selected db none user_id = count_if (λ s. agrees user_id s.user_id) db.submissions
count_selected db (some contest_id) user_id =
    count_if (is_selected (some contest_id) user_id) (join db db.submissions)

unfoldable pub get_submissions_count : Database → Option String → Option String → ℕ
get_submissions_count db contest_id user_id = count_selected db (given contest_id) (given user_id)

abbrev pub is_of_problem : String → Option String → Joined → Bool
is_of_problem problem_id user_id j =
    j.submission.problem_id == problem_id && agrees (given user_id) j.submission.user_id

unfoldable pub all_problem_submissions : Database → String → Option String → List Submission
all_problem_submissions db problem_id user_id =
    map to_submission
      (sort by_latest (keep (is_of_problem problem_id user_id) (join db db.submissions)))

unfoldable pub get_problem_submissions_from_db :
    Database → String → Option String → ℤ → Option ℕ → Fetched (List Submission)
get_problem_submissions_from_db db problem_id user_id page limit =
    limited page limit (all_problem_submissions db problem_id user_id)

unfoldable pub get_problem_submissions_count : Database → String → Option String → ℕ
get_problem_submissions_count db problem_id user_id =
    count_if (λ s. s.problem_id == problem_id && agrees (given user_id) s.user_id) db.submissions
