-- ===== src/Status/Repository/Pages.antt =====
-- The two queries of each repository of the status service agree: the pages hold as many rows as the
-- count says, and together all of them.
use judge_self.Common.{
  ℕ, zero, suc, ◌<◌, String, ◌≡◌, refl, sym, ap, ◌∙◌, Bool, ◌&&◌, Option, none, some, List, [], ◌∷◌,
  ◌==◌, arith, All, keep, map, count_if, length, length-map, length-keep, Bool-cases, inl, inr,
}
use judge_self.Common.Int.{pos, ◌≤ℤ◌, -ℤ_parts}
use judge_self.Common.Paging.{page}
use judge_self.Common.Sort.{sort}
use judge_self.Common.Sort.Laws.{Le, IsSorted, IsOrder, sort-IsSorted, length-sort}
use judge_self.Database.{Database, SubmissionRow, ProblemRow, problem_of}
use judge_self.Status.Repository.{
  Submission, fetched, given, agrees, Joined, join, by_latest, to_submission, limited, is_selected,
  all_submissions, count_selected, get_submissions_count, is_of_problem, all_problem_submissions,
  get_problem_submissions_count,
}

-- The foreign key of a submission's problem.
abbrev pub HasProblem : Database → SubmissionRow → Type 0
HasProblem db s = (p : ProblemRow) × (problem_of db s ≡ some p)

abbrev pub HasProblems : Database → Type 0
HasProblems db = All (HasProblem db) db.submissions

count_if-join :
    (db : Database) (q : SubmissionRow → Bool) (subs : List SubmissionRow)
    → All (HasProblem db) subs
    → count_if (λ j. q j.submission) (join db subs) ≡ count_if q subs
unfolding join
count_if-join db q [] h = refl
count_if-join db q (s ∷ subs) ((p, e), h) = rw e (elim (Bool-cases (q s)) [
  | inl t ↦ rw t (ap suc (count_if-join db q subs h))
  | inr f ↦ rw f (count_if-join db q subs h)
])

length-rows :
    (q : Joined → Bool) (js : List Joined)
    → length (map to_submission (sort by_latest (keep q js))) ≡ count_if q js
length-rows q js =
    length-map to_submission (sort by_latest (keep q js))
    ∙ length-sort by_latest (keep q js)
    ∙ length-keep q js

-- If every submission's problem exists, the count is the number of rows of the query whose pages are
-- sent, for every choice of contest and user.
pub get_submissions_count_lem :
    (db : Database) (contest_id user_id : Option String)
    → HasProblems db
    → get_submissions_count db contest_id user_id ≡ length (all_submissions db contest_id user_id)
unfolding get_submissions_count all_submissions
get_submissions_count_lem db contest_id user_id h =
    go (given contest_id)
    ∙ sym (length-rows (is_selected (given contest_id) (given user_id)) (join db db.submissions))
  where
    go :
        (o : Option String)
        → count_selected db o (given user_id)
          ≡ count_if (is_selected o (given user_id)) (join db db.submissions)
    go none = sym (count_if-join db (λ s. agrees (given user_id) s.user_id) db.submissions h)
    go (some c) = refl

pub get_problem_submissions_count_lem :
    (db : Database) (problem_id : String) (user_id : Option String)
    → HasProblems db
    → get_problem_submissions_count db problem_id user_id
      ≡ length (all_problem_submissions db problem_id user_id)
unfolding get_problem_submissions_count all_problem_submissions
get_problem_submissions_count_lem db problem_id user_id h =
    sym (
      count_if-join db (λ s. s.problem_id == problem_id && agrees (given user_id) s.user_id)
        db.submissions h)
    ∙ sym (length-rows (is_of_problem problem_id user_id) (join db db.submissions))

-- No submission was made before a later one of the list.
abbrev pub IsNewestFirst : List Submission → Type 0
IsNewestFirst [] = Unit
IsNewestFirst (s ∷ rest) = All (λ t. t.created_at ≤ℤ s.created_at) rest × IsNewestFirst rest

by_latest-IsOrder : IsOrder by_latest
by_latest-IsOrder = record {
  total = λ x y. omega (
    arith,
    -ℤ_parts y.submission.created_at x.submission.created_at,
    -ℤ_parts x.submission.created_at y.submission.created_at,
  );
  trans = λ x y z p q. omega (
    arith,
    -ℤ_parts y.submission.created_at x.submission.created_at,
    -ℤ_parts z.submission.created_at y.submission.created_at,
    -ℤ_parts z.submission.created_at x.submission.created_at,
  );
}

All-to_submission :
    (j : Joined) (js : List Joined)
    → All (Le by_latest j) js
    → All (λ t. t.created_at ≤ℤ (to_submission j).created_at) (map to_submission js)
All-to_submission j [] h = tt
All-to_submission j (k ∷ js) (p, h) = (
  omega (arith, -ℤ_parts k.submission.created_at j.submission.created_at),
  All-to_submission j js h,
)

IsNewestFirst-of_sorted :
    (js : List Joined) → IsSorted by_latest js → IsNewestFirst (map to_submission js)
IsNewestFirst-of_sorted [] h = tt
IsNewestFirst-of_sorted (j ∷ js) (below, h) =
    (All-to_submission j js below, IsNewestFirst-of_sorted js h)

pub all_submissions-IsNewestFirst :
    (db : Database) (contest_id user_id : Option String)
    → IsNewestFirst (all_submissions db contest_id user_id)
unfolding all_submissions
all_submissions-IsNewestFirst db contest_id user_id =
    IsNewestFirst-of_sorted _ (sort-IsSorted by_latest by_latest-IsOrder _)

pub all_problem_submissions-IsNewestFirst :
    (db : Database) (problem_id : String) (user_id : Option String)
    → IsNewestFirst (all_problem_submissions db problem_id user_id)
unfolding all_problem_submissions
all_problem_submissions-IsNewestFirst db problem_id user_id =
    IsNewestFirst-of_sorted _ (sort-IsSorted by_latest by_latest-IsOrder _)

-- Page k + 1 is the k-th slice.
pub limited-page :
    {A : Type 0} (k limit : ℕ) (rows : List A)
    → 0 < limit
    → limited (pos (suc k)) (some limit) rows ≡ fetched (page limit k rows)
limited-page k zero rows h = absurd (omega arith)
limited-page k (suc n) rows h = ground arith
