-- ===== src/Status/Service/Laws.antt =====
-- The pages of services/status.service.ts together hold every submission once.
use judge_self.Common.{ℕ, suc, ◌<◌, String, ◌≡◌, Option, List, length}
use judge_self.Common.Int.{pos}
use judge_self.Common.Paging.{page, pages, pages-ceil_div, ceil_div}
use judge_self.Database.{Database}
use judge_self.Status.Repository.{
  Submission, fetched, all_submissions, get_submissions_from_db, all_problem_submissions,
  get_problem_submissions_from_db,
}
use judge_self.Status.Repository.Pages.{
  HasProblems, IsNewestFirst, all_submissions-IsNewestFirst, all_problem_submissions-IsNewestFirst,
  get_submissions_count_lem, get_problem_submissions_count_lem, limited-page,
}
use judge_self.Status.Service.{StatusPage, get_submissions, get_submissions_for_problem}

-- Page k + 1 of a list of rows, with the numbers that the whole list gives.
abbrev pub page_of : ℕ → ℕ → List Submission → StatusPage
page_of k limit rows = record {
  submissions = page limit k rows;
  current_page = pos (suc k);
  total_pages = ceil_div (length rows) limit;
  total_submissions = length rows;
}

-- If every submission's problem exists and the page size is positive, a page number from 1 on yields the slice of the rows of that number,
-- and the number of rows and of pages; the slices up to that number of pages make up all rows; and of
-- all rows none has an earlier creation time than a later one.
pub get_submissions-pages :
    (db : Database) (contest_id user_id : Option String) (k limit : ℕ)
    → HasProblems db
    → 0 < limit
    → (get_submissions db (pos (suc k)) limit contest_id user_id
        ≡ fetched (page_of k limit (all_submissions db contest_id user_id)))
      × (pages limit
            (page_of k limit (all_submissions db contest_id user_id)).total_pages
            (all_submissions db contest_id user_id)
          ≡ all_submissions db contest_id user_id)
      × IsNewestFirst (all_submissions db contest_id user_id)
unfolding get_submissions get_submissions_from_db
get_submissions-pages db contest_id user_id k limit h pos_limit = (
  rw (
    limited-page k limit (all_submissions db contest_id user_id) pos_limit,
    get_submissions_count_lem db contest_id user_id h,
  ),
  pages-ceil_div limit (all_submissions db contest_id user_id) pos_limit,
  all_submissions-IsNewestFirst db contest_id user_id,
)

-- For the submissions to one problem, if every submission's problem exists and the page size is
-- positive, a page number from 1 on yields the slice of the rows of that number,
-- with the number of rows and of pages, and the slices up to that number of pages make up all rows, the newest first.
pub get_submissions_for_problem-pages :
    (db : Database) (problem_id : String) (user_id : Option String) (k limit : ℕ)
    → HasProblems db
    → 0 < limit
    → (get_submissions_for_problem db (pos (suc k)) limit problem_id user_id
        ≡ fetched (page_of k limit (all_problem_submissions db problem_id user_id)))
      × (pages limit
            (page_of k limit (all_problem_submissions db problem_id user_id)).total_pages
            (all_problem_submissions db problem_id user_id)
          ≡ all_problem_submissions db problem_id user_id)
      × IsNewestFirst (all_problem_submissions db problem_id user_id)
unfolding get_submissions_for_problem get_problem_submissions_from_db
get_submissions_for_problem-pages db problem_id user_id k limit h pos_limit = (
  rw (
    limited-page k limit (all_problem_submissions db problem_id user_id) pos_limit,
    get_problem_submissions_count_lem db problem_id user_id h,
  ),
  pages-ceil_div limit (all_problem_submissions db problem_id user_id) pos_limit,
  all_problem_submissions-IsNewestFirst db problem_id user_id,
)
