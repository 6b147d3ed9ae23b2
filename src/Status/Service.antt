-- ===== src/Status/Service.antt =====
-- status-service/src/services/status.service.ts and http/controller.ts: the pages of submissions.
-- `addStatusFromRedis` is not awaited, and whatever becomes of its request to Redis comes in a later turn
-- of the event loop than the one that sends the page: a page holds the statuses of the database.
pub mod Laws
use judge_self.Common.{ℕ, String, Option, none, some, List}
use judge_self.Common.Int.{ℤ, pos}
use judge_self.Common.Number.{parse_int, or_default}
use judge_self.Common.Paging.{ceil_div}
use judge_self.Database.{Database}
use judge_self.Status.Repository.{
  Submission, Fetched, fetched, thrown, get_submissions_from_db, get_submissions_count,
  get_problem_submissions_from_db, get_problem_submissions_count,
}

pub record StatusPage : Type 0 where
  pub submissions : List Submission
  pub current_page : ℤ
  pub total_pages : ℕ
  pub total_submissions : ℕ

abbrev pub to_page : ℤ → ℕ → ℕ → Fetched (List Submission) → Fetched StatusPage
to_page page limit total thrown = thrown
to_page page limit total (fetched submissions) = fetched (record {
  submissions = submissions;
  current_page = page;
  total_pages = ceil_div total limit;
  total_submissions = total;
})

unfoldable pub get_submissions :
    Database → ℤ → ℕ → Option String → Option String → Fetched StatusPage
get_submissions db page limit contest_id user_id =
    to_page page limit (get_submissions_count db contest_id user_id)
      (get_submissions_from_db db contest_id user_id page (some limit))

unfoldable pub get_submissions_for_problem :
    Database → ℤ → ℕ → String → Option String → Fetched StatusPage
get_submissions_for_problem db page limit problem_id user_id =
    to_page page limit (get_problem_submissions_count db problem_id user_id)
      (get_problem_submissions_from_db db problem_id user_id page (some limit))

-- An answer of the service: its status code, and the page if there is one.
pub data Response : Type 0 where
  json : StatusPage → Response
  internal_server_error : Response

abbrev pub respond : Fetched StatusPage → Response
respond (fetched page) = json page
respond thrown = internal_server_error

-- `parseInt(req.params.page) || 1`
abbrev pub page_number : Option String → ℤ
page_number none = pos 1
page_number (some text) = or_default (pos 1) (parse_int text)

abbrev pub page_limit : ℕ
page_limit = 30

unfoldable pub get_status_page : Database → Option String → Option String → Option String → Response
get_status_page db page contest_id user_id =
    respond (get_submissions db (page_number page) page_limit contest_id user_id)

unfoldable pub get_problem_status_page :
    Database → Option String → String → Option String → Response
get_problem_status_page db page problem_id user_id =
    respond (get_submissions_for_problem db (page_number page) page_limit problem_id user_id)
