-- ===== src/Api/StatusController.antt =====
-- main-api/src/controllers/status.controller.ts: the status pages, forwarded, and one submission, whose
-- results are shown to some callers only.
pub mod Visibility
use Prim.Native.String.{◌++◌}
use judge_self.Common.{String, Bool, true, false, ◌||◌, Option, none, some, ◌==◌, if◌then◌else◌}
use judge_self.Common.Int.{ℤ, leb_ℤ}
use judge_self.Api.Http.{
  Param, first_value, truthy, DecodedToken, Outgoing, Outcome, Fetched, proxy_fetch,
}
use judge_self.Api.Repositories.{
  Queries, Found, value, thrown, SubmissionData, get_submission_by_id,
}
use judge_self.Api.LeaderboardController.{page_segment, get_from}

abbrev pub shown_id : Option String → String
shown_id none = "undefined"
shown_id (some id) = id

module _ (fetch : Outgoing → Fetched) (base_url : String) where
  pub build_status_url : String → String
  build_status_url path = base_url ++ ("/api/status" ++ path)

  unfoldable pub get_status_page : Param → Outcome
  unfolding build_status_url
  get_status_page page =
      proxy_fetch fetch (get_from (build_status_url (page_segment (truthy (first_value page)))))

  abbrev pub scoped_path : String → Option String → Option String → Option String → String
  scoped_path scope id none page = scope ++ (shown_id id ++ page_segment page)
  scoped_path scope id (some user_id) page =
      scope ++ (shown_id id ++ ("/user/" ++ (user_id ++ page_segment page)))

  unfoldable pub get_contest_status_page : Param → Param → Param → Outcome
  unfolding build_status_url
  get_contest_status_page contest_id page user_id = proxy_fetch fetch (
      get_from (
        build_status_url (
          scoped_path "/contest/" (first_value contest_id) (truthy (first_value user_id))
            (truthy (first_value page)))))

  unfoldable pub get_problem_status_page : Param → Param → Param → Outcome
  unfolding build_status_url
  get_problem_status_page problem_id page user_id = proxy_fetch fetch (
      get_from (
        build_status_url (
          scoped_path "/problem/" (first_value problem_id) (truthy (first_value user_id))
            (truthy (first_value page)))))

-- The answer for one submission: the submission with its results or without them, or an error.
pub data SubmissionReply : Type 0 where
  refused : String → SubmissionReply
  not_found : String → SubmissionReply
  found : SubmissionData → SubmissionReply
  internal_error : SubmissionReply

module _ (q : Queries) (now : ℤ) (auth : DecodedToken) where
  abbrev pub contest_ended : SubmissionData → Bool
  contest_ended s = leb_ℤ s.contest_end_time now

  abbrev pub is_contest_owner : SubmissionData → Bool
  is_contest_owner s = s.contest_owner_id == auth.id

  abbrev pub is_submission_owner : SubmissionData → Bool
  is_submission_owner s = s.user_id == auth.id

  pub show_results : SubmissionData → Bool
  show_results s =
      if s.status == "INT"
      then is_contest_owner s
      else (is_contest_owner s || is_submission_owner s) || contest_ended s

  abbrev pub with_visible_results : SubmissionData → SubmissionData
  with_visible_results s = record s { results = if show_results s then s.results else none }

  abbrev pub submission_reply : Found (Option SubmissionData) → SubmissionReply
  submission_reply thrown = internal_error
  submission_reply (value none) = not_found "Invalid Submission Id"
  submission_reply (value (some s)) = found (with_visible_results s)

  abbrev pub submission_of : Option String → SubmissionReply
  submission_of none = refused "Submission id is required"
  submission_of (some id) = submission_reply (get_submission_by_id q id)

  unfoldable pub get_submission : Param → SubmissionReply
  unfolding show_results
  get_submission submission_id = submission_of (truthy (first_value submission_id))
