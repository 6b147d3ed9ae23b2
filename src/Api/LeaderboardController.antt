-- ===== src/Api/LeaderboardController.antt =====
-- main-api/src/controllers/leaderboard.controller.ts: the leaderboard service's routes, those that
-- recalculate for the owner of the contest only. `base_url` is `leaderboardBaseUrl`.
pub mod Access
use Prim.Native.String.{◌++◌}
use judge_self.Common.{String, Bool, true, false, Option, none, some, ◌==◌, if◌then◌else◌}
use judge_self.Api.Http.{
  Param, first_value, truthy, DecodedToken, Outgoing, Outcome, Fetched, refuse, throws, proxy_fetch,
}
use judge_self.Api.Repositories.{Queries, Found, value, thrown, ContestData, get_contest_by_id}

abbrev pub page_segment : Option String → String
page_segment none = ""
page_segment (some page) = "/" ++ page

abbrev pub get_from : String → Outgoing
get_from url = record { method = "GET"; url = url; body = "" }

abbrev pub post_to : String → Outgoing
post_to url = record { method = "POST"; url = url; body = "" }

module _ (q : Queries) (fetch : Outgoing → Fetched) (base_url : String) where
  abbrev pub owns : String → Found (Option ContestData) → Found Bool
  owns user_id thrown = thrown
  owns user_id (value none) = value false
  owns user_id (value (some contest)) = value (contest.owner_id == user_id)

  unfoldable pub is_contest_owner : String → String → Found Bool
  is_contest_owner contest_id user_id = owns user_id (get_contest_by_id q contest_id false)

  abbrev pub page_of : Option String → Option String → Outcome
  page_of none page = refuse 400 "Contest id is required"
  page_of (some contest_id) page =
      proxy_fetch fetch
        (get_from (base_url ++ ("/api/leaderboard/" ++ (contest_id ++ page_segment page))))

  unfoldable pub get_leaderboard : Param → Param → Outcome
  get_leaderboard contest_id page =
      page_of (truthy (first_value contest_id)) (truthy (first_value page))

  abbrev pub user_info : Option String → Option String → Option String → Outcome
  user_info (some contest_id) (some user_id) page = proxy_fetch fetch (
      get_from (
        base_url
        ++ ("/api/leaderboard/" ++ (contest_id ++ ("/user/" ++ (user_id ++ page_segment page))))))
  user_info _ _ page = refuse 400 "Contest id and user id are required"

  unfoldable pub get_user_leaderboard_info : Param → Param → Param → Outcome
  get_user_leaderboard_info contest_id user_id page =
      user_info (truthy (first_value contest_id)) (truthy (first_value user_id))
        (truthy (first_value page))

  abbrev pub if_owner : Found Bool → Outgoing → Outcome
  if_owner thrown request = throws
  if_owner (value false) request = refuse 403 "You are not authorized to recalculate this contest"
  if_owner (value true) request = proxy_fetch fetch request

  abbrev pub recalculate_user : DecodedToken → Option String → Option String → Outcome
  recalculate_user auth (some contest_id) (some user_id) =
      if_owner (is_contest_owner contest_id auth.id) (
        post_to
          (base_url ++ ("/api/leaderboard/" ++ (contest_id ++ ("/recalculate/user/" ++ user_id)))))
  recalculate_user auth _ _ = refuse 400 "Contest id and user id are required"

  unfoldable pub force_recalculate_user : DecodedToken → Param → Param → Outcome
  force_recalculate_user auth contest_id user_id =
      recalculate_user auth (truthy (first_value contest_id)) (truthy (first_value user_id))

  abbrev pub recalculate_contest : DecodedToken → Option String → Outcome
  recalculate_contest auth none = refuse 400 "Contest id is required"
  recalculate_contest auth (some contest_id) =
      if_owner (is_contest_owner contest_id auth.id)
        (post_to (base_url ++ ("/api/leaderboard/" ++ (contest_id ++ "/recalculate/contest"))))

  unfoldable pub force_recalculate_contest : DecodedToken → Param → Outcome
  force_recalculate_contest auth contest_id =
      recalculate_contest auth (truthy (first_value contest_id))
