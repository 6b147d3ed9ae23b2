-- ===== src/Api/ContestController.antt =====
-- main-api/src/controllers/contest.controller.ts, and createContest of repositories/contest.repository.ts.
use judge_self.Common.{String, Bool, false, Option, none, some, ◌==◌}
use judge_self.Api.Http.{Param, first_value, truthy, DecodedToken}
use judge_self.Api.Repositories.{
  Queries, Answer, Found, value, thrown, first_row, ContestRow, ContestData, get_contest_by_id,
}

pub data ContestReply : Type 0 where
  refused : String → ContestReply
  not_found : String → ContestReply
  -- with the row that the INSERT statement returns
  created : Option ContestRow → ContestReply
  found : ContestData → ContestReply
  internal_error : ContestReply

-- The answer of the database to the INSERT of a name, a start, an end and an owner.
abbrev pub Insertion : Type 0
Insertion = String → String → String → String → Answer ContestRow

unfoldable pub insert_contest :
    Insertion → String → String → String → String → Found (Option ContestRow)
insert_contest insertion name start_time end_time owner_id =
    first_row (insertion name start_time end_time owner_id)

abbrev pub created_reply : Found (Option ContestRow) → ContestReply
created_reply thrown = internal_error
created_reply (value row) = created row

abbrev pub create_given :
    Insertion → DecodedToken → Option String → Option String → Option String → ContestReply
create_given insertion user none start_time end_time = refused "Valid Contest Name is required"
create_given insertion user (some name) none end_time =
    refused "Valid Contest Start Time is required"
create_given insertion user (some name) (some start_time) none =
    refused "Valid Contest End Time is required"
create_given insertion user (some name) (some start_time) (some end_time) =
    created_reply (insert_contest insertion name start_time end_time user.id)

unfoldable pub create_contest : Insertion → DecodedToken → Param → Param → Param → ContestReply
unfolding insert_contest
create_contest insertion user name start_time end_time =
    create_given insertion user (truthy (first_value name)) (truthy (first_value start_time))
      (truthy (first_value end_time))

abbrev pub contest_reply : Found (Option ContestData) → ContestReply
contest_reply thrown = internal_error
contest_reply (value none) = not_found "Invalid Contest Id"
contest_reply (value (some contest)) = found contest

-- `request.query.includeProblems === 'true'`
abbrev pub includes_problems : Param → Bool
includes_problems (Param.single s) = s == "true"
includes_problems _ = false

module _ (q : Queries) where
  abbrev pub contest_given : Option String → Bool → ContestReply
  contest_given none include = refused "Valid Contest Id is required"
  contest_given (some id) include = contest_reply (get_contest_by_id q id include)

  unfoldable pub get_contest : Param → Param → ContestReply
  get_contest contest_id include_problems =
      contest_given (truthy (first_value contest_id)) (includes_problems include_problems)
