-- ===== src/Api/ProblemController.antt =====
-- main-api/src/controllers/problem.controller.ts: the problems of a contest, and the import of a new one
-- by the polygon service. `polygon_url` in `add_problem` is the request's field; the service's address is
-- `service_url`.
pub mod Import
use Prim.Native.String.{◌++◌}
use judge_self.Common.{
  String, Bool, true, false, Option, none, some, List, [], ◌∷◌, ◌==◌, ◌||◌, if◌then◌else◌,
}
use judge_self.Api.Http.{
  Param, first_value, truthy, DecodedToken, Outgoing, Outcome, Fetched, refuse, throws, proxy_fetch,
}
use judge_self.Api.Repositories.{
  Queries, Found, value, thrown, ContestData, ProblemRecord, get_contest_by_id,
  get_problem_by_contest_id_and_index, get_problem_by_id,
}

abbrev pub has_index : String → Option String → Bool
has_index problem_index none = false
has_index problem_index (some index) = index == problem_index

-- `problems?.find((problem) => problem.problem_index === problemIndex)` finds one.
unfoldable pub index_taken : String → List ProblemRecord → Bool
index_taken problem_index [] = false
index_taken problem_index (p ∷ ps) =
    has_index problem_index p.problem_index || index_taken problem_index ps

abbrev pub index_exists : String → Option (List ProblemRecord) → Bool
index_exists problem_index none = false
index_exists problem_index (some ps) = index_taken problem_index ps

module _ (q : Queries) (fetch : Outgoing → Fetched) (json_of : String → String → String)
    (service_url : String) where
  -- `json_of` is `JSON.stringify({ contestId, polygonUrl })`.
  abbrev pub import_request : String → String → Outgoing
  import_request contest_id polygon_url = record {
    method = "POST";
    url = service_url ++ "/api/problems/import";
    body = json_of contest_id polygon_url;
  }

  abbrev pub import_into : DecodedToken → String → String → String → ContestData → Outcome
  import_into auth contest_id problem_index polygon_url contest =
      if contest.owner_id == auth.id
      then (if index_exists problem_index contest.problems
          then refuse 400 "Problem with this index already exists"
          else proxy_fetch fetch (import_request contest_id polygon_url))
      else refuse 403 "You are not authorized to add problems to this contest"

  abbrev pub import_if_found :
      DecodedToken → String → String → String → Found (Option ContestData) → Outcome
  import_if_found auth contest_id problem_index polygon_url thrown = throws
  import_if_found auth contest_id problem_index polygon_url (value none) =
      refuse 404 "Invalid Contest Id"
  import_if_found auth contest_id problem_index polygon_url (value (some contest)) =
      import_into auth contest_id problem_index polygon_url contest

  abbrev pub add_named_problem :
      DecodedToken → Option String → Option String → Option String → Outcome
  add_named_problem auth none problem_index polygon_url = refuse 400 "Valid Contest Id is required"
  add_named_problem auth (some c) none polygon_url = refuse 400 "Valid Problem Index is required"
  add_named_problem auth (some c) (some i) none = refuse 400 "Valid Polygon Url is required"
  add_named_problem auth (some c) (some i) (some u) =
      import_if_found auth c i u (get_contest_by_id q c true)

  unfoldable pub add_problem : DecodedToken → Param → Param → Param → Outcome
  unfolding index_taken
  add_problem auth contest_id problem_index polygon_url =
      add_named_problem auth (truthy (first_value contest_id)) (truthy (first_value problem_index))
        (truthy (first_value polygon_url))

-- The answer for one problem.
pub data ProblemReply : Type 0 where
  refused : String → ProblemReply
  not_found : String → ProblemReply
  found : ProblemRecord → ProblemReply
  internal_error : ProblemReply

abbrev pub problem_reply : String → Found (Option ProblemRecord) → ProblemReply
problem_reply missing thrown = internal_error
problem_reply missing (value none) = not_found missing
problem_reply missing (value (some p)) = found p

module _ (q : Queries) where
  abbrev pub problem_with_index : Option String → Option String → ProblemReply
  problem_with_index none index = refused "Valid Contest Id is required"
  problem_with_index (some c) none = refused "Valid Problem Index is required"
  problem_with_index (some c) (some i) =
      problem_reply "Invalid Problem Index" (get_problem_by_contest_id_and_index q c i)

  unfoldable pub get_problem : Param → Param → ProblemReply
  get_problem contest_id problem_index =
      problem_with_index (truthy (first_value contest_id)) (truthy (first_value problem_index))

  abbrev pub problem_with_id : Option String → ProblemReply
  problem_with_id none = refused "Valid Problem Id is required"
  problem_with_id (some id) = problem_reply "Invalid Problem Id" (get_problem_by_id q id)

  unfoldable pub get_problem_by_id_reply : Param → ProblemReply
  get_problem_by_id_reply problem_id = problem_with_id (truthy (first_value problem_id))
