-- ===== src/Api/Tests.antt =====
-- Runs of the public service's controllers: "eve" owns contest c1, which has a problem A.
use judge_self.Common.{
  String, ◌≡◌, refl, ap, Option, none, some, [], ◌∷◌, ◌==◌, length, arith, if◌then◌else◌,
}
use judge_self.Common.Int.{pos}
use judge_self.Api.Http.{
  single, first_value, truthy, DecodedToken, message, Outgoing, Fetched, json, proxy_fetch,
}
use judge_self.Api.Repositories.{
  Answer, rows, Queries, ContestRow, ProblemRecord, SubmissionData, get_contest_by_id,
  get_submission_by_id, get_problems_data_by_contest_id,
}
use judge_self.Api.LeaderboardController.{is_contest_owner, force_recalculate_contest}
use judge_self.Api.LeaderboardController.Access.{IsOwnerOf, force_recalculate_contest-IsOwnerOf}
use judge_self.Api.ProblemController.{add_problem, index_taken}
use judge_self.Api.ProblemController.Import.{IsImport, add_problem-IsImport}
use Prim.Native.String.{◌++◌ as ◌<>◌}
use judge_self.Api.Middleware.{Handled, answered, protected}
use judge_self.Api.Middleware.Verified.{has_space, answer_to, protected-verified}
use judge_self.Api.StatusController.{get_submission, found}
use judge_self.Api.StatusController.Visibility.{MaySee, get_submission-MaySee}

abbrev submission : SubmissionData
submission = record {
  id = "s1";
  problem_id = "p1";
  user_id = "ann";
  type = "RATED";
  code = "";
  language = "cpp";
  status = "WA";
  time = some 15;
  memory = none;
  results = some "[3]";
  relative_submission_time = none;
  created_at = pos 3;
  contest_id = "c1";
  contest_start_time = pos 0;
  contest_owner_id = "eve";
  contest_end_time = pos 5000;
}

abbrev only : {A : Type 0} → String → String → A → Answer A
only id key a = if key == id then rows (a ∷ []) else rows []

abbrev problem : ProblemRecord
problem = record {
  id = "p1";
  contest_id = "c1";
  problem_index = some "A";
  name = "Sum";
  statement = "";
  input_statement = "";
  output_statement = "";
  examples = "";
  notes = "";
  images_key = [];
  tags = [];
  memory_limit = 256;
  time_limit = 1000;
  test_count = 12;
  input_type = "stdin";
  output_type = "stdout";
  author_name = "";
}

abbrev round : ContestRow
round = record {
  id = "c1";
  name = "Round 1";
  start_time = pos 0;
  end_time = pos 5000;
  owner_id = "eve";
}

abbrev queries : Queries
queries = record {
  contests_with_id = λ id. only "c1" id round;
  problems_of_contest = λ id. only "c1" id problem;
  problems_with_index = λ id index. only "A" index problem;
  problems_with_id = λ id. only "p1" id problem;
  submissions_with_id = λ id. only "s1" id submission;
}

abbrev answers : Outgoing → Fetched
answers request = json 200 "{}"

abbrev eve : DecodedToken
eve = record { id = "eve"; username = "Eve" }

abbrev bob : DecodedToken
bob = record { id = "bob"; username = "Bob" }

abbrev url : String
url = "http://leaderboard"

force_recalculate_contest-IsOwnerOf_example :
    (c : String) × (truthy (first_value (single "c1")) ≡ some c)
    × IsOwnerOf queries answers url eve c
unfolding force_recalculate_contest first_value is_contest_owner get_contest_by_id proxy_fetch
force_recalculate_contest-IsOwnerOf_example =
    force_recalculate_contest-IsOwnerOf queries answers url eve (single "c1")
      (λ e. absurd (omega (arith, ap length e)))

abbrev body_of : String → String → String
body_of contest_id polygon_url = contest_id

add_problem-IsImport_example :
    (c i u : String) × (truthy (first_value (single "c1")) ≡ some c)
    × (truthy (first_value (single "B")) ≡ some i)
    × (truthy (first_value (single "p/2")) ≡ some u)
    × IsImport queries answers body_of url eve c i u
        (add_problem queries answers body_of url eve (single "c1") (single "B") (single "p/2")).sent
unfolding add_problem index_taken first_value get_contest_by_id get_problems_data_by_contest_id
    proxy_fetch
add_problem-IsImport_example =
    add_problem-IsImport queries answers body_of url eve (single "c1") (single "B") (single "p/2")
      (λ e. absurd (omega (arith, ap length e)))

get_submission-MaySee_example :
    (MaySee (pos 10) bob submission
      → get_submission queries (pos 10) bob (single "s1") ≡ found submission)
    × ((MaySee (pos 10) bob submission → ⊥)
        → get_submission queries (pos 10) bob (single "s1")
          ≡ found (record submission { results = none }))
unfolding get_submission_by_id first_value
get_submission-MaySee_example =
    get_submission-MaySee queries (pos 10) bob (single "s1") submission "s1" refl refl

abbrev verify_access : String → Option DecodedToken
verify_access token = if token == "t1" then some (record { id = "u1"; username = "ann" }) else none

abbrev greet : DecodedToken → Handled
greet user = answered (record { status = 200; body = message user.username })

protected-verified_example :
    protected verify_access (some ("Bearer" <> (" " <> "t1"))) greet
    ≡ answer_to (verify_access "t1") greet
unfolding has_space
protected-verified_example =
    protected-verified verify_access "Bearer" "t1" greet refl refl (λ e. cc)
