-- ===== src/Status/Tests.antt =====
-- Runs of the status service's model: three submissions, one of which is being judged.
use judge_self.Common.{ℕ, String, ◌≡◌, refl, true, false, none, some, List, [], ◌∷◌, arith}
use judge_self.Common.Int.{pos}
use judge_self.Common.Paging.{pages}
use judge_self.Database.{Database, ProblemRow, SubmissionRow}
use judge_self.Redis.{Redis}
use judge_self.Redis.Memory.{Memory, memory, no_data}
use judge_self.Status.Repository.{fetched, all_submissions, all_problem_submissions}
use judge_self.Status.Repository.Pages.{HasProblems, IsNewestFirst}
use judge_self.Status.Live.{StatusMessage, redis_key, on_messages}
use judge_self.Status.Live.Latest.{latest, on_messages-latest}
use judge_self.Status.Service.{get_submissions, get_submissions_for_problem}
use judge_self.Status.Service.Laws.{
  page_of, get_submissions-pages, get_submissions_for_problem-pages,
}

abbrev submission : String → ℕ → String → SubmissionRow
submission id created_at status = record {
  id = id;
  problem_id = "a";
  user_id = "ann";
  type = "RATED";
  status = status;
  time = some 15;
  memory = none;
  results = none;
  created_at = pos created_at;
}

abbrev problem : ProblemRow
problem = record { id = "a"; contest_id = "c1"; problem_index = some "A" }

abbrev database : Database
database = record {
  problems = problem ∷ [];
  submissions = submission "s1" 10 "AC" ∷ submission "s2" 20 "QUEUE" ∷ submission "s3" 30 "WA" ∷ [];
  contests = [];
  contest_results = [];
}

abbrev statuses : Redis String (Memory String)
statuses = memory String

abbrev empty_store : Memory String
empty_store = no_data

abbrev running : String → String → StatusMessage
running id status = record { submission_id = id; running = true; status = status }

abbrev messages : List StatusMessage
messages =
    running "s2" "Running on test 1"
    ∷ record { submission_id = "s9"; running = false; status = "" }
    ∷ running "s2" "Running on test 2"
    ∷ []

-- All submissions have problem a.
database-HasProblems : HasProblems database
database-HasProblems = ((problem, refl), ((problem, refl), ((problem, refl), tt)))

get_submissions-pages_example :
    (get_submissions database (pos 2) 2 (some "c1") none
      ≡ fetched (page_of 1 2 (all_submissions database (some "c1") none)))
    × (pages 2
          (page_of 1 2 (all_submissions database (some "c1") none)).total_pages
          (all_submissions database (some "c1") none)
        ≡ all_submissions database (some "c1") none)
    × IsNewestFirst (all_submissions database (some "c1") none)
get_submissions-pages_example =
    get_submissions-pages database (some "c1") none 1 2 database-HasProblems (omega arith)

get_submissions_for_problem-pages_example :
    (get_submissions_for_problem database (pos 1) 2 "a" (some "ann")
      ≡ fetched (page_of 0 2 (all_problem_submissions database "a" (some "ann"))))
    × (pages 2
          (page_of 0 2 (all_problem_submissions database "a" (some "ann"))).total_pages
          (all_problem_submissions database "a" (some "ann"))
        ≡ all_problem_submissions database "a" (some "ann"))
    × IsNewestFirst (all_problem_submissions database "a" (some "ann"))
get_submissions_for_problem-pages_example =
    get_submissions_for_problem-pages database "a" (some "ann") 0 2 database-HasProblems
      (omega arith)

on_messages-latest_example :
    statuses.hget (on_messages statuses empty_store messages) redis_key "s2"
    ≡ latest "s2" messages (statuses.hget empty_store redis_key "s2")
on_messages-latest_example = on_messages-latest statuses empty_store messages "s2"
