-- ===== src/Polygon/Controller.antt =====
-- polygon-service/src/http/controller.ts: the import as it is asked for by the other services.
pub mod Answers
use judge_self.Common.{ℕ, zero, String, Bool, true, false, Option, none, some, ◌==◌, if◌then◌else◌}
use judge_self.Common.Int.{ℤ, pos}
use judge_self.Polygon.Xml.{Extracted, extracted, thrown}
use judge_self.Polygon.Problems.{Row}
use judge_self.Polygon.Disk.{World}
use judge_self.Polygon.Import.{Outside, import_problem}

-- The fields of the body that are read.
pub record ImportRequest : Type 0 where
  pub polygon_url : Option String
  pub contest_id : Option ℤ
  pub problem_index : Option String

pub data Body : Type 0 where
  message : String → Body
  result : Row → Body

pub record Reply : Type 0 where
  pub status : ℕ
  pub body : Body

abbrev pub refuse : ℕ → String → Reply
refuse status text = record { status = status; body = message text }

abbrev pub reply_to : World × Extracted Row → World × Reply
reply_to (w, extracted row) = (w, record { status = 201; body = result row })
reply_to (w, thrown m) = (w, refuse 500 "Internal server error")

-- A field that passes `if (!field)`.
abbrev pub given_url : Option String → Option String
given_url none = none
given_url (some url) = if url == "" then none else some url

abbrev pub given_id : Option ℤ → Option ℤ
given_id (some (pos zero)) = none
given_id id = id

module _ (o : Outside) (problem_id : String) where
  abbrev pub import_given : Option String → Option ℤ → Option String → World → World × Reply
  import_given none contest_id problem_index w = (w, refuse 400 "polygonUrl is required")
  import_given (some url) none problem_index w = (w, refuse 400 "contestId is required")
  import_given (some url) (some contest_id) problem_index w =
      reply_to (import_problem o problem_id url contest_id problem_index w)

  unfoldable pub create_problem_import : ImportRequest → World → World × Reply
  create_problem_import request w =
      import_given (given_url request.polygon_url) (given_id request.contest_id)
        request.problem_index w

  -- `testEndpoint` has no handler for an exception.
  abbrev pub test_reply : World × Extracted Row → World × Extracted Reply
  test_reply (w, extracted row) = (w, extracted (record { status = 201; body = result row }))
  test_reply (w, thrown m) = (w, thrown m)

  unfoldable pub test_endpoint : World → World × Extracted Reply
  test_endpoint w = test_reply (
      import_problem o problem_id "https://polygon.codeforces.com/p0pFH42/kanav67/alice-bob-easy"
        (pos 1) none w)
