-- ===== src/Polygon/Controller/Answers.antt =====
-- What the answers to requests for an import say of the table (polygon-service/src/http/controller.ts).
use judge_self.Common.{ℕ, String, ◌≡◌, ◌≢◌, refl, false, Option, none, some, [], ◌∷◌, ◌++◌, arith}
use judge_self.Common.Int.{ℤ}
use judge_self.Polygon.Xml.{Extracted, extracted, thrown}
use judge_self.Polygon.Problems.{Row}
use judge_self.Polygon.Disk.{World}
use judge_self.Polygon.Import.{Outside, import_problem}
use judge_self.Polygon.Import.Settled.{HasRow, import_problem-HasRow}
use judge_self.Polygon.Controller.{
  ImportRequest, Body, message, result, Reply, reply_to, given_url, given_id, import_given,
  create_problem_import,
}

-- A row is answered with the status 201, and is the one row that the table got; a message is answered with
-- another status, and the table is as it was.
abbrev pub Answers : World → World × Reply → Type 0
Answers w (w', reply) = Says reply.status reply.body
  where
    Says : ℕ → Body → Type 0
    Says status (result row) = (status ≡ 201) × (w'.problems ≡ w.problems ++ row ∷ [])
    Says status (message text) = (status ≢ 201) × (w'.problems ≡ w.problems)

reply_to-Answers : (w : World) (p : World × Extracted Row) → HasRow w p → Answers w (reply_to p)
reply_to-Answers w (w', extracted row) h = (refl, h)
reply_to-Answers w (w', thrown m) h = ((λ e. omega (arith, e)), h)

import_given-Answers :
    (o : Outside) (problem_id : String) (url : Option String) (contest_id : Option ℤ)
    (problem_index : Option String) (w : World)
    → o.remove_fails ≡ false
    → Answers w (import_given o problem_id url contest_id problem_index w)
import_given-Answers o problem_id none contest_id problem_index w e =
    ((λ h. omega (arith, h)), refl)
import_given-Answers o problem_id (some url) none problem_index w e =
    ((λ h. omega (arith, h)), refl)
import_given-Answers o problem_id (some url) (some contest_id) problem_index w e =
    reply_to-Answers w (import_problem o problem_id url contest_id problem_index w)
      (import_problem-HasRow o problem_id url contest_id problem_index w e).0

-- If the working directory can be removed, the answer to every request for an import tells what became of the
-- table of the problems: with the status 201 it holds the row that is answered, which
-- is the one row that the table got, and with any other status the table is as it was.
pub create_problem_import-Answers :
    (o : Outside) (problem_id : String) (request : ImportRequest) (w : World)
    → o.remove_fails ≡ false
    → Answers w (create_problem_import o problem_id request w)
unfolding create_problem_import
create_problem_import-Answers o problem_id request w e =
    import_given-Answers o problem_id (given_url request.polygon_url) (given_id request.contest_id)
      request.problem_index w e
