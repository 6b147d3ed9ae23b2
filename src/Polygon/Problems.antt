-- ===== src/Polygon/Problems.antt =====
-- polygon-service/src/repositories/problems.repository.ts: the table of the problems, with the rows as
-- what is sent for each column. The identifiers that are looked up are UUIDs, as the casts demand.
pub mod RoundTrip
use judge_self.Common.{
  ℕ, String, Bool, true, false, not, Option, none, some, List, [], ◌∷◌, ◌++◌, ◌==◌, ◌&&◌, ◌||◌, any,
  find_first, if◌then◌else◌,
}
use judge_self.Common.Int.{ℤ, pos, leb_ℤ}
use judge_self.Common.Assoc.{Assoc, lookup}
use judge_self.Polygon.Xml.{Extracted, extracted, thrown}

pub data Value : Type 0 where
  null : Value
  text : String → Value
  number : ℤ → Value
  not_a_number : Value
  boolean : Bool → Value
  texts : List String → Value

-- The values by the names of their columns.
abbrev pub Row : Type 0
Row = Assoc Value

pub record ProblemRecord : Type 0 where
  pub id : String
  pub contest_id : ℤ
  -- as the text that a number is sent as
  pub problem_index : Option String
  pub polygon_id : String
  pub polygon_version : Option ℤ
  pub name : String
  pub statement : String
  pub input_statement : String
  pub output_statement : String
  pub examples : String
  pub notes : String
  pub images_key : List String
  pub tags : List String
  pub memory_limit : Option ℤ
  pub time_limit : Option ℤ
  pub test_count : Option ℤ
  pub input_type : String
  pub output_type : String
  pub author_name : String
  pub has_interactor : Bool
  pub interactor_language : Option String
  pub checker_language : Option String
  pub problem_zip_key : String

abbrev pub text_or_null : Option String → Value
text_or_null none = null
text_or_null (some s) = text s

abbrev pub number_or_nan : Option ℤ → Value
number_or_nan none = not_a_number
number_or_nan (some n) = number n

-- The columns of the INSERT statement, in its order.
abbrev pub columns : List String
columns =
    "id" ∷ "contest_id" ∷ "problem_index" ∷ "polygon_id" ∷ "polygon_version" ∷ "name" ∷ "statement"
    ∷ "input_statement" ∷ "output_statement" ∷ "examples" ∷ "notes" ∷ "images_key" ∷ "tags"
    ∷ "memory_limit" ∷ "time_limit" ∷ "test_count" ∷ "input_type" ∷ "output_type" ∷ "author_name"
    ∷ "has_interactor" ∷ "interactor_language" ∷ "checker_language" ∷ "problem_zip_key" ∷ []

-- Its parameters, in their order.
abbrev pub values : ProblemRecord → List Value
values r =
    text r.id
    ∷ number r.contest_id
    ∷ text_or_null r.problem_index
    ∷ text r.polygon_id
    ∷ number_or_nan r.polygon_version
    ∷ text r.name
    ∷ text r.statement
    ∷ text r.input_statement
    ∷ text r.output_statement
    ∷ text r.examples
    ∷ text r.notes
    ∷ texts r.images_key
    ∷ texts r.tags
    ∷ number_or_nan r.memory_limit
    ∷ number_or_nan r.time_limit
    ∷ number_or_nan r.test_count
    ∷ text r.input_type
    ∷ text r.output_type
    ∷ text r.author_name
    ∷ boolean r.has_interactor
    ∷ text_or_null r.interactor_language
    ∷ text_or_null r.checker_language
    ∷ text r.problem_zip_key
    ∷ []

abbrev pub row_of : List String → List Value → Row
row_of (c ∷ cs) (v ∷ vs) = (c, v) ∷ row_of cs vs
row_of _ _ = []

-- The columns that may be null.
abbrev may_be_null : String → Bool
may_be_null c = c == "problem_index" || c == "interactor_language"

-- A value that the column does not take.
abbrev pub is_refused : String × Value → Bool
is_refused (c, null) = not (may_be_null c)
is_refused (c, not_a_number) = true
is_refused (c, _) = false

abbrev same_text : Option Value → Option Value → Bool
same_text (some (text s)) (some (text t)) = s == t
same_text _ _ = false

abbrev same_number : Option Value → Option Value → Bool
same_number (some (number m)) (some (number n)) = leb_ℤ m n && leb_ℤ n m
same_number _ _ = false

abbrev pub has_id : String → Row → Bool
has_id id row = same_text (lookup "id" row) (some (text id))

-- The primary key, and the index on the contest and the index in it.
abbrev pub collides : Row → Row → Bool
collides new row =
    same_text (lookup "id" row) (lookup "id" new)
    || (same_number (lookup "contest_id" row) (lookup "contest_id" new)
        && same_text (lookup "problem_index" row) (lookup "problem_index" new))

-- The two timestamps get the time of the insertion.
abbrev pub stored_row : String → ProblemRecord → Row
stored_row now r =
    row_of columns (values r) ++ ("created_at", text now) ∷ ("updated_at", text now) ∷ []

-- The table after the statement, and the row that it returns. `has_contest` says which contests there are.
unfoldable pub create_problem_record :
    (ℤ → Bool) → String → ProblemRecord → List Row → Extracted (Row × List Row)
unfolding lookup
create_problem_record has_contest now r table =
    if any is_refused (row_of columns (values r))
    then thrown "value"
    else if any (collides (stored_row now r)) table
    then thrown "unique"
    else if has_contest r.contest_id
    then extracted (stored_row now r, table ++ stored_row now r ∷ [])
    else thrown "reference"

unfoldable pub get_problem_by_id : String → List Row → Option Row
unfolding lookup
get_problem_by_id id table = find_first (has_id id) table

unfoldable pub get_problem_by_name : String → List Row → Option Row
unfolding lookup
get_problem_by_name name table =
    find_first (λ row. same_text (lookup "name" row) (some (text name))) table
