-- ===== src/Polygon/Xml.antt =====
-- polygon-service/src/services/polygon/polygon-xml.service.ts: what a parsed problem.xml says of the
-- problem. `parse_int` is `none` where `parseInt` is NaN; `basename` is `path.basename`.
pub mod Parsed
use judge_self.Common.{
  ℕ, String, Bool, true, false, not, Option, none, some, List, [], ◌∷◌, ◌==◌, ◌||◌, find_first,
  keep, map, if◌then◌else◌,
}
use judge_self.Common.Int.{ℤ, pos, leb_ℤ}
use judge_self.Common.Number.{parse_int}

pub record ProblemName : Type 0 where
  pub language : String
  pub value : String

pub record FileReference : Type 0 where
  pub path : String
  pub type : Option String

pub record Testset : Type 0 where
  pub name : String
  pub time_limit : String
  pub memory_limit : String
  pub test_count : String

-- The source of a checker or an interactor, which a file may leave out.
pub record Asset : Type 0 where
  pub source : Option FileReference

-- `PolygonProblem`, with the fields that the extractors read; `resources` and `tags` are what their
-- optional lists hold.
pub record PolygonProblem : Type 0 where
  pub revision : String
  pub url : String
  pub names : List ProblemName
  pub testsets : List Testset
  pub resources : Option (List FileReference)
  pub checker : Option Asset
  pub interactor : Option Asset
  pub tags : Option (List String)

pub record Resource : Type 0 where
  pub name : String
  pub path : String

pub record TestsInfo : Type 0 where
  pub test_set_name : String
  pub time_limit : Option ℤ
  pub memory_limit : Option ℤ
  pub test_count : Option ℤ

pub record CheckerInfo : Type 0 where
  pub path : String
  pub type : String

pub record InteractorInfo : Type 0 where
  pub source_path : Option String
  pub language : Option String

pub record ParsedProblemXml : Type 0 where
  pub polygon_url : String
  pub polygon_revision : Option ℤ
  pub problem_name : String
  pub tests : TestsInfo
  pub checker : CheckerInfo
  pub has_interactor : Bool
  pub interactor : InteractorInfo
  pub resources : List Resource
  pub input_type : String
  pub output_type : String
  pub author_name : String
  pub tags : List String

-- A value, or the message of the error that is thrown.
pub data Extracted (A : Type 0) : Type 0 where
  extracted : A → Extracted A
  thrown : String → Extracted A

abbrev pub and_then : {A B : Type 0} → Extracted A → (A → Extracted B) → Extracted B
and_then (extracted a) k = k a
and_then (thrown message) k = thrown message

abbrev pub or_empty : {A : Type 0} → Option (List A) → List A
or_empty none = []
or_empty (some xs) = xs

-- `find(...)?.value || names[0].value`
abbrev pub name_or : ProblemName → Option ProblemName → String
name_or first none = first.value
name_or first (some n) = if n.value == "" then first.value else n.value

unfoldable pub extract_name : List ProblemName → Extracted String
extract_name [] =
    thrown "No problem name found in the problem. Please ensure the problem has at least one name."
extract_name (first ∷ rest) =
    extracted (name_or first (find_first (λ n. n.language == "english") (first ∷ rest)))

abbrev pub is_skipped : FileReference → Bool
is_skipped f =
    f.path == "files/problem.tex" || f.path == "files/statements.ftl" || f.path == "files/olymp.sty"

unfoldable pub extract_resources : (String → String) → Option (List FileReference) → List Resource
extract_resources basename files =
    map (λ f. record { name = basename f.path; path = f.path })
      (keep (λ f. not (is_skipped f)) (or_empty files))

-- `n <= 0`, which NaN is not
abbrev pub is_at_most_0 : Option ℤ → Bool
is_at_most_0 none = false
is_at_most_0 (some n) = leb_ℤ n (pos 0)

unfoldable pub extract_tests_info : List Testset → Extracted TestsInfo
extract_tests_info [] =
    thrown "No testset found in the problem. Please ensure the problem has at least one testset."
extract_tests_info (t ∷ []) =
    if is_at_most_0 (parse_int t.test_count)
    then thrown "There should be atleast one test in the testset."
    else extracted (record {
      test_set_name = t.name;
      time_limit = parse_int t.time_limit;
      memory_limit = parse_int t.memory_limit;
      test_count = parse_int t.test_count;
    })
extract_tests_info (t ∷ u ∷ rest) =
    thrown
      "Multiple testsets are not supported yet. Please ensure the problem has only one testset."

abbrev pub checker_type : String → Option String → Extracted CheckerInfo
checker_type path none = thrown "Checker language is not defined in problem."
checker_type path (some type) =
    if type == ""
    then thrown "Checker language is not defined in problem."
    else extracted (record { path = path; type = type })

abbrev pub checker_source : Option FileReference → Extracted CheckerInfo
checker_source none = thrown "No checker was found. Please add atleast one checker."
checker_source (some source) =
    if source.path == ""
    then thrown "Checker source not found in problem. Are you sure a checker is provided?"
    else checker_type source.path source.type

unfoldable pub extract_checker_info : Option Asset → Extracted CheckerInfo
extract_checker_info none = thrown "No checker was found. Please add atleast one checker."
extract_checker_info (some checker) = checker_source checker.source

abbrev pub interactor_type : String → Option String → Extracted InteractorInfo
interactor_type path none = thrown "Interactor language is not defined in problem."
interactor_type path (some type) =
    if type == ""
    then thrown "Interactor language is not defined in problem."
    else extracted (record { source_path = some path; language = some type })

abbrev pub interactor_source : Option FileReference → Extracted InteractorInfo
interactor_source none =
    thrown "Interactor source not found in problem. Are you sure an interactor is provided?"
interactor_source (some source) =
    if source.path == ""
    then thrown "Interactor source not found in problem. Are you sure an interactor is provided?"
    else interactor_type source.path source.type

unfoldable pub extract_interactor_info : Option Asset → Extracted InteractorInfo
extract_interactor_info none = extracted (record { source_path = none; language = none })
extract_interactor_info (some interactor) = interactor_source interactor.source

abbrev pub is_present : {A : Type 0} → Option A → Bool
is_present none = false
is_present (some a) = true

module _ (basename : String → String) where
  abbrev pub result_of :
      PolygonProblem → String → TestsInfo → CheckerInfo → InteractorInfo → ParsedProblemXml
  result_of p name tests checker interactor = record {
    polygon_url = p.url;
    polygon_revision = parse_int p.revision;
    problem_name = name;
    tests = tests;
    checker = checker;
    has_interactor = is_present p.interactor;
    interactor = interactor;
    resources = extract_resources basename p.resources;
    input_type = "stdin";
    output_type = "stdout";
    author_name = "";
    tags = or_empty p.tags;
  }

  unfoldable pub parse_problem_xml : PolygonProblem → Extracted ParsedProblemXml
  parse_problem_xml p = and_then (extract_name p.names) (λ name.
      and_then (extract_tests_info p.testsets) (λ tests.
        and_then (extract_checker_info p.checker) (λ checker.
          and_then (extract_interactor_info p.interactor)
            (λ interactor. extracted (result_of p name tests checker interactor)))))
