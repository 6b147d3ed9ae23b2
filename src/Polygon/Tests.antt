-- ===== src/Polygon/Tests.antt =====
-- A run of the reader of problem.xml.
use Prim.Native.String.{◌++◌ as ◌<>◌}
use judge_self.Common.{
  ℕ, String, ◌≡◌, ◌↔◌, refl, true, false, none, some, List, [], ◌∷◌, ◌==◌, any, if◌then◌else◌,
}
use judge_self.Common.Int.{pos}
use judge_self.Common.Assoc.{lookup, assign}
use judge_self.Common.Decimal.{to_string, digits, digit, zeros}
use judge_self.Polygon.Xml.{
  Extracted, extracted, thrown, FileReference, PolygonProblem, extract_resources, parse_problem_xml,
  extract_name, extract_tests_info, extract_checker_info, extract_interactor_info,
}
use judge_self.Polygon.TestCases.{
  Kind, Entry, validate_test_cases, check_entries, check_files, check_names, fix_all, rename,
  strip_zeros, file_name,
}
use mathlib.Core.List.Perm
use judge_self.Polygon.TestCases.Names.{expected}
use judge_self.Polygon.TestCases.Accepted.{tidied, validate_test_cases-tidied}
use judge_self.Polygon.TestCases.Complete.{IsComplete, validate_test_cases-IsComplete}
use judge_self.Polygon.Problems.{
  Row, ProblemRecord, has_id, stored_row, create_problem_record, get_problem_by_id,
}
use judge_self.Polygon.Problems.RoundTrip.{IsRowOf, create_problem_record-get_problem_by_id}
use judge_self.Polygon.Disk.{Disk, World, ◌>>=◌, on_disk, change_disk, read_file, read_dir}
use judge_self.Polygon.Service.{Answer, fetch_problem_zip}
use judge_self.Polygon.Import.{
  Outside, import_problem, load_package, store_package, upload_to_s3, upload_images, validate,
}
use judge_self.Polygon.Controller.{ImportRequest, create_problem_import}
use judge_self.Polygon.Controller.Answers.{Answers, create_problem_import-Answers}
use judge_self.Polygon.Statement.{extract_problem_statement}
use judge_self.Polygon.Archive.{zip_problem_files}
use judge_self.Common.Number.{parse_int, trim_start, trim_end}
use judge_self.Polygon.Import.Settled.{HasRow, IsClean, import_problem-HasRow}
use judge_self.Polygon.Import.Published.{IsPublished, import_problem-IsPublished}
use judge_self.Polygon.Xml.Parsed.{Returns, IsImportable, parse_problem_xml-Returns}

abbrev last_part : String → String
last_part path = path

abbrev file : String → FileReference
file path = record { path = path; type = some "cpp.g++17" }

abbrev sum_problem : PolygonProblem
sum_problem = record {
  revision = "3";
  url = "https://polygon/a";
  names = record { language = "english"; value = "Sum" } ∷ [];
  testsets =
      record { name = "tests"; time_limit = "1000"; memory_limit = "268435456"; test_count = "12" }
      ∷ [];
  resources = some (file "files/olymp.sty" ∷ file "files/testlib.h" ∷ []);
  checker = some (record { source = some (file "files/check.cpp") });
  interactor = none;
  tags = none;
}

kept_resources :
    extract_resources last_part sum_problem.resources
    ≡ record { name = "files/testlib.h"; path = "files/testlib.h" } ∷ []
unfolding extract_resources
kept_resources = refl

parse_problem_xml-Returns_example :
    Returns (parse_problem_xml last_part sum_problem) ↔ IsImportable sum_problem
parse_problem_xml-Returns_example = parse_problem_xml-Returns last_part sum_problem

abbrev one_test : List Entry
one_test =
    record { name = "01.a"; kind = Kind.file; content = "3" }
    ∷ record { name = "01"; kind = Kind.file; content = "1 2" }
    ∷ []

abbrev one_test_fixed : List Entry
one_test_fixed =
    record { name = "1.a"; kind = Kind.file; content = "3" }
    ∷ record { name = "1"; kind = Kind.file; content = "1 2" }
    ∷ []

abbrev join : String → String → String
join dir path = dir <> ("/" <> path)

-- A package for Linux with one test and one image.
abbrev one_test_problem : PolygonProblem
one_test_problem = record sum_problem {
  testsets =
      record { name = "tests"; time_limit = "1000"; memory_limit = "268435456"; test_count = "1" }
      ∷ [];
}

abbrev unpacked : String → Disk → Disk
unpacked dir d = record d {
  files =
      (join dir "problem.xml", "<problem/>")
      ∷ (join (join dir "statements/.html/english") "problem.html", " a + b ")
      ∷ (join (join dir "statements/.html/english") "a.png", "png")
      ∷ d.files;
  listings = (join dir "tests", one_test) ∷ d.listings;
}

abbrev outside : Outside
outside = record {
  join = join;
  basename = last_part;
  polygon = record {
    post = λ url type. if type == "linux" then Answer.body "zip" else Answer.refused "Not Found";
    post_xml = λ url. Answer.refused "Not Found";
    unzip = λ path dir d. some (unpacked dir d);
    exec = λ command dir d. none;
    allow_generate_tests = true;
  };
  parse_xml = λ text. extracted one_test_problem;
  cheerio = record {
    select = λ html selector. some html;
    sources = λ html selector. "a.png" ∷ "b.png" ∷ [];
  };
  pack = λ d items. extracted "archive";
  accepts = λ key. true;
  has_contest = λ id. true;
  now = "now";
  mkdir_fails = false;
  remove_fails = false;
  tmp_base_dir = "tmp";
}

abbrev empty_world : World
empty_world = record {
  disk = record { files = ("etc/passwd", "root") ∷ []; listings = []; executable = [] };
  bucket = [];
  problems = [];
}

validate_test_cases-IsComplete_example :
    (n : ℕ) × (some (pos 1) ≡ some (pos n)) × IsComplete n one_test_fixed
unfolding validate_test_cases check_entries check_files check_names fix_all rename strip_zeros
    file_name to_string digits digit zeros
validate_test_cases-IsComplete_example =
    validate_test_cases-IsComplete join "tmp/p" "tests" (some (pos 1)) one_test one_test_fixed refl

validate_test_cases-tidied_example :
    validate_test_cases join "tmp/p" "tests" (some (pos 1)) one_test ≡ extracted (tidied 1 one_test)
unfolding expected file_name to_string digits digit zeros strip_zeros
validate_test_cases-tidied_example =
    validate_test_cases-tidied join "tmp/p" "tests" 1 one_test (refl, (refl, tt))
      (Perm.swap "1" "1.a" [])

abbrev problem_record : ProblemRecord
problem_record = record {
  id = "p";
  contest_id = pos 1;
  problem_index = none;
  polygon_id = "https://polygon/a";
  polygon_version = some (pos 3);
  name = "Sum";
  statement = "a + b";
  input_statement = "";
  output_statement = "";
  examples = "";
  notes = "";
  images_key = "images/p/a.png" ∷ [];
  tags = [];
  memory_limit = some (pos 256);
  time_limit = some (pos 1000);
  test_count = some (pos 1);
  input_type = "stdin";
  output_type = "stdout";
  author_name = "";
  has_interactor = false;
  interactor_language = none;
  checker_language = some "cpp.g++17";
  problem_zip_key = "problems/p.zip";
}

abbrev other_row : Row
other_row = stored_row "then" (record problem_record { id = "q" })

abbrev new_row : Row
new_row = stored_row "now" problem_record

create_problem_record-get_problem_by_id_example :
    IsRowOf problem_record new_row
    × (any (has_id "p") (other_row ∷ []) ≡ false)
    × (get_problem_by_id "q" (other_row ∷ new_row ∷ [])
        ≡ (if "p" == "q" then some new_row else get_problem_by_id "q" (other_row ∷ [])))
unfolding create_problem_record lookup
create_problem_record-get_problem_by_id_example =
    create_problem_record-get_problem_by_id (λ id. true) "now" problem_record (other_row ∷ [])
      (other_row ∷ new_row ∷ []) new_row "q" refl

abbrev outcome : World × Extracted Row
outcome = import_problem outside "p" "https://polygon/a" (pos 1) none empty_world

import_problem-HasRow_example : HasRow empty_world outcome × IsClean "tmp/p" outcome.0.disk
import_problem-HasRow_example =
    import_problem-HasRow outside "p" "https://polygon/a" (pos 1) none empty_world refl

abbrev row_or_none : Extracted Row → Row
row_or_none (extracted row) = row
row_or_none (thrown m) = []

import_problem-IsPublished_example :
    IsPublished outside "p" "https://polygon/a"
      (pos 1)
      none
      empty_world
      (row_or_none outcome.1)
      outcome.0
unfolding import_problem load_package store_package upload_to_s3 upload_images validate
    zip_problem_files fetch_problem_zip extract_problem_statement ◌>>=◌ on_disk change_disk
    read_file read_dir lookup assign parse_problem_xml extract_name extract_tests_info
    extract_checker_info extract_interactor_info parse_int trim_start trim_end validate_test_cases
    check_entries check_files check_names fix_all rename strip_zeros file_name to_string digits
    digit zeros create_problem_record
import_problem-IsPublished_example =
    import_problem-IsPublished outside "p" "https://polygon/a" (pos 1) none empty_world outcome.0
      (row_or_none outcome.1) refl

abbrev request : ImportRequest
request = record {
  polygon_url = some "https://polygon/a";
  contest_id = some (pos 1);
  problem_index = none;
}

create_problem_import-Answers_example :
    Answers empty_world (create_problem_import outside "p" request empty_world)
create_problem_import-Answers_example =
    create_problem_import-Answers outside "p" request empty_world refl
