-- ===== src/Polygon/Import.antt =====
-- polygon-service/src/services/problem-import.service.ts and s3.service.ts: the import of a problem.
pub mod Keeps
pub mod Settled
pub mod Returned
pub mod Fetched
pub mod Loaded
pub mod Uploads
pub mod Published
use Prim.Native.String.{◌++◌ as ◌<>◌}
use judge_self.Common.{
  String, Bool, true, false, Option, none, some, List, [], ◌∷◌, ◌++◌, map, if◌then◌else◌,
}
use judge_self.Common.Int.{ℤ}
use judge_self.Common.Assoc.{lookup, assign}
use judge_self.Polygon.Xml.{
  Extracted, extracted, thrown, PolygonProblem, ParsedProblemXml, parse_problem_xml,
}
use judge_self.Polygon.TestCases.{Entry, validate_test_cases}
use judge_self.Polygon.Problems.{Row, ProblemRecord, create_problem_record}
use judge_self.Polygon.Disk.{
  Disk, World, Task, give, throw, attempt, read_file, read_dir, change_disk, set_listing, remove,
  ◌>>=◌, ◌>>◌,
}
use judge_self.Polygon.Service.{Polygon, fetch_problem_zip}
use judge_self.Polygon.Statement.{Cheerio, Image, StatementData, extract_problem_statement}
use judge_self.Polygon.Archive.{Item, zip_problem_files}

-- What the import relies on and is not part of this program.
pub record Outside : Type 0 where
  -- `path.join` and `path.basename`
  pub join : String → String → String
  pub basename : String → String
  pub polygon : Polygon
  -- the XML parser
  pub parse_xml : String → Extracted PolygonProblem
  pub cheerio : Cheerio
  pub pack : Disk → List Item → Extracted String
  -- S3 takes an object for the key
  pub accepts : String → Bool
  pub has_contest : ℤ → Bool
  pub now : String
  -- the calls of `fs.mkdir` and `fs.rm` throw
  pub mkdir_fails : Bool
  pub remove_fails : Bool
  pub tmp_base_dir : String

-- The `finally` block, whose own error replaces the outcome.
abbrev pub remove_finally : {A : Type 0} → Bool → String → World × Extracted A → World × Extracted A
remove_finally true work_dir (w, r) = (w, thrown "rm")
remove_finally false work_dir (w, r) = (record w { disk = remove work_dir w.disk }, r)

module _ (o : Outside) where
  abbrev pub put_object : String → String → Task Unit
  put_object key content w = (record w { bucket = assign key content w.bucket }, extracted tt)

  unfoldable pub upload_to_s3 : String → String → Task Unit
  upload_to_s3 file_path key = do
    content ← read_file file_path
    if o.accepts key then put_object key content else throw "PutObject"

  abbrev pub zip_key : String → String
  zip_key problem_id = "problems/" <> (problem_id <> ".zip")

  abbrev pub image_key : String → Image → String
  image_key problem_id img = "images/" <> (problem_id <> ("/" <> img.name))

  unfoldable pub upload_images : String → List Image → Task Unit
  unfolding upload_to_s3
  upload_images problem_id [] = give tt
  upload_images problem_id (img ∷ images) =
      upload_to_s3 img.img_src (image_key problem_id img) >> upload_images problem_id images

  abbrev pub make_dir : Task Unit
  make_dir = if o.mkdir_fails then throw "mkdir" else give tt

  -- `validateTestCases` on the directory of the test set.
  unfoldable pub validate : String → String → Option ℤ → Task Unit
  validate work_dir test_set_name test_count = do
    entries ← read_dir (o.join work_dir test_set_name)
    fixed ← attempt (validate_test_cases o.join work_dir test_set_name test_count entries)
    change_disk (set_listing (o.join work_dir test_set_name) fixed)

  -- `importProblem` up to `validateTestCases`.
  unfoldable pub load_package : String → String → Task (ParsedProblemXml × StatementData)
  unfolding validate
  load_package problem_url work_dir = do
    make_dir
    fetch_problem_zip o.join o.polygon problem_url work_dir true
    xml_content ← read_file (o.join work_dir "problem.xml")
    problem ← attempt (o.parse_xml xml_content)
    parsed_data ← attempt (parse_problem_xml o.basename problem)
    statements_data ← extract_problem_statement o.join o.cheerio work_dir
    validate work_dir parsed_data.tests.test_set_name parsed_data.tests.test_count
    give (parsed_data, statements_data)

  abbrev pub record_of :
      String → ℤ → Option String → ParsedProblemXml → StatementData → ProblemRecord
  record_of problem_id contest_id problem_index parsed statements = record {
    id = problem_id;
    contest_id = contest_id;
    problem_index = problem_index;
    polygon_id = parsed.polygon_url;
    polygon_version = parsed.polygon_revision;
    name = parsed.problem_name;
    statement = statements.statement;
    input_statement = statements.input_statement;
    output_statement = statements.output_statement;
    examples = statements.examples;
    notes = statements.notes;
    images_key = map (image_key problem_id) statements.images;
    tags = parsed.tags;
    memory_limit = parsed.tests.memory_limit;
    time_limit = parsed.tests.time_limit;
    test_count = parsed.tests.test_count;
    input_type = parsed.input_type;
    output_type = parsed.output_type;
    author_name = parsed.author_name;
    has_interactor = parsed.has_interactor;
    interactor_language = parsed.interactor.language;
    checker_language = some parsed.checker.type;
    problem_zip_key = zip_key problem_id;
  }

  abbrev pub inserted : World → Extracted (Row × List Row) → World × Extracted Row
  inserted w (extracted (row, table)) = (record w { problems = table }, extracted row)
  inserted w (thrown m) = (w, thrown m)

  abbrev pub insert_problem : ProblemRecord → Task Row
  insert_problem r w = inserted w (create_problem_record o.has_contest o.now r w.problems)

  -- `importProblem` from `zipProblemFiles` on.
  unfoldable pub store_package :
      String → String → ℤ → Option String → ParsedProblemXml × StatementData → Task Row
  unfolding upload_to_s3 upload_images
  store_package problem_id work_dir contest_id problem_index (parsed, statements) = do
    zip_problem_files o.join o.pack work_dir parsed
    upload_to_s3 (o.join work_dir "problem.zip") (zip_key problem_id)
    upload_images problem_id statements.images
    insert_problem (record_of problem_id contest_id problem_index parsed statements)

  abbrev pub clean_up : {A : Type 0} → String → World × Extracted A → World × Extracted A
  clean_up work_dir p = remove_finally o.remove_fails work_dir p

  -- `importProblem`, for the identifier that `crypto.randomUUID` gives.
  unfoldable pub import_problem : String → String → ℤ → Option String → Task Row
  unfolding load_package store_package
  import_problem problem_id problem_url contest_id problem_index w =
      let work_dir = o.join o.tmp_base_dir problem_id in
      let body =
        load_package problem_url work_dir
        >>= store_package problem_id work_dir contest_id problem_index in
      clean_up work_dir (body w)

  abbrev pub remove_all : String → List Entry → Disk → Disk
  remove_all dir [] d = d
  remove_all dir (e ∷ es) d = remove_all dir es (remove (o.join dir e.name) d)

  unfoldable pub initialize_tmp_dir : Task Unit
  unfolding remove
  initialize_tmp_dir = do
    make_dir
    files ← read_dir o.tmp_base_dir
    if o.remove_fails then throw "rm" else change_disk (remove_all o.tmp_base_dir files)
