-- ===== src/Polygon/Service.antt =====
-- polygon-service/src/services/polygon/polygon.service.ts, with generateTestCases of polygon-tests.service.ts
-- and unzipFile of services/archive.service.ts. What Polygon answers to a request, `unzipper` and the
-- commands that are executed are parameters.
use Prim.Native.String.{◌++◌ as ◌<>◌}
use judge_self.Common.{
  String, Bool, true, false, Option, List, ◌++◌, ◌==◌, ◌||◌, keep, map, not, ◌&&◌, if◌then◌else◌,
}
use judge_self.Polygon.Xml.{Extracted, extracted, thrown}
use judge_self.Polygon.TestCases.{Entry}
use judge_self.Polygon.Disk.{
  Disk, Task, give, throw, ◌>>=◌, ◌>>◌, on_disk, change_disk, read_dir, write_file,
}

-- The answer to a request: a status that is not `ok`, no body, or the content of a package.
pub data Answer : Type 0 where
  refused : String → Answer
  no_body : Answer
  body : String → Answer

pub record Polygon : Type 0 where
  -- the requests for a package and for its problem.xml: the address, and the `type` of the package
  pub post : String → String → Answer
  pub post_xml : String → Answer
  pub unzip : String → String → Disk → Option Disk
  -- a command in a directory
  pub exec : String → String → Disk → Option Disk
  pub allow_generate_tests : Bool

-- `s.endsWith(t)`
unfoldable pub ends_with : String → String → Bool
ends_with String.[] t = String.[] == t
ends_with (String.◌∷◌ c s) t = let rest = ends_with s t in String.◌∷◌ c s == t || rest

-- `s.slice(0, -1)`
unfoldable pub without_last : String → String
without_last String.[] = String.[]
without_last (String.◌∷◌ c s) =
    let rest = without_last s in if s == "" then "" else String.◌∷◌ c rest

-- `fs.chmod` with 0o755 of those scripts whose names end in .sh
abbrev pub set_executable : (String → String → String) → String → List Entry → Disk → Disk
set_executable join dir entries d = record d {
  executable =
      map (λ e. join dir e.name) (keep (λ e. ends_with e.name ".sh") entries) ++ d.executable;
}

abbrev pub type_of : Bool → String
type_of true = "linux"
type_of false = ""

module _ (join : String → String → String) (polygon : Polygon) where
  unfoldable pub generate_test_cases : String → Task Unit
  unfolding ends_with
  generate_test_cases work_dir = do
    on_disk "Wine is required to generate testcases but it is not installed."
        (polygon.exec "wine --version" "")
    entries ← read_dir (join work_dir "scripts")
    change_disk (set_executable join (join work_dir "scripts") entries)
    on_disk "Testcase generation failed" (polygon.exec "bash doall.sh" work_dir)

  abbrev pub unzip_file : String → String → Task Unit
  unzip_file zip_file_path output_directory =
      on_disk ("Failed to unzip file " <> (zip_file_path <> (" to " <> output_directory)))
        (polygon.unzip zip_file_path output_directory)

  -- What is done with an answer for a package of that type.
  abbrev pub receive : String → Bool → Answer → (String → Task Unit) → Task Unit
  receive work_dir is_linux (refused status) otherwise = otherwise status
  receive work_dir is_linux no_body otherwise =
      throw "Failed to fetch problem from Polygon: Response body is null"
  receive work_dir is_linux (body content) otherwise = do
    change_disk (write_file (join work_dir "package.zip") content)
    unzip_file (join work_dir "package.zip") work_dir
    if not is_linux && polygon.allow_generate_tests then generate_test_cases work_dir else give tt

  abbrev pub fetch_refused : String → Task Unit
  fetch_refused status = throw ("Failed to fetch problem from Polygon: " <> status)

  -- The package for Linux is asked for first, and the other one if that is refused and tests may be generated.
  unfoldable pub fetch_problem_zip : String → String → Bool → Task Unit
  unfolding generate_test_cases
  fetch_problem_zip problem_url work_dir false =
      receive work_dir false (polygon.post problem_url (type_of false)) fetch_refused
  fetch_problem_zip problem_url work_dir true =
      receive work_dir true (polygon.post problem_url (type_of true)) (λ status.
        if polygon.allow_generate_tests
        then receive work_dir false (polygon.post problem_url (type_of false)) fetch_refused
        else fetch_refused status)

  abbrev pub xml_of : Answer → Extracted String
  xml_of (refused status) = thrown ("Failed to fetch problem XML from Polygon: " <> status)
  xml_of no_body = extracted ""
  xml_of (body content) = extracted content

  unfoldable pub fetch_problem_xml : String → Extracted String
  unfolding ends_with without_last
  fetch_problem_xml problem_url =
      let url = if ends_with problem_url "/" then without_last problem_url else problem_url in
      xml_of (polygon.post_xml (url <> "/problem.xml"))
