-- ===== src/Polygon/Archive.antt =====
-- polygon-service/src/services/archive.service.ts: what is put into the archive of a problem. `pack` is the
-- archiver: the archive's bytes, or its error or warning.
use Prim.Native.String.{◌++◌ as ◌<>◌}
use judge_self.Common.{
  String, Bool, true, Option, some, List, [], ◌∷◌, ◌++◌, ◌==◌, map, if◌then◌else◌,
}
use judge_self.Polygon.Xml.{Extracted, ParsedProblemXml}
use judge_self.Polygon.Disk.{Disk, Task, attempt, change_disk, write_file, ◌>>=◌}

-- The calls of the archiver: a file or a directory with its name in the archive, or an empty directory.
pub data Item : Type 0 where
  file : String → String → Item
  directory : String → String → Item
  empty_directory : String → Item

-- `passedData.hasInteractor && passedData.interactorSourcePath`
abbrev pub interactor_items : (String → String) → Bool → Option String → List Item
interactor_items at true (some path) = if path == "" then [] else file (at path) "interactor" ∷ []
interactor_items at _ _ = []

module _ (join : String → String → String) where
  unfoldable pub archive_items : String → ParsedProblemXml → List Item
  archive_items work_dir data_ =
      file (join work_dir data_.checker.path) "checker"
        ∷ interactor_items (join work_dir) data_.has_interactor data_.interactor.source_path
      ++ directory (join work_dir data_.tests.test_set_name) "tests"
        ∷ empty_directory "resources/"
        ∷ map (λ r. file (join work_dir r.path) ("resources/" <> r.name)) data_.resources

  unfoldable pub zip_problem_files :
      (Disk → List Item → Extracted String) → String → ParsedProblemXml → Task Unit
  unfolding archive_items
  zip_problem_files pack work_dir data_ = do
    archive ← λ w. attempt (pack w.disk (archive_items work_dir data_)) w
    change_disk (write_file (join work_dir "problem.zip") archive)
