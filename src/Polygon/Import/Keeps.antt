-- ===== src/Polygon/Import/Keeps.antt =====
-- Which calls of importProblem leave the table of the problems as it is.
use judge_self.Common.{
  String, ◌≡◌, refl, ◌∙◌, Bool, true, false, not, ◌&&◌, Option, none, some, List, [], ◌∷◌,
  if◌then◌else◌,
}
use judge_self.Common.Int.{ℤ}
use judge_self.Polygon.Xml.{Extracted, extracted, thrown, ParsedProblemXml}
use judge_self.Polygon.Disk.{
  Disk, World, Task, give, throw, attempt, found, on_disk, put_disk, read_file, read_dir,
  change_disk, ◌>>=◌, continue,
}
use judge_self.Polygon.Service.{
  Answer, refused, no_body, body, fetch_problem_zip, generate_test_cases, receive, type_of,
}
use judge_self.Polygon.Statement.{Image, extract_problem_statement}
use judge_self.Polygon.Archive.{zip_problem_files}
use judge_self.Polygon.Import.{Outside, upload_to_s3, upload_images, validate, load_package}

-- The call leaves the table of the problems as it is, whether it returns or throws.
pub record Keeps {A : Type 0} (m : Task A) : Type 0 where
  pub same : (w : World) → (m w).0.problems ≡ w.problems

continue-Keeps :
    {A B : Type 0} (p : World × Extracted A) (k : A → Task B)
    → ((a : A) → Keeps (k a))
    → (continue p k).0.problems ≡ p.0.problems
continue-Keeps (w, extracted a) k h = (h a).same w
continue-Keeps (w, thrown m) k h = refl

bind-Keeps :
    {A B : Type 0} {m : Task A} {k : A → Task B}
    → Keeps m
    → ((a : A) → Keeps (k a))
    → Keeps (m >>= k)
unfolding ◌>>=◌
bind-Keeps {m = m} {k = k} hm hk = record { same = λ w. continue-Keeps (m w) k hk ∙ hm.same w }

give-Keeps : {A : Type 0} {a : A} → Keeps (give a)
give-Keeps = record { same = λ w. refl }

throw-Keeps : {A : Type 0} {m : String} → Keeps (throw {A = A} m)
throw-Keeps = record { same = λ w. refl }

attempt-Keeps : {A : Type 0} {r : Extracted A} → Keeps (attempt r)
attempt-Keeps = record { same = λ w. refl }

change_disk-Keeps : (f : Disk → Disk) → Keeps (change_disk f)
unfolding change_disk
change_disk-Keeps f = record { same = λ w. refl }

found-same :
    {A : Type 0} (m : String) (a : Option A) (w : World) → (found m a w).0.problems ≡ w.problems
found-same m none w = refl
found-same m (some a) w = refl

put_disk-same :
    (m : String) (d : Option Disk) (w : World) → (put_disk m d w).0.problems ≡ w.problems
put_disk-same m none w = refl
put_disk-same m (some d) w = refl

on_disk-Keeps : (m : String) (f : Disk → Option Disk) → Keeps (on_disk m f)
unfolding on_disk
on_disk-Keeps m f = record { same = λ w. put_disk-same m (f w.disk) w }

read_file-Keeps : (path : String) → Keeps (read_file path)
unfolding read_file
read_file-Keeps path = record { same = λ w. found-same _ _ w }

read_dir-Keeps : (dir : String) → Keeps (read_dir dir)
unfolding read_dir
read_dir-Keeps dir = record { same = λ w. found-same _ _ w }

either-Keeps :
    {A : Type 0} (b : Bool) {m n : Task A} → Keeps m → Keeps n → Keeps (if b then m else n)
either-Keeps true hm hn = hm
either-Keeps false hm hn = hn

module _ (o : Outside) where
  generate_test_cases-Keeps :
      (work_dir : String) → Keeps (generate_test_cases o.join o.polygon work_dir)
  unfolding generate_test_cases
  generate_test_cases-Keeps work_dir = bind-Keeps (on_disk-Keeps _ _) (λ _.
      bind-Keeps (read_dir-Keeps _)
        (λ _. bind-Keeps (change_disk-Keeps _) (λ _. on_disk-Keeps _ _)))

  receive-Keeps :
      (work_dir : String) (is_linux : Bool) (answer : Answer) (otherwise : String → Task Unit)
      → ((status : String) → Keeps (otherwise status))
      → Keeps (receive o.join o.polygon work_dir is_linux answer otherwise)
  receive-Keeps work_dir is_linux (refused status) otherwise h = h status
  receive-Keeps work_dir is_linux no_body otherwise h = throw-Keeps
  receive-Keeps work_dir is_linux (body content) otherwise h =
      bind-Keeps (change_disk-Keeps _) (λ _. bind-Keeps (on_disk-Keeps _ _) (λ _.
        either-Keeps (not is_linux && o.polygon.allow_generate_tests)
          (generate_test_cases-Keeps work_dir) give-Keeps))

  fetch_problem_zip-Keeps :
      (problem_url work_dir : String)
      → Keeps (fetch_problem_zip o.join o.polygon problem_url work_dir true)
  unfolding fetch_problem_zip
  fetch_problem_zip-Keeps problem_url work_dir =
      receive-Keeps work_dir true (o.polygon.post problem_url (type_of true)) _ (λ status.
        either-Keeps o.polygon.allow_generate_tests
          (receive-Keeps work_dir false (o.polygon.post problem_url (type_of false)) _
            (λ m. throw-Keeps))
          throw-Keeps)

  extract-Keeps : (work_dir : String) → Keeps (extract_problem_statement o.join o.cheerio work_dir)
  unfolding extract_problem_statement
  extract-Keeps work_dir = bind-Keeps (read_file-Keeps _) (λ _. record { same = λ w. refl })

  validate-Keeps :
      (work_dir set : String) (count : Option ℤ) → Keeps (validate o work_dir set count)
  unfolding validate
  validate-Keeps work_dir set count =
      bind-Keeps (read_dir-Keeps _) (λ _. bind-Keeps attempt-Keeps (λ _. (change_disk-Keeps _)))

  pub load_package-Keeps :
      (problem_url work_dir : String) → Keeps (load_package o problem_url work_dir)
  unfolding load_package
  load_package-Keeps problem_url work_dir =
      bind-Keeps (either-Keeps o.mkdir_fails throw-Keeps give-Keeps) (λ _.
        bind-Keeps (fetch_problem_zip-Keeps problem_url work_dir) (λ _.
          bind-Keeps (read_file-Keeps _) (λ _. bind-Keeps attempt-Keeps (λ _.
            bind-Keeps attempt-Keeps (λ _.
              bind-Keeps (extract-Keeps work_dir)
                (λ _. bind-Keeps (validate-Keeps work_dir _ _) (λ _. give-Keeps)))))))

  pub zip-Keeps :
      (work_dir : String) (parsed : ParsedProblemXml)
      → Keeps (zip_problem_files o.join o.pack work_dir parsed)
  unfolding zip_problem_files
  zip-Keeps work_dir parsed = bind-Keeps (record { same = λ w. refl }) (λ _. (change_disk-Keeps _))

  pub upload-Keeps : (path key : String) → Keeps (upload_to_s3 o path key)
  unfolding upload_to_s3
  upload-Keeps path key =
      bind-Keeps (read_file-Keeps _)
        (λ content. either-Keeps (o.accepts key) (record { same = λ w. refl }) throw-Keeps)

  pub upload_images-Keeps :
      (problem_id : String) (images : List Image) → Keeps (upload_images o problem_id images)
  unfolding upload_images
  upload_images-Keeps problem_id [] = give-Keeps
  upload_images-Keeps problem_id (img ∷ images) =
      bind-Keeps (upload-Keeps _ _) (λ _. upload_images-Keeps problem_id images)
