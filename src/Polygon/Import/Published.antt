-- ===== src/Polygon/Import/Published.antt =====
-- What is in the bucket and in the table when importProblem returns (services/problem-import.service.ts).
use judge_self.Common.{
  String, ◌≡◌, sym, ap, ◌∙◌, Bool, true, false, Option, some, List, [], ◌∷◌, All, map,
}
use judge_self.Common.Int.{ℤ}
use judge_self.Common.Assoc.{lookup}
use judge_self.Polygon.Xml.{Extracted, extracted, ParsedProblemXml}
use judge_self.Polygon.Problems.{text, texts, number_or_nan, Row, stored_row}
use judge_self.Polygon.Problems.RoundTrip.{stored_row-IsRowOf}
use judge_self.Polygon.Disk.{World}
use judge_self.Polygon.Statement.{Image, StatementData}
use judge_self.Polygon.Archive.{archive_items, zip_problem_files}
use judge_self.Polygon.Import.{
  Outside, zip_key, image_key, upload_to_s3, upload_images, load_package, record_of, store_package,
  clean_up, remove_finally, import_problem,
}
use judge_self.Polygon.Import.Returned.{
  Returns, thrown-ne-extracted, bind-returned, lookup-assign_self,
}
use judge_self.Polygon.Import.Loaded.{IsLoaded, load_package-IsLoaded}
use judge_self.Polygon.Import.Uploads.{
  HasObject, upload-returned, upload_images-Grows, upload_images-zip, zip-returned, insert-returned,
}

module _ (o : Outside) (problem_id problem_url : String) (contest_id : ℤ)
    (problem_index : Option String) where
  abbrev work_dir : String
  work_dir = o.join o.tmp_base_dir problem_id

  -- The row is that of the description and the statement that the package at the address has, and the
  -- bucket has the archive and the images that the row names. The archive was packed from the fetched package
  -- when the directory with the tests held just the files of as many tests as the row counts.
  pub record IsPublished (w : World) (row : Row) (w' : World) : Type 0 where
    parsed : ParsedProblemXml
    statements : StatementData
    packed : World
    archive : String
    is_row :
        row ≡ stored_row o.now (record_of o problem_id contest_id problem_index parsed statements)
    is_loaded : IsLoaded o problem_url work_dir w parsed statements packed
    is_archive : o.pack packed.disk (archive_items o.join work_dir parsed) ≡ extracted archive
    zip : String
    names_archive : lookup "problem_zip_key" row ≡ some (text zip)
    has_archive : lookup zip w'.bucket ≡ some archive
    images : List String
    names_images : lookup "images_key" row ≡ some (texts images)
    has_images : All (λ key. HasObject o key w') images
    counts_tests : lookup "test_count" row ≡ some (number_or_nan parsed.tests.test_count)

  IsPublished-of_bucket :
      (before : World) (row : Row) (w w' : World)
      → w'.bucket ≡ w.bucket
      → IsPublished before row w
      → IsPublished before row w'
  IsPublished-of_bucket before row w w' e h = record {
    parsed = h.parsed;
    statements = h.statements;
    packed = h.packed;
    archive = h.archive;
    is_row = h.is_row;
    is_loaded = h.is_loaded;
    is_archive = h.is_archive;
    zip = h.zip;
    names_archive = h.names_archive;
    has_archive = ap (lookup h.zip) e ∙ h.has_archive;
    images = h.images;
    names_images = h.names_images;
    has_images = objects h.images h.has_images;
    counts_tests = h.counts_tests;
  }
    where
      objects :
          (keys : List String)
          → All (λ key. HasObject o key w) keys
          → All (λ key. HasObject o key w') keys
      objects [] hs = tt
      objects (key ∷ keys) (g, hs) = ((g.0, ap (lookup key) e ∙ g.1), objects keys hs)

  All-map :
      (P : String → Type 0) (f : Image → String) (images : List Image)
      → All (λ img. P (f img)) images
      → All P (map f images)
  All-map P f [] hs = tt
  All-map P f (img ∷ images) (h, hs) = (h, All-map P f images hs)

  some-inj : {a b : String} → some a ≡ some b → a ≡ b
  some-inj h = cc

  store_package-IsPublished :
      (before : World) (parsed : ParsedProblemXml) (statements : StatementData) (w w' : World)
      (row : Row)
      → IsLoaded o problem_url work_dir before parsed statements w
      → Returns
          (store_package o problem_id work_dir contest_id problem_index (parsed, statements))
          w
          row
          w'
      → IsPublished before row w'
  unfolding store_package
  store_package-IsPublished before parsed statements w w' row loaded h =
      let zip = zip_key o problem_id in
      let path = o.join work_dir "problem.zip" in
      let (v, _, r, g) =
        bind-returned (zip_problem_files o.join o.pack work_dir parsed) _ w w' row h in
      let (archive, is_archive, written) = zip-returned o work_dir parsed w v r in
      let (u, _, r', g') = bind-returned (upload_to_s3 o path zip) _ v w' row g in
      let (content, is_content, same) = upload-returned o path zip v u r' in
      let (t, _, r'', g'') =
        bind-returned (upload_images o problem_id statements.images) _ u w' row g' in
      let (_, images) = upload_images-Grows o problem_id statements.images u t r'' in
      let (is_row, kept) = insert-returned o _ t w' row g'' in
      let columns =
        stored_row-IsRowOf o.now
          (record_of o problem_id contest_id problem_index parsed statements) in
      let content_is : content ≡ archive = some-inj (sym is_content ∙ written) in
      let in_u : lookup zip u.bucket ≡ some archive =
        ap (λ x. lookup zip x.bucket) (sym same)
        ∙ lookup-assign_self zip content v.bucket
        ∙ ap some content_is in
      IsPublished-of_bucket before row t w' kept (record {
        parsed = parsed;
        statements = statements;
        packed = w;
        archive = archive;
        is_row = is_row;
        is_loaded = loaded;
        is_archive = is_archive;
        zip = zip;
        names_archive = ap (lookup "problem_zip_key") is_row ∙ columns.22;
        has_archive = upload_images-zip o problem_id statements.images u t r'' ∙ in_u;
        images = map (image_key o problem_id) statements.images;
        names_images = ap (lookup "images_key") is_row ∙ columns.11;
        has_images =
            All-map (λ key. HasObject o key t) (image_key o problem_id) statements.images images;
        counts_tests = ap (lookup "test_count") is_row ∙ columns.15;
      })

  clean_up-returned :
      (p : World × Extracted Row) (w' : World) (row : Row)
      → clean_up o work_dir p ≡ (w', extracted row)
      → (w : World) × (p ≡ (w, extracted row)) × (w'.bucket ≡ w.bucket)
  clean_up-returned p w' row h = go o.remove_fails p h
    where
      go :
          (b : Bool) (p : World × Extracted Row)
          → remove_finally b work_dir p ≡ (w', extracted row)
          → (w : World) × (p ≡ (w, extracted row)) × (w'.bucket ≡ w.bucket)
      go true (w, r) h = absurd (thrown-ne-extracted (ap (λ p. p.1) h))
      go false (w, r) h = (w, ap (λ x. (w, x)) (ap (λ p. p.1) h), ap (λ p. p.0.bucket) (sym h))

  -- When an import returns a row, it has fetched and unzipped the package at the address, for Linux or, if that was
  -- refused, the other one with generated tests. The row is that of the description parsed from the
  -- package's problem.xml and of the statement in its problem.html. The bucket holds every image that the row
  -- names and, under the row's key, the archive that was packed from the package, of which no more had changed than the listing of the
  -- directory with the tests, which held just the files of as many tests as the row counts, each of them once.
  pub import_problem-IsPublished :
      (w w' : World) (row : Row)
      → Returns (import_problem o problem_id problem_url contest_id problem_index) w row w'
      → IsPublished w row w'
  unfolding import_problem
  import_problem-IsPublished w w' row h =
      let (v, body, kept) = clean_up-returned _ w' row h in
      let (u, (parsed, statements), loaded, stored) =
        bind-returned (load_package o problem_url work_dir) _ w v row body in
      IsPublished-of_bucket w row v w' kept (
        store_package-IsPublished w parsed statements u v row
          (load_package-IsLoaded o problem_url work_dir w u parsed statements loaded) stored)
